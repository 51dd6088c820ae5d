-- ===== src/Lexer/Strings/Spelling.antt =====
-- How a string literal is spelled: the text that `read_string` reads, and the value that it gives.
use djinn_lang_v.Base.{
  true, inl, inr, [], ◌∷◌, ◌++◌, ◌==◌, ◌≡◌, refl, sym, subst, Bytes, arith, Bool-cases, get_or,
  tail, codes,
}
use djinn_lang_v.Lexer.State.{Lexer, peek, advance, make_token_from}
use djinn_lang_v.Lexer.Token.{TokenType, Token}
use djinn_lang_v.Lexer.Cursor.{
  Reads, Reads-one, Reads-trans, Passes, Reads-Passes, Reads-Passes_trans,
}
use djinn_lang_v.Lexer.Cursor.Ahead.{starts_here, starts_three, Reads-three}
use djinn_lang_v.Lexer.Strings.{
  two_quotes_follow, advance3, read_block_on, read_quoted_on, close_quote, read_string,
}
use djinn_lang_v.Lexer.Strings.Spells.{
  Escapes, Ends, read_quoted_on-Spells, Unclosed, BlockEnds, SpellsBlock, read_block_on-SpellsBlock,
}

-- The spelling `w` of a string literal with the value `v`, in front of `rest`. A literal that is
-- not closed runs to the end of the source, or, if it is no block, to a NUL. In a block no three
-- quotes begin before the closing ones.
pub data Quoted (rest : Bytes) : Bytes → Bytes → Type 0 where
  block :
      (v : Bytes)
      → Unclosed v (codes "\"\"\"" ++ rest)
      → Quoted rest (codes "\"\"\"" ++ (v ++ codes "\"\"\"")) v
  open_block : (v : Bytes) → rest ≡ [] → Unclosed v [] → Quoted rest (codes "\"\"\"" ++ v) v
  closed : {b v : Bytes} → Escapes b v → Quoted rest (b'"' ∷ (b ++ b'"' ∷ [])) v
  open_text : {b v : Bytes} → Escapes b v → get_or rest 0 0 ≡ 0 → Quoted rest (b'"' ∷ b) v

-- The literal was read from `s` to `s'`, and its token has the place where it starts.
pub record IsString (s : Lexer) (r : Token × Lexer) : Type 0 where
  pub spelling : Bytes
  pub passes : Passes s spelling r.1
  pub quoted : Quoted r.1.rest spelling r.0.value
  pub is_literal : r.0.type ≡ TokenType.string_literal
  pub line : r.0.position.line ≡ s.line
  pub column : r.0.position.column ≡ s.column

close-Passes :
    (s : Lexer) (b : Bytes) (s' : Lexer)
    → Passes s b s'
    → (peek s' == b'"') ≡ true
    → Passes s (b ++ b'"' ∷ []) (advance s')
close-Passes s b s' p h = elim p.moved [
  | inl m ↦ Reads-Passes (
      Reads-trans b (b'"' ∷ []) (record { splits = p.splits; moved = m })
        (Reads-one s' b'"' (tail s'.rest) (starts_here s' b'"' h refl)))
  | inr over ↦ absurd (nothing s'.rest over h)
]
  where
    nothing : (r : Bytes) → r ≡ [] → (get_or r 0 0 == b'"') ≡ true → ⊥
    nothing [] n e = ground arith
    nothing (x ∷ r) n e = cc

close_quote-Passes :
    (s : Lexer) (b : Bytes) (s' : Lexer) {v : Bytes}
    → Passes s b s'
    → Ends s'.rest
    → Escapes b v
    → (w : Bytes) × Passes s w (close_quote s') × Quoted (close_quote s').rest (b'"' ∷ w) v
close_quote-Passes s b s' p e esc = elim (Bool-cases (peek s' == b'"')) [
  | inr other ↦ (b, rw other p, rw other (open_text esc (ground arith)))
  | inl quote ↦ (b ++ b'"' ∷ [], rw quote (close-Passes s b s' p quote), rw quote (closed esc))
]

pub read_string-IsString : (s : Lexer) → (peek s == b'"') ≡ true → IsString s (read_string s)
unfolding read_string make_token_from
read_string-IsString s h = elim (Bool-cases (two_quotes_follow s)) [
  | inl is_block ↦
      let opening =
        Reads-three s b'"' b'"' b'"' (tail (tail (tail s.rest)))
          (starts_three s b'"' b'"' b'"' h (ground arith) (ground arith) refl) in
      let (v, spelled) = read_block_on-SpellsBlock (advance3 s).rest [] (advance3 s) in
      rw is_block (block_string opening v spelled)
  | inr plain_text ↦
      let opening = Reads-one s b'"' (tail s.rest) (starts_here s b'"' h refl) in
      let (b, v, spelled) = read_quoted_on-Spells (advance s).rest [] (advance s) in
      let (w, passes, quoted) =
        close_quote-Passes (advance s) b (read_quoted_on (advance s).rest ([], advance s)).1
          spelled.passes spelled.ends spelled.escapes in
      rw plain_text (record {
        spelling = b'"' ∷ w;
        passes = Reads-Passes_trans (b'"' ∷ []) w opening passes;
        quoted =
            subst
              (Quoted (close_quote (read_quoted_on (advance s).rest ([], advance s)).1).rest
                (b'"' ∷ w))
              (sym spelled.appended) quoted;
        is_literal = refl;
        line = refl;
        column = refl;
      })
]
  where
    block_string :
        Reads s (codes "\"\"\"") (advance3 s)
        → (v : Bytes)
        → SpellsBlock [] (advance3 s) v (read_block_on (advance3 s).rest ([], advance3 s))
        → IsString s (
            let (value, s') = read_block_on (advance3 s).rest ([], advance3 s) in
            (make_token_from s' TokenType.string_literal value s.line s.column, s'))
    block_string opening v spelled =
        let r = read_block_on (advance3 s).rest ([], advance3 s) in
        elim spelled.block_ends [
          | BlockEnds.block_closed reads unclosed ↦ record {
            spelling = codes "\"\"\"" ++ (v ++ codes "\"\"\"");
            passes =
                Reads-Passes (Reads-trans (codes "\"\"\"") (v ++ codes "\"\"\"") opening reads);
            quoted =
                subst (Quoted r.1.rest (codes "\"\"\"" ++ (v ++ codes "\"\"\"")))
                  (sym spelled.appended) (block v unclosed);
            is_literal = refl;
            line = refl;
            column = refl;
          }
          | BlockEnds.block_open reads over unclosed ↦ record {
            spelling = codes "\"\"\"" ++ v;
            passes = Reads-Passes (Reads-trans (codes "\"\"\"") v opening reads);
            quoted =
                subst (Quoted r.1.rest (codes "\"\"\"" ++ v)) (sym spelled.appended)
                  (open_block v over unclosed);
            is_literal = refl;
            line = refl;
            column = refl;
          }
        ]
