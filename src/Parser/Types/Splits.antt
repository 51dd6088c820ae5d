-- ===== src/Parser/Types/Splits.antt =====
-- parser/Parser.cpp, `parse_type`: a `>>` that closes two lists of arguments.
use djinn_lang_v.Base.{
  ℕ, suc, ◌+◌, ◌*◌, ◌≤◌, false, List, ◌∷◌, Bool, ◌-◌, Bytes, length, ◌≡◌, refl, subst, arith,
}
use djinn_lang_v.Lexer.Token.{TokenType, Position, Token}
use djinn_lang_v.Ast.DjinnType.{DjinnType, no_types, cons, struct_type, with_args}
use djinn_lang_v.Parser.Cursor.{is}
use djinn_lang_v.Parser.Types.{Base, base_of, parse_type, parse_type_at}
use djinn_lang_v.Parser.Types.Written.{
  Written, Valid, meaning, symbol, word, spell, steps, steps-spell, suffix_tokens, suffixed,
}
use djinn_lang_v.Parser.Types.Reads.{
  IsEnd, start, Reads, Reads-bind, match-less, expect-greater_greater, expect-pending,
}
use djinn_lang_v.Parser.Types.RoundTrip.{
  parse_type-spell, parse_list-end, parse_type-based, suffixes_left,
}

module _ (p : Position) (v : Bytes) where
  -- The struct `name` with one argument.
  abbrev pub applied : Bytes → DjinnType → DjinnType
  applied name t = with_args (cons t no_types) (struct_type name)

  -- `A < B < w >> *** x`, with any number of stars, and `[]` and `?`.
  abbrev pub joined : Bytes → Bytes → Written → ℕ → Bool → Bool → Token → List Token → List Token
  joined a b w n arr nul x k =
      word p v a
      ∷ symbol p v TokenType.less
      ∷ word p v b
      ∷ symbol p v TokenType.less
      ∷ spell p v w (symbol p v TokenType.greater_greater ∷ suffix_tokens p v n arr nul (x ∷ k))

  module _ (a b : Bytes) (w : Written) (n : ℕ) (arr nul : Bool) (x : Token) (k : List Token)
      (a_names : base_of (word p v a) ≡ Base.struct_named a)
      (b_names : base_of (word p v b) ≡ Base.struct_named b) (valid : Valid p v w) (ends : IsEnd x)
      (no_comma : is x.type TokenType.comma ≡ false) where
    abbrev closing : List Token
    closing = symbol p v TokenType.greater_greater ∷ suffix_tokens p v n arr nul (x ∷ k)

    closing-IsEnd : IsEnd (symbol p v TokenType.greater_greater)
    unfolding is
    closing-IsEnd = record { no_star = refl; no_bracket = refl; no_question = refl; no_less = refl }

    -- `B < w >> *** x`, up to `x`, which leaves a `>` pending.
    inner-Reads :
        (fuel : ℕ) (passed : List Token)
        → steps p v w ≤ fuel
        → Reads p v 1
            (parse_type
              (suc (suc fuel))
              (start p v 0 passed (word p v b ∷ symbol p v TokenType.less ∷ spell p v w closing)))
            (suffixed n arr nul (applied b (meaning w)))
            (x ∷ k)
    unfolding is
    inner-Reads fuel passed h =
        parse_type-based p v 1 (suc fuel) n arr nul passed (word p v b)
          (symbol p v TokenType.less ∷ spell p v w closing) (Base.struct_named b)
          (applied b (meaning w)) x k refl b_names (omega arith) ends
          λ passed.
            Reads-bind p v _
              (match-less p v 0 passed (spell p v w closing)
                (omega (arith, steps-spell p v w closing)))
              λ passed'.
                Reads-bind p v _
                  (parse_list-end p v 0 fuel (meaning w) _ (symbol p v TokenType.greater_greater) _
                    refl
                    (parse_type-spell p v fuel w (passed'.0 ∷ passed'.1)
                      (symbol p v TokenType.greater_greater) _ valid closing-IsEnd h))
                  λ passed''.
                    Reads-bind p v _
                      (expect-greater_greater p v passed'' (suffix_tokens p v n arr nul (x ∷ k))
                        (suffixes_left p v n arr nul x k))
                      λ q. record { passed = q; result = refl }

    outer-Reads :
        (fuel : ℕ) (passed : List Token)
        → steps p v w ≤ fuel
        → Reads p v 0
            (parse_type
              (suc (suc (suc (suc fuel))))
              (start p v 0 passed (joined a b w n arr nul x k)))
            (applied a (suffixed n arr nul (applied b (meaning w))))
            (x ∷ k)
    unfolding is
    outer-Reads fuel passed h =
        parse_type-based p v 0 (suc (suc (suc fuel))) 0 false false passed (word p v a) _
          (Base.struct_named a) (applied a (suffixed n arr nul (applied b (meaning w)))) x k refl
          a_names (omega arith) ends
          λ passed.
            Reads-bind p v _
              (match-less p v 0 passed
                (word p v b ∷ symbol p v TokenType.less ∷ spell p v w closing) (omega arith))
              λ passed'.
                Reads-bind p v _
                  (parse_list-end p v 1 (suc (suc fuel))
                    (suffixed n arr nul (applied b (meaning w))) _ x k no_comma
                    (inner-Reads fuel (passed'.0 ∷ passed'.1) h))
                  λ passed''.
                    Reads-bind p v _ (expect-pending p v passed'' (x ∷ k))
                      λ q. record { passed = q; result = refl }

    -- Behind a `>>` that closes two lists of arguments, `*`, `[]` and `?` go to the inner type:
    -- `A<B<w>>* x` is read as `A<B<w>*> x`. (A and B name no built-in types, w is any type, and x
    -- does not go on with a type or a list.)
    pub parse_type_at-joined :
        (passed : List Token)
        → Reads p v 0
            (parse_type_at (start p v 0 passed (joined a b w n arr nul x k)))
            (applied a (suffixed n arr nul (applied b (meaning w))))
            (x ∷ k)
    parse_type_at-joined passed =
        subst
          (λ fuel.
            Reads p v 0 (parse_type fuel (start p v 0 passed (joined a b w n arr nul x k)))
              (applied a (suffixed n arr nul (applied b (meaning w)))) (x ∷ k))
          enough
          (outer-Reads (2 * length (joined a b w n arr nul x k) - 5) passed
            (omega (arith, steps-spell p v w closing)))
      where
        enough :
            suc (suc (suc (suc (2 * length (joined a b w n arr nul x k) - 5))))
            ≡ 2 * length (start p v 0 passed (joined a b w n arr nul x k)).rest + 1
        enough = omega arith
