-- ===== src/Lexer/Strings/Spells.antt =====
-- lexer/Lexer.cpp: the two loops of `read_string`, against the text that they read.
use djinn_lang_v.Base.{
  ℕ, Bool, true, false, not, ◌&&◌, ltb, length, ap, subst, inl, inr, [], ◌∷◌, ◌++◌, ◌==◌, ◌≡◌, refl,
  sym, ◌∙◌, append_assoc, append-nil, Bytes, arith, Bool-cases, get_or, tail, codes,
}
use djinn_lang_v.Lexer.State.{Lexer, advance}
use djinn_lang_v.Lexer.Cursor.{
  Reads, Reads-nil, Reads-one, Reads-trans, Passes, Reads-Passes, Reads-Passes_trans,
}
use djinn_lang_v.Lexer.Cursor.Ahead.{starts_three, Reads-two, Reads-three}
use djinn_lang_v.Lexer.Chars.{Reading}
use djinn_lang_v.Lexer.Strings.{two_quotes_follow, read_block_on, escaped_char, read_quoted_on}

-- The text between two quotes, and its value. Only at the end of the source does it end in a
-- backslash, which gives a NUL.
pub data Escapes : Bytes → Bytes → Type 0 where
  none : Escapes [] []
  plain :
      {c : ℕ} {b v : Bytes}
      → (not (c == b'"') && not (c == 0)) ≡ true
      → (c == b'\\') ≡ false
      → Escapes b v
      → Escapes (c ∷ b) (c ∷ v)
  escape : (d : ℕ) {b v : Bytes} → Escapes b v → Escapes (b'\\' ∷ d ∷ b) (escaped_char d ∷ v)
  dangling : Escapes (b'\\' ∷ []) (escaped_char 0 ∷ [])

-- What can follow the text behind the opening quote: its closing quote, a NUL, or nothing.
abbrev pub Ends : Bytes → Type 0
Ends r = (not (get_or r 0 0 == b'"') && not (get_or r 0 0 == 0)) ≡ false

-- Behind `value`, the text `b` was read and gave `v`.
pub record Spells (value : Bytes) (s : Lexer) (b v : Bytes) (r : Reading) : Type 0 where
  pub appended : r.0 ≡ value ++ v
  pub passes : Passes s b r.1
  pub escapes : Escapes b v
  pub ends : Ends r.1.rest

abbrev spells_end : (value : Bytes) (s : Lexer) → Ends s.rest → Spells value s [] [] (value, s)
spells_end value s h = record {
  appended = sym (append-nil value);
  passes = Reads-Passes (Reads-nil s);
  escapes = none;
  ends = h;
}

spells_more :
    {value : Bytes} {s t : Lexer} (c : ℕ) (w : Bytes) {b v : Bytes} {r : Reading}
    → Reads s w t
    → Escapes (w ++ b) (c ∷ v)
    → Spells (value ++ c ∷ []) t b v r
    → Spells value s (w ++ b) (c ∷ v) r
spells_more {value} c w {b} {v} reads esc later = record {
  appended = later.appended ∙ append_assoc value (c ∷ []) v;
  passes = Reads-Passes_trans w b reads later.passes;
  escapes = esc;
  ends = later.ends;
}

pub read_quoted_on-Spells :
    (cs value : Bytes) (s : Lexer)
    → (b v : Bytes) × Spells value
        (record s { rest = cs })
        b
        v
        (read_quoted_on cs (value, record s { rest = cs }))
unfolding read_quoted_on advance
read_quoted_on-Spells [] value s = ([], [], spells_end value (record s { rest = [] }) refl)
read_quoted_on-Spells (c ∷ []) value s =
    let here = record s { rest = c ∷ [] } in
    elim (Bool-cases (not (c == b'"') && not (c == 0))) [
      | inr over ↦ ([], [], rw over (spells_end value here over))
      | inl inside ↦ elim (Bool-cases (c == b'\\')) [
        | inl slash ↦ (
          b'\\' ∷ [],
          escaped_char 0 ∷ [],
          rw (inside, slash)
              (record {
                appended = refl;
                passes = record { splits = ground arith; moved = inr refl };
                escapes = dangling;
                ends = refl;
              }),
        )
        | inr other ↦ (
          c ∷ [],
          c ∷ [],
          rw (inside, other)
              (record {
                appended = refl;
                passes = Reads-Passes (Reads-one here c [] refl);
                escapes = plain inside other none;
                ends = refl;
              }),
        )
      ]
    ]
read_quoted_on-Spells (c ∷ d ∷ cs) value s =
    let here = record s { rest = c ∷ d ∷ cs } in
    let (b, v, escape_later) =
      read_quoted_on-Spells cs (value ++ escaped_char d ∷ []) (advance (advance here)) in
    let (b', v', plain_later) = read_quoted_on-Spells (d ∷ cs) (value ++ c ∷ []) (advance here) in
    elim (Bool-cases (not (c == b'"') && not (c == 0))) [
      | inr over ↦ ([], [], rw over (spells_end value here over))
      | inl inside ↦ elim (Bool-cases (c == b'\\')) [
        | inl slash ↦ (
          b'\\' ∷ d ∷ b,
          escaped_char d ∷ v,
          rw (inside, slash)
              (spells_more (escaped_char d) (b'\\' ∷ d ∷ [])
                (Reads-two here b'\\' d cs (ground arith)) (escape d escape_later.escapes)
                escape_later),
        )
        | inr other ↦ (
          c ∷ b',
          c ∷ v',
          rw (inside, other)
              (spells_more c (c ∷ []) (Reads-one here c (d ∷ cs) refl)
                (plain inside other plain_later.escapes) plain_later),
        )
      ]
    ]

-- The text begins with three quotes.
abbrev pub starts_with_quotes : Bytes → Bool
starts_with_quotes r =
    get_or r 0 0 == b'"' && (ltb 2 (length r) && get_or r 1 0 == b'"' && get_or r 2 0 == b'"')

-- In `v ++ rest` no three quotes begin within `v`.
abbrev pub Unclosed : Bytes → Bytes → Type 0
Unclosed [] rest = Unit
Unclosed (c ∷ v) rest = (starts_with_quotes (c ∷ (v ++ rest)) ≡ false) × Unclosed v rest

-- The block text `v` was read up to the first three quotes, or to the end where there are none.
pub data BlockEnds (s : Lexer) (v : Bytes) (s' : Lexer) : Type 0 where
  block_closed :
      Reads s (v ++ codes "\"\"\"") s' → Unclosed v (codes "\"\"\"" ++ s'.rest) → BlockEnds s v s'
  block_open : Reads s v s' → s'.rest ≡ [] → Unclosed v [] → BlockEnds s v s'

-- Behind `value`, the block text `v` was read, up to its closing quotes or to the end.
pub record SpellsBlock (value : Bytes) (s : Lexer) (v : Bytes) (r : Reading) : Type 0 where
  pub appended : r.0 ≡ value ++ v
  pub block_ends : BlockEnds s v r.1

closed-splits :
    (v : Bytes) {s s' : Lexer}
    → Reads s (v ++ codes "\"\"\"") s'
    → s.rest ≡ v ++ (codes "\"\"\"" ++ s'.rest)
closed-splits v h = h.splits ∙ append_assoc v (codes "\"\"\"") _

open-splits : (v : Bytes) {s s' : Lexer} → Reads s v s' → s'.rest ≡ [] → s.rest ≡ v ++ []
open-splits v h e = h.splits ∙ ap (λ r. v ++ r) e

module _ {s t : Lexer} (c : ℕ) (v : Bytes) (one : Reads s (c ∷ []) t)
    (inside : starts_with_quotes (c ∷ t.rest) ≡ false) where
  goes_on : (rest : Bytes) → t.rest ≡ v ++ rest → starts_with_quotes (c ∷ (v ++ rest)) ≡ false
  goes_on rest e = subst (λ r. starts_with_quotes (c ∷ r) ≡ false) e inside

  BlockEnds-more : {s' : Lexer} → BlockEnds t v s' → BlockEnds s (c ∷ v) s'
  BlockEnds-more {s'} (block_closed h u) =
      block_closed (Reads-trans (c ∷ []) (v ++ codes "\"\"\"") one h)
        (goes_on (codes "\"\"\"" ++ s'.rest) (closed-splits v h), u)
  BlockEnds-more (block_open h e u) =
      block_open (Reads-trans (c ∷ []) v one h) e (goes_on [] (open-splits v h e), u)

  block_more :
      {value : Bytes} {r : Reading}
      → SpellsBlock (value ++ c ∷ []) t v r
      → SpellsBlock value s (c ∷ v) r
  block_more {value} later = record {
    appended = later.appended ∙ append_assoc value (c ∷ []) v;
    block_ends = BlockEnds-more later.block_ends;
  }

pub read_block_on-SpellsBlock :
    (cs value : Bytes) (s : Lexer)
    → (v : Bytes) × SpellsBlock value
        (record s { rest = cs })
        v
        (read_block_on cs (value, record s { rest = cs }))
unfolding read_block_on advance
read_block_on-SpellsBlock [] value s = (
  [],
  record {
    appended = sym (append-nil value);
    block_ends = block_open (Reads-nil (record s { rest = [] })) refl tt;
  },
)
read_block_on-SpellsBlock (c ∷ cs) value s =
    let here = record s { rest = c ∷ cs } in
    let (v, later) = read_block_on-SpellsBlock cs (value ++ c ∷ []) (advance here) in
    elim (Bool-cases (c == b'"' && two_quotes_follow here)) [
      | inl over ↦ (
        [],
        rw over (record {
          appended = sym (append-nil value);
          block_ends =
              block_closed
                (Reads-three here b'"' b'"' b'"' (tail (tail cs)) (
                  starts_three here b'"' b'"' b'"' (ground arith) (ground arith) (ground arith)
                    refl))
                tt;
        }),
      )
      | inr inside ↦ (c ∷ v, rw inside (block_more c v (Reads-one here c cs refl) inside later))
    ]
