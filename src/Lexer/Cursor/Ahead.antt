-- ===== src/Lexer/Cursor/Ahead.antt =====
-- Looking ahead: what the next characters are, and reading two or three of them.
use djinn_lang_v.Base.{
  ℕ, true, false, [], ◌∷◌, ◌==◌, ◌≡◌, ap, Bytes, arith, get_or, tail, length, ltb,
}
use djinn_lang_v.Lexer.State.{Lexer, has, peek, peek_next, peek_at, advance}
use djinn_lang_v.Lexer.Cursor.{Reads, Reads-one, Reads-trans}

-- The first characters left, from what `peek` and its kin see of them.
pub starts_one :
    (s : Lexer) (c : ℕ) → has s 0 ≡ true → (peek s == c) ≡ true → s.rest ≡ c ∷ tail s.rest
starts_one s c = go s.rest
  where
    go : (r : Bytes) → ltb 0 (length r) ≡ true → (get_or r 0 0 == c) ≡ true → r ≡ c ∷ tail r
    go [] h e = absurd (ground arith)
    go (x ∷ r) h e = ground arith

pub starts_here :
    (s : Lexer) (c : ℕ) → (peek s == c) ≡ true → (c == 0) ≡ false → s.rest ≡ c ∷ tail s.rest
starts_here s c = go s.rest
  where
    go : (r : Bytes) → (get_or r 0 0 == c) ≡ true → (c == 0) ≡ false → r ≡ c ∷ tail r
    go [] e n = absurd (ground arith)
    go (x ∷ r) e n = ground arith

pub starts_two :
    (s : Lexer) (c d : ℕ)
    → (peek s == c) ≡ true
    → (peek_next s == d) ≡ true
    → (d == 0) ≡ false
    → s.rest ≡ c ∷ d ∷ tail (tail s.rest)
starts_two s c d = go s.rest
  where
    go :
        (r : Bytes)
        → (get_or r 0 0 == c) ≡ true
        → (get_or r 1 0 == d) ≡ true
        → (d == 0) ≡ false
        → r ≡ c ∷ d ∷ tail (tail r)
    go [] h e n = absurd (ground arith)
    go (x ∷ []) h e n = absurd (ground arith)
    go (x ∷ y ∷ r) h e n = ground arith

pub starts_three :
    (s : Lexer) (c d e : ℕ)
    → (peek s == c) ≡ true
    → (peek_next s == d) ≡ true
    → (peek_at s 2 == e) ≡ true
    → (e == 0) ≡ false
    → s.rest ≡ c ∷ d ∷ e ∷ tail (tail (tail s.rest))
starts_three s c d e = go s.rest
  where
    go :
        (r : Bytes)
        → (get_or r 0 0 == c) ≡ true
        → (get_or r 1 0 == d) ≡ true
        → (get_or r 2 0 == e) ≡ true
        → (e == 0) ≡ false
        → r ≡ c ∷ d ∷ e ∷ tail (tail (tail r))
    go [] h i j n = absurd (ground arith)
    go (x ∷ []) h i j n = absurd (ground arith)
    go (x ∷ y ∷ []) h i j n = absurd (ground arith)
    go (x ∷ y ∷ z ∷ r) h i j n = ground arith

pub rest_advance : (s : Lexer) (c : ℕ) (r : Bytes) → s.rest ≡ c ∷ r → (advance s).rest ≡ r
unfolding advance
rest_advance s c r e = ap tail e

pub Reads-two :
    (s : Lexer) (c d : ℕ) (r : Bytes)
    → s.rest ≡ c ∷ d ∷ r
    → Reads s (c ∷ d ∷ []) (advance (advance s))
Reads-two s c d r e =
    Reads-trans (c ∷ []) (d ∷ []) (Reads-one s c (d ∷ r) e)
      (Reads-one (advance s) d r (rest_advance s c (d ∷ r) e))

pub Reads-three :
    (s : Lexer) (c d e : ℕ) (r : Bytes)
    → s.rest ≡ c ∷ d ∷ e ∷ r
    → Reads s (c ∷ d ∷ e ∷ []) (advance (advance (advance s)))
Reads-three s c d e r h =
    Reads-trans (c ∷ []) (d ∷ e ∷ []) (Reads-one s c (d ∷ e ∷ r) h)
      (Reads-two (advance s) d e r (rest_advance s c (d ∷ e ∷ r) h))
