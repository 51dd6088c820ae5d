-- ===== src/Parser/Cursor/Ends.antt =====
-- parser/Parser.cpp: the functions of the cursor end, stay within the tokens, and do not
-- move the cursor back.
use djinn_lang_v.Base.{
  ℕ, suc, ◌+◌, ◌<◌, ◌≤◌, false, ◌&&◌, List, [], ◌∷◌, if_cases, length, ◌≡◌, refl, ap, arith,
  Bool-cases, inl, inr,
}
use djinn_lang_v.Lexer.Token.{TokenType, Token}
use djinn_lang_v.Parser.Cursor.{
  Parser, Result, ok, failed, out_of_range, undefined, unfinished, ◌>>=◌, is, check, is_at_end,
  previous, previous_of, unexpected, advance, step_to, is_pending, one_fewer, match, expect,
}

abbrev pub HasPassed : List Token → Type 0
HasPassed [] = ⊥
HasPassed (t ∷ ts) = Unit

-- The last token is the one of the end of the file.
abbrev pub IsClosed : Token → List Token → Type 0
IsClosed t [] = t.type ≡ TokenType.end_of_file
IsClosed t (u ∷ us) = IsClosed u us

-- A token was taken, and the tokens end as those of the lexer do.
abbrev pub IsReady : Parser → Type 0
IsReady s = HasPassed s.passed × IsClosed s.token s.rest

abbrev pub Within : ℕ → Parser → Type 0
Within n s = (length s.rest < n) × IsReady s

-- The fuel lasts, no index is beyond the tokens, and where there is a result fewer than `n` tokens are
-- left behind the current one.
abbrev pub Ends {ℓ} : {A : Type ℓ} → ℕ → Result A → Type 0
Ends n (ok a s) = Within n s
Ends n undefined = ⊥
Ends n unfinished = ⊥
Ends n _ = Unit

module _ {A : Type 0} where
  pub Ends-bind :
      {B : Type 0} (n k : ℕ) (m : Result A) (f : A → Parser → Result B)
      → Ends n m
      → ((a : A) (s : Parser) → Within n s → Ends k (f a s))
      → Ends k (m >>= f)
  Ends-bind n k (ok a s) f h g = g a s h
  Ends-bind n k (failed c s) f h g = tt
  Ends-bind n k out_of_range f h g = tt
  Ends-bind n k undefined f h g = elim h [ ]
  Ends-bind n k unfinished f h g = elim h [ ]

  pub Ends-le : (n k : ℕ) (m : Result A) → n ≤ k → Ends n m → Ends k m
  Ends-le n k (ok a s) le (h, ready) = (omega arith, ready)
  Ends-le n k (failed c s) le h = tt
  Ends-le n k out_of_range le h = tt
  Ends-le n k undefined le h = h
  Ends-le n k unfinished le h = h

previous-Ends : (s : Parser) → IsReady s → Ends (suc (length s.rest)) (previous s)
unfolding previous
previous-Ends s (passed, closed) = go s.passed passed
  where
    go : (ts : List Token) → HasPassed ts → Ends (suc (length s.rest)) (previous_of ts s)
    go [] h = h
    go (t ∷ _) h = (omega arith, (passed, closed))

pub unexpected-Ends : (n : ℕ) (s : Parser) → IsReady s → Ends n (unexpected s)
unexpected-Ends n s ready =
    Ends-bind (suc (length s.rest)) n (previous s) _ (previous-Ends s ready) (λ _ _ _. tt)

step_to-Ends :
    (ts : List Token) (s : Parser)
    → ts ≡ s.rest
    → IsClosed s.token ts
    → is_at_end s ≡ false
    → Ends (length s.rest) (step_to ts s)
unfolding is
step_to-Ends [] s e closed inside = absurd (not_inside (rw closed at inside))
  where
    not_inside : is TokenType.end_of_file TokenType.end_of_file ≡ false → ⊥
    not_inside q = cc
step_to-Ends (t ∷ ts) s e closed inside = (omega (arith, ap length e), (tt, closed))

pub advance-Ends_inside :
    (s : Parser) → IsClosed s.token s.rest → is_at_end s ≡ false → Ends (length s.rest) (advance s)
unfolding advance
advance-Ends_inside s closed e = rw e (step_to-Ends s.rest s refl closed e)

pub advance-Ends : (s : Parser) → IsReady s → Ends (suc (length s.rest)) (advance s)
advance-Ends s ready = elim (Bool-cases (is_at_end s)) [
  | inl ended ↦ unfold advance in rw ended (previous-Ends s ready)
  | inr inside ↦
      Ends-le (length s.rest) (suc (length s.rest)) (advance s) (omega arith)
        (advance-Ends_inside s ready.1 inside)
]

pub match-Ends :
    (type : TokenType) (s : Parser) → IsReady s → Ends (suc (length s.rest)) (match type s)
unfolding match
match-Ends type s ready =
    if_cases (Ends (suc (length s.rest))) (is_pending type s) (λ _. (omega arith, ready))
      λ _.
        if_cases (Ends (suc (length s.rest))) (check type s)
          (λ _.
            Ends-bind (suc (length s.rest)) (suc (length s.rest)) (advance s) _
              (advance-Ends s ready) (λ t s' h. h))
          (λ _. (omega arith, ready))

pub expect-Ends :
    (type : TokenType) (s : Parser) → IsReady s → Ends (suc (length s.rest)) (expect type s)
unfolding expect
expect-Ends type s ready =
    if_cases (Ends (suc (length s.rest))) (is_pending type s)
      (λ _. previous-Ends (one_fewer s) ready)
      λ _.
        if_cases (Ends (suc (length s.rest))) (check type s) (λ _. advance-Ends s ready)
          λ _.
            if_cases (Ends (suc (length s.rest)))
              (is type TokenType.greater && check TokenType.greater_greater s)
              (λ _. advance-Ends (record s { pending_greater = s.pending_greater + 1 }) ready)
              (λ _. unexpected-Ends (suc (length s.rest)) s ready)
