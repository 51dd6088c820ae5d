-- ===== src/Ast/DjinnType/Names/Suffixes.antt =====
-- parser/ast/Type.h, `parse_integer_type_name`: the loop that takes the suffixes off.
use djinn_lang_v.Base.{
  ℕ, zero, suc, Bool, true, false, [], ◌∷◌, ◌++◌, none, some, Bytes, codes, ◌==◌, if◌then◌else◌,
  ◌≡◌, refl, sym, ap, ◌∙◌, append-nil, append_assoc, arith,
}
use djinn_lang_v.Lexer.Chars.{is_digit}
use djinn_lang_v.ConstEval.Fit.{OverflowMode}
use djinn_lang_v.Ast.TypeNames.{
  Stripped, strip, strip_last, strip_mode, mode_from_char, after_round, last, drop_last, all_digits,
  overflow_mode_suffix,
}

last-append : (s : Bytes) (c : ℕ) → last (s ++ c ∷ []) ≡ some c
unfolding last
last-append [] c = refl
last-append (a ∷ []) c = refl
last-append (a ∷ b ∷ s) c = last-append (b ∷ s) c

drop_last-append : (s : Bytes) (c : ℕ) → drop_last (s ++ c ∷ []) ≡ s
unfolding drop_last
drop_last-append [] c = refl
drop_last-append (a ∷ []) c = refl
drop_last-append (a ∷ b ∷ s) c = ap (λ t. a ∷ t) (drop_last-append (b ∷ s) c)

-- The loop stops at a digit.
strip_last-digit : (c : ℕ) (s : Stripped) → is_digit c ≡ true → strip_last (some c) s ≡ none
unfolding is_digit
strip_last-digit c s e = ground arith

last-all_digits :
    (d : ℕ) (s : Bytes)
    → all_digits (d ∷ s) ≡ true
    → (c : ℕ) × (last (d ∷ s) ≡ some c) × (is_digit c ≡ true)
unfolding last all_digits
last-all_digits d [] e = (d, refl, ground arith)
last-all_digits d (c ∷ s) e = last-all_digits c s (ground arith)

abbrev pub stripped : Bytes → OverflowMode → Bool → Stripped
stripped digits mode non_zero = record { digits = digits; mode = mode; non_zero = non_zero }

strip-digits :
    (rounds d : ℕ) (s : Bytes) (m : OverflowMode) (nz : Bool)
    → all_digits (d ∷ s) ≡ true
    → strip rounds (stripped (d ∷ s) m nz) ≡ stripped (d ∷ s) m nz
unfolding strip
strip-digits zero d s m nz e = refl
strip-digits (suc rounds) d s m nz e =
    let (c, f, g) = last-all_digits d s e in
    ap
      (λ o.
        after_round (strip_last o (stripped (d ∷ s) m nz)) (strip rounds) (stripped (d ∷ s) m nz))
      f
    ∙ ap (λ o. after_round o (strip rounds) (stripped (d ∷ s) m nz))
        (strip_last-digit c (stripped (d ∷ s) m nz) g)

-- A round that takes one character off.
strip-append :
    (rounds : ℕ) (s : Bytes) (c : ℕ) (m m' : OverflowMode) (nz nz' : Bool)
    → ((t : Stripped)
        → t.mode ≡ m
        → t.non_zero ≡ nz
        → strip_last (some c) t ≡ some (stripped (drop_last t.digits) m' nz'))
    → strip (suc rounds) (stripped (s ++ c ∷ []) m nz) ≡ strip rounds (stripped s m' nz')
unfolding strip
strip-append rounds s c m m' nz nz' h =
    ap (λ o. after_round (strip_last o t) (strip rounds) t) (last-append s c)
    ∙ ap (λ o. after_round o (strip rounds) t) (h t refl refl)
    ∙ ap (λ u. strip rounds (stripped u m' nz')) (drop_last-append s c)
  where
    t : Stripped
    t = stripped (s ++ c ∷ []) m nz

strip-n :
    (rounds : ℕ) (s : Bytes) (m : OverflowMode)
    → strip (suc rounds) (stripped (s ++ b'n' ∷ []) m false) ≡ strip rounds (stripped s m true)
strip-n rounds s m =
    strip-append rounds s b'n' m m false true
      λ t e f. rw f (ap (λ m. some (stripped (drop_last t.digits) m true)) e)

strip-mode :
    (rounds : ℕ) (s : Bytes) (c : ℕ) (m : OverflowMode) (nz : Bool)
    → c == b'n' ≡ false
    → mode_from_char c ≡ some m
    → strip (suc rounds) (stripped (s ++ c ∷ []) OverflowMode.unchecked nz)
      ≡ strip rounds (stripped s m nz)
strip-mode rounds s c m nz no_n is_mode =
    strip-append rounds s c OverflowMode.unchecked m nz nz λ t e f. step t e f
  where
    step :
        (t : Stripped)
        → t.mode ≡ OverflowMode.unchecked
        → t.non_zero ≡ nz
        → strip_last (some c) t ≡ some (stripped (drop_last t.digits) m nz)
    step t e f = rw no_n (
        ap (λ o. strip_mode o t) is_mode
        ∙ rw e (ap (λ b. some (stripped (drop_last t.digits) m b)) f))

abbrev pub suffixes : OverflowMode → Bool → Bytes
suffixes m nz = (if nz then codes "n" else []) ++ overflow_mode_suffix m

-- Both suffixes are taken off.
strip-both :
    (s : Bytes) (c : ℕ) (m : OverflowMode)
    → c == b'n' ≡ false
    → mode_from_char c ≡ some m
    → strip 2 (stripped (s ++ b'n' ∷ c ∷ []) OverflowMode.unchecked false) ≡ stripped s m true
unfolding strip
strip-both s c m no_n is_mode =
    ap (λ u. strip 2 (stripped u OverflowMode.unchecked false))
      (sym (append_assoc s (b'n' ∷ []) (c ∷ [])))
    ∙ strip-mode 1 (s ++ b'n' ∷ []) c m false no_n is_mode
    ∙ strip-n 0 s m

pub strip-suffixes :
    (d : ℕ) (s : Bytes) (m : OverflowMode) (nz : Bool)
    → all_digits (d ∷ s) ≡ true
    → strip 2 (stripped ((d ∷ s) ++ suffixes m nz) OverflowMode.unchecked false)
      ≡ stripped (d ∷ s) m nz
strip-suffixes d s OverflowMode.unchecked false e =
    ap (λ u. strip 2 (stripped u OverflowMode.unchecked false)) (append-nil (d ∷ s))
    ∙ strip-digits 2 d s OverflowMode.unchecked false e
strip-suffixes d s OverflowMode.unchecked true e =
    strip-n 1 (d ∷ s) OverflowMode.unchecked ∙ strip-digits 1 d s OverflowMode.unchecked true e
strip-suffixes d s OverflowMode.wrapped false e =
    strip-mode 1 (d ∷ s) b'w' OverflowMode.wrapped false refl refl ∙ strip-digits 1 d s _ false e
strip-suffixes d s OverflowMode.trapped false e =
    strip-mode 1 (d ∷ s) b't' OverflowMode.trapped false refl refl ∙ strip-digits 1 d s _ false e
strip-suffixes d s OverflowMode.checked false e =
    strip-mode 1 (d ∷ s) b'c' OverflowMode.checked false refl refl ∙ strip-digits 1 d s _ false e
strip-suffixes d s OverflowMode.saturating false e =
    strip-mode 1 (d ∷ s) b's' OverflowMode.saturating false refl refl ∙ strip-digits 1 d s _ false e
strip-suffixes d s OverflowMode.wrapped true e =
    strip-both (d ∷ s) b'w' OverflowMode.wrapped refl refl
strip-suffixes d s OverflowMode.trapped true e =
    strip-both (d ∷ s) b't' OverflowMode.trapped refl refl
strip-suffixes d s OverflowMode.checked true e =
    strip-both (d ∷ s) b'c' OverflowMode.checked refl refl
strip-suffixes d s OverflowMode.saturating true e =
    strip-both (d ∷ s) b's' OverflowMode.saturating refl refl
