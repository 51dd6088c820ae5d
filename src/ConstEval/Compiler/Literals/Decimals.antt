-- ===== src/ConstEval/Compiler/Literals/Decimals.antt =====
-- evaluator/ConstEvaluator.cpp, `std::stoll`: a text of decimal digits.
use djinn_lang_v.Base.{
  ℕ, ◌+◌, ◌*◌, ◌-◌, ◌^◌, ◌<◌, true, false, ◌∷◌, some, Bytes, leb, ltb, ◌==◌, ◌≡◌, refl, ap, ◌∙◌,
  arith,
}
use djinn_lang_v.Base.Int.{pos}
use djinn_lang_v.ConstEval.Compiler.{parsed}
use djinn_lang_v.ConstEval.Compiler.Literals.{
  is_space, digit_value, digits_on, scan, stoll, stoll_of,
}

-- Nothing is skipped before a digit.
scan-digits :
    (d : ℕ) (s : Bytes)
    → d < 10
    → scan 10 ((b'0' + d) ∷ s) ≡ some (false, digits_on 10 0 ((b'0' + d) ∷ s))
unfolding scan
scan-digits d s small = rw (no_space, no_minus, no_plus, is_digit) refl
  where
    no_space : is_space (b'0' + d) ≡ false
    no_space = ground arith

    no_minus : b'0' + d == b'-' ≡ false
    no_minus = ground arith

    no_plus : b'0' + d == b'+' ≡ false
    no_plus = ground arith

    is_digit : ltb (digit_value (b'0' + d)) 10 ≡ true
    is_digit = ground arith

-- A text that begins with a digit is read as the number of its digits.
pub stoll-digits :
    (d n : ℕ) (s : Bytes)
    → d < 10
    → digits_on 10 0 ((b'0' + d) ∷ s) ≡ n
    → n < 2 ^ 63
    → stoll 10 ((b'0' + d) ∷ s) ≡ parsed (pos n)
unfolding stoll
stoll-digits d n s small e h =
    ap stoll_of (scan-digits d s small) ∙ ap (λ m. stoll_of (some (false, m))) e ∙ rw fits refl
  where
    fits : leb n (2 ^ 63 - 1) ≡ true
    fits = ground arith

-- The digit before others is the leading one.
pub digits_on-digit :
    (m d : ℕ) (s : Bytes) → d < 10 → digits_on 10 m ((b'0' + d) ∷ s) ≡ digits_on 10 (m * 10 + d) s
unfolding digits_on
digits_on-digit m d s small = rw (is_digit, value) refl
  where
    is_digit : ltb (digit_value (b'0' + d)) 10 ≡ true
    is_digit = ground arith

    value : digit_value (b'0' + d) ≡ d
    value = ground arith
