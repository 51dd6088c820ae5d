-- ===== src/ConstEval/Compiler/Literals.antt =====
-- evaluator/ConstEvaluator.cpp, `compileIntegerLiteral`: what the spelling of an integer stands for.
-- `std::stoll` and `std::stoull` are written out, for any radix.
pub mod Decimals
use djinn_lang_v.Base.{
  ℕ, ◌+◌, ◌-◌, ◌*◌, ◌%◌, ◌^◌, Bool, false, ◌&&◌, ◌||◌, [], ◌∷◌, Option, none, some, Bytes, ltb, leb,
  ◌==◌, if◌then◌else◌, length, get_or, take, drop, tail,
}
use djinn_lang_v.Base.Int.{ℤ, pos, sub_ℕ}
use djinn_lang_v.ConstEval.Words.{as_i64}
use djinn_lang_v.ConstEval.Int128.{Int128}
use djinn_lang_v.ConstEval.Value.{Doubles}
use djinn_lang_v.ConstEval.Compiler.{Parsed, parsed, out_of_range, invalid_argument, Numerals}

-- `isspace`, and the value of a digit in a radix above it.
abbrev pub is_space : ℕ → Bool
is_space c = c == b' ' || (leb 9 c && leb c 13)

abbrev pub digit_value : ℕ → ℕ
digit_value c =
    if leb b'0' c && leb c b'9'
    then c - b'0'
    else if leb b'a' c && leb c b'z'
    then c - b'a' + 10
    else if leb b'A' c && leb c b'Z'
    then c - b'A' + 10
    else 36

unfoldable pub skip_spaces : Bytes → Bytes
skip_spaces [] = []
skip_spaces (c ∷ s) = let rest = skip_spaces s in if is_space c then rest else c ∷ s

-- The number that the digits at the head spell, behind those already read.
unfoldable pub digits_on : ℕ → ℕ → Bytes → ℕ
digits_on radix n [] = n
digits_on radix n (c ∷ s) =
    let more = digits_on radix (n * radix + digit_value c) s in
    if ltb (digit_value c) radix then more else n

abbrev pub starts_digit : ℕ → Bytes → Bool
starts_digit radix [] = false
starts_digit radix (c ∷ _) = ltb (digit_value c) radix

abbrev pub skip_prefix : ℕ → Bytes → Bytes
skip_prefix radix s =
    if radix == 16
      && get_or s 0 0 == b'0'
      && (get_or s 1 0 == b'x' || get_or s 1 0 == b'X')
      && starts_digit 16 (drop 2 s)
    then drop 2 s
    else s

abbrev pub is_minus : Bytes → Bool
is_minus s = get_or s 0 0 == b'-'

abbrev pub skip_sign : Bytes → Bytes
skip_sign s = if is_minus s || get_or s 0 0 == b'+' then tail s else s

-- The sign and the magnitude, or nothing where there is no digit.
unfoldable pub scan : ℕ → Bytes → Option (Bool × ℕ)
unfolding skip_spaces digits_on
scan radix text =
    let s = skip_spaces text in
    let body = skip_prefix radix (skip_sign s) in
    if starts_digit radix body then some (is_minus s, digits_on radix 0 body) else none

abbrev pub stoll_of : Option (Bool × ℕ) → Parsed ℤ
stoll_of none = invalid_argument
stoll_of (some (negative, n)) =
    if leb n (if negative then 2 ^ 63 else 2 ^ 63 - 1)
    then parsed (if negative then sub_ℕ 0 n else pos n)
    else out_of_range

unfoldable pub stoll : ℕ → Bytes → Parsed ℤ
unfolding scan
stoll radix text = stoll_of (scan radix text)

abbrev stoull_of : Option (Bool × ℕ) → Parsed ℕ
stoull_of none = invalid_argument
stoull_of (some (negative, n)) =
    if ltb n (2 ^ 64) then parsed (if negative then (2 ^ 64 - n) % 2 ^ 64 else n) else out_of_range

unfoldable pub stoull : ℕ → Bytes → Parsed ℕ
unfolding scan
stoull radix text = stoull_of (scan radix text)

-- What is emitted for a literal, if anything.
pub data Literal : Type 0 where
  int64 : ℤ → Literal
  int128 : Int128 → Literal
  unsupported throws : Literal

unfoldable pub cleaned : Bytes → Bytes
cleaned [] = []
cleaned (c ∷ s) = let rest = cleaned s in if c == b'_' || c == b'\'' then rest else c ∷ rest

unfoldable pub drop_suffix : Bytes → Bytes
drop_suffix [] = []
drop_suffix (c ∷ []) = if c == b'u' || c == b'U' then [] else c ∷ []
drop_suffix (c ∷ d ∷ s) = c ∷ drop_suffix (d ∷ s)

abbrev pub radix_of : Bytes → ℕ
radix_of s =
    if ltb 2 (length s) && get_or s 0 0 == b'0'
    then (if get_or s 1 0 == b'x' || get_or s 1 0 == b'X'
        then 16
        else if get_or s 1 0 == b'b' || get_or s 1 0 == b'B'
        then 2
        else 10)
    else 10

abbrev pub drop_radix : Bytes → Bytes
drop_radix s = if radix_of s == 10 then s else drop 2 s

abbrev under_first : ℕ → Option (Bytes × Bytes) → Option (Bytes × Bytes)
under_first c none = none
under_first c (some (a, b)) = some (c ∷ a, b)

-- The text before and behind the first `e` or `E`.
unfoldable pub split_exponent : Bytes → Option (Bytes × Bytes)
split_exponent [] = none
split_exponent (c ∷ s) =
    let later = under_first c (split_exponent s) in
    if c == b'e' || c == b'E' then some ([], s) else later

abbrev pub two_words : Parsed ℕ → Parsed ℕ → Literal
two_words (parsed high) (parsed low) = Literal.int128 (record { high = as_i64 high; low = low })
two_words _ _ = Literal.throws

abbrev pub one_word : Parsed ℕ → Literal
one_word (parsed low) = Literal.int128 (record { high = pos 0; low = low })
one_word _ = Literal.throws

-- Beyond 64 bits: 16 hexadecimal digits for the low word, those before for the high word.
unfoldable pub wide_literal : ℕ → Bytes → Literal
unfolding stoull as_i64
wide_literal radix s =
    if radix == 16
    then (if leb (length s) 16
        then one_word (stoull 16 s)
        else two_words (stoull 16 (take (length s - 16) s)) (stoull 16 (drop (length s - 16) s)))
    else Literal.unsupported

abbrev pub narrow_literal : Parsed ℤ → ℕ → Bytes → Literal
narrow_literal (parsed v) radix s = Literal.int64 v
narrow_literal invalid_argument radix s = Literal.throws
narrow_literal out_of_range radix s = wide_literal radix s

module _ (F : Doubles) (N : Numerals F) where
  abbrev pub scaled : Parsed F.Double → Parsed F.Double → Literal
  scaled (parsed base) (parsed exponent) = Literal.int64 (F.to_int (F.mul base (N.pow10 exponent)))
  scaled _ _ = Literal.throws

  abbrev pub decimal_literal : Option (Bytes × Bytes) → ℕ → Bytes → Literal
  decimal_literal (some (base, exponent)) radix s = scaled (N.stod base) (N.stod exponent)
  decimal_literal none radix s = narrow_literal (stoll radix s) radix s

  unfoldable pub integer_literal : Bytes → Literal
  unfolding cleaned drop_suffix split_exponent stoll wide_literal
  integer_literal value =
      let text = drop_suffix (cleaned value) in
      let radix = radix_of text in
      let digits = drop_radix text in
      decimal_literal (if radix == 10 then split_exponent digits else none) radix digits
