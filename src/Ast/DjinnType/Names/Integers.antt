-- ===== src/Ast/DjinnType/Names/Integers.antt =====
-- parser/ast/Type.h: the name of an integer type in a message is read back as that type.
use djinn_lang_v.Base.{
  ℕ, suc, ◌+◌, ◌^◌, ◌<◌, Bool, true, false, ◌&&◌, not, [], ◌∷◌, ◌++◌, Bytes, same_bytes, ltb, ◌==◌,
  if◌then◌else◌, length, ◌≡◌, refl, sym, ap, ◌∙◌, arith,
}
use djinn_lang_v.ConstEval.Fit.{OverflowMode}
use djinn_lang_v.ConstEval.Compiler.Literals.{stoll, digits_on}
use djinn_lang_v.ConstEval.Compiler.Literals.Decimals.{stoll-digits}
use djinn_lang_v.Ast.TypeNames.{
  strip, all_digits, NameParse, IntegerTypeName, parse_integer_type_name, stripped_name, with_bits,
}
use djinn_lang_v.Ast.DjinnType.{integer_type}
use djinn_lang_v.Ast.DjinnType.Names.{to_human_string}
use djinn_lang_v.Ast.DjinnType.Names.Digits.{digits_before-Digits}
use djinn_lang_v.Ast.DjinnType.Names.Suffixes.{stripped, suffixes, strip-suffixes}

and_false : (b : Bool) → b && false ≡ false
and_false true = refl
and_false false = refl

parse-sized :
    (sign : Bool) (d : ℕ) (rest : Bytes)
    → d < 10
    → parse_integer_type_name ((if sign then b'i' else b'u') ∷ (b'0' + d) ∷ rest)
      ≡ stripped_name sign (strip 2 (stripped ((b'0' + d) ∷ rest) OverflowMode.unchecked false))
unfolding parse_integer_type_name same_bytes
parse-sized true d rest small = rw (and_false (suc (suc (length rest)) == 5), no_s, long) refl
  where
    no_s : b'0' + d == b's' ≡ false
    no_s = ground arith

    long : ltb (suc (suc (length rest))) 2 ≡ false
    long = ground arith
parse-sized false d rest small = rw (and_false (suc (suc (length rest)) == 5), no_s, long) refl
  where
    no_s : b'0' + d == b's' ≡ false
    no_s = ground arith

    long : ltb (suc (suc (length rest))) 2 ≡ false
    long = ground arith

abbrev pub sized_name_of : ℕ → Bool → OverflowMode → Bool → IntegerTypeName
sized_name_of bits sign mode non_zero = record {
  bits = bits;
  sign = sign;
  mode = mode;
  native = false;
  non_zero = non_zero;
}

-- The digits of a number are read as that number.
stripped_name-digits :
    (d bits : ℕ) (s : Bytes) (sign : Bool) (m : OverflowMode) (nz : Bool)
    → d < 10
    → all_digits ((b'0' + d) ∷ s) ≡ true
    → digits_on 10 0 ((b'0' + d) ∷ s) ≡ bits
    → bits < 2 ^ 63
    → stripped_name sign (stripped ((b'0' + d) ∷ s) m nz)
      ≡ NameParse.integer_name (sized_name_of bits sign m nz)
unfolding same_bytes
stripped_name-digits d bits s sign m nz small all value h =
    ap
      (λ b.
        if not b
        then NameParse.no_integer
        else with_bits (stoll 10 ((b'0' + d) ∷ s)) sign (stripped ((b'0' + d) ∷ s) m nz))
      all
    ∙ ap (λ v. with_bits v sign (stripped ((b'0' + d) ∷ s) m nz))
        (stoll-digits d bits s small value h)

-- The name that a message gives an integer type, with its size, its sign, the suffix for an overflow
-- mode and the one for no zero, is parsed as that type. (The type has no native width, and its size
-- is below 2 ^ 63.)
pub parse_integer_type_name-to_human_string :
    (bits : ℕ) (sign : Bool) (mode : OverflowMode) (non_zero : Bool)
    → bits < 2 ^ 63
    → parse_integer_type_name
        (to_human_string (integer_type (sized_name_of bits sign mode non_zero)))
      ≡ NameParse.integer_name (sized_name_of bits sign mode non_zero)
unfolding to_human_string digits_on all_digits
parse_integer_type_name-to_human_string bits sign mode nz h =
    let d = digits_before-Digits (suc bits) bits [] (omega arith) in
    let all : all_digits ((b'0' + d.first) ∷ d.others) ≡ true =
      sym (ap all_digits d.is) ∙ d.all refl in
    ap (λ t. parse_integer_type_name ((if sign then b'i' else b'u') ∷ (t ++ suffixes mode nz))) d.is
    ∙ parse-sized sign d.first (d.others ++ suffixes mode nz) d.small
    ∙ ap (stripped_name sign) (strip-suffixes (b'0' + d.first) d.others mode nz all)
    ∙ stripped_name-digits d.first bits d.others sign mode nz d.small all
        (sym (ap (digits_on 10 0) d.is) ∙ d.value) h
