-- ===== src/Lexer/Numbers/Shapes.antt =====
-- lexer/Lexer.cpp, `read_number` against the grammar of numbers.
use djinn_lang_v.Base.{
  ℕ, Bool, true, false, ◌&&◌, ◌||◌, [], ◌≡◌, refl, sym, ap, subst, arith, Bool-cases, inl, inr,
  if◌then◌else◌,
}
use djinn_lang_v.Lexer.State.{Lexer, peek, peek_next, make_token_from, advance}
use djinn_lang_v.Lexer.Token.{TokenType, Token}
use djinn_lang_v.Lexer.Result.{Result, ok, err, ◌>>=◌, invalid_exponent, out_of_fuel, Holds}
use djinn_lang_v.Lexer.Chars.{Reading, grab, is_digit, read_while}
use djinn_lang_v.Lexer.Lexeme.{IsRead}
use djinn_lang_v.Lexer.Numbers.{
  is_hex_part, is_binary_part, is_decimal_part, read_suffix, read_hex, read_binary, read_fraction,
  read_exponent, read_decimal, read_number, finish_number,
}
use djinn_lang_v.Lexer.Numbers.Grammar.{
  One, Run, Seq, head, is_zero_digit, is_x, is_b, Suffix, Fraction, Exponent, Tail, is_prefixed,
  Numeral, bad_exponent, BadNumber,
}
use djinn_lang_v.Lexer.Numbers.Reads.{read_number-IsRead}
use djinn_lang_v.Lexer.Numbers.Stages.{
  Stage, Stage-seq, Stage-map, Stage-none, read_suffix-Stage, read_fraction-Stage,
  read_exponent-Stage, get_or-tail, grab-Stage, read_while-Stage, ReadsExponent,
}

-- The type of the token of a decimal number.
abbrev type_of : Bool → TokenType
type_of is_float = if is_float then TokenType.float_literal else TokenType.integer_literal

Stage-Numeral :
    (s : Lexer) (t : TokenType) (r : Reading)
    → Stage (λ w rest. Numeral rest w t) ([], s) r
    → Numeral r.1.rest r.0 t
Stage-Numeral s t r a = subst (λ w. Numeral r.1.rest w t) (sym a.appended) a.shape

abbrev Shaped : Token × Lexer → Type 0
Shaped r = Numeral r.1.rest r.0.value r.0.type

module _ (s : Lexer) (plain : is_prefixed s.rest ≡ false) (digit : is_digit (peek s) ≡ true) where
  abbrev digits_read : Reading
  digits_read = read_while is_decimal_part ([], s)

  abbrev fraction_read : Bool × Reading
  fraction_read = read_fraction digits_read

  whole-Stage : Stage (Seq (Run is_decimal_part) (Fraction fraction_read.0)) ([], s) fraction_read.1
  whole-Stage =
      Stage-seq ([], s) digits_read fraction_read.1
        (read_while-Stage is_decimal_part (unfold is_decimal_part in refl) ([], s))
        (read_fraction-Stage digits_read)

  decimal_numeral :
      (b is_float : Bool) (r r' : Reading)
      → is_float ≡ (fraction_read.0 || b)
      → Stage (Exponent b) fraction_read.1 r
      → Stage (Tail is_float) r r'
      → Numeral r'.1.rest r'.0 (type_of is_float)
  decimal_numeral b is_float r r' e exponent tail_read = Stage-Numeral s (type_of is_float) r' (
      Stage-map ([], s) r'
        (λ w splits shape.
          Numeral.decimal fraction_read.0 b (subst (λ t. is_prefixed t ≡ false) splits plain)
            (subst (λ t. is_digit (head t) ≡ true) splits digit) shape (ap type_of e))
        (Stage-seq ([], s) fraction_read.1 r' whole-Stage
          (Stage-seq fraction_read.1 r r' exponent (subst (λ f. Stage (Tail f) r r') e tail_read))))

  bad_number : bad_exponent fraction_read.1.1.rest ≡ true → BadNumber s.rest
  bad_number bad = record {
    word = whole-Stage.word;
    exponent = fraction_read.1.1.rest;
    splits = whole-Stage.splits;
    plain = plain;
    digit = digit;
    fraction = fraction_read.0;
    decimal = whole-Stage.shape;
    bad = bad;
  }

  finish-Shaped :
      (m : Result (Bool × Reading))
      → Holds
          (bad_exponent fraction_read.1.1.rest ≡ true)
          (ReadsExponent fraction_read.0 fraction_read.1)
          m
      → Holds (BadNumber s.rest) Shaped (m >>= λ r. ok (finish_number s r))
  unfolding make_token_from
  finish-Shaped (ok (true, r)) (b, e, h) = decimal_numeral b true r r e h (Stage-none r refl)
  finish-Shaped (ok (false, r)) (b, e, h) =
      decimal_numeral b false r (read_suffix true r) e h (read_suffix-Stage true r)
  finish-Shaped (err invalid_exponent) bad = bad_number bad
  finish-Shaped (err out_of_fuel) bad = bad

  read_decimal-Shaped : Holds (BadNumber s.rest) Shaped (read_decimal s)
  unfolding read_decimal
  read_decimal-Shaped =
      finish-Shaped (read_exponent fraction_read)
        (read_exponent-Stage fraction_read.0 fraction_read.1)

prefixed-Stage :
    (letter part : ℕ → Bool) (allow : Bool)
    → letter 0 ≡ false
    → part 0 ≡ false
    → (s : Lexer) → is_zero_digit (peek s) ≡ true
    → letter (peek_next s) ≡ true
    → Stage
        (Seq (One is_zero_digit) (Seq (One letter) (Seq (Run part) (Suffix allow))))
        ([], s)
        (read_suffix allow (read_while part (grab (grab ([], s)))))
unfolding advance
prefixed-Stage letter part allow no_letter stops s z l =
    let r = grab ([], s) in
    Stage-seq ([], s) r _ (grab-Stage is_zero_digit refl ([], s) z)
      (Stage-seq r (grab r) _
        (grab-Stage letter no_letter r
          (subst (λ c. letter c ≡ true) (sym (get_or-tail s.rest 0)) l))
        (Stage-seq (grab r) (read_while part (grab r)) _ (read_while-Stage part stops (grab r))
          (read_suffix-Stage allow (read_while part (grab r)))))

read_number-Shaped :
    (s : Lexer) → is_digit (peek s) ≡ true → Holds (BadNumber s.rest) Shaped (read_number s)
unfolding read_number read_hex read_binary make_token_from
read_number-Shaped s h = elim (Bool-cases (is_zero_digit (peek s) && is_x (peek_next s))) [
  | inl hex ↦ rw hex (
      Stage-Numeral s _ _ (
        Stage-map ([], s) _ (λ w e p. Numeral.hex p)
          (prefixed-Stage is_x is_hex_part false refl (unfold is_hex_part in refl) s (ground arith)
            (ground arith))))
  | inr other ↦ elim (Bool-cases (is_zero_digit (peek s) && is_b (peek_next s))) [
    | inl binary ↦
        rw (other, binary)
          (Stage-Numeral s _ _ (
            Stage-map ([], s) _ (λ w e p. Numeral.binary p)
              (prefixed-Stage is_b is_binary_part true refl (unfold is_binary_part in refl) s
                (ground arith) (ground arith))))
    | inr decimal ↦ rw (other, decimal) (read_decimal-Shaped s (ground arith) h)
  ]
]

-- The token of a number, read from `s`.
pub record IsNumber (s : Lexer) (r : Token × Lexer) : Type 0 where
  pub is_read : IsRead s r
  pub numeral : Numeral r.1.rest r.0.value r.0.type

both :
    (s : Lexer) (m : Result (Token × Lexer))
    → Holds Unit (IsRead s) m
    → Holds (BadNumber s.rest) Shaped m
    → Holds (BadNumber s.rest) (IsNumber s) m
both s (ok r) a b = record { is_read = a; numeral = b }
both s (err invalid_exponent) a b = b
both s (err out_of_fuel) a b = b

-- Where a digit stands at the cursor, `read_number` throws if the text there is a decimal number
-- whose exponent has no digits. Else it gives a token whose value is the text that was read, from
-- the place that the token carries up to the new cursor; and that text is, in front of the rest, a
-- whole number of the grammar with the token's type: hexadecimal, binary or decimal, each part of
-- it as long as can be, with a suffix, a fraction and an exponent exactly where one stands.
pub read_number-IsNumber :
    (s : Lexer) → is_digit (peek s) ≡ true → Holds (BadNumber s.rest) (IsNumber s) (read_number s)
read_number-IsNumber s h = both s (read_number s) (read_number-IsRead s h) (read_number-Shaped s h)
