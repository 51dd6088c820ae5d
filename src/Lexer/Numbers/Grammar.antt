-- ===== src/Lexer/Numbers/Grammar.antt =====
-- How numbers are spelled, as languages: a word, and the text behind it.
use djinn_lang_v.Base.{
  ℕ, Bool, true, false, ◌&&◌, ◌||◌, not, [], ◌∷◌, ◌++◌, ◌==◌, ◌≡◌, Bytes, get_or, if◌then◌else◌,
}
use djinn_lang_v.Lexer.Token.{TokenType}
use djinn_lang_v.Lexer.Chars.{is_digit}
use djinn_lang_v.Lexer.Chars.Runs.{All}
use djinn_lang_v.Lexer.Numbers.{is_hex_part, is_binary_part, is_decimal_part}

abbrev pub Language : Type 1
Language = Bytes → Bytes → Type 0

-- One character.
abbrev pub One : (ℕ → Bool) → Language
One test w rest = (c : ℕ) × (w ≡ c ∷ []) × (test c ≡ true)

-- The longest run of characters, which may be empty.
abbrev pub Run : (ℕ → Bool) → Language
Run test w rest = All test w × (test (get_or rest 0 0) ≡ false)

abbrev pub Seq : Language → Language → Language
Seq P Q w rest = (u : Bytes) × (v : Bytes) × (w ≡ u ++ v) × P u (v ++ rest) × Q v rest

-- A part that is there exactly where the text begins as `starts` says.
pub data Part (starts : Bytes → Bool) (P : Language) (rest : Bytes) : Bool → Bytes → Type 0 where
  present : {w : Bytes} → starts (w ++ rest) ≡ true → P w rest → Part starts P rest true w
  absent : starts rest ≡ false → Part starts P rest false []

abbrev pub head : Bytes → ℕ
head t = get_or t 0 0

abbrev pub is_zero_digit : ℕ → Bool
is_zero_digit c = c == b'0'

abbrev pub is_x : ℕ → Bool
is_x c = c == b'x' || c == b'X'

abbrev pub is_b : ℕ → Bool
is_b c = c == b'b' || c == b'B'

abbrev pub is_e : ℕ → Bool
is_e c = c == b'e' || c == b'E'

abbrev pub is_sign : ℕ → Bool
is_sign c = c == b'+' || c == b'-'

abbrev pub is_dot : ℕ → Bool
is_dot c = c == b'.'

abbrev pub is_suffix : Bool → ℕ → Bool
is_suffix allow_c c =
    c == b'u' || c == b'i' || c == b'w' || c == b't' || c == b's' || (allow_c && c == b'c')

abbrev pub Suffix : Bool → Language
Suffix allow_c w rest =
    (b : Bool) × Part (λ t. is_suffix allow_c (head t)) (One (is_suffix allow_c)) rest b w

abbrev pub Fraction : Bool → Language
Fraction b w rest =
    Part (λ t. is_dot (head t) && is_digit (get_or t 1 0)) (Seq (One is_dot) (Run is_decimal_part))
      rest b w

abbrev pub Sign : Language
Sign w rest = (b : Bool) × Part (λ t. is_sign (head t)) (One is_sign) rest b w

abbrev pub Digits : Language
Digits w rest = (is_digit (head (w ++ rest)) ≡ true) × Run is_digit w rest

abbrev pub Exponent : Bool → Language
Exponent b w rest = Part (λ t. is_e (head t)) (Seq (One is_e) (Seq Sign Digits)) rest b w

-- Behind an exponent or a fraction there is no suffix.
abbrev pub Tail : Bool → Language
Tail true w rest = w ≡ []
Tail false w rest = Suffix true w rest

abbrev pub Decimal : Bool → Bool → Language
Decimal a b = Seq (Seq (Run is_decimal_part) (Fraction a)) (Seq (Exponent b) (Tail (a || b)))

abbrev pub is_prefixed : Bytes → Bool
is_prefixed t = is_zero_digit (head t) && (is_x (get_or t 1 0) || is_b (get_or t 1 0))

-- The number `w` with its type, in front of `rest`.
pub data Numeral (rest : Bytes) : Bytes → TokenType → Type 0 where
  hex :
      {w : Bytes}
      → Seq (One is_zero_digit) (Seq (One is_x) (Seq (Run is_hex_part) (Suffix false))) w rest
      → Numeral rest w TokenType.integer_literal
  binary :
      {w : Bytes}
      → Seq (One is_zero_digit) (Seq (One is_b) (Seq (Run is_binary_part) (Suffix true))) w rest
      → Numeral rest w TokenType.integer_literal
  decimal :
      {w : Bytes} {t : TokenType} (fraction exponent : Bool)
      → is_prefixed (w ++ rest) ≡ false
      → is_digit (head (w ++ rest)) ≡ true
      → Decimal fraction exponent w rest
      → t ≡ (if fraction || exponent then TokenType.float_literal else TokenType.integer_literal)
      → Numeral rest w t

-- An `e` or `E`, a sign or none, and then no digit.
unfoldable pub bad_exponent : Bytes → Bool
unfolding is_digit
bad_exponent v =
    is_e (head v) && not (is_digit (if is_sign (get_or v 1 0) then get_or v 2 0 else get_or v 1 0))

-- The text begins with a decimal number whose exponent has no digits.
pub record BadNumber (src : Bytes) : Type 0 where
  pub word : Bytes
  pub exponent : Bytes
  pub splits : src ≡ word ++ exponent
  pub plain : is_prefixed src ≡ false
  pub digit : is_digit (head src) ≡ true
  pub fraction : Bool
  pub decimal : Seq (Run is_decimal_part) (Fraction fraction) word exponent
  pub bad : bad_exponent exponent ≡ true
