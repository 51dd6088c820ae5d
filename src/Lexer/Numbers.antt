-- ===== src/Lexer/Numbers.antt =====
-- lexer/Lexer.cpp, `read_number`: hexadecimal, binary, decimal and floating literals.
pub mod Grammar
pub mod Reads
pub mod Stages
pub mod Shapes
use djinn_lang_v.Base.{ℕ, Bool, true, false, ◌&&◌, ◌||◌, not, [], ◌==◌, if◌then◌else◌, Bytes}
use djinn_lang_v.Lexer.State.{Lexer, peek, peek_next, make_token_from}
use djinn_lang_v.Lexer.Token.{TokenType, Token}
use djinn_lang_v.Lexer.Chars.{is_digit, is_xdigit, Reading, grab, read_while}
use djinn_lang_v.Lexer.Result.{Result, ok, err, ◌>>=◌, invalid_exponent}

abbrev pub is_separator : ℕ → Bool
is_separator c = c == b'_' || c == b'\''

unfoldable pub is_hex_part : ℕ → Bool
unfolding is_xdigit
is_hex_part c = is_xdigit c || is_separator c

unfoldable pub is_binary_part : ℕ → Bool
is_binary_part c = c == b'0' || c == b'1' || is_separator c

unfoldable pub is_decimal_part : ℕ → Bool
unfolding is_digit
is_decimal_part c = is_digit c || is_separator c

-- The lambda `readSuffix`.
unfoldable pub read_suffix : Bool → Reading → Reading
read_suffix allow_c r =
    let c = peek r.1 in
    if c == b'u' || c == b'i' || c == b'w' || c == b't' || c == b's' || (allow_c && c == b'c')
    then grab r
    else r

unfoldable pub read_hex : Reading → Reading
unfolding read_while is_hex_part read_suffix
read_hex r = read_suffix false (read_while is_hex_part (grab (grab r)))

unfoldable pub read_binary : Reading → Reading
unfolding read_while is_binary_part read_suffix
read_binary r = read_suffix true (read_while is_binary_part (grab (grab r)))

-- `if (peek() == '.' && isdigit(peekNext())) ...`, with `isFloat`.
unfoldable pub read_fraction : Reading → Bool × Reading
unfolding is_digit is_decimal_part read_while
read_fraction r =
    if peek r.1 == b'.' && is_digit (peek_next r.1)
    then (true, read_while is_decimal_part (grab r))
    else (false, r)

unfoldable pub read_sign : Reading → Reading
read_sign r = if peek r.1 == b'+' || peek r.1 == b'-' then grab r else r

-- `if (peek() == 'e' || peek() == 'E') ...`
unfoldable pub read_exponent : Bool × Reading → Result (Bool × Reading)
unfolding is_digit read_sign read_while
read_exponent (is_float, r) =
    if peek r.1 == b'e' || peek r.1 == b'E'
    then (let r' = read_sign (grab r) in
        if not (is_digit (peek r'.1))
        then err invalid_exponent
        else ok (true, read_while is_digit r'))
    else ok (is_float, r)

-- The token of what was read from `s` on.
abbrev pub number_token : Lexer → TokenType → Reading → Token × Lexer
number_token s t (value, s') = (make_token_from s' t value s.line s.column, s')

abbrev pub finish_number : Lexer → Bool × Reading → Token × Lexer
finish_number s (true, r) = number_token s TokenType.float_literal r
finish_number s (false, r) = number_token s TokenType.integer_literal (read_suffix true r)

unfoldable pub read_decimal : Lexer → Result (Token × Lexer)
unfolding read_while is_decimal_part read_fraction read_exponent read_suffix
read_decimal s = read_exponent (read_fraction (read_while is_decimal_part ([], s))) >>= λ r.
    ok (finish_number s r)

unfoldable pub read_number : Lexer → Result (Token × Lexer)
unfolding read_hex read_binary read_decimal
read_number s =
    if peek s == b'0' && (peek_next s == b'x' || peek_next s == b'X')
    then ok (number_token s TokenType.integer_literal (read_hex ([], s)))
    else if peek s == b'0' && (peek_next s == b'b' || peek_next s == b'B')
    then ok (number_token s TokenType.integer_literal (read_binary ([], s)))
    else read_decimal s
