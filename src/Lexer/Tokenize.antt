-- ===== src/Lexer/Tokenize.antt =====
-- lexer/Lexer.cpp, `tokenize`: the loop over the source.
pub mod Lexemes
pub mod Covers
use djinn_lang_v.Base.{ℕ, zero, suc, ◌||◌, not, List, [], ◌∷◌, ◌==◌, if◌then◌else◌, Bytes, length}
use djinn_lang_v.Lexer.State.{Lexer, start, has, peek, advance, make_token}
use djinn_lang_v.Lexer.Token.{TokenType, Token}
use djinn_lang_v.Lexer.Trivia.{skip_whitespace}
use djinn_lang_v.Lexer.Chars.{is_digit, is_alpha}
use djinn_lang_v.Lexer.Result.{Result, ok, err, ◌>>=◌, out_of_fuel}
use djinn_lang_v.Lexer.Strings.{read_string}
use djinn_lang_v.Lexer.Numbers.{read_number}
use djinn_lang_v.Lexer.Identifiers.{read_identifier}
use djinn_lang_v.Lexer.Operators.{read_operator}

-- The body of the loop, behind `skip_whitespace`.
unfoldable pub next_token : Lexer → Result (Token × Lexer)
unfolding is_digit is_alpha read_string read_number read_identifier read_operator
next_token s =
    if peek s == b'"'
    then ok (read_string s)
    else if is_digit (peek s)
    then read_number s
    else if is_alpha (peek s) || peek s == b'_'
    then ok (read_identifier s)
    else ok (read_operator (peek s) s)

unfoldable pub end_token : Lexer → Token
unfolding make_token
end_token s = make_token s TokenType.end_of_file []

unfoldable pub tokenize_on : ℕ → Lexer → Result (List Token)
unfolding skip_whitespace advance next_token end_token
tokenize_on zero s = err out_of_fuel
tokenize_on (suc fuel) s =
    let s' = skip_whitespace s in
    let more = next_token s' >>= λ r. tokenize_on fuel r.1 >>= λ ts. ok (r.0 ∷ ts) in
    if not (has s 0)
    then ok (end_token s ∷ [])
    else if not (has s' 0)
    then ok (end_token s' ∷ [])
    else more

-- Each round but the last consumes a character: the length of the source and one more suffice.
unfoldable pub tokenize : Bytes → Bytes → Result (List Token)
unfolding tokenize_on start
tokenize source file_id = tokenize_on (suc (length source)) (start source file_id)
