-- ===== src/Lexer/Strings.antt =====
-- lexer/Lexer.cpp, `read_string`: block strings and strings with escapes.
pub mod Spells
pub mod Spelling
pub mod RoundTrip
use djinn_lang_v.Base.{
  ℕ, zero, suc, Bool, ◌&&◌, not, [], ◌∷◌, ◌++◌, ◌==◌, if◌then◌else◌, Bytes, length,
}
use djinn_lang_v.Lexer.State.{Lexer, has, peek, peek_at, advance, make_token_from}
use djinn_lang_v.Lexer.Token.{TokenType, Token}
use djinn_lang_v.Lexer.Chars.{Reading, grab}

-- `pos + 2 < source.size() && source[pos + 1] == '"' && source[pos + 2] == '"'`
abbrev pub two_quotes_follow : Lexer → Bool
two_quotes_follow s = has s 2 && peek_at s 1 == b'"' && peek_at s 2 == b'"'

abbrev pub advance3 : Lexer → Lexer
advance3 s = advance (advance (advance s))

-- The loop of a block string over the characters left; both exits make the same token.
unfoldable pub read_block_on : Bytes → Reading → Reading
read_block_on [] r = r
read_block_on (c ∷ cs) (value, s) =
    let more = read_block_on cs (grab (value, s)) in
    if c == b'"' && two_quotes_follow s then (value, advance3 s) else more

-- The `switch (escaped)`.
unfoldable pub escaped_char : ℕ → ℕ
escaped_char c =
    if c == b'n'
    then b'\n'
    else if c == b't'
    then b'\t'
    else if c == b'\\'
    then b'\\'
    else if c == b'"'
    then b'"'
    else c

-- The loop of a string with escapes over the characters left. A backslash at the end of the
-- source makes `advance` return '\0' and moves the cursor past the end.
unfoldable pub read_quoted_on : Bytes → Reading → Reading
unfolding escaped_char
read_quoted_on [] r = r
read_quoted_on (c ∷ []) (value, s) =
    if not (c == b'"') && not (c == 0)
    then (if c == b'\\'
        then (value ++ escaped_char 0 ∷ [], advance (advance s))
        else grab (value, s))
    else (value, s)
read_quoted_on (c ∷ d ∷ cs) (value, s) =
    let escape = read_quoted_on cs (value ++ escaped_char d ∷ [], advance (advance s)) in
    let more = read_quoted_on (d ∷ cs) (grab (value, s)) in
    if not (c == b'"') && not (c == 0) then (if c == b'\\' then escape else more) else (value, s)

-- `if (peek() == '"') advance();`
abbrev pub close_quote : Lexer → Lexer
close_quote s = if peek s == b'"' then advance s else s

unfoldable pub read_string : Lexer → Token × Lexer
unfolding read_block_on read_quoted_on
read_string s =
    if two_quotes_follow s
    then (let (value, s') = read_block_on (advance3 s).rest ([], advance3 s) in
        (make_token_from s' TokenType.string_literal value s.line s.column, s'))
    else let (value, s') = read_quoted_on (advance s).rest ([], advance s) in
      (
        make_token_from (close_quote s') TokenType.string_literal value s.line s.column,
        close_quote s',
      )
