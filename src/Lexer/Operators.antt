-- ===== src/Lexer/Operators.antt =====
-- lexer/Lexer.cpp, the `switch (c)` of `tokenize`: one function for each case that looks ahead.
pub mod Spells
pub mod Longest
use djinn_lang_v.Base.{ℕ, ◌&&◌, [], ◌∷◌, ◌==◌, if◌then◌else◌, Bytes, codes}
use djinn_lang_v.Lexer.State.{Lexer, has, peek, peek_next, peek_at, advance, make_token}
use djinn_lang_v.Lexer.Token.{TokenType, Token}

-- `tokens.push_back(make_token(t, w)); advance(); ...`
abbrev pub one : TokenType → Bytes → Lexer → Token × Lexer
one t w s = (make_token s t w, advance s)

abbrev pub two : TokenType → Bytes → Lexer → Token × Lexer
two t w s = (make_token s t w, advance (advance s))

abbrev pub three : TokenType → Bytes → Lexer → Token × Lexer
three t w s = (make_token s t w, advance (advance (advance s)))

-- `advance(); advance(); if (peek() == '=') { push; advance(); } else push`: the token is made
-- after the characters were consumed.
abbrev pub late : TokenType → Bytes → TokenType → Bytes → Lexer → Token × Lexer
late t w t' w' s =
    let s' = advance (advance s) in
    if peek s' == b'=' then (make_token s' t w, advance s') else (make_token s' t' w', s')

unfoldable pub case_colon : Lexer → Token × Lexer
case_colon s =
    if peek_next s == b':'
    then two TokenType.colon_colon (codes "::") s
    else one TokenType.colon (codes ":") s

unfoldable pub case_plus : Lexer → Token × Lexer
case_plus s =
    if peek_next s == b'='
    then two TokenType.plus_equal (codes "+=") s
    else if peek_next s == b'+'
    then two TokenType.plus_plus (codes "++") s
    else one TokenType.plus (codes "+") s

unfoldable pub case_minus : Lexer → Token × Lexer
case_minus s =
    if peek_next s == b'>'
    then two TokenType.thin_arrow (codes "->") s
    else if peek_next s == b'='
    then two TokenType.minus_equal (codes "-=") s
    else if peek_next s == b'-'
    then two TokenType.minus_minus (codes "--") s
    else one TokenType.minus (codes "-") s

unfoldable pub case_star : Lexer → Token × Lexer
case_star s =
    if peek_next s == b'='
    then two TokenType.star_equal (codes "*=") s
    else one TokenType.star (codes "*") s

unfoldable pub case_slash : Lexer → Token × Lexer
case_slash s =
    if peek_next s == b'='
    then two TokenType.slash_equal (codes "/=") s
    else one TokenType.slash (codes "/") s

unfoldable pub case_percent : Lexer → Token × Lexer
case_percent s =
    if peek_next s == b'='
    then two TokenType.percent_equal (codes "%=") s
    else one TokenType.percent (codes "%") s

unfoldable pub case_equal : Lexer → Token × Lexer
case_equal s =
    if peek_next s == b'='
    then two TokenType.equal_equal (codes "==") s
    else if peek_next s == b'>'
    then two TokenType.arrow (codes "=>") s
    else one TokenType.equal (codes "=") s

unfoldable pub case_bang : Lexer → Token × Lexer
case_bang s =
    if peek_next s == b'='
    then two TokenType.bang_equal (codes "!=") s
    else if peek_next s == b'.'
    then two TokenType.bang_dot (codes "!.") s
    else one TokenType.bang (codes "!") s

unfoldable pub case_ampersand : Lexer → Token × Lexer
case_ampersand s =
    if peek_next s == b'&'
    then two TokenType.and_and (codes "&&") s
    else if peek_next s == b'='
    then two TokenType.ampersand_equal (codes "&=") s
    else one TokenType.ampersand (codes "&") s

unfoldable pub case_pipe : Lexer → Token × Lexer
case_pipe s =
    if peek_next s == b'|'
    then two TokenType.or_or (codes "||") s
    else if peek_next s == b'='
    then two TokenType.pipe_equal (codes "|=") s
    else one TokenType.pipe (codes "|") s

unfoldable pub case_caret : Lexer → Token × Lexer
case_caret s =
    if peek_next s == b'='
    then two TokenType.caret_equal (codes "^=") s
    else one TokenType.caret (codes "^") s

unfoldable pub case_dot : Lexer → Token × Lexer
case_dot s =
    if has s 2 && peek_at s 1 == b'.' && peek_at s 2 == b'.'
    then three TokenType.dot_dot_dot (codes "...") s
    else if has s 2 && peek_at s 1 == b'.' && peek_at s 2 == b'='
    then three TokenType.dot_dot_equal (codes "..=") s
    else if peek_next s == b'.'
    then two TokenType.dot_dot (codes "..") s
    else one TokenType.dot (codes ".") s

unfoldable pub case_question : Lexer → Token × Lexer
case_question s =
    if peek_next s == b'?'
    then late TokenType.question_question_equal (codes "??=") TokenType.question_question
        (codes "??") s
    else if peek_next s == b'.'
    then two TokenType.question_dot (codes "?.") s
    else one TokenType.question (codes "?") s

unfoldable pub case_less : Lexer → Token × Lexer
case_less s =
    if peek_next s == b'='
    then two TokenType.less_equal (codes "<=") s
    else if peek_next s == b'<'
    then late TokenType.less_less_equal (codes "<<=") TokenType.less_less (codes "<<") s
    else one TokenType.less (codes "<") s

unfoldable pub case_greater : Lexer → Token × Lexer
case_greater s =
    if peek_next s == b'='
    then two TokenType.greater_equal (codes ">=") s
    else if peek_next s == b'>'
    then late TokenType.greater_greater_equal (codes ">>=") TokenType.greater_greater (codes ">>") s
    else one TokenType.greater (codes ">") s

-- The cases that look at one character only, and the default.
unfoldable pub case_single : ℕ → Lexer → Token × Lexer
case_single c s =
    if c == b'('
    then one TokenType.lparen (codes "(") s
    else if c == b')'
    then one TokenType.rparen (codes ")") s
    else if c == b'{'
    then one TokenType.lbrace (codes "{") s
    else if c == b'}'
    then one TokenType.rbrace (codes "}") s
    else if c == b'['
    then one TokenType.lbracket (codes "[") s
    else if c == b']'
    then one TokenType.rbracket (codes "]") s
    else if c == b';'
    then one TokenType.semicolon (codes ";") s
    else if c == b','
    then one TokenType.comma (codes ",") s
    else if c == b'@'
    then one TokenType.at (codes "@") s
    else if c == b'~'
    then one TokenType.tilde (codes "~") s
    else one TokenType.unknown (c ∷ []) s

unfoldable pub read_operator : ℕ → Lexer → Token × Lexer
unfolding case_single case_colon case_plus case_minus case_star case_slash case_percent case_equal
    case_bang case_ampersand case_pipe case_caret case_dot case_question case_less case_greater
read_operator c s =
    if c == b':'
    then case_colon s
    else if c == b'+'
    then case_plus s
    else if c == b'-'
    then case_minus s
    else if c == b'*'
    then case_star s
    else if c == b'/'
    then case_slash s
    else if c == b'%'
    then case_percent s
    else if c == b'='
    then case_equal s
    else if c == b'!'
    then case_bang s
    else if c == b'&'
    then case_ampersand s
    else if c == b'|'
    then case_pipe s
    else if c == b'^'
    then case_caret s
    else if c == b'.'
    then case_dot s
    else if c == b'?'
    then case_question s
    else if c == b'<'
    then case_less s
    else if c == b'>'
    then case_greater s
    else case_single c s
