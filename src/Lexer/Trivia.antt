-- ===== src/Lexer/Trivia.antt =====
-- lexer/Lexer.cpp, `skip_whitespace`: blanks and line comments.
pub mod Skips
use djinn_lang_v.Base.{
  ℕ, zero, suc, Bool, true, false, ◌&&◌, ◌||◌, not, [], ◌∷◌, ◌==◌, if◌then◌else◌, Bytes, length,
}
use djinn_lang_v.Lexer.State.{Lexer, has, peek, peek_at, advance}

unfoldable pub is_blank : ℕ → Bool
is_blank c = c == b' ' || c == b'\t' || c == b'\n' || c == b'\r'

-- `while (peek() != '\n' && peek() != '\0') advance();` over the characters left
unfoldable pub skip_comment_on : Bytes → Lexer → Lexer
skip_comment_on [] s = s
skip_comment_on (c ∷ cs) s =
    let rest = skip_comment_on cs (advance s) in
    if not (c == b'\n') && not (c == 0) then rest else s

unfoldable pub skip_comment : Lexer → Lexer
unfolding skip_comment_on
skip_comment s = skip_comment_on s.rest s

-- The outer loop. Each round moves the cursor, so `length rest` rounds are enough.
unfoldable pub skip_on : ℕ → Lexer → Lexer
unfolding is_blank skip_comment
skip_on zero s = s
skip_on (suc fuel) s =
    let blank = skip_on fuel (advance s) in
    let comment = skip_on fuel (skip_comment s) in
    if not (has s 0)
    then s
    else if is_blank (peek s)
    then blank
    else if peek s == b'/' && has s 1 && peek_at s 1 == b'/'
    then comment
    else s

unfoldable pub skip_whitespace : Lexer → Lexer
unfolding skip_on
skip_whitespace s = skip_on (length s.rest) s
