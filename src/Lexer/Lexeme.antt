-- ===== src/Lexer/Lexeme.antt =====
-- What a token says of the text that it was read from: its value, and the place where it starts.
use djinn_lang_v.Base.{ℕ, ◌≤◌, ◌≡◌, length}
use djinn_lang_v.Lexer.State.{Lexer, advance_n}
use djinn_lang_v.Lexer.Token.{TokenType, Token}
use djinn_lang_v.Lexer.Chars.Grabs.{Grabs}

-- How many characters were consumed before the token of an operator is made.
abbrev pub lateness : TokenType → ℕ
lateness TokenType.less_less = 2
lateness TokenType.less_less_equal = 2
lateness TokenType.greater_greater = 2
lateness TokenType.greater_greater_equal = 2
lateness TokenType.question_question = 2
lateness TokenType.question_question_equal = 2
lateness _ = 0

-- The line and the column of a token are those of a cursor.
abbrev pub PlacedAt : Lexer → Token → Type 0
PlacedAt s t = (t.position.line ≡ s.line) × (t.position.column ≡ s.column)

abbrev pub Placed : Lexer → Token → Type 0
Placed s t = PlacedAt (advance_n (lateness t.type) s) t

-- The value of a token is the text that was read for it, and is not empty.
pub record IsRead (s : Lexer) (r : Token × Lexer) : Type 0 where
  pub grabs : Grabs s (r.0.value, r.1)
  pub placed : Placed s r.0
  pub behind : lateness r.0.type ≤ length r.0.value
