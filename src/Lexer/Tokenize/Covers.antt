-- ===== src/Lexer/Tokenize/Covers.antt =====
-- lexer/Lexer.cpp: what `tokenize` returns, against the text as blanks, comments and spellings.
use djinn_lang_v.Base.{ℕ, ◌<◌, List, [], ◌∷◌, ◌++◌, ◌≡◌, ◌⊎◌, Bytes, length}
use djinn_lang_v.Lexer.State.{Lexer}
use djinn_lang_v.Lexer.Token.{TokenType, Token}
use djinn_lang_v.Lexer.Result.{Result, Holds}
use djinn_lang_v.Lexer.Cursor.Place.{At}
use djinn_lang_v.Lexer.Trivia.Skips.{IsTrivia}
use djinn_lang_v.Lexer.Numbers.Grammar.{BadNumber}
use djinn_lang_v.Lexer.Tokenize.{tokenize_on}
use djinn_lang_v.Lexer.Tokenize.Lexemes.{Lexeme}

-- The tokens of the text `src` that stands behind `pre`.
pub data Covers : Bytes → Bytes → List Token → Type 0 where
  done :
      {pre src : Bytes} {t : Token}
      → IsTrivia [] src
      → t.type ≡ TokenType.end_of_file
      → Covers pre src (t ∷ [])
  token :
      {pre src : Bytes} (blanks w rest : Bytes) {t : Token} {ts : List Token}
      → src ≡ blanks ++ (w ++ rest)
      → IsTrivia (w ++ rest) blanks
      → Lexeme (pre ++ blanks) w rest t
      → Covers ((pre ++ blanks) ++ w) rest ts
      → Covers pre src (t ∷ ts)

-- The source throws: behind the spellings of some tokens, and blanks and comments between, stands a
-- decimal number whose exponent has no digits.
pub data Throws : Bytes → Bytes → Type 0 where
  throws_here :
      {pre src : Bytes} (blanks v : Bytes)
      → src ≡ blanks ++ v
      → IsTrivia v blanks
      → BadNumber v
      → Throws pre src
  throws_later :
      {pre src : Bytes} (blanks w rest : Bytes) {t : Token}
      → src ≡ blanks ++ (w ++ rest)
      → IsTrivia (w ++ rest) blanks
      → Lexeme (pre ++ blanks) w rest t
      → Throws ((pre ++ blanks) ++ w) rest
      → Throws pre src

-- Where the cursor may stand between two rounds.
abbrev Between : Bytes → Lexer → Type 0
Between pre s = At pre s ⊎ (s.rest ≡ [])

abbrev Round : ℕ → Type 0
Round fuel =
    (pre : Bytes) (s : Lexer)
    → length s.rest < fuel
    → Between pre s
    → Holds (Throws pre s.rest) (Covers pre s.rest) (tokenize_on fuel s)
