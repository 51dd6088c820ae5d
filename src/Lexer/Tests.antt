-- ===== src/Lexer/Tests.antt =====
-- Runs of the lexer on small sources, and its theorems at concrete inputs.
use Prim.Native.String.{String}
use djinn_lang_v.Base.{List, [], ◌∷◌, ◌++◌, ◌≡◌, inl, false, refl, map, codes, Bytes, arith}
use djinn_lang_v.Lexer.State.{Lexer, peek, make_token, make_token_from}
use djinn_lang_v.Lexer.Token.{TokenType}
use djinn_lang_v.Lexer.Result.{Result, ok, err, ◌>>=◌, invalid_exponent, Holds}
use djinn_lang_v.Lexer.Tokenize.{tokenize}
use djinn_lang_v.Lexer.Tokenize.Covers.{Covers}
use djinn_lang_v.Lexer.Trivia.{skip_whitespace}
use djinn_lang_v.Lexer.Trivia.Skips.{Skips, skip_whitespace-Skips}
use djinn_lang_v.Lexer.Chars.{is_digit}
use djinn_lang_v.Lexer.Strings.{read_string}
use djinn_lang_v.Lexer.Strings.RoundTrip.{write_text, read_string-write_text}
use djinn_lang_v.Lexer.Numbers.{read_number}
use djinn_lang_v.Lexer.Numbers.Grammar.{BadNumber}
use djinn_lang_v.Lexer.Numbers.Shapes.{IsNumber, read_number-IsNumber}
use djinn_lang_v.Lexer.Lexeme.{IsRead}
use djinn_lang_v.Lexer.Identifiers.{is_word_part, word_type, read_identifier}
use djinn_lang_v.Lexer.Identifiers.Words.{read_identifier-longest}
use djinn_lang_v.Lexer.Chars.Runs.{All}
use djinn_lang_v.Lexer.Operators.{read_operator}
use djinn_lang_v.Lexer.Operators.Longest.{IsLongest, read_operator-IsLongest}
use djinn_lang_v.Lexer.Operators.Spells.{read_operator-IsRead}

types : String → Result (List TokenType)
unfolding tokenize make_token make_token_from
types source = tokenize (codes source) [] >>= λ ts. ok (map (λ t. t.type) ts)

types_statement :
    types "i32 x = 0x1f;"
    ≡ ok (
        TokenType.identifier ∷ TokenType.identifier ∷ TokenType.equal ∷ TokenType.integer_literal
        ∷ TokenType.semicolon ∷ TokenType.end_of_file ∷ [])
unfolding types
types_statement = refl

types_shift :
    types "a<<=\"x\\n\"// c\nreturn 1.5e3 ..= 2u"
    ≡ ok (
        TokenType.identifier ∷ TokenType.less_less_equal ∷ TokenType.string_literal
        ∷ TokenType.return ∷ TokenType.float_literal ∷ TokenType.dot_dot_equal
        ∷ TokenType.integer_literal ∷ TokenType.end_of_file ∷ [])
unfolding types
types_shift = refl

types_exponent : types "1e" ≡ err invalid_exponent
unfolding types
types_exponent = refl

-- A cursor in front of the text, on the third line.
abbrev before : Bytes → Lexer
before text = record { file_id = []; rest = text; pos = 20; line = 3; column = 5 }

read_string-write_text_example :
    ((read_string (record (before []) {
      rest = b'"' ∷ (write_text (codes "a\"\n\\") ++ b'"' ∷ codes ";");
    })).0.value
      ≡ codes "a\"\n\\")
    × ((read_string (record (before []) {
      rest = b'"' ∷ (write_text (codes "a\"\n\\") ++ b'"' ∷ codes ";");
    })).1.rest
        ≡ codes ";")
read_string-write_text_example =
    read_string-write_text (codes "a\"\n\\") (codes ";") (before []) (ground arith)
      (inl (omega arith))

skip_whitespace-Skips_example :
    (t : Bytes) × Skips
      (before (codes " //c\n\tx"))
      t
      (skip_whitespace (before (codes " //c\n\tx")))
skip_whitespace-Skips_example = skip_whitespace-Skips (before (codes " //c\n\tx"))

read_number-IsNumber_example :
    Holds
      (BadNumber (codes "0x1F_0u+"))
      (IsNumber (before (codes "0x1F_0u+")))
      (read_number (before (codes "0x1F_0u+")))
read_number-IsNumber_example =
    read_number-IsNumber (before (codes "0x1F_0u+")) (unfold is_digit in refl)

abbrev word : Lexer
word = before (codes "for2 ")

read_identifier-longest_example :
    (word.rest ≡ (read_identifier word).0.value ++ (read_identifier word).1.rest)
    × All is_word_part (read_identifier word).0.value
    × (is_word_part (peek (read_identifier word).1) ≡ false)
    × ((read_identifier word).0.type ≡ word_type (read_identifier word).0.value)
read_identifier-longest_example = read_identifier-longest word (unfold is_word_part in refl)

read_operator-IsLongest_example :
    IsLongest
      (before (codes "..=1"))
      (read_operator (peek (before (codes "..=1"))) (before (codes "..=1")))
read_operator-IsLongest_example = read_operator-IsLongest (before (codes "..=1")) refl

read_operator-IsRead_example :
    IsRead
      (before (codes ">>=1"))
      (read_operator (peek (before (codes ">>=1"))) (before (codes ">>=1")))
read_operator-IsRead_example = read_operator-IsRead (before (codes ">>=1")) refl
