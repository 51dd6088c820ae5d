-- ===== src/Lexer/Identifiers.antt =====
-- lexer/Lexer.cpp, `read_identifier`: identifiers and keywords.
pub mod Words
use djinn_lang_v.Base.{ℕ, Bool, ◌||◌, [], ◌==◌, Option, none, some, Bytes}
use djinn_lang_v.Lexer.State.{Lexer, make_token_from}
use djinn_lang_v.Lexer.Token.{TokenType, Token}
use djinn_lang_v.Lexer.Chars.{is_alnum, read_while}
use djinn_lang_v.Lexer.Keywords.{keywords, find}

unfoldable pub is_word_part : ℕ → Bool
unfolding is_alnum
is_word_part c = is_alnum c || c == b'_'

abbrev pub type_or_identifier : Option TokenType → TokenType
type_or_identifier (some t) = t
type_or_identifier none = TokenType.identifier

unfoldable pub word_type : Bytes → TokenType
unfolding find
word_type value = type_or_identifier (find value keywords)

unfoldable pub read_identifier : Lexer → Token × Lexer
unfolding read_while is_word_part word_type
read_identifier s =
    let (value, s') = read_while is_word_part ([], s) in
    (make_token_from s' (word_type value) value s.line s.column, s')
