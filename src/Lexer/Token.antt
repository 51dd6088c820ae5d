-- ===== src/Lexer/Token.antt =====
-- lexer/TokenType.h and lexer/Token.h: the kinds of tokens, positions and tokens.
use djinn_lang_v.Base.{ℕ, Bytes}

pub data TokenType : Type 0 where
  unknown end_of_file extern return struct namespace import mut if_kw else_kw for while : TokenType
  do_kw switch case default_kw break continue interface public private static unsafe this :
      TokenType
  int uint void float string auto false_kw true_kw identifier string_literal : TokenType
  integer_literal float_literal lparen rparen lbrace rbrace lbracket rbracket semicolon : TokenType
  comma plus minus plus_plus minus_minus star slash percent equal_equal bang_equal less : TokenType
  less_equal greater greater_equal bang and_and or_or ampersand pipe caret tilde less_less :
      TokenType
  greater_greater equal arrow thin_arrow plus_equal minus_equal star_equal slash_equal : TokenType
  percent_equal ampersand_equal pipe_equal caret_equal less_less_equal : TokenType
  greater_greater_equal colon colon_colon dot dot_dot dot_dot_equal dot_dot_dot at enum new :
      TokenType
  impl where_kw in_kw async await yield spawn operator const_expr const_eval const macro is :
      TokenType
  null_kw question question_dot question_question question_question_equal bang_dot throw : TokenType
  throws try require ensure : TokenType

pub record Position : Type 0 where
  pub file_id : Bytes
  pub line : ℕ
  pub column : ℕ
  pub index : ℕ

pub record Token : Type 0 where
  pub position : Position
  pub type : TokenType
  pub value : Bytes
