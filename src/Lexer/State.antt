-- ===== src/Lexer/State.antt =====
-- lexer/Lexer.h and lexer/Lexer.cpp: the members of the class `Lexer`, and the primitives on them.
-- `rest` is `source` from `pos` on: `pos + k < source.size()` reads `ltb k (length rest)`, and
-- `source[pos + k]` reads `get_or rest k 0`. Past the end both are out of reach: `pos` moves on, `rest` stays empty.
use djinn_lang_v.Base.{
  ℕ, zero, suc, ◌+◌, ◌%◌, ◌^◌, Bytes, ltb, ◌==◌, if◌then◌else◌, Bool, length, get_or, tail,
}
use djinn_lang_v.Lexer.Token.{TokenType, Token}

pub record Lexer : Type 0 where
  pub file_id : Bytes
  pub rest : Bytes
  pub pos : ℕ
  pub line : ℕ
  pub column : ℕ

-- The constructor.
unfoldable pub start : Bytes → Bytes → Lexer
start source file_id = record { file_id = file_id; rest = source; pos = 0; line = 1; column = 1 }

-- `pos + k < source.size()`
abbrev pub has : Lexer → ℕ → Bool
has s k = ltb k (length s.rest)

-- `source[pos + k]`, and the '\0' of `peek` past the end.
abbrev pub peek_at : Lexer → ℕ → ℕ
peek_at s k = get_or s.rest k 0

abbrev pub peek : Lexer → ℕ
peek s = peek_at s 0

abbrev pub peek_next : Lexer → ℕ
peek_next s = peek_at s 1

-- `line` and `column` are `uint32_t`. The character that `advance` returns is `peek` before it.
unfoldable pub advance : Lexer → Lexer
advance s = record s {
  rest = tail s.rest;
  pos = s.pos + 1;
  line = if peek s == b'\n' then (s.line + 1) % 2 ^ 32 else s.line;
  column = if peek s == b'\n' then 1 else (s.column + 1) % 2 ^ 32;
}

unfoldable pub advance_n : ℕ → Lexer → Lexer
advance_n zero s = s
advance_n (suc n) s = advance_n n (advance s)

-- `make_token(type, value)`: the position of the cursor.
unfoldable pub make_token : Lexer → TokenType → Bytes → Token
make_token s t value = record {
  position = record {
    file_id = s.file_id;
    line = s.line;
    column = s.column;
    index = s.pos % 2 ^ 32;
  };
  type = t;
  value = value;
}

-- `make_token(type, value, startLine, startColumn)`: the index is the length of the value.
unfoldable pub make_token_from : Lexer → TokenType → Bytes → ℕ → ℕ → Token
make_token_from s t value start_line start_column = record {
  position = record {
    file_id = s.file_id;
    line = start_line;
    column = start_column;
    index = length value % 2 ^ 32;
  };
  type = t;
  value = value;
}
