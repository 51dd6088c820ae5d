-- ===== src/Lexer/Tokenize/Lexemes.antt =====
-- lexer/Lexer.cpp: one round of the loop of `tokenize`, against the spelling of one token.
use djinn_lang_v.Base.{
  ℕ, Bool, false, not, ◌&&◌, get_or, ◌<◌, ◌||◌, true, ◌++◌, ◌==◌, ◌≡◌, inl, inr, refl, ◌∙◌, subst,
  append-nil, Bytes, arith, Bool-cases, length, take,
}
use djinn_lang_v.Lexer.State.{Lexer, has, peek}
use djinn_lang_v.Lexer.Token.{TokenType, Token}
use djinn_lang_v.Lexer.Result.{Result, ok, err, invalid_exponent, out_of_fuel, Holds}
use djinn_lang_v.Lexer.Cursor.{Passes, Reads-Passes}
use djinn_lang_v.Lexer.Cursor.Place.{At, At-take, line_after, column_after}
use djinn_lang_v.Lexer.Lexeme.{lateness, IsRead}
use djinn_lang_v.Lexer.Chars.{is_digit, is_alpha}
use djinn_lang_v.Lexer.Strings.Spelling.{Quoted, IsString, read_string-IsString}
use djinn_lang_v.Lexer.Numbers.Grammar.{Numeral, BadNumber}
use djinn_lang_v.Lexer.Numbers.Shapes.{IsNumber, read_number-IsNumber}
use djinn_lang_v.Lexer.Chars.Runs.{All}
use djinn_lang_v.Lexer.Identifiers.{is_word_part, word_type, read_identifier}
use djinn_lang_v.Lexer.Identifiers.Words.{read_identifier-IsRead, read_identifier-longest}
use djinn_lang_v.Lexer.Operators.{read_operator}
use djinn_lang_v.Lexer.Operators.Spells.{read_operator-IsRead}
use djinn_lang_v.Lexer.Operators.Longest.{operators, Known, Munch, read_operator-IsLongest}
use djinn_lang_v.Lexer.Tokenize.{next_token}

abbrev is_word_start : ℕ → Bool
is_word_start c = is_alpha c || c == b'_'

abbrev is_other : ℕ → Bool
is_other c = not (c == b'"') && not (is_digit c) && not (is_word_start c)

-- What token `t` says of its spelling `w`, in front of `rest`: each kind of token has its own
-- first characters, extent, type and value.
pub data Spelled (w rest : Bytes) (t : Token) : Type 0 where
  literal : t.type ≡ TokenType.string_literal → Quoted rest w t.value → Spelled w rest t
  numeral : t.value ≡ w → Numeral rest w t.type → Spelled w rest t
  of_word :
      t.value ≡ w
      → is_word_start (get_or (w ++ rest) 0 0) ≡ true
      → All is_word_part w
      → is_word_part (get_or rest 0 0) ≡ false
      → t.type ≡ word_type w
      → Spelled w rest t
  of_operator :
      t.value ≡ w
      → is_other (get_or (w ++ rest) 0 0) ≡ true
      → Known t
      → Munch operators (w ++ rest) t
      → Spelled w rest t

-- Token `t` is spelled `w`, behind `pre` and in front of `rest`.
pub record Lexeme (pre w rest : Bytes) (t : Token) : Type 0 where
  pub not_empty : 0 < length w
  pub spelled : Spelled w rest t
  pub line : t.position.line ≡ line_after (pre ++ take (lateness t.type) w)
  pub column : t.position.column ≡ column_after (pre ++ take (lateness t.type) w)

pub record Takes (pre : Bytes) (s : Lexer) (r : Token × Lexer) : Type 0 where
  pub spelling : Bytes
  pub passes : Passes s spelling r.1
  pub lexeme : Lexeme pre spelling r.1.rest r.0

IsRead-Takes :
    (pre : Bytes) (s : Lexer) (r : Token × Lexer)
    → At pre s
    → IsRead s r
    → Spelled r.0.value r.1.rest r.0
    → Takes pre s r
IsRead-Takes pre s r a h spelled =
    let place =
      At-take (lateness r.0.type) pre r.0.value r.1.rest s h.behind h.grabs.reads.splits a in
    record {
      spelling = r.0.value;
      passes = Reads-Passes h.grabs.reads;
      lexeme = record {
        not_empty = h.grabs.some_read;
        spelled = spelled;
        line = h.placed.0 ∙ place.line;
        column = h.placed.1 ∙ place.column;
      };
    }

word_start : (c : ℕ) → (is_alpha c || c == b'_') ≡ true → is_word_part c ≡ true
unfolding is_alpha is_word_part
word_start c h = ground arith

-- The token of a word, and that of an operator, against the text.
word-Takes :
    (pre : Bytes) (s : Lexer)
    → At pre s
    → is_word_start (peek s) ≡ true
    → Takes pre s (read_identifier s)
word-Takes pre s a h =
    let (splits, passes, ends, typed) = read_identifier-longest s (word_start (peek s) h) in
    IsRead-Takes pre s (read_identifier s) a (read_identifier-IsRead s (word_start (peek s) h))
      (of_word refl (subst (λ t. is_word_start (get_or t 0 0) ≡ true) splits h) passes ends typed)

operator-Takes :
    (pre : Bytes) (s : Lexer)
    → At pre s
    → has s 0 ≡ true
    → is_other (peek s) ≡ true
    → Takes pre s (read_operator (peek s) s)
operator-Takes pre s a more h =
    let longest = read_operator-IsLongest s more in
    IsRead-Takes pre s (read_operator (peek s) s) a (read_operator-IsRead s more) (
      of_operator refl (subst (λ t. is_other (get_or t 0 0) ≡ true) longest.splits h) longest.known
        (subst (λ t. Munch operators t (read_operator (peek s) s).0) longest.splits longest.munch))

Quoted-not_empty : {rest w v : Bytes} → Quoted rest w v → 0 < length w
Quoted-not_empty (Quoted.block v u) = omega arith
Quoted-not_empty (Quoted.open_block v e u) = omega arith
Quoted-not_empty (Quoted.closed esc) = omega arith
Quoted-not_empty (Quoted.open_text esc e) = omega arith

IsString-Takes :
    (pre : Bytes) (s : Lexer) (r : Token × Lexer) → At pre s → IsString s r → Takes pre s r
IsString-Takes pre s r a h = record {
  spelling = h.spelling;
  passes = h.passes;
  lexeme = record {
    not_empty = Quoted-not_empty h.quoted;
    spelled = literal h.is_literal h.quoted;
    line = rw (h.is_literal, append-nil) (h.line ∙ a.line);
    column = rw (h.is_literal, append-nil) (h.column ∙ a.column);
  };
}

number-Takes :
    (pre : Bytes) (s : Lexer) (m : Result (Token × Lexer))
    → At pre s
    → Holds (BadNumber s.rest) (IsNumber s) m
    → Holds (BadNumber s.rest) (Takes pre s) m
number-Takes pre s (ok r) a h = IsRead-Takes pre s r a h.is_read (numeral refl h.numeral)
number-Takes pre s (err invalid_exponent) a h = h
number-Takes pre s (err out_of_fuel) a h = h

-- Each round of the loop takes the spelling of one token, whatever character it begins with.
pub next_token-Takes :
    (pre : Bytes) (s : Lexer)
    → At pre s
    → has s 0 ≡ true
    → Holds (BadNumber s.rest) (Takes pre s) (next_token s)
unfolding next_token
next_token-Takes pre s a h = elim (Bool-cases (peek s == b'"')) [
  | inl quote ↦ rw quote (IsString-Takes pre s _ a (read_string-IsString s quote))
  | inr no_quote ↦ elim (Bool-cases (is_digit (peek s))) [
    | inl digit ↦ rw (no_quote, digit) (number-Takes pre s _ a (read_number-IsNumber s digit))
    | inr no_digit ↦ elim (Bool-cases (is_alpha (peek s) || peek s == b'_')) [
      | inl word ↦ rw (no_quote, no_digit, word) (word-Takes pre s a word)
      | inr other ↦ rw (no_quote, no_digit, other) (operator-Takes pre s a h (ground arith))
    ]
  ]
]
