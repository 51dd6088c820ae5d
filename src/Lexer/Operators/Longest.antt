-- ===== src/Lexer/Operators/Longest.antt =====
-- lexer/Lexer.cpp, the `switch (c)` of `tokenize`, against a table of all operators.
use djinn_lang_v.Base.{
  ℕ, true, sym, subst, ◌<◌, ◌⊎◌, List, [], ◌∷◌, ◌++◌, ◌≡◌, Bytes, codes, arith, length, some,
  same_bytes,
}
use djinn_lang_v.Lexer.State.{Lexer, has, peek, advance, make_token}
use djinn_lang_v.Lexer.Token.{TokenType, Token}
use djinn_lang_v.Lexer.Keywords.{find}
use djinn_lang_v.Lexer.Operators.{read_operator}
use djinn_lang_v.Lexer.Operators.Spells.{read_operator-IsRead}

-- Every operator of the language, with its spelling.
abbrev pub operators : List (Bytes × TokenType)
operators =
    (codes "(", TokenType.lparen)
    ∷ (codes ")", TokenType.rparen)
    ∷ (codes "{", TokenType.lbrace)
    ∷ (codes "}", TokenType.rbrace)
    ∷ (codes "[", TokenType.lbracket)
    ∷ (codes "]", TokenType.rbracket)
    ∷ (codes ";", TokenType.semicolon)
    ∷ (codes ",", TokenType.comma)
    ∷ (codes "::", TokenType.colon_colon)
    ∷ (codes ":", TokenType.colon)
    ∷ (codes "...", TokenType.dot_dot_dot)
    ∷ (codes "..=", TokenType.dot_dot_equal)
    ∷ (codes "..", TokenType.dot_dot)
    ∷ (codes ".", TokenType.dot)
    ∷ (codes "+=", TokenType.plus_equal)
    ∷ (codes "++", TokenType.plus_plus)
    ∷ (codes "+", TokenType.plus)
    ∷ (codes "->", TokenType.thin_arrow)
    ∷ (codes "-=", TokenType.minus_equal)
    ∷ (codes "--", TokenType.minus_minus)
    ∷ (codes "-", TokenType.minus)
    ∷ (codes "*=", TokenType.star_equal)
    ∷ (codes "*", TokenType.star)
    ∷ (codes "/=", TokenType.slash_equal)
    ∷ (codes "/", TokenType.slash)
    ∷ (codes "@", TokenType.at)
    ∷ (codes "%=", TokenType.percent_equal)
    ∷ (codes "%", TokenType.percent)
    ∷ (codes "==", TokenType.equal_equal)
    ∷ (codes "=>", TokenType.arrow)
    ∷ (codes "=", TokenType.equal)
    ∷ (codes "!=", TokenType.bang_equal)
    ∷ (codes "!.", TokenType.bang_dot)
    ∷ (codes "!", TokenType.bang)
    ∷ (codes "??=", TokenType.question_question_equal)
    ∷ (codes "??", TokenType.question_question)
    ∷ (codes "?.", TokenType.question_dot)
    ∷ (codes "?", TokenType.question)
    ∷ (codes "<=", TokenType.less_equal)
    ∷ (codes "<<=", TokenType.less_less_equal)
    ∷ (codes "<<", TokenType.less_less)
    ∷ (codes "<", TokenType.less)
    ∷ (codes ">=", TokenType.greater_equal)
    ∷ (codes ">>=", TokenType.greater_greater_equal)
    ∷ (codes ">>", TokenType.greater_greater)
    ∷ (codes ">", TokenType.greater)
    ∷ (codes "&&", TokenType.and_and)
    ∷ (codes "&=", TokenType.ampersand_equal)
    ∷ (codes "&", TokenType.ampersand)
    ∷ (codes "||", TokenType.or_or)
    ∷ (codes "|=", TokenType.pipe_equal)
    ∷ (codes "|", TokenType.pipe)
    ∷ (codes "^=", TokenType.caret_equal)
    ∷ (codes "^", TokenType.caret)
    ∷ (codes "~", TokenType.tilde)
    ∷ []

-- The token has a spelling of the table with its type, or is one character of unknown type.
abbrev pub Known : Token → Type 0
Known t =
    (find t.value operators ≡ some t.type) ⊎ ((t.type ≡ TokenType.unknown) × (length t.value ≡ 1))

-- Where the text goes on with `w`, the switch takes more than `w`, or just `w` with the type `t`.
abbrev Takes : Bytes → TokenType → Bytes → Lexer → Type 0
Takes w t r s =
    let u = record s { rest = w ++ r } in
    let token = (read_operator (peek u) u).0 in
    (length w < length token.value) ⊎ ((token.value ≡ w) × (token.type ≡ t))

abbrev TakesAll : List (Bytes × TokenType) → Bytes → Lexer → Type 0
TakesAll [] r s = Unit
TakesAll ((w, t) ∷ m) r s = Takes w t r s × TakesAll m r s

read_operator-TakesAll : (r : Bytes) (s : Lexer) → TakesAll operators r s
unfolding read_operator make_token advance
read_operator-TakesAll r s = ground arith

read_operator-Known : (c : ℕ) (s : Lexer) → Known (read_operator c s).0
unfolding read_operator make_token find same_bytes
read_operator-Known c s = ground arith

-- Of every operator that the text begins with, the token is that one, or is longer.
abbrev pub Munch : List (Bytes × TokenType) → Bytes → Token → Type 0
Munch [] text token = Unit
Munch ((w, t) ∷ m) text token =
    ((r : Bytes)
      → text ≡ w ++ r
      → (length w < length token.value) ⊎ ((token.value ≡ w) × (token.type ≡ t)))
    × Munch m text token

TakesAll-Munch :
    (m : List (Bytes × TokenType)) (s : Lexer)
    → ((r : Bytes) → TakesAll m r s)
    → Munch m s.rest (read_operator (peek s) s).0
TakesAll-Munch [] s h = tt
TakesAll-Munch ((w, t) ∷ m) s h = (
  λ r e.
      subst
        (λ text.
          let u = record s { rest = text } in
          let token = (read_operator (peek u) u).0 in
          (length w < length token.value) ⊎ ((token.value ≡ w) × (token.type ≡ t)))
        (sym e) ((h r).0),
  TakesAll-Munch m s (λ r. (h r).1),
)

-- The token and the cursor behind it, against the text at `s`.
pub record IsLongest (s : Lexer) (r : Token × Lexer) : Type 0 where
  pub splits : s.rest ≡ r.0.value ++ r.1.rest
  pub known : Known r.0
  pub munch : Munch operators s.rest r.0

-- Where a character is left, the switch takes a piece of the text that is the token's value. It
-- is an operator of the table with its type, or one character of unknown type; and no operator
-- that the text begins with is longer, or has another type at the same length.
pub read_operator-IsLongest : (s : Lexer) → has s 0 ≡ true → IsLongest s (read_operator (peek s) s)
read_operator-IsLongest s h = record {
  splits = (read_operator-IsRead s h).grabs.reads.splits;
  known = read_operator-Known (peek s) s;
  munch = TakesAll-Munch operators s (λ r. read_operator-TakesAll r s);
}
