-- ===== src/Lexer/Identifiers/Words.antt =====
-- lexer/Lexer.cpp: `read_identifier` against the text.
use djinn_lang_v.Base.{
  true, false, List, [], ◌∷◌, ◌≡◌, refl, sym, ap, ◌∙◌, inl, inr, Bytes, ◌++◌, arith, subst,
  Bool-cases, same_bytes,
}
use djinn_lang_v.Lexer.State.{Lexer, peek, make_token_from, advance_n}
use djinn_lang_v.Lexer.Token.{TokenType}
use djinn_lang_v.Lexer.Chars.{read_while}
use djinn_lang_v.Lexer.Chars.Runs.{All, read_while-Runs}
use djinn_lang_v.Lexer.Chars.Grabs.{read_while-Grabs_first}
use djinn_lang_v.Lexer.Keywords.{keywords, find}
use djinn_lang_v.Lexer.Lexeme.{lateness, IsRead}
use djinn_lang_v.Lexer.Identifiers.{is_word_part, word_type, type_or_identifier, read_identifier}

abbrev Table : Type 0
Table = List (Bytes × TokenType)

-- No keyword is one of the operators whose token is made late.
NoneLate : Table → Type 0
NoneLate [] = Unit
NoneLate ((_, t) ∷ m) = (lateness t ≡ 0) × NoneLate m

find-NoneLate : (w : Bytes) (m : Table) → NoneLate m → lateness (type_or_identifier (find w m)) ≡ 0
unfolding find NoneLate
find-NoneLate w [] h = refl
find-NoneLate w ((k, t) ∷ m) (h, hs) = elim (Bool-cases (same_bytes k w)) [
  | inl same ↦ rw same h
  | inr other ↦ rw other (find-NoneLate w m hs)
]

keywords-NoneLate : NoneLate keywords
unfolding NoneLate
keywords-NoneLate = ground arith

word_type-late : (w : Bytes) → lateness (word_type w) ≡ 0
unfolding word_type
word_type-late w = find-NoneLate w keywords keywords-NoneLate

pub read_identifier-IsRead :
    (s : Lexer) → is_word_part (peek s) ≡ true → IsRead s (read_identifier s)
unfolding read_identifier make_token_from advance_n
read_identifier-IsRead s h = record {
  grabs = read_while-Grabs_first is_word_part (unfold is_word_part in refl) s h;
  placed = rw (word_type-late (read_while is_word_part ([], s)).0) (refl, refl);
  behind = omega (arith, word_type-late (read_while is_word_part ([], s)).0);
}

-- Where a word starts, the token's value is the longest run of word characters, and its type is
-- the one of `word_type`.
pub read_identifier-longest :
    (s : Lexer)
    → is_word_part (peek s) ≡ true
    → (s.rest ≡ (read_identifier s).0.value ++ (read_identifier s).1.rest)
      × All is_word_part (read_identifier s).0.value
      × (is_word_part (peek (read_identifier s).1) ≡ false)
      × ((read_identifier s).0.type ≡ word_type (read_identifier s).0.value)
unfolding read_identifier make_token_from advance_n
read_identifier-longest s h =
    let (w, runs) = read_while-Runs is_word_part (unfold is_word_part in refl) [] s in
    (
      runs.reads.splits
          ∙ ap (λ v. v ++ (read_while is_word_part ([], s)).1.rest) (sym runs.appended),
      subst (All is_word_part) (sym runs.appended) runs.passes,
      runs.ends,
      refl,
    )
