-- ===== src/Parser/Types/Reads.antt =====
-- parser/Parser.cpp: what the functions of the cursor do at the tokens of a type.
pub mod Suffixes
use djinn_lang_v.Base.{
  ℕ, zero, suc, ◌≤◌, Bool, true, false, List, [], ◌∷◌, Bytes, length, if◌then◌else◌, ◌≡◌, refl, sym,
  ap, ◌∙◌, subst, Bool-cases, inl, inr, arith,
}
use djinn_lang_v.Lexer.Token.{TokenType, Position, Token}
use djinn_lang_v.Ast.DjinnType.{DjinnType, pointer}
use djinn_lang_v.Parser.Cursor.{
  Parser, Result, ok, unexpected, failed, DiagnosticCode, ◌>>=◌, is, is-exact, check, check_any,
  advance, previous, match, expect, expect_any,
}
use djinn_lang_v.Parser.Types.{stars_on, stars, parse_suffixes}
use djinn_lang_v.Parser.Types.Written.{
  symbol, star_tokens, suffix_tokens, starred, suffixed, begins,
}

-- The token behind a type: none that would go on with it.
pub record IsEnd (t : Token) : Type 0 where
  pub no_star : is t.type TokenType.star ≡ false
  pub no_bracket : is t.type TokenType.lbracket ≡ false
  pub no_question : is t.type TokenType.question ≡ false
  pub no_less : is t.type TokenType.less ≡ false

-- Some tokens, the last in front.
abbrev pub Past : Type 0
Past = Token × List Token

abbrev pub behind : Token → Past → Past
behind t past = (t, past.0 ∷ past.1)

module _ (p : Position) (v : Bytes) where
  -- The cursor at the first of the tokens `k`, with `pending` pending `>`.
  abbrev pub start : ℕ → List Token → List Token → Parser
  start pending passed [] = record {
    passed = passed;
    token = symbol p v TokenType.end_of_file;
    rest = [];
    pending_greater = pending;
  }
  start pending passed (t ∷ k) = record {
    passed = passed;
    token = t;
    rest = k;
    pending_greater = pending;
  }

  -- The same, behind at least one token.
  abbrev pub begin : ℕ → Past → List Token → Parser
  begin pending past k = start pending (past.0 ∷ past.1) k

  -- The result is `a`, and the cursor then stands at the first of `k`.
  pub record Reads {A : Type 0} (pending : ℕ) (m : Result A) (a : A) (k : List Token) : Type 0 where
    pub passed : Past
    pub result : m ≡ ok a (begin pending passed k)

  module _ {A B : Type 0} where
    pub Reads-bind :
        {m : Result A} (f : A → Parser → Result B) {i j : ℕ} {a : A} {b : B} {k l : List Token}
        → Reads i m a k
        → ((passed : Past) → Reads j (f a (begin i passed k)) b l)
        → Reads j (m >>= f) b l
    Reads-bind f h g =
        let h' = g h.passed in
        record { passed = h'.passed; result = ap (λ r. r >>= f) h.result ∙ h'.result }

module _ (p : Position) (v : Bytes) (pending : ℕ) where
  abbrev mark : TokenType → Token
  mark = symbol p v

  abbrev at : Past → List Token → Parser
  at = begin p v pending

  abbrev Gives : {A : Type 0} → Result A → A → List Token → Type 0
  Gives = Reads p v pending

  advance-start :
      (passed : List Token) (t : Token) (k : List Token)
      → is t.type TokenType.end_of_file ≡ false
      → 1 ≤ length k
      → advance (start p v pending passed (t ∷ k)) ≡ ok t (at (t, passed) k)
  unfolding advance
  advance-start passed t [] e h = absurd (omega arith)
  advance-start passed t (u ∷ k) e h = rw e refl

  advance-begin :
      (passed : Past) (t : Token) (k : List Token)
      → is t.type TokenType.end_of_file ≡ false
      → 1 ≤ length k
      → advance (at passed (t ∷ k)) ≡ ok t (at (behind t passed) k)
  advance-begin passed t k e h = advance-start (passed.0 ∷ passed.1) t k e h

  pub check-begin :
      (type : TokenType) (passed : Past) (t : Token) (k : List Token)
      → is type TokenType.greater ≡ false
      → is t.type type ≡ false
      → check type (at passed (t ∷ k)) ≡ false
  unfolding check
  check-begin type passed t k e f = elim (Bool-cases (is t.type TokenType.end_of_file)) [
    | inl ended ↦ rw (e, ended) refl
    | inr inside ↦ rw (e, inside, f) refl
  ]

  pub match-miss :
      (type : TokenType) (passed : Past) (t : Token) (k : List Token)
      → is type TokenType.greater ≡ false
      → is t.type type ≡ false
      → Gives (match type (at passed (t ∷ k))) false (t ∷ k)
  unfolding match
  match-miss type passed t k e f = record { passed = passed; result = missed }
    where
      missed : match type (at passed (t ∷ k)) ≡ ok false (at passed (t ∷ k))
      missed = elim (Bool-cases (is t.type TokenType.end_of_file)) [
        | inl ended ↦ rw (e, ended) refl
        | inr inside ↦ rw (e, inside, f) refl
      ]

  pub match-less :
      (passed : Past) (k : List Token)
      → 1 ≤ length k
      → Gives (match TokenType.less (at passed (mark TokenType.less ∷ k))) true k
  unfolding match check is
  match-less passed k h = record {
    passed = behind (mark TokenType.less) passed;
    result = ap (λ r. r >>= λ _ s. ok true s) (advance-begin passed (mark TokenType.less) k refl h);
  }

  pub match-comma :
      (passed : Past) (k : List Token)
      → 1 ≤ length k
      → Gives (match TokenType.comma (at passed (mark TokenType.comma ∷ k))) true k
  unfolding match check is
  match-comma passed k h = record {
    passed = behind (mark TokenType.comma) passed;
    result =
        ap (λ r. r >>= λ _ s. ok true s) (advance-begin passed (mark TokenType.comma) k refl h);
  }

  abbrev typed : TokenType → Token → Token
  typed type t = record t { type = type }

  abbrev type_starts : List TokenType
  type_starts = TokenType.identifier ∷ TokenType.void ∷ TokenType.auto ∷ []

  abbrev Takes : List Token → Token → List Token → TokenType → Type 0
  Takes passed t k type =
      Gives (expect_any type_starts (start p v pending passed (typed type t ∷ k))) (typed type t) k

  took :
      (type : TokenType) (passed : List Token) (t : Token) (k : List Token)
      → check_any type_starts (start p v pending passed (typed type t ∷ k)) ≡ true
      → is type TokenType.end_of_file ≡ false
      → 1 ≤ length k
      → Takes passed t k type
  unfolding expect_any
  took type passed t k e inside h = record {
    passed = (typed type t, passed);
    result =
        ap
          (λ b.
            if b
            then advance (start p v pending passed (typed type t ∷ k))
            else unexpected (start p v pending passed (typed type t ∷ k)))
          e
        ∙ advance-start passed (typed type t) k inside h;
  }

  -- A token that begins a type is taken.
  pub expect_any-begins :
      (passed : List Token) (t : Token) (k : List Token)
      → begins p v t ≡ true
      → 1 ≤ length k
      → Gives (expect_any type_starts (start p v pending passed (t ∷ k))) t k
  unfolding check_any check is
  expect_any-begins passed t k e h = elim (Bool-cases (is t.type TokenType.identifier)) [
    | inl same ↦
        subst (Takes passed t k) (sym (is-exact t.type TokenType.identifier same))
          (took TokenType.identifier passed t k refl refl h)
    | inr other ↦ elim (Bool-cases (is t.type TokenType.void)) [
      | inl same ↦
          subst (Takes passed t k) (sym (is-exact t.type TokenType.void same))
            (took TokenType.void passed t k refl refl h)
      | inr other' ↦
          subst (Takes passed t k) (sym (is-exact t.type TokenType.auto (rw (other, other') at e)))
            (took TokenType.auto passed t k refl refl h)
    ]
  ]

module _ (p : Position) (v : Bytes) where
  pub expect-greater :
      (passed : Past) (k : List Token)
      → 1 ≤ length k
      → Reads p v 0
          (expect TokenType.greater (begin p v 0 passed (symbol p v TokenType.greater ∷ k)))
          (symbol p v TokenType.greater)
          k
  unfolding expect check is
  expect-greater passed k h = record {
    passed = behind (symbol p v TokenType.greater) passed;
    result = advance-begin p v 0 passed (symbol p v TokenType.greater) k refl h;
  }

  -- A `>>` closes one list of arguments, and a `>` is pending behind it.
  pub expect-greater_greater :
      (passed : Past) (k : List Token)
      → 1 ≤ length k
      → Reads p v 1
          (expect TokenType.greater (begin p v 0 passed (symbol p v TokenType.greater_greater ∷ k)))
          (symbol p v TokenType.greater_greater)
          k
  unfolding expect check is
  expect-greater_greater passed k h = record {
    passed = behind (symbol p v TokenType.greater_greater) passed;
    result = advance-begin p v 1 passed (symbol p v TokenType.greater_greater) k refl h;
  }

  -- A pending `>` closes a list without a token.
  pub expect-pending :
      (passed : Past) (k : List Token)
      → Reads p v 0 (expect TokenType.greater (begin p v 1 passed k)) (passed.0) k
  unfolding expect is previous
  expect-pending passed [] = record { passed = passed; result = refl }
  expect-pending passed (x ∷ k) = record { passed = passed; result = refl }
