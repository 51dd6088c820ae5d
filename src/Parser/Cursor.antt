-- ===== src/Parser/Cursor.antt =====
-- parser/Parser.cpp: the tokens that `Parser` reads, and the functions that move over them.
pub mod Ends
use djinn_lang_v.Base.{
  ℕ, ◌+◌, ◌-◌, Bool, true, false, ◌&&◌, ◌||◌, List, [], ◌∷◌, ltb, if◌then◌else◌, ◌≡◌,
}
use djinn_lang_v.Lexer.Token.{TokenType, Token}

TokenType-discrete : Discrete TokenType
TokenType-discrete = hlevel

abbrev holds : {A : Type 0} → Dec A → Bool
holds (yes _) = true
holds (no _) = false

unfoldable pub is : TokenType → TokenType → Bool
unfolding TokenType-discrete
is t u = holds (TokenType-discrete t u)

pub is-exact : (t u : TokenType) → is t u ≡ true → t ≡ u
unfolding is
is-exact t u e = go (TokenType-discrete t u) e
  where
    go : (d : Dec (t ≡ u)) → holds d ≡ true → t ≡ u
    go (yes q) f = q
    go (no n) f = cc

-- `tokens`, in three parts: those before `current`, the last in front, the one at `current`, and
-- those behind it.
pub record Parser : Type 0 where
  pub passed : List Token
  pub token : Token
  pub rest : List Token
  pub pending_greater : ℕ

-- The diagnostics of the functions below.
pub data DiagnosticCode : Type 0 where
  unexpected_token invalid_type : DiagnosticCode

-- A call returns, reports an error behind the token before `current`, is left by an exception of
-- `std::stol`, or has no defined behaviour: an index beyond the tokens. `unfinished` is the end of
-- the fuel.
pub data Result {ℓ} (A : Type ℓ) : Type ℓ where
  ok : A → Parser → Result A
  failed : DiagnosticCode → Parser → Result A
  out_of_range undefined unfinished : Result A

infixl 5 ◌>>=◌
abbrev pub ◌>>=◌ {ℓ κ} : {A : Type ℓ} {B : Type κ} → Result A → (A → Parser → Result B) → Result B
ok a s >>= f = f a s
failed c s >>= f = failed c s
out_of_range >>= f = out_of_range
undefined >>= f = undefined
unfinished >>= f = unfinished

abbrev pub is_at_end : Parser → Bool
is_at_end s = is s.token.type TokenType.end_of_file

abbrev pub previous_of : List Token → Parser → Result Token
previous_of [] s = undefined
previous_of (t ∷ _) s = ok t s

unfoldable pub previous : Parser → Result Token
previous s = previous_of s.passed s

-- `current++`; then `peek` must have a token to read.
abbrev pub moved : Parser → Token → List Token → Parser
moved s t ts = record s { passed = s.token ∷ s.passed; token = t; rest = ts }

abbrev pub step_to : List Token → Parser → Result Token
step_to [] s = undefined
step_to (t ∷ ts) s = ok s.token (moved s t ts)

unfoldable pub advance : Parser → Result Token
unfolding is previous
advance s = if is_at_end s then previous s else step_to s.rest s

abbrev pub is_pending : TokenType → Parser → Bool
is_pending type s = is type TokenType.greater && ltb 0 s.pending_greater

unfoldable pub check : TokenType → Parser → Bool
unfolding is
check type s =
    if is_pending type s then true else if is_at_end s then false else is s.token.type type

unfoldable pub check_any : List TokenType → Parser → Bool
unfolding check
check_any [] s = false
check_any (type ∷ types) s = check type s || check_any types s

abbrev pub one_fewer : Parser → Parser
one_fewer s = record s { pending_greater = s.pending_greater - 1 }

unfoldable pub match : TokenType → Parser → Result Bool
unfolding is check advance
match type s =
    if is_pending type s
    then ok true (one_fewer s)
    else if check type s
    then (advance s >>= λ _ s. ok true s)
    else ok false s

-- Where no token was taken before it, there is none for the place of the error.
abbrev pub unexpected : Parser → Result Token
unexpected s = previous s >>= λ _ s. failed DiagnosticCode.unexpected_token s

-- The `expect` for one type: a `>>` counts as two `>`, of which the second is left pending.
unfoldable pub expect : TokenType → Parser → Result Token
unfolding is check previous advance
expect type s =
    if is_pending type s
    then previous (one_fewer s)
    else if check type s
    then advance s
    else if is type TokenType.greater && check TokenType.greater_greater s
    then advance (record s { pending_greater = s.pending_greater + 1 })
    else unexpected s

-- The `expect` for a list of types.
unfoldable pub expect_any : List TokenType → Parser → Result Token
unfolding check_any previous advance
expect_any types s = if check_any types s then advance s else unexpected s
