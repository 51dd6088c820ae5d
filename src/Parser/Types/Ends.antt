-- ===== src/Parser/Types/Ends.antt =====
-- parser/Parser.cpp, `parse_type`: it ends, stays within the tokens, and takes at least one where
-- it returns.
use djinn_lang_v.Base.{
  ℕ, zero, suc, ◌+◌, ◌*◌, ◌<◌, ◌≤◌, Bool, true, false, List, [], ◌∷◌, if_cases, length, ◌≡◌, refl,
  subst, ap, Bool-cases, ◌⊎◌, inl, inr, arith,
}
use djinn_lang_v.Lexer.Token.{TokenType, Token}
use djinn_lang_v.Ast.DjinnType.{DjinnType, TypeList, struct_type, pointer, with_args}
use djinn_lang_v.Parser.Cursor.{
  Parser, Result, is, check, check_any, is_at_end, ok, ◌>>=◌, match, expect, expect_any, moved,
}
use djinn_lang_v.Parser.Types.{
  Base, base_of, stars_on, stars, brackets, parse_suffixes, parse_pointee, parse_arguments,
  parse_base, parse_more, parse_type, parse_list, parse_type_at,
}
use djinn_lang_v.Parser.Cursor.Ends.{
  HasPassed, IsClosed, IsReady, Within, Ends, Ends-bind, Ends-le, unexpected-Ends,
  advance-Ends_inside, match-Ends, expect-Ends,
}

abbrev type_starts : List TokenType
type_starts = TokenType.identifier ∷ TokenType.void ∷ TokenType.auto ∷ []

-- Where a type is parsed: the tokens end as those of the lexer do, and either one was taken before,
-- or the next one begins a type.
abbrev pub CanStart : Parser → Type 0
CanStart s =
    IsClosed s.token s.rest
    × (HasPassed s.passed
        ⊎ (check_any (TokenType.identifier ∷ TokenType.void ∷ TokenType.auto ∷ []) s ≡ true))

ready-CanStart : (s : Parser) → IsReady s → CanStart s
ready-CanStart s (passed, closed) = (closed, inl passed)

-- A token that begins a type is not the last one.
starts-inside : (s : Parser) → check_any type_starts s ≡ true → is_at_end s ≡ false
unfolding check_any check is
starts-inside s e = elim (Bool-cases (is_at_end s)) [
  | inl ended ↦ absurd (no (rw ended at e))
  | inr inside ↦ inside
]
  where
    no : false ≡ true → ⊥
    no q = cc

taken :
    (s : Parser)
    → check_any type_starts s ≡ false
    → HasPassed s.passed ⊎ (check_any type_starts s ≡ true)
    → HasPassed s.passed
taken s other (inl passed) = passed
taken s other (inr begins) = absurd (cc (other, begins))

expect_any-Ends : (s : Parser) → CanStart s → Ends (length s.rest) (expect_any type_starts s)
unfolding expect_any
expect_any-Ends s (closed, start) = elim (Bool-cases (check_any type_starts s)) [
  | inl begins ↦ rw begins (advance-Ends_inside s closed (starts-inside s begins))
  | inr other ↦ rw other (unexpected-Ends (length s.rest) s (taken s other start, closed))
]

-- No `*` stands at the end.
no_star : (s : Parser) → s.token.type ≡ TokenType.end_of_file → check TokenType.star s ≡ false
unfolding check is
no_star s ended = rw ended refl

stars_on-Ends :
    (ts : List Token) (t : DjinnType) (s : Parser)
    → ts ≡ s.rest
    → HasPassed s.passed
    → IsClosed s.token ts
    → Ends (suc (length s.rest)) (stars_on ts t s)
unfolding stars_on
stars_on-Ends [] t s e passed closed =
    rw (no_star s closed) (omega arith, (passed, subst (IsClosed s.token) e closed))
stars_on-Ends (x ∷ xs) t s e passed closed =
    if_cases (Ends (suc (length s.rest))) (check TokenType.star s)
      (λ _.
        Ends-le (suc (length xs)) (suc (length s.rest)) (stars_on xs (pointer t) (moved s x xs))
          (omega (arith, ap length e)) (stars_on-Ends xs (pointer t) (moved s x xs) refl tt closed))
      (λ _. (omega arith, (passed, subst (IsClosed s.token) e closed)))

brackets-Ends :
    (found : Bool) (t : DjinnType) (s : Parser)
    → IsReady s
    → Ends (suc (length s.rest)) (brackets found t s)
brackets-Ends false t s ready = (omega arith, ready)
brackets-Ends true t s ready =
    Ends-bind (suc (length s.rest)) (suc (length s.rest)) (expect TokenType.rbracket s) _
      (expect-Ends TokenType.rbracket s ready) (λ _ s' h. h)

-- An operation that takes no token away, within a bound on the tokens left.
Ends-Within :
    {A : Type 0} (n : ℕ) (m : Parser → Result A)
    → ((s : Parser) → IsReady s → Ends (suc (length s.rest)) (m s))
    → (s : Parser) → Within n s
    → Ends n (m s)
Ends-Within n m m-Ends s (h, ready) =
    Ends-le (suc (length s.rest)) n (m s) (omega arith) (m-Ends s ready)

parse_suffixes-Ends :
    (t : DjinnType) (s : Parser) → IsReady s → Ends (suc (length s.rest)) (parse_suffixes t s)
unfolding parse_suffixes
parse_suffixes-Ends t s (passed, closed) =
    Ends-bind n n (stars t s) _ (stars_on-Ends s.rest t s refl passed closed) λ t p h.
      Ends-bind n n (match TokenType.lbracket p) _
        (Ends-Within n (match TokenType.lbracket) (match-Ends TokenType.lbracket) p h)
        λ found q k.
          Ends-bind n n (brackets found t q) _
            (Ends-Within n (brackets found t) (brackets-Ends found t) q k)
            λ t r l.
              Ends-bind n n (match TokenType.question r) _
                (Ends-Within n (match TokenType.question) (match-Ends TokenType.question) r l)
                λ _ _ j. j
  where
    n : ℕ
    n = suc (length s.rest)

-- What was parsed between `<` and `>`.
behind-Ends :
    {A : Type 0} (n k : ℕ) (f : A → DjinnType) (m : Result A)
    → k < n
    → Ends k m
    → Ends n (m >>= λ a s. expect TokenType.greater s >>= λ _ s. ok (f a) s)
behind-Ends n k f m short h = Ends-bind k n m _ h λ a s (few, ready).
    Ends-bind n n (expect TokenType.greater s) _
      (Ends-Within n (expect TokenType.greater) (expect-Ends TokenType.greater) s
        (omega (arith, few, short), ready))
      λ _ _ j. j

module _ (one : Parser → Result DjinnType) (many : Parser → Result TypeList) (n : ℕ)
    (one-Ends : (s : Parser) → Within n s → Ends (length s.rest) (one s))
    (many-Ends : (s : Parser) → Within n s → Ends (length s.rest) (many s)) where
  less-Ends : (s : Parser) → Within n s → Ends n (match TokenType.less s)
  less-Ends = Ends-Within n (match TokenType.less) (match-Ends TokenType.less)

  parse_pointee-Ends : (found : Bool) (s : Parser) → Within n s → Ends n (parse_pointee one found s)
  parse_pointee-Ends false s h = h
  parse_pointee-Ends true s h = behind-Ends n (length s.rest) pointer (one s) h.0 (one-Ends s h)

  parse_arguments-Ends :
      (found : Bool) (t : DjinnType) (s : Parser)
      → Within n s
      → Ends n (parse_arguments many found t s)
  parse_arguments-Ends false t s h = h
  parse_arguments-Ends true t s h =
      behind-Ends n (length s.rest) (λ args. with_args args t) (many s) h.0 (many-Ends s h)

  parse_base-Ends : (base : Base) (s : Parser) → Within n s → Ends n (parse_base one many base s)
  parse_base-Ends (Base.simple t) s h = h
  parse_base-Ends Base.suffix_error s h = tt
  parse_base-Ends Base.throws s h = tt
  parse_base-Ends Base.ptr s h =
      Ends-bind n n (match TokenType.less s) _ (less-Ends s h) parse_pointee-Ends
  parse_base-Ends (Base.struct_named name) s h =
      Ends-bind n n (match TokenType.less s) _ (less-Ends s h)
        λ found s' h'. parse_arguments-Ends found (struct_type name) s' h'

  parse_more-Ends :
      (found : Bool) (t : DjinnType) (s : Parser) → Within n s → Ends n (parse_more many found t s)
  parse_more-Ends false t s h = h
  parse_more-Ends true t s h =
      Ends-bind (length s.rest) n (many s) _ (many-Ends s h)
        λ ts s' (few, ready). (omega (arith, few, h.0), ready)

mutual
  unfolding parse_type

  parse_type-Ends_with :
      (fuel : ℕ) (s : Parser)
      → 2 * length s.rest + 1 ≤ fuel
      → CanStart s
      → Ends (length s.rest) (parse_type fuel s)
  parse_type-Ends_with zero s h start = absurd (omega arith)
  parse_type-Ends_with (suc fuel) s h start = Ends-bind n n _ _ (expect_any-Ends s start) λ t p k.
      Ends-bind n n _ _
        (parse_base-Ends (λ s. parse_type fuel s) (λ s. parse_list fuel s) n
          (λ s k. parse_type-Ends_with fuel s (omega (arith, k.0)) (ready-CanStart s k.1))
          (λ s k. parse_list-Ends_with fuel s (omega (arith, k.0)) k.1) (base_of t) p k)
        λ t q l. Ends-Within n (parse_suffixes t) (parse_suffixes-Ends t) q l
    where
      n : ℕ
      n = length s.rest

  parse_list-Ends_with :
      (fuel : ℕ) (s : Parser)
      → 2 * length s.rest + 2 ≤ fuel
      → IsReady s
      → Ends (length s.rest) (parse_list fuel s)
  parse_list-Ends_with zero s h ready = absurd (omega arith)
  parse_list-Ends_with (suc fuel) s h ready =
      Ends-bind n n _ _ (parse_type-Ends_with fuel s (omega arith) (ready-CanStart s ready))
        λ t p k.
          Ends-bind n n _ _ (Ends-Within n (match TokenType.comma) (match-Ends TokenType.comma) p k)
            λ found q l.
              parse_more-Ends (λ s. parse_type fuel s) (λ s. parse_list fuel s) n
                (λ s k. parse_type-Ends_with fuel s (omega (arith, k.0)) (ready-CanStart s k.1))
                (λ s k. parse_list-Ends_with fuel s (omega (arith, k.0)) k.1) found t q l
    where
      n : ℕ
      n = length s.rest

-- On tokens that end in the one of the end of the file, where one was taken before or the next one
-- begins a type, parse_type always ends, and never reads beyond the first or the last token. It
-- returns a type, and has then taken at least one token; or it reports an error; or it is left by
-- an exception of `std::stol`.
pub parse_type_at-Ends : (s : Parser) → CanStart s → Ends (length s.rest) (parse_type_at s)
parse_type_at-Ends s start = parse_type-Ends_with (2 * length s.rest + 1) s (omega arith) start
