-- ===== src/Parser/Types/Written.antt =====
-- parser/Parser.cpp, `parse_type`: the types that a source can write, their tokens and meanings.
use djinn_lang_v.Base.{
  ℕ, zero, suc, ◌+◌, ◌*◌, ◌≤◌, Bool, true, false, ◌||◌, List, ◌∷◌, Bytes, length, codes,
  if◌then◌else◌, ◌≡◌, arith,
}
use djinn_lang_v.Lexer.Token.{TokenType, Position, Token}
use djinn_lang_v.Ast.DjinnType.{
  DjinnType, TypeList, no_types, cons, struct_type, pointer, array, voided, with_args, as_nullable,
}
use djinn_lang_v.Parser.Cursor.{is}
use djinn_lang_v.Parser.Types.{Base, base_of}

abbrev pub token_of : TokenType → Position → Bytes → Token
token_of type position value = record { position = position; type = type; value = value }

-- A type: what it begins with, the number of stars, and whether `[]` and `?` follow.
mutual
  pub data Written : Type 0 where
    written : Head → ℕ → Bool → Bool → Written

  pub data Head : Type 0 where
    basic : Token → DjinnType → Head
    struct : Bytes → Head
    generic : Bytes → Written → Others → Head
    bare_pointer : Head
    pointer_to : Written → Head

  -- The arguments behind the first.
  pub data Others : Type 0 where
    end : Others
    comma : Written → Others → Others

abbrev pub starred : ℕ → DjinnType → DjinnType
starred zero t = t
starred (suc n) t = starred n (pointer t)

abbrev pub suffixed : ℕ → Bool → Bool → DjinnType → DjinnType
suffixed n arr nul t =
    let u = if arr then array (starred n t) else starred n t in if nul then as_nullable u else u

unfoldable mutual
  pub meaning : Written → DjinnType
  meaning (written head n arr nul) = suffixed n arr nul (head_meaning head)

  pub head_meaning : Head → DjinnType
  head_meaning (basic t type) = type
  head_meaning (struct name) = struct_type name
  head_meaning (generic name first others) =
      with_args (cons (meaning first) (meanings others)) (struct_type name)
  head_meaning bare_pointer = pointer voided
  head_meaning (pointer_to w) = pointer (meaning w)

  pub meanings : Others → TypeList
  meanings end = no_types
  meanings (comma w others) = cons (meaning w) (meanings others)

-- The tokens, with those that follow. Symbols and words have some place and, for symbols, value.
module _ (p : Position) (v : Bytes) where
  abbrev pub symbol : TokenType → Token
  symbol type = token_of type p v

  abbrev pub word : Bytes → Token
  word = token_of TokenType.identifier p

  abbrev pub star_tokens : ℕ → List Token → List Token
  star_tokens zero k = k
  star_tokens (suc n) k = symbol TokenType.star ∷ star_tokens n k

  abbrev pub bracket_tokens : Bool → List Token → List Token
  bracket_tokens true k = symbol TokenType.lbracket ∷ symbol TokenType.rbracket ∷ k
  bracket_tokens false k = k

  abbrev pub question_tokens : Bool → List Token → List Token
  question_tokens true k = symbol TokenType.question ∷ k
  question_tokens false k = k

  abbrev pub suffix_tokens : ℕ → Bool → Bool → List Token → List Token
  suffix_tokens n arr nul k = star_tokens n (bracket_tokens arr (question_tokens nul k))

  unfoldable mutual
    pub spell : Written → List Token → List Token
    spell (written head n arr nul) k = spell_head head (suffix_tokens n arr nul k)

    pub spell_head : Head → List Token → List Token
    spell_head (basic t type) k = t ∷ k
    spell_head (struct name) k = word name ∷ k
    spell_head (generic name first others) k =
        word name
        ∷ symbol TokenType.less
        ∷ spell first (spell_others others (symbol TokenType.greater ∷ k))
    spell_head bare_pointer k = word (codes "ptr") ∷ k
    spell_head (pointer_to w) k =
        word (codes "ptr") ∷ symbol TokenType.less ∷ spell w (symbol TokenType.greater ∷ k)

    pub spell_others : Others → List Token → List Token
    spell_others end k = k
    spell_others (comma w others) k = symbol TokenType.comma ∷ spell w (spell_others others k)

  -- The names of structs are no built-in types, and a basic type is one token.
  abbrev pub begins : Token → Bool
  begins t = is t.type TokenType.identifier || is t.type TokenType.void || is t.type TokenType.auto

  unfoldable mutual
    pub Valid : Written → Type 0
    Valid (written head n arr nul) = ValidHead head

    pub ValidHead : Head → Type 0
    ValidHead (basic t type) = (begins t ≡ true) × (base_of t ≡ Base.simple type)
    ValidHead (struct name) = base_of (word name) ≡ Base.struct_named name
    ValidHead (generic name first others) =
        (base_of (word name) ≡ Base.struct_named name) × Valid first × ValidOthers others
    ValidHead bare_pointer = Unit
    ValidHead (pointer_to w) = Valid w

    pub ValidOthers : Others → Type 0
    ValidOthers end = Unit
    ValidOthers (comma w others) = Valid w × ValidOthers others

  -- The fuel that a type needs.
  unfoldable mutual
    pub steps : Written → ℕ
    steps (written head n arr nul) = suc (head_steps head)

    pub head_steps : Head → ℕ
    head_steps (basic t type) = 0
    head_steps (struct name) = 0
    head_steps (generic name first others) = suc (steps first + other_steps others)
    head_steps bare_pointer = 0
    head_steps (pointer_to w) = steps w

    pub other_steps : Others → ℕ
    other_steps end = 0
    other_steps (comma w others) = suc (steps w + other_steps others)

  length-star_tokens : (n : ℕ) (k : List Token) → length k ≤ length (star_tokens n k)
  length-star_tokens zero k = omega arith
  length-star_tokens (suc n) k = omega (arith, length-star_tokens n k)

  length-suffix_tokens :
      (n : ℕ) (arr nul : Bool) (k : List Token) → length k ≤ length (suffix_tokens n arr nul k)
  length-suffix_tokens n true true k =
      omega (arith, length-star_tokens n (bracket_tokens true (question_tokens true k)))
  length-suffix_tokens n true false k = omega (arith, length-star_tokens n (bracket_tokens true k))
  length-suffix_tokens n false true k = omega (arith, length-star_tokens n (question_tokens true k))
  length-suffix_tokens n false false k = length-star_tokens n k

  mutual
    unfolding steps spell

    pub steps-spell :
        (w : Written) (k : List Token) → steps w + 2 * length k + 1 ≤ 2 * length (spell w k)
    steps-spell (written head n arr nul) k = omega (
      arith,
      head_steps-spell_head head (suffix_tokens n arr nul k),
      length-suffix_tokens n arr nul k,
    )

    head_steps-spell_head :
        (h : Head) (k : List Token) → head_steps h + 2 * length k + 2 ≤ 2 * length (spell_head h k)
    head_steps-spell_head (basic t type) k = omega arith
    head_steps-spell_head (struct name) k = omega arith
    head_steps-spell_head (generic name first others) k = omega (
      arith,
      steps-spell first (spell_others others (symbol TokenType.greater ∷ k)),
      other_steps-spell_others others (symbol TokenType.greater ∷ k),
    )
    head_steps-spell_head bare_pointer k = omega arith
    head_steps-spell_head (pointer_to w) k =
        omega (arith, steps-spell w (symbol TokenType.greater ∷ k))

    other_steps-spell_others :
        (os : Others) (k : List Token)
        → other_steps os + 2 * length k ≤ 2 * length (spell_others os k)
    other_steps-spell_others end k = omega arith
    other_steps-spell_others (comma w others) k =
        omega (arith, steps-spell w (spell_others others k), other_steps-spell_others others k)
