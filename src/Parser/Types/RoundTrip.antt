-- ===== src/Parser/Types/RoundTrip.antt =====
-- parser/Parser.cpp, `parse_type`: the tokens of a type are read back as that type.
use djinn_lang_v.Base.{
  ℕ, zero, suc, ◌+◌, ◌≤◌, Bool, true, false, List, [], ◌∷◌, Bytes, codes, same_bytes, length, ◌≡◌,
  refl, sym, subst, arith,
}
use djinn_lang_v.Lexer.Token.{TokenType, Position, Token}
use djinn_lang_v.Ast.DjinnType.{
  DjinnType, TypeList, no_types, cons, struct_type, pointer, voided, with_args,
}
use djinn_lang_v.Parser.Cursor.{Parser, Result, is, match}
use djinn_lang_v.Parser.Types.{
  Base, base_of, parse_base, parse_more, parse_type, parse_list, parse_type_at,
}
use djinn_lang_v.Parser.Types.Written.{
  Written, written, basic, struct, generic, bare_pointer, pointer_to, Others, end, comma, suffixed,
  meaning, meanings, symbol, word, suffix_tokens, spell, spell_others, begins, Valid, steps,
  steps-spell, other_steps, ValidOthers,
}
use djinn_lang_v.Parser.Types.Reads.Suffixes.{parse_suffixes-suffix_tokens}
use djinn_lang_v.Parser.Types.Reads.{
  IsEnd, Past, start, begin, Reads, Reads-bind, match-miss, match-less, match-comma, expect-greater,
  expect_any-begins,
}

module _ (p : Position) (v : Bytes) where
  abbrev sign : TokenType → Token
  sign = symbol p v

  greater-IsEnd : IsEnd (sign TokenType.greater)
  unfolding is
  greater-IsEnd = record { no_star = refl; no_bracket = refl; no_question = refl; no_less = refl }

  comma-IsEnd : IsEnd (sign TokenType.comma)
  unfolding is
  comma-IsEnd = record { no_star = refl; no_bracket = refl; no_question = refl; no_less = refl }

  -- Nothing that follows a type is a `<`.
  match-suffix_tokens :
      (n : ℕ) (arr nul : Bool) (passed : Past) (x : Token) (k : List Token)
      → IsEnd x
      → Reads p v 0
          (match TokenType.less (begin p v 0 passed (suffix_tokens p v n arr nul (x ∷ k))))
          false
          (suffix_tokens p v n arr nul (x ∷ k))
  unfolding is
  match-suffix_tokens (suc n) arr nul passed x k e =
      match-miss p v 0 TokenType.less passed _ _ refl refl
  match-suffix_tokens zero true nul passed x k e =
      match-miss p v 0 TokenType.less passed _ _ refl refl
  match-suffix_tokens zero false true passed x k e =
      match-miss p v 0 TokenType.less passed _ _ refl refl
  match-suffix_tokens zero false false passed x k e =
      match-miss p v 0 TokenType.less passed x k refl e.no_less

  abbrev pub based : ℕ → Base → Parser → Result DjinnType
  based fuel base s = parse_base (λ s. parse_type fuel s) (λ s. parse_list fuel s) base s

  -- What a type begins with decides how it goes on, and its suffixes come last.
  pub parse_type-based :
      (pending fuel n : ℕ) (arr nul : Bool) (passed : List Token) (t : Token) (l : List Token)
      (base : Base) (type : DjinnType) (x : Token) (k : List Token)
      → begins p v t ≡ true
      → base_of t ≡ base
      → 1 ≤ length l
      → IsEnd x
      → ((passed : Past)
          → Reads p v pending
              (based fuel base (begin p v 0 passed l))
              type
              (suffix_tokens p v n arr nul (x ∷ k)))
      → Reads p v pending
          (parse_type (suc fuel) (start p v 0 passed (t ∷ l)))
          (suffixed n arr nul type)
          (x ∷ k)
  unfolding parse_type
  parse_type-based pending fuel n arr nul passed t l base type x k starts e some_left ends reads =
      Reads-bind p v _ (expect_any-begins p v 0 passed t l starts some_left) λ passed'.
        Reads-bind p v _
          (subst
            (λ b.
              Reads p v pending (based fuel b (begin p v 0 passed' l)) type
                (suffix_tokens p v n arr nul (x ∷ k)))
            (sym e) (reads passed'))
          λ passed''. parse_suffixes-suffix_tokens p v pending n arr nul type passed'' x k ends

  pub suffixes_left :
      (n : ℕ) (arr nul : Bool) (x : Token) (k : List Token)
      → 1 ≤ length (suffix_tokens p v n arr nul (x ∷ k))
  suffixes_left (suc n) arr nul x k = omega arith
  suffixes_left zero true nul x k = omega arith
  suffixes_left zero false true x k = omega arith
  suffixes_left zero false false x k = omega arith

  ptr_base : base_of (word p v (codes "ptr")) ≡ Base.ptr
  unfolding base_of same_bytes is
  ptr_base = refl

  -- The loop over arguments, behind the last one and behind one with a comma.
  pub parse_list-end :
      (pending fuel : ℕ) (t : DjinnType) (s : Parser) (u : Token) (k : List Token)
      → is u.type TokenType.comma ≡ false
      → Reads p v pending (parse_type fuel s) t (u ∷ k)
      → Reads p v pending (parse_list (suc fuel) s) (cons t no_types) (u ∷ k)
  unfolding parse_type is
  parse_list-end pending fuel t s u k e h = Reads-bind p v _ h λ passed.
      Reads-bind p v (λ found s. parse_more (λ s. parse_list fuel s) found t s)
        (match-miss p v pending TokenType.comma passed u k refl e)
        λ q. record { passed = q; result = refl }

  parse_list-comma :
      (fuel : ℕ) (t : DjinnType) (ts : TypeList) (s : Parser) (k l : List Token)
      → 1 ≤ length k
      → Reads p v 0 (parse_type fuel s) t (sign TokenType.comma ∷ k)
      → ((passed : Past) → Reads p v 0 (parse_list fuel (begin p v 0 passed k)) ts l)
      → Reads p v 0 (parse_list (suc fuel) s) (cons t ts) l
  unfolding parse_type
  parse_list-comma fuel t ts s k l some_left h more = Reads-bind p v _ h λ passed.
      Reads-bind p v _ (match-comma p v 0 passed k some_left)
        λ passed'. Reads-bind p v _ (more passed') λ q. record { passed = q; result = refl }

  mutual
    unfolding meaning spell Valid steps is

    pub parse_type-spell :
        (fuel : ℕ) (w : Written) (passed : List Token) (x : Token) (k : List Token)
        → Valid p v w
        → IsEnd x
        → steps p v w ≤ fuel
        → Reads p v 0
            (parse_type fuel (start p v 0 passed (spell p v w (x ∷ k))))
            (meaning w)
            (x ∷ k)
    parse_type-spell zero (written head n arr nul) passed x k valid ends h = absurd (omega arith)
    parse_type-spell (suc fuel) (written (basic t type) n arr nul) passed x k (starts, e) ends h =
        parse_type-based 0 fuel n arr nul passed t _ (Base.simple type) type x k starts e
          (suffixes_left n arr nul x k) ends λ passed'. record { passed = passed'; result = refl }
    parse_type-spell (suc fuel) (written (struct name) n arr nul) passed x k e ends h =
        parse_type-based 0 fuel n arr nul passed (word p v name) _ (Base.struct_named name)
          (struct_type name) x k refl e (suffixes_left n arr nul x k) ends
          λ passed'.
            Reads-bind p v _ (match-suffix_tokens n arr nul passed' x k ends)
              λ passed''. record { passed = passed''; result = refl }
    parse_type-spell (suc fuel) (written bare_pointer n arr nul) passed x k e ends h =
        parse_type-based 0 fuel n arr nul passed (word p v (codes "ptr")) _ Base.ptr
          (pointer voided) x k refl ptr_base (suffixes_left n arr nul x k) ends
          λ passed'.
            Reads-bind p v _ (match-suffix_tokens n arr nul passed' x k ends)
              λ passed''. record { passed = passed''; result = refl }
    parse_type-spell (suc fuel) (written (pointer_to w) n arr nul) passed x k valid ends h =
        let l = suffix_tokens p v n arr nul (x ∷ k) in
        let k' = sign TokenType.greater ∷ l in
        parse_type-based 0 fuel n arr nul passed (word p v (codes "ptr"))
          (sign TokenType.less ∷ spell p v w k') Base.ptr (pointer (meaning w)) x k refl ptr_base
          (omega arith) ends
          λ passed'.
            Reads-bind p v _
              (match-less p v 0 passed' (spell p v w k') (omega (arith, steps-spell p v w k')))
              λ passed''.
                Reads-bind p v _
                  (parse_type-spell fuel w (passed''.0 ∷ passed''.1) (sign TokenType.greater) l
                    valid greater-IsEnd (omega arith))
                  λ passed'''.
                    Reads-bind p v _ (expect-greater p v passed''' l (suffixes_left n arr nul x k))
                      λ q. record { passed = q; result = refl }
    parse_type-spell (suc fuel) (written (generic name first others) n arr nul) passed x k
          (named, valid, all_valid) ends h =
        let l = suffix_tokens p v n arr nul (x ∷ k) in
        let k' = spell_others p v others (sign TokenType.greater ∷ l) in
        parse_type-based 0 fuel n arr nul passed (word p v name)
          (sign TokenType.less ∷ spell p v first k') (Base.struct_named name)
          (with_args (cons (meaning first) (meanings others)) (struct_type name)) x k refl named
          (omega arith) ends
          λ passed'.
            Reads-bind p v _
              (match-less p v 0 passed' (spell p v first k')
                (omega (arith, steps-spell p v first k')))
              λ passed''.
                Reads-bind p v _
                  (parse_list-spell fuel first others (passed''.0 ∷ passed''.1) l valid all_valid
                    (suffixes_left n arr nul x k) (omega arith))
                  λ passed'''.
                    Reads-bind p v _ (expect-greater p v passed''' l (suffixes_left n arr nul x k))
                      λ q. record { passed = q; result = refl }

    parse_list-spell :
        (fuel : ℕ) (w : Written) (others : Others) (passed k : List Token)
        → Valid p v w
        → ValidOthers p v others
        → 1 ≤ length k
        → suc (steps p v w + other_steps p v others) ≤ fuel
        → Reads p v 0
            (parse_list fuel (
              start p v 0 passed
                (spell p v w (spell_others p v others (sign TokenType.greater ∷ k)))))
            (cons (meaning w) (meanings others))
            (sign TokenType.greater ∷ k)
    parse_list-spell zero w others passed k valid all_valid some_left h = absurd (omega arith)
    parse_list-spell (suc fuel) w end passed k valid all_valid some_left h =
        parse_list-end 0 fuel (meaning w) _ (sign TokenType.greater) k refl (
          parse_type-spell fuel w passed (sign TokenType.greater) k valid greater-IsEnd
            (omega arith))
    parse_list-spell (suc fuel) w (comma w' others) passed k valid (valid', all_valid) some_left h =
        let k' = spell_others p v others (sign TokenType.greater ∷ k) in
        parse_list-comma fuel (meaning w) (cons (meaning w') (meanings others)) _ (spell p v w' k')
          (sign TokenType.greater ∷ k) (omega (arith, steps-spell p v w' k'))
          (parse_type-spell fuel w passed (sign TokenType.comma) (spell p v w' k') valid comma-IsEnd
            (omega arith))
          (λ passed'.
            parse_list-spell fuel w' others (passed'.0 ∷ passed'.1) k valid' all_valid some_left
              (omega arith))

  pub length-begin : (passed k : List Token) → length k ≤ length (start p v 0 passed k).rest + 1
  length-begin passed [] = omega arith
  length-begin passed (t ∷ k) = omega arith

  -- The tokens of a type, however its parts are nested, are read as that type, up to a token that
  -- cannot go on with it. (Each `>` is a token of its own, names of structs are no built-in types,
  -- and no `>` is pending.)
  pub parse_type_at-spell :
      (w : Written) (passed : List Token) (x : Token) (k : List Token)
      → Valid p v w
      → IsEnd x
      → Reads p v 0 (parse_type_at (start p v 0 passed (spell p v w (x ∷ k)))) (meaning w) (x ∷ k)
  parse_type_at-spell w passed x k valid ends =
      parse_type-spell _ w passed x k valid ends
        (omega (arith, steps-spell p v w (x ∷ k), length-begin passed (spell p v w (x ∷ k))))
