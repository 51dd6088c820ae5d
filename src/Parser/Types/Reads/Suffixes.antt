-- ===== src/Parser/Types/Reads/Suffixes.antt =====
-- parser/Parser.cpp, `parse_type`: what follows a type, `*`, `[]` and `?`.
use djinn_lang_v.Base.{ℕ, zero, suc, Bool, true, false, List, [], ◌∷◌, Bytes, ◌≡◌, refl, ◌∙◌}
use djinn_lang_v.Lexer.Token.{TokenType, Position, Token}
use djinn_lang_v.Ast.DjinnType.{DjinnType, pointer}
use djinn_lang_v.Parser.Cursor.{Parser, Result, ok, is, check, advance, match, expect}
use djinn_lang_v.Parser.Types.{stars_on, stars, parse_suffixes}
use djinn_lang_v.Parser.Types.Written.{symbol, star_tokens, suffix_tokens, starred, suffixed}
use djinn_lang_v.Parser.Types.Reads.{
  IsEnd, Past, behind, begin, Reads, Reads-bind, check-begin, match-miss,
}

module _ (p : Position) (v : Bytes) (pending : ℕ) where
  abbrev mark : TokenType → Token
  mark = symbol p v

  abbrev at : Past → List Token → Parser
  at = begin p v pending

  abbrev Gives : {A : Type 0} → Result A → A → List Token → Type 0
  Gives = Reads p v pending

  stars-star :
      (t : DjinnType) (passed : Past) (u : Token) (k : List Token)
      → stars t (at passed (mark TokenType.star ∷ u ∷ k))
        ≡ stars (pointer t) (at (behind (mark TokenType.star) passed) (u ∷ k))
  unfolding stars_on check is
  stars-star t passed u k = refl

  stars-end :
      (t : DjinnType) (passed : Past) (u : Token) (k : List Token)
      → is u.type TokenType.star ≡ false
      → stars t (at passed (u ∷ k)) ≡ ok t (at passed (u ∷ k))
  unfolding stars_on
  stars-end t passed u [] e =
      rw (check-begin p v pending TokenType.star passed u [] (unfold is in refl) e) refl
  stars-end t passed u (x ∷ k) e =
      rw (check-begin p v pending TokenType.star passed u (x ∷ k) (unfold is in refl) e) refl

  stars-star_tokens :
      (n : ℕ) (t : DjinnType) (passed : Past) (u : Token) (k : List Token)
      → is u.type TokenType.star ≡ false
      → Gives (stars t (at passed (star_tokens p v n (u ∷ k)))) (starred n t) (u ∷ k)
  stars-star_tokens zero t passed u k e = record {
    passed = passed;
    result = stars-end t passed u k e;
  }
  stars-star_tokens (suc zero) t passed u k e =
      let h = stars-star_tokens zero (pointer t) (behind (mark TokenType.star) passed) u k e in
      record { passed = h.passed; result = stars-star t passed u k ∙ h.result }
  stars-star_tokens (suc (suc n)) t passed u k e =
      let h = stars-star_tokens (suc n) (pointer t) (behind (mark TokenType.star) passed) u k e in
      record {
        passed = h.passed;
        result = stars-star t passed (mark TokenType.star) (star_tokens p v n (u ∷ k)) ∙ h.result;
      }

  -- What follows a type is read up to a token that cannot go on with it.
  pub parse_suffixes-suffix_tokens :
      (n : ℕ) (arr nul : Bool) (t : DjinnType) (passed : Past) (x : Token) (k : List Token)
      → IsEnd x
      → Gives
          (parse_suffixes t (at passed (suffix_tokens p v n arr nul (x ∷ k))))
          (suffixed n arr nul t)
          (x ∷ k)
  unfolding parse_suffixes match expect check advance is
  parse_suffixes-suffix_tokens n true true t passed x k e =
      Reads-bind p v _ (stars-star_tokens n t passed (mark TokenType.lbracket) _ refl)
        (λ passed'. record { passed = _; result = refl })
  parse_suffixes-suffix_tokens n true false t passed x k e =
      Reads-bind p v _ (stars-star_tokens n t passed (mark TokenType.lbracket) _ refl) (λ passed'.
        Reads-bind p v _
          (match-miss p v pending TokenType.question
            (behind (mark TokenType.rbracket) (behind (mark TokenType.lbracket) passed')) x k refl
            e.no_question)
          (λ passed''. record { passed = passed''; result = refl }))
  parse_suffixes-suffix_tokens n false true t passed x k e =
      Reads-bind p v _ (stars-star_tokens n t passed (mark TokenType.question) _ refl)
        (λ passed'. record { passed = _; result = refl })
  parse_suffixes-suffix_tokens n false false t passed x k e =
      Reads-bind p v _ (stars-star_tokens n t passed x k e.no_star) λ passed'.
        Reads-bind p v _ (match-miss p v pending TokenType.lbracket passed' x k refl e.no_bracket)
          λ passed''.
            Reads-bind p v _
              (match-miss p v pending TokenType.question passed'' x k refl e.no_question)
              λ q. record { passed = q; result = refl }
