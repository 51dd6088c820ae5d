-- ===== src/Ast/DjinnType/Names/Digits.antt =====
-- parser/ast/Type.h: what `std::to_string` gives for a number.
use djinn_lang_v.Base.{
  ℕ, zero, suc, ◌+◌, ◌/◌, ◌%◌, ◌<◌, true, false, ◌∷◌, Bytes, ltb, Bool-cases, inl, inr, ◌≡◌, refl,
  ap, ◌∙◌, arith,
}
use djinn_lang_v.Lexer.Chars.{is_digit}
use djinn_lang_v.ConstEval.Compiler.Literals.{digits_on}
use djinn_lang_v.ConstEval.Compiler.Literals.Decimals.{digits_on-digit}
use djinn_lang_v.Ast.TypeNames.{last, all_digits}
use djinn_lang_v.Ast.DjinnType.Names.{digits_before}

-- What the digits of `n` before `acc` are.
pub record Digits (n : ℕ) (acc text : Bytes) : Type 0 where
  pub first : ℕ
  pub others : Bytes
  pub small : first < 10
  pub is : text ≡ (b'0' + first) ∷ others
  pub all : all_digits acc ≡ true → all_digits text ≡ true
  pub value : digits_on 10 0 text ≡ digits_on 10 n acc

all_digits-digit :
    (d : ℕ) (s : Bytes) → d < 10 → all_digits s ≡ true → all_digits ((b'0' + d) ∷ s) ≡ true
unfolding all_digits is_digit
all_digits-digit d s small e = ground arith

pub digits_before-Digits :
    (fuel n : ℕ) (acc : Bytes) → n < fuel → Digits n acc (digits_before fuel n acc)
unfolding digits_before
digits_before-Digits zero n acc h = absurd (omega arith)
digits_before-Digits (suc fuel) n acc h = elim (Bool-cases (ltb n 10)) [
  | inl last ↦ rw last (record {
    first = n;
    others = acc;
    small = below last;
    is = refl;
    all = all_digits-digit n acc (below last);
    value = digits_on-digit 0 n acc (below last) ∙ ap (λ m. digits_on 10 m acc) (omega arith);
  })
  | inr more ↦
      let d = digits_before-Digits fuel (n / 10) ((b'0' + n % 10) ∷ acc) (smaller more) in
      rw more (record {
        first = d.first;
        others = d.others;
        small = d.small;
        is = d.is;
        all = λ e. d.all (all_digits-digit (n % 10) acc (omega arith) e);
        value =
            d.value
            ∙ digits_on-digit (n / 10) (n % 10) acc (omega arith)
            ∙ ap (λ m. digits_on 10 m acc) (omega arith);
      })
]
  where
    below : ltb n 10 ≡ true → n < 10
    below e = ground arith

    smaller : ltb n 10 ≡ false → n / 10 < fuel
    smaller e = ground arith
