-- ===== src/Lexer/Result.antt =====
-- lexer/Lexer.cpp: what the loop can end with, the exception of `read_number` included.
use djinn_lang_v.Base.{◌≡◌, refl}

-- `out_of_fuel` is the model's own, for the loop of `tokenize`.
pub data Error : Type 0 where
  invalid_exponent out_of_fuel : Error

pub data Result {ℓ} (A : Type ℓ) : Type ℓ where
  ok : A → Result A
  err : Error → Result A

infixl 5 ◌>>=◌
abbrev pub ◌>>=◌ {ℓ κ} : {A : Type ℓ} {B : Type κ} → Result A → (A → Result B) → Result B
ok a >>= f = f a
err e >>= f = err e

pub Result-cases {ℓ} :
    {A : Type ℓ} (m : Result A)
    → (B : Type ℓ) → ((a : A) → m ≡ ok a → B)
    → ((e : Error) → m ≡ err e → B)
    → B
Result-cases (ok a) B f g = f a refl
Result-cases (err e) B f g = g e refl

-- `P` holds of a value, and `E` of the exception; the fuel lasts.
abbrev pub Holds {ℓ} : {A : Type ℓ} → Type 0 → (A → Type 0) → Result A → Type 0
Holds E P (ok a) = P a
Holds E P (err invalid_exponent) = E
Holds E P (err out_of_fuel) = ⊥
