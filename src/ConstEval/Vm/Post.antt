-- ===== src/ConstEval/Vm/Post.antt =====
-- What holds behind an instruction that goes on: a predicate transformer for `Step`.
use djinn_lang_v.ConstEval.Vm.{Step, next, finished, raised, undefined, ◌>>=◌}

-- `P` holds of the result if the instruction goes on.
abbrev pub Post {ℓ} : {V : Type 0} {A : Type ℓ} → (A → Type 0) → Step V A → Type 0
Post P (next a) = P a
Post P _ = Unit

pub Post-bind {ℓ κ} :
    {V : Type 0} {A : Type ℓ} {B : Type κ} (P : A → Type 0) (Q : B → Type 0) (m : Step V A)
    (f : A → Step V B)
    → Post P m
    → ((a : A) → P a → Post Q (f a))
    → Post Q (m >>= f)
Post-bind P Q (next a) f h k = k a h
Post-bind P Q (finished v) f h k = tt
Post-bind P Q (raised e) f h k = tt
Post-bind P Q undefined f h k = tt

pub Post-any {ℓ} : {V : Type 0} {A : Type ℓ} (m : Step V A) → Post (λ _. Unit) m
Post-any (next a) = tt
Post-any (finished v) = tt
Post-any (raised e) = tt
Post-any undefined = tt
