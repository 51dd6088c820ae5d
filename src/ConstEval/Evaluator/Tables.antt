-- ===== src/ConstEval/Evaluator/Tables.antt =====
-- evaluator/ConstEvaluator.cpp, `ConstEvaluator`: the table of constants, and its copy in a compiler.
use djinn_lang_v.Base.{
  List, [], ◌∷◌, ◌++◌, none, some, Bytes, same_bytes, same_bytes_iff, ◌≡◌, ◌≢◌, refl, sym, ap, ◌∙◌,
  subst, append_assoc, append-nil, Bool-cases, inl, inr,
}
use djinn_lang_v.Base.Maps.{lookup, insert_or_assign}
use djinn_lang_v.ConstEval.Value.{Doubles, ConstValue}
use djinn_lang_v.ConstEval.Compiler.{Compiler, new_compiler}
use djinn_lang_v.ConstEval.Compiler.Functions.{define_constant}
use djinn_lang_v.ConstEval.Evaluator.{
  ConstEvaluator, with_constants, with_functions, sync_to_compiler,
}

module _ {ℓ} {A : Type ℓ} where
  -- No key occurs twice.
  abbrev pub Distinct : List (Bytes × A) → Type ℓ
  Distinct [] = Unit
  Distinct ((k, _) ∷ m) = (lookup k m ≡ none) × Distinct m

  insert_or_assign-fresh :
      (k : Bytes) (a : A) (m : List (Bytes × A))
      → lookup k m ≡ none
      → insert_or_assign k a m ≡ m ++ (k, a) ∷ []
  unfolding lookup insert_or_assign
  insert_or_assign-fresh k a [] e = refl
  insert_or_assign-fresh k a ((j, b) ∷ m) e = elim (Bool-cases (same_bytes j k)) [
    | inl same ↦ absurd (taken (rw same at e))
    | inr other ↦
        rw other (ap (λ rest. (j, b) ∷ rest) (insert_or_assign-fresh k a m (rw other at e)))
  ]
    where
      taken : some b ≢ none
      taken q = cc

  present : (k : Bytes) (a : A) (xs ys : List (Bytes × A)) → lookup k (xs ++ (k, a) ∷ ys) ≢ none
  unfolding lookup
  present k a [] ys e = taken (rw ((same_bytes_iff k k).1 refl) at e)
    where
      taken : some a ≢ none
      taken q = cc
  present k a ((j, b) ∷ xs) ys e = elim (Bool-cases (same_bytes j k)) [
    | inl same ↦ taken (rw same at e)
    | inr other ↦ present k a xs ys (rw other at e)
  ]
    where
      taken : some b ≢ none
      taken q = cc

  Distinct-lookup :
      (k : Bytes) (a : A) (xs ys : List (Bytes × A))
      → Distinct (xs ++ (k, a) ∷ ys)
      → lookup k xs ≡ none
  unfolding lookup
  Distinct-lookup k a [] ys d = refl
  Distinct-lookup k a ((j, b) ∷ xs) ys (fresh, d) = elim (Bool-cases (same_bytes j k)) [
    | inl same ↦ absurd (
        present k a xs ys
          (subst (λ i. lookup i (xs ++ (k, a) ∷ ys) ≡ none) ((same_bytes_iff j k).0 same) fresh))
    | inr other ↦ rw other (Distinct-lookup k a xs ys d)
  ]

module _ (F : Doubles) where
  -- The copy of a table with distinct keys is the table, behind what was there.
  with_constants-constants :
      (table : List (Bytes × ConstValue F)) (c : Compiler F)
      → Distinct (c.constants ++ table)
      → (with_constants F table c).constants ≡ c.constants ++ table
  unfolding define_constant
  with_constants-constants [] c d = sym (append-nil c.constants)
  with_constants-constants ((name, value) ∷ table) c d =
      with_constants-constants table (define_constant F name value c) (subst Distinct (sym moved) d)
      ∙ moved
    where
      moved :
          insert_or_assign name value c.constants ++ table ≡ c.constants ++ (name, value) ∷ table
      moved =
          ap (λ t. t ++ table)
            (insert_or_assign-fresh name value c.constants
              (Distinct-lookup name value c.constants table d))
          ∙ append_assoc c.constants ((name, value) ∷ []) table

  with_constants-pending_functions :
      (table : List (Bytes × ConstValue F)) (c : Compiler F)
      → (with_constants F table c).pending_functions ≡ c.pending_functions
  unfolding define_constant
  with_constants-pending_functions [] c = refl
  with_constants-pending_functions ((name, value) ∷ table) c =
      with_constants-pending_functions table (define_constant F name value c)

  pub sync_to_compiler-constants :
      (evaluator : ConstEvaluator F)
      → evaluator.functions ≡ []
      → Distinct evaluator.constants
      → (sync_to_compiler F evaluator (new_compiler F)).constants ≡ evaluator.constants
  unfolding sync_to_compiler
  sync_to_compiler-constants evaluator e d =
      ap
        (λ functions.
          (with_functions F functions
            (with_constants F evaluator.constants (new_compiler F))).constants)
        e
      ∙ with_constants-constants evaluator.constants (new_compiler F) d

  pub sync_to_compiler-pending_functions :
      (evaluator : ConstEvaluator F)
      → evaluator.functions ≡ []
      → (sync_to_compiler F evaluator (new_compiler F)).pending_functions ≡ []
  unfolding sync_to_compiler
  sync_to_compiler-pending_functions evaluator e =
      ap
        (λ functions.
          (with_functions F functions
            (with_constants F evaluator.constants (new_compiler F))).pending_functions)
        e
      ∙ with_constants-pending_functions evaluator.constants (new_compiler F)
