-- ===== src/Base/Maps.antt =====
-- A `std::map` with strings for keys, as the list of its entries. Their order is observed nowhere.
use djinn_lang_v.Base.{
  true, false, List, [], ◌∷◌, Option, none, some, Bytes, same_bytes, same_bytes_iff, if◌then◌else◌,
  ◌≡◌, ◌≢◌, subst, refl, Bool-cases, inl, inr, arith, ◌⊎◌,
}

distinct : (i j k : Bytes) → j ≢ k → same_bytes i j ≡ true → same_bytes i k ≡ false
distinct i j k n e = ground (arith, same_bytes_iff i j, same_bytes_iff i k)

module _ {ℓ} {A : Type ℓ} where
  unfoldable pub lookup : Bytes → List (Bytes × A) → Option A
  lookup k [] = none
  lookup k ((j, a) ∷ m) = if same_bytes j k then some a else lookup k m

  -- `insert_or_assign`, and `m[k] = a`.
  unfoldable pub insert_or_assign : Bytes → A → List (Bytes × A) → List (Bytes × A)
  insert_or_assign k a [] = (k, a) ∷ []
  insert_or_assign k a ((j, b) ∷ m) =
      let rest = insert_or_assign k a m in if same_bytes j k then (j, a) ∷ m else (j, b) ∷ rest

  unfoldable pub erase : Bytes → List (Bytes × A) → List (Bytes × A)
  erase k [] = []
  erase k ((j, b) ∷ m) = let rest = erase k m in if same_bytes j k then rest else (j, b) ∷ rest

  -- A change through the pointer that a lookup gives, if it is not null.
  unfoldable pub update : Bytes → (A → A) → List (Bytes × A) → List (Bytes × A)
  update k f [] = []
  update k f ((j, b) ∷ m) =
      let rest = update k f m in if same_bytes j k then (j, f b) ∷ m else (j, b) ∷ rest

  unfoldable pub update_all : (A → A) → List (Bytes × A) → List (Bytes × A)
  update_all f [] = []
  update_all f ((j, b) ∷ m) = (j, f b) ∷ update_all f m

  -- `P` holds of every value.
  abbrev pub Values {κ} : (A → Type κ) → List (Bytes × A) → Type κ
  Values P [] = Unit
  Values P ((_, a) ∷ m) = P a × Values P m

  module _ {κ} (P : A → Type κ) where
    pub Values-lookup :
        (k : Bytes) (m : List (Bytes × A)) {a : A} → Values P m → lookup k m ≡ some a → P a
    unfolding lookup
    Values-lookup k [] h e = cc
    Values-lookup k ((j, b) ∷ m) {a} (p, h) e = elim (Bool-cases (same_bytes j k)) [
      | inl same ↦ subst P (some_inj (rw same at e)) p
      | inr other ↦ Values-lookup k m h (rw other at e)
    ]
      where
        some_inj : {x y : A} → some x ≡ some y → x ≡ y
        some_inj q = cc

    pub Values-insert_or_assign :
        (k : Bytes) (a : A) (m : List (Bytes × A))
        → P a
        → Values P m
        → Values P (insert_or_assign k a m)
    unfolding insert_or_assign
    Values-insert_or_assign k a [] p h = (p, tt)
    Values-insert_or_assign k a ((j, b) ∷ m) p (q, h) = elim (Bool-cases (same_bytes j k)) [
      | inl same ↦ rw same (p, h)
      | inr other ↦ rw other (q, Values-insert_or_assign k a m p h)
    ]

    pub Values-erase : (k : Bytes) (m : List (Bytes × A)) → Values P m → Values P (erase k m)
    unfolding erase
    Values-erase k [] h = tt
    Values-erase k ((j, b) ∷ m) (q, h) = elim (Bool-cases (same_bytes j k)) [
      | inl same ↦ rw same (Values-erase k m h)
      | inr other ↦ rw other (q, Values-erase k m h)
    ]

    pub Values-update :
        (k : Bytes) (f : A → A) (m : List (Bytes × A))
        → Values P m
        → ((a : A) → lookup k m ≡ some a → P a → P (f a))
        → Values P (update k f m)
    unfolding update lookup
    Values-update k f [] h g = tt
    Values-update k f ((j, b) ∷ m) (q, h) g = elim (Bool-cases (same_bytes j k)) [
      | inl same ↦ rw same (g b (rw same refl) q, h)
      | inr other ↦ rw other (q, Values-update k f m h (λ a e. g a (rw other e)))
    ]

    pub Values-update_all :
        (f : A → A) (m : List (Bytes × A)) → ((a : A) → P (f a)) → Values P (update_all f m)
    unfolding update_all
    Values-update_all f [] g = tt
    Values-update_all f ((j, b) ∷ m) g = (g b, Values-update_all f m g)

  -- What a lookup gives after a change at `j`: the value that it gave, or that one changed.
  pub lookup-update :
      (k j : Bytes) (f : A → A) (m : List (Bytes × A)) {a : A}
      → lookup k m ≡ some a
      → (lookup k (update j f m) ≡ some a)
        ⊎ ((lookup j m ≡ some a) × (lookup k (update j f m) ≡ some (f a)))
  unfolding lookup update
  lookup-update k j f [] e = cc
  lookup-update k j f ((i, b) ∷ m) e = elim (Bool-cases (same_bytes i j)) [
    | inl at_j ↦ elim (Bool-cases (same_bytes i k)) [
      | inl at_k ↦ inr (rw at_j (rw at_k at e), rw (at_j, at_k) (changed (rw at_k at e)))
      | inr not_k ↦ inl (rw (at_j, not_k) (rw not_k at e))
    ]
    | inr not_j ↦ elim (Bool-cases (same_bytes i k)) [
      | inl at_k ↦ inl (rw (not_j, at_k) (rw at_k at e))
      | inr not_k ↦ rw (not_j, not_k) (lookup-update k j f m (rw not_k at e))
    ]
  ]
    where
      changed : {a : A} → some b ≡ some a → some (f b) ≡ some (f a)
      changed q = cc

  pub lookup-update_all :
      (k : Bytes) (f : A → A) (m : List (Bytes × A)) {a : A}
      → lookup k m ≡ some a
      → lookup k (update_all f m) ≡ some (f a)
  unfolding lookup update_all
  lookup-update_all k f [] e = cc
  lookup-update_all k f ((j, b) ∷ m) e = elim (Bool-cases (same_bytes j k)) [
    | inl same ↦ ground arith
    | inr other ↦ rw other (lookup-update_all k f m (rw other at e))
  ]

  pub lookup-update_other :
      (k j : Bytes) (f : A → A) (m : List (Bytes × A))
      → j ≢ k
      → lookup k (update j f m) ≡ lookup k m
  unfolding lookup update
  lookup-update_other k j f [] n = refl
  lookup-update_other k j f ((i, b) ∷ m) n = elim (Bool-cases (same_bytes i j)) [
    | inl at_j ↦ rw (at_j, distinct i j k n at_j) refl
    | inr not_j ↦ rw (not_j, lookup-update_other k j f m n) refl
  ]

  pub lookup-insert_or_assign_other :
      (k j : Bytes) (a : A) (m : List (Bytes × A))
      → j ≢ k
      → lookup k (insert_or_assign j a m) ≡ lookup k m
  unfolding lookup insert_or_assign
  lookup-insert_or_assign_other k j a [] n =
      rw (distinct j j k n ((same_bytes_iff j j).1 refl)) refl
  lookup-insert_or_assign_other k j a ((i, b) ∷ m) n = elim (Bool-cases (same_bytes i j)) [
    | inl at_j ↦ rw (at_j, distinct i j k n at_j) refl
    | inr not_j ↦ rw (not_j, lookup-insert_or_assign_other k j a m n) refl
  ]

  pub lookup-erase_other :
      (k j : Bytes) (m : List (Bytes × A)) → j ≢ k → lookup k (erase j m) ≡ lookup k m
  unfolding lookup erase
  lookup-erase_other k j [] n = refl
  lookup-erase_other k j ((i, b) ∷ m) n = elim (Bool-cases (same_bytes i j)) [
    | inl at_j ↦ rw (at_j, distinct i j k n at_j) (lookup-erase_other k j m n)
    | inr not_j ↦ rw (not_j, lookup-erase_other k j m n) refl
  ]

  pub lookup-update_same :
      (k : Bytes) (f : A → A) (m : List (Bytes × A)) {a : A}
      → lookup k m ≡ some a
      → lookup k (update k f m) ≡ some (f a)
  unfolding lookup update
  lookup-update_same k f [] e = cc
  lookup-update_same k f ((j, b) ∷ m) e = elim (Bool-cases (same_bytes j k)) [
    | inl same ↦ ground arith
    | inr other ↦ rw (other, other) (lookup-update_same k f m (rw other at e))
  ]
