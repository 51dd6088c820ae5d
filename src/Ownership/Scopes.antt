-- ===== src/Ownership/Scopes.antt =====
-- binder/ownership/OwnershipTracker.cpp: `popScope` and the borrows that it leaves.
use djinn_lang_v.Base.{
  ℕ, ◌<◌, Bool, List, [], ◌∷◌, Option, none, some, Bytes, leb, ◌==◌, ◌≢◌, arith, Bool-cases, inl,
  inr,
}
use djinn_lang_v.Base.Maps.{lookup, Values, Values-update, Values-update_all}
use djinn_lang_v.Ownership.State.{
  ActiveBorrow, VariableOwnership, remove_if, release_borrows_at_depth,
}
use djinn_lang_v.Ownership.State
use djinn_lang_v.Ownership.Tracker.{
  Tracker, pop_scope, pop_variables, release_borrow, release_all, release_source,
}

-- Every borrow was made in a scope further out than the depth.
abbrev pub MadeOutside : ℕ → List ActiveBorrow → Type 0
MadeOutside n [] = Unit
MadeOutside n (b ∷ bs) = (b.scope_depth < n) × MadeOutside n bs

abbrev pub BorrowedOutside : ℕ → VariableOwnership → Type 0
BorrowedOutside n v = MadeOutside n v.active_borrows

module _ (n : ℕ) where
  remove_if-MadeOutside :
      (p : ActiveBorrow → Bool) (bs : List ActiveBorrow)
      → MadeOutside n bs
      → MadeOutside n (remove_if p bs)
  remove_if-MadeOutside p [] h = tt
  remove_if-MadeOutside p (b ∷ bs) (h, hs) = elim (Bool-cases (p b)) [
    | inl gone ↦ rw gone (remove_if-MadeOutside p bs hs)
    | inr kept ↦ rw kept (h, remove_if-MadeOutside p bs hs)
  ]

  remove_if_deep :
      (bs : List ActiveBorrow) → MadeOutside n (remove_if (λ b. leb n b.scope_depth) bs)
  remove_if_deep [] = tt
  remove_if_deep (b ∷ bs) = elim (Bool-cases (leb n b.scope_depth)) [
    | inl deep ↦ rw deep (remove_if_deep bs)
    | inr outside ↦ rw outside (ground arith, remove_if_deep bs)
  ]

  abbrev Outside : Tracker → Type 0
  Outside t = Values (BorrowedOutside n) t.variables

  release_borrow-Outside :
      (borrower : Bytes) (t : Tracker) → Outside t → Outside (release_borrow borrower t)
  unfolding release_borrow
  release_borrow-Outside borrower t h = go (lookup borrower t.borrower_to_source)
    where
      go : (o : Option Bytes) → Outside (release_source o borrower t)
      go none = h
      go (some source) =
          Values-update (BorrowedOutside n) source (State.release_borrow borrower) t.variables h
            (λ v e c. unfold State.release_borrow in remove_if-MadeOutside _ v.active_borrows c)

  release_all-Outside :
      (names : List Bytes) (t : Tracker) → Outside t → Outside (release_all names t)
  release_all-Outside [] t h = h
  release_all-Outside (name ∷ names) t h =
      release_all-Outside names (release_borrow name t) (release_borrow-Outside name t h)

  pop_variables-Outside :
      (scopes : List (List Bytes)) (t : Tracker) → Outside t → Outside (pop_variables scopes t)
  pop_variables-Outside [] t h = h
  pop_variables-Outside (names ∷ scopes) t h = release_all-Outside names t h

-- Behind `popScope` in any scope but the outermost, every borrow left of any variable was made in
-- a scope further out than the one that was left.
pub pop_scope-BorrowedOutside :
    (t : Tracker)
    → t.scope_depth ≢ 0
    → Values (BorrowedOutside t.scope_depth) (pop_scope t).variables
unfolding pop_scope release_borrows_at_depth
pop_scope-BorrowedOutside t inside = elim (Bool-cases (t.scope_depth == 0)) [
  | inl outermost ↦ absurd (ground arith)
  | inr inner ↦ rw inner (
      pop_variables-Outside t.scope_depth t.scope_variables _ (
        Values-update_all (BorrowedOutside t.scope_depth) (release_borrows_at_depth t.scope_depth)
          t.variables (λ v. remove_if_deep t.scope_depth v.active_borrows)))
]
