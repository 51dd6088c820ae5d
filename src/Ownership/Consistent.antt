-- ===== src/Ownership/Consistent.antt =====
-- binder/ownership/OwnershipState.h: the status of a variable against its borrows.
use djinn_lang_v.Base.{
  ℕ, Bool, true, false, not, ◌&&◌, ◌||◌, List, [], ◌∷◌, ◌++◌, some, Bytes, if◌then◌else◌, ◌≡◌, refl,
  arith, Bool-cases, inl, inr,
}
use djinn_lang_v.Ownership.State.{
  SourceLocation, OwnershipStatus, BorrowKind, ActiveBorrow, VariableOwnership, is_moved,
  is_mutable, is_empty, any_mutable, mark_borrowed, status_after_release, remove_if, release_if,
}
use djinn_lang_v.Ownership.Tracker.{success, over_first, mutable_borrows, borrow_of}

-- A mutable borrow is the only one.
abbrev pub exclusive : List ActiveBorrow → Bool
exclusive [] = true
exclusive (b ∷ bs) = if is_mutable b.kind then is_empty bs else not (any_mutable bs)

abbrev pub status_fits : OwnershipStatus → List ActiveBorrow → Bool
status_fits OwnershipStatus.owned bs = is_empty bs
status_fits OwnershipStatus.moved bs = is_empty bs
status_fits OwnershipStatus.partially_moved bs = false
status_fits OwnershipStatus.borrowed bs = not (is_empty bs) && not (any_mutable bs)
status_fits OwnershipStatus.mutably_borrowed bs = any_mutable bs

pub record IsConsistent (v : VariableOwnership) : Type 0 where
  pub alone : exclusive v.active_borrows ≡ true
  pub fits : status_fits v.status v.active_borrows ≡ true

remove_if-any_mutable :
    (p : ActiveBorrow → Bool) (bs : List ActiveBorrow)
    → any_mutable bs ≡ false
    → any_mutable (remove_if p bs) ≡ false
remove_if-any_mutable p [] h = refl
remove_if-any_mutable p (b ∷ bs) h = ground (arith, remove_if-any_mutable p bs)

none_mutable : (bs : List ActiveBorrow) → any_mutable bs ≡ false → exclusive bs ≡ true
none_mutable [] h = refl
none_mutable (b ∷ bs) h = ground arith

remove_if-exclusive :
    (p : ActiveBorrow → Bool) (bs : List ActiveBorrow)
    → exclusive bs ≡ true
    → exclusive (remove_if p bs) ≡ true
remove_if-exclusive p [] h = refl
remove_if-exclusive p (b ∷ []) h = ground arith
remove_if-exclusive p (b ∷ c ∷ bs) h =
    none_mutable (remove_if p (b ∷ c ∷ bs)) (remove_if-any_mutable p (b ∷ c ∷ bs) (ground arith))

status_after_release-fits :
    (s : OwnershipStatus) (bs : List ActiveBorrow)
    → status_fits (status_after_release s bs) bs ≡ true
status_after_release-fits OwnershipStatus.owned [] = refl
status_after_release-fits OwnershipStatus.moved [] = refl
status_after_release-fits OwnershipStatus.partially_moved [] = refl
status_after_release-fits OwnershipStatus.borrowed [] = refl
status_after_release-fits OwnershipStatus.mutably_borrowed [] = refl
status_after_release-fits s (b ∷ bs) = elim (Bool-cases (any_mutable (b ∷ bs))) [
  | inl some_mutable ↦ rw some_mutable some_mutable
  | inr shared_only ↦ rw shared_only (rw shared_only refl)
]

pub release_if-IsConsistent :
    (p : ActiveBorrow → Bool) (v : VariableOwnership)
    → IsConsistent v
    → IsConsistent (release_if p v)
release_if-IsConsistent p v h = record {
  alone = remove_if-exclusive p v.active_borrows h.alone;
  fits = status_after_release-fits v.status (remove_if p v.active_borrows);
}

pub any_mutable-append :
    (bs cs : List ActiveBorrow) → any_mutable (bs ++ cs) ≡ (any_mutable bs || any_mutable cs)
any_mutable-append [] cs = refl
any_mutable-append (b ∷ bs) cs = ground (arith, any_mutable-append bs cs)

pub is_empty-append : (bs : List ActiveBorrow) (b : ActiveBorrow) → is_empty (bs ++ b ∷ []) ≡ false
is_empty-append [] b = refl
is_empty-append (c ∷ bs) b = refl

over_first-success :
    (f : ActiveBorrow → Bytes) (loc : SourceLocation) (bs : List ActiveBorrow)
    → over_first f loc bs ≡ success
    → bs ≡ []
over_first-success f loc [] e = refl
over_first-success f loc (b ∷ bs) e = cc

mutable_borrows-none : (bs : List ActiveBorrow) → mutable_borrows bs ≡ [] → any_mutable bs ≡ false
mutable_borrows-none [] e = refl
mutable_borrows-none (b ∷ bs) e = ground (arith, mutable_borrows-none bs)

-- A borrow that the check allows keeps the variable consistent.
pub mark_borrowed-IsConsistent :
    (v : VariableOwnership) (name borrower : Bytes) (kind : BorrowKind) (loc : SourceLocation)
    (depth : ℕ)
    → borrow_of (some v) name kind loc ≡ success
    → IsConsistent v
    → IsConsistent (mark_borrowed borrower kind loc depth v)
unfolding mark_borrowed
mark_borrowed-IsConsistent v name borrower BorrowKind.mutable loc depth e h =
    elim (Bool-cases (is_moved v)) [
      | inl gone ↦ cc (rw gone at e)
      | inr here ↦
          let nothing = over_first-success _ loc v.active_borrows (rw here at e) in
          record { alone = rw nothing refl; fits = rw nothing refl }
    ]
mark_borrowed-IsConsistent v name borrower BorrowKind.shared loc depth e h =
    elim (Bool-cases (is_moved v)) [
      | inl gone ↦ cc (rw gone at e)
      | inr here ↦
          let b : ActiveBorrow = record {
            borrower_name = borrower;
            kind = BorrowKind.shared;
            location = loc;
            scope_depth = depth;
          } in
          let shared_only =
            mutable_borrows-none v.active_borrows
              (over_first-success _ loc (mutable_borrows v.active_borrows) (rw here at e)) in
          let still : any_mutable (v.active_borrows ++ b ∷ []) ≡ false =
            rw (any_mutable-append v.active_borrows (b ∷ []), shared_only) refl in
          record {
            alone = none_mutable (v.active_borrows ++ b ∷ []) still;
            fits = rw (still, is_empty-append v.active_borrows b) refl;
          }
    ]
