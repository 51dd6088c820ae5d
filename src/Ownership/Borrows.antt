-- ===== src/Ownership/Borrows.antt =====
-- binder/ownership/OwnershipTracker.cpp: `checkBorrow` against the rule for mutable borrows.
use djinn_lang_v.Base.{
  true, false, not, List, [], ◌∷◌, ◌++◌, some, Bytes, if◌then◌else◌, ◌≡◌, ◌↔◌, refl, arith,
  Bool-cases, inl, inr, sym, ◌∙◌,
}
use djinn_lang_v.Base.Maps.{lookup}
use djinn_lang_v.Ownership.State.{
  SourceLocation, ActiveBorrow, VariableOwnership, is_moved, is_empty, any_mutable, is_mutable,
}
use djinn_lang_v.Ownership.Tracker.{
  Tracker, success, over_first, mutable_borrows, check_borrow, borrow_of,
}
use djinn_lang_v.Ownership.Consistent.{exclusive, any_mutable-append, is_empty-append}

over_first_iff :
    (f : ActiveBorrow → Bytes) (loc : SourceLocation) (bs : List ActiveBorrow)
    → (over_first f loc bs ≡ success) ↔ (is_empty bs ≡ true)
over_first_iff f loc [] = (λ _. refl, λ _. refl)
over_first_iff f loc (b ∷ bs) = (λ e. cc, λ e. cc)

mutable_borrows-is_empty :
    (bs : List ActiveBorrow) → is_empty (mutable_borrows bs) ≡ not (any_mutable bs)
mutable_borrows-is_empty [] = refl
mutable_borrows-is_empty (b ∷ bs) = ground (arith, mutable_borrows-is_empty bs)

-- One more borrow at the end.
exclusive_more :
    (b : ActiveBorrow) (bs : List ActiveBorrow)
    → exclusive (bs ++ b ∷ []) ≡ (if is_mutable b.kind then is_empty bs else not (any_mutable bs))
exclusive_more b [] = ground arith
exclusive_more b (c ∷ bs) = ground (arith, any_mutable-append bs (b ∷ []), is_empty-append bs b)

-- Of a tracked variable, the check of a borrow succeeds exactly when the variable is not moved and
-- a mutable borrow would still be the only one with the new borrow added.
pub check_borrow_iff :
    (name : Bytes) (loc : SourceLocation) (t : Tracker) (v : VariableOwnership) (b : ActiveBorrow)
    → lookup name t.variables ≡ some v
    → (check_borrow name b.kind loc t ≡ success)
      ↔ ((is_moved v ≡ false) × (exclusive (v.active_borrows ++ b ∷ []) ≡ true))
unfolding check_borrow
check_borrow_iff name loc t v b found = rw found (by_kind b refl)
  where
    by_kind :
        (c : ActiveBorrow)
        → c ≡ b
        → (borrow_of (some v) name c.kind loc ≡ success)
          ↔ ((is_moved v ≡ false) × (exclusive (v.active_borrows ++ c ∷ []) ≡ true))
    by_kind c e = elim (Bool-cases (is_moved v)) [
      | inl gone ↦ rw gone (λ h. cc, λ h. cc)
      | inr here ↦ elim (Bool-cases (is_mutable c.kind)) [
        | inl alone ↦
            rw (here, exclusive_more c v.active_borrows, alone)
              (
                λ h. (refl, (over_first_iff _ loc v.active_borrows).0 h),
                λ h. (over_first_iff _ loc v.active_borrows).1 h.1,
              )
        | inr shared ↦
            rw (here, exclusive_more c v.active_borrows, shared)
              (
                λ h. (
                  refl,
                  sym (mutable_borrows-is_empty v.active_borrows)
                      ∙ (over_first_iff _ loc (mutable_borrows v.active_borrows)).0 h,
                ),
                λ h.
                    (over_first_iff _ loc (mutable_borrows v.active_borrows)).1
                      (mutable_borrows-is_empty v.active_borrows ∙ h.1),
              )
      ]
    ]
