-- ===== src/Ownership/Checked.antt =====
-- The runs of the binder on the tracker: in binder/expressions/VariableBinder.cpp (bindVariableInit,
-- bindAssignment) a move and an assignment follow only the check that allows them, since a check that
-- fails throws. A borrow is taken to follow its check in the same way: no code of binder/ calls
-- `checkVariableBorrow` or `performBorrow` (binder/ownership/OwnershipBinder.cpp) yet.
use djinn_lang_v.Base.{
  Bool, List, [], ◌∷◌, Option, none, some, Bytes, ◌==◌, if◌then◌else◌, if_cases, ◌≡◌, refl,
  Bool-cases, inl, inr,
}
use djinn_lang_v.Ast.Kinds.{TypeKind}
use djinn_lang_v.Base.Maps.{
  lookup, update_all, Values, Values-insert_or_assign, Values-erase, Values-update,
}
use djinn_lang_v.Ownership.State.{
  SourceLocation, BorrowKind, VariableOwnership, mark_moved, mark_borrowed,
  release_borrows_at_depth, reset,
}
use djinn_lang_v.Ownership.State
use djinn_lang_v.Ownership.Tracker.{
  Tracker, success, empty, push_scope, pop_scope, pop_variables, release_borrow, release_all,
  release_source, define_variable, undefine_variable, check_move, check_borrow, check_assign,
  borrow_source, do_move, do_borrow, reinitialize,
}
use djinn_lang_v.Ownership.Consistent.{
  IsConsistent, release_if-IsConsistent, mark_borrowed-IsConsistent,
}

pub data Checked (t : Tracker) : Tracker → Type 0 where
  enter : Checked t (push_scope t)
  leave : Checked t (pop_scope t)
  define :
      (name : Bytes) (kind : TypeKind) (is_transparent : Bool) (loc : SourceLocation)
      → Checked t (define_variable name kind is_transparent loc t)
  undefine : (name : Bytes) → Checked t (undefine_variable name t)
  move :
      (name : Bytes) (loc : SourceLocation)
      → check_move name loc t ≡ success
      → Checked t (do_move name loc t)
  borrow :
      (name : Bytes) (kind : BorrowKind) (borrower : Bytes) (loc : SourceLocation)
      → check_borrow name kind loc t ≡ success
      → Checked t (do_borrow name kind borrower loc t)
  release : (borrower : Bytes) → Checked t (release_borrow borrower t)
  assign :
      (name : Bytes) (loc : SourceLocation)
      → check_assign name loc t ≡ success
      → Checked t (reinitialize name t)

pub data Reach : Tracker → Type 0 where
  start : Reach empty
  step : {t t' : Tracker} → Reach t → Checked t t' → Reach t'

abbrev pub AllConsistent : Tracker → Type 0
AllConsistent t = Values IsConsistent t.variables

release_borrow-AllConsistent :
    (borrower : Bytes) (t : Tracker) → AllConsistent t → AllConsistent (release_borrow borrower t)
unfolding release_borrow
release_borrow-AllConsistent borrower t h = go (lookup borrower t.borrower_to_source)
  where
    go : (o : Option Bytes) → AllConsistent (release_source o borrower t)
    go none = h
    go (some source) =
        Values-update IsConsistent source (State.release_borrow borrower) t.variables h
          (λ v e c. unfold State.release_borrow in release_if-IsConsistent _ v c)

release_all-AllConsistent :
    (names : List Bytes) (t : Tracker) → AllConsistent t → AllConsistent (release_all names t)
release_all-AllConsistent [] t h = h
release_all-AllConsistent (name ∷ names) t h =
    release_all-AllConsistent names (release_borrow name t) (release_borrow-AllConsistent name t h)

pop_variables-AllConsistent :
    (scopes : List (List Bytes)) (t : Tracker)
    → AllConsistent t
    → AllConsistent (pop_variables scopes t)
pop_variables-AllConsistent [] t h = h
pop_variables-AllConsistent (names ∷ scopes) t h = release_all-AllConsistent names t h

leave-AllConsistent : (t : Tracker) → AllConsistent t → AllConsistent (pop_scope t)
unfolding pop_scope release_borrows_at_depth update_all
leave-AllConsistent t h = elim (Bool-cases (t.scope_depth == 0)) [
  | inl outermost ↦ rw outermost h
  | inr inner ↦ rw inner (pop_variables-AllConsistent t.scope_variables _ (released t.variables h))
]
  where
    released :
        (m : List (Bytes × VariableOwnership))
        → Values IsConsistent m
        → Values IsConsistent (update_all (release_borrows_at_depth t.scope_depth) m)
    released [] h = tt
    released ((_, v) ∷ m) (c, h) = (release_if-IsConsistent _ v c, released m h)

move-IsConsistent :
    (loc : SourceLocation) (v : VariableOwnership)
    → IsConsistent v
    → IsConsistent (if v.is_copy_type then v else mark_moved loc v)
unfolding mark_moved
move-IsConsistent loc v h =
    if_cases IsConsistent v.is_copy_type (λ _. h) (λ _. record { alone = refl; fits = refl })

do_borrow-AllConsistent :
    (name : Bytes) (kind : BorrowKind) (borrower : Bytes) (loc : SourceLocation) (t : Tracker)
    → check_borrow name kind loc t ≡ success
    → AllConsistent t
    → AllConsistent (do_borrow name kind borrower loc t)
unfolding check_borrow do_borrow
do_borrow-AllConsistent name kind borrower loc t e h = go (lookup name t.variables) refl
  where
    go :
        (o : Option VariableOwnership)
        → lookup name t.variables ≡ o
        → AllConsistent (borrow_source o name kind borrower loc t)
    go none f = h
    go (some v) f =
        Values-update IsConsistent name (mark_borrowed borrower kind loc t.scope_depth) t.variables
          h
          (λ w g c. mark_borrowed-IsConsistent w name borrower kind loc t.scope_depth (rw g at e) c)

Checked-AllConsistent : {t t' : Tracker} → Checked t t' → AllConsistent t → AllConsistent t'
unfolding push_scope define_variable undefine_variable do_move reinitialize reset
Checked-AllConsistent enter h = h
Checked-AllConsistent {t} leave h = leave-AllConsistent t h
Checked-AllConsistent {t} (define name kind is_transparent loc) h =
    Values-insert_or_assign IsConsistent name _ t.variables (record { alone = refl; fits = refl }) h
Checked-AllConsistent {t} (undefine name) h = Values-erase IsConsistent name t.variables h
Checked-AllConsistent {t} (move name loc e) h =
    Values-update IsConsistent name _ t.variables h (λ v g c. move-IsConsistent loc v c)
Checked-AllConsistent {t} (borrow name kind borrower loc e) h =
    do_borrow-AllConsistent name kind borrower loc t e h
Checked-AllConsistent {t} (release borrower) h = release_borrow-AllConsistent borrower t h
Checked-AllConsistent {t} (assign name loc e) h =
    Values-update IsConsistent name reset t.variables h
      (λ v g c. record { alone = refl; fits = refl })

-- In every state that checked operations lead to from the empty tracker, each variable's status
-- agrees with its borrows (none if it is owned or moved, shared ones if it is borrowed, a mutable
-- one if it is mutably borrowed), and a mutable borrow is the only borrow of its variable.
pub Reach-AllConsistent : {t : Tracker} → Reach t → AllConsistent t
Reach-AllConsistent start = tt
Reach-AllConsistent (step r c) = Checked-AllConsistent c (Reach-AllConsistent r)
