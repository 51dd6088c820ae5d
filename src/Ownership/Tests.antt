-- ===== src/Ownership/Tests.antt =====
-- The tracker on a small run, and its theorems at concrete inputs.
use djinn_lang_v.Base.{
  ℕ, true, false, [], ◌∷◌, ◌++◌, Bytes, codes, same_bytes, ◌≡◌, ◌↔◌, refl, arith,
}
use djinn_lang_v.Ast.Kinds.{TypeKind}
use djinn_lang_v.Base.Maps.{lookup, insert_or_assign, update, update_all, erase, Values}
use djinn_lang_v.Ownership.State.{
  SourceLocation, BorrowKind, ActiveBorrow, VariableOwnership, new_variable, is_moved,
  mark_borrowed, mark_moved, no_location,
}
use djinn_lang_v.Ownership.State
use djinn_lang_v.Ownership.Tracker.{
  Tracker, success, failure, empty, push_scope, pop_scope, define_variable, check_use, check_move,
  check_borrow, do_move, do_borrow,
}
use djinn_lang_v.Ownership.Consistent.{exclusive}
use djinn_lang_v.Ownership.Checked.{Checked, Reach, AllConsistent, Reach-AllConsistent}
use djinn_lang_v.Ownership.Moves.{Later, check_use-do_move}
use djinn_lang_v.Ownership.Scopes.{BorrowedOutside, pop_scope-BorrowedOutside}
use djinn_lang_v.Ownership.Borrows.{check_borrow_iff}

abbrev x : Bytes
x = codes "x"

abbrev y : Bytes
y = codes "y"

abbrev at_line : ℕ → SourceLocation
at_line n = record { file_id = []; line = n; column = 1; length = 1 }

-- `x`, a struct, in a function.
abbrev defined : Tracker
defined = record {
  variables = (x, new_variable x (at_line 1) 1) ∷ [];
  scope_variables = (x ∷ []) ∷ [];
  scope_depth = 1;
  borrower_to_source = [];
}

defined-Reach : Reach defined
defined-Reach =
    Reach.step {t = push_scope empty} {t' = defined} (Reach.step Reach.start Checked.enter)
      definition
  where
    definition : Checked (push_scope empty) defined
    definition =
        unfold push_scope define_variable insert_or_assign in
        Checked.define x TypeKind.struct false (at_line 1)

-- Then `y` borrows it.
abbrev borrowed : Tracker
borrowed = record defined {
  variables =
      (
        x,
        record (new_variable x (at_line 1) 1) {
          status = State.OwnershipStatus.borrowed;
          active_borrows = loan ∷ [];
        },
      )
      ∷ [];
  borrower_to_source = (y, x) ∷ [];
}
  where
    loan : ActiveBorrow
    loan = record {
      borrower_name = y;
      kind = BorrowKind.shared;
      location = at_line 2;
      scope_depth = 1;
    }

borrowed-Reach : Reach borrowed
borrowed-Reach = Reach.step {t = defined} {t' = borrowed} defined-Reach loan
  where
    loan : Checked defined borrowed
    loan =
        unfold do_borrow mark_borrowed lookup insert_or_assign update same_bytes in
        Checked.borrow x BorrowKind.shared y (at_line 2)
          (unfold check_borrow lookup same_bytes in refl)

Reach-AllConsistent_example : AllConsistent borrowed
Reach-AllConsistent_example = Reach-AllConsistent borrowed-Reach

abbrev after_move : Tracker
after_move = push_scope (do_move x (at_line 3) defined)

check_use-do_move_example :
    check_use x (at_line 4) after_move
    ≡ failure (codes "use of moved value '" ++ x ++ codes "'") (at_line 4) (at_line 3)
check_use-do_move_example =
    check_use-do_move x (at_line 3) (at_line 4) defined after_move (new_variable x (at_line 1) 1)
      (unfold lookup same_bytes in refl) refl (Later.after Later.now Checked.enter (λ q. q))

pop_scope-BorrowedOutside_example : Values (BorrowedOutside 1) (pop_scope borrowed).variables
pop_scope-BorrowedOutside_example = pop_scope-BorrowedOutside borrowed (ground arith)

abbrev second : ActiveBorrow
second = record {
  borrower_name = codes "z";
  kind = BorrowKind.mutable;
  location = at_line 5;
  scope_depth = 1;
}

check_borrow_iff_example :
    (check_borrow x BorrowKind.mutable (at_line 5) defined ≡ success)
    ↔ ((is_moved (new_variable x (at_line 1) 1) ≡ false) × (exclusive (second ∷ []) ≡ true))
check_borrow_iff_example =
    check_borrow_iff x (at_line 5) defined (new_variable x (at_line 1) 1) second
      (unfold lookup same_bytes in refl)

-- The borrow is over at the end of the function.
popped : check_move x (at_line 6) borrowed ≡ success → ⊥
unfolding check_move lookup same_bytes
popped e = cc

move_after_scope : check_move x (at_line 6) (pop_scope borrowed) ≡ success
unfolding check_move pop_scope lookup same_bytes update_all update erase
    State.release_borrows_at_depth
move_after_scope = refl
