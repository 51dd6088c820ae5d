-- ===== src/Ownership/Moves.antt =====
-- binder/ownership/OwnershipTracker.cpp: what the operations do to a moved variable.
use djinn_lang_v.Base.{
  ℕ, false, List, [], ◌∷◌, ◌++◌, Option, none, some, Bytes, codes, ◌==◌, if◌then◌else◌, if_cases,
  ◌≡◌, refl, ap, ◌∙◌, Bool-cases, inl, inr,
}
use djinn_lang_v.Base.Maps.{
  lookup, update, update_all, lookup-update, lookup-update_all, lookup-update_other,
  lookup-insert_or_assign_other, lookup-erase_other, lookup-update_same,
}
use djinn_lang_v.Ownership.State.{
  SourceLocation, OwnershipStatus, BorrowKind, VariableOwnership, mark_moved, mark_borrowed,
  release_borrows_at_depth, reset,
}
use djinn_lang_v.Ownership.State
use djinn_lang_v.Ownership.Tracker.{
  Tracker, success, failure, push_scope, pop_scope, pop_variables, release_borrow, release_all,
  release_source, define_variable, undefine_variable, check_use, check_move, check_borrow,
  borrow_source, do_move, do_borrow, reinitialize,
}
use djinn_lang_v.Ownership.Checked.{Checked}

-- The value of the variable went at `loc`.
pub record IsGone (loc : SourceLocation) (v : VariableOwnership) : Type 0 where
  pub moved : v.status ≡ OwnershipStatus.moved
  pub free : v.active_borrows ≡ []
  pub place : v.last_move_location ≡ loc
  pub moves : v.is_copy_type ≡ false

abbrev Variables : Type 0
Variables = List (Bytes × VariableOwnership)

abbrev pub Gone : Bytes → SourceLocation → Variables → Type 0
Gone name loc m = (v : VariableOwnership) × (lookup name m ≡ some v) × IsGone loc v

-- The operation gives the name a value again, or drops it.
abbrev pub Renews : Bytes → {t t' : Tracker} → Checked t t' → Type 0
Renews name (Checked.define n kind is_transparent loc) = n ≡ name
Renews name (Checked.undefine n) = n ≡ name
Renews name (Checked.assign n loc e) = n ≡ name
Renews name _ = ⊥

module _ (name : Bytes) (loc : SourceLocation) where
  release_borrow-IsGone :
      (borrower : Bytes) (v : VariableOwnership)
      → IsGone loc v
      → IsGone loc (State.release_borrow borrower v)
  unfolding State.release_borrow
  release_borrow-IsGone borrower v g = record {
    moved = rw (g.free, g.moved) refl;
    free = rw g.free refl;
    place = g.place;
    moves = g.moves;
  }

  release_borrows_at_depth-IsGone :
      (n : ℕ) (v : VariableOwnership) → IsGone loc v → IsGone loc (release_borrows_at_depth n v)
  unfolding release_borrows_at_depth
  release_borrows_at_depth-IsGone n v g = record {
    moved = rw (g.free, g.moved) refl;
    free = rw g.free refl;
    place = g.place;
    moves = g.moves;
  }

  update-Gone :
      (j : Bytes) (f : VariableOwnership → VariableOwnership) (m : Variables)
      → ((v : VariableOwnership) → lookup j m ≡ some v → IsGone loc v → IsGone loc (f v))
      → Gone name loc m
      → Gone name loc (update j f m)
  update-Gone j f m keeps (v, e, g) = elim (lookup-update name j f m e) [
    | inl same ↦ (v, same, g)
    | inr (here, changed) ↦ (f v, changed, keeps v here g)
  ]

  update_all-Gone :
      (f : VariableOwnership → VariableOwnership) (m : Variables)
      → ((v : VariableOwnership) → IsGone loc v → IsGone loc (f v))
      → Gone name loc m
      → Gone name loc (update_all f m)
  update_all-Gone f m keeps (v, e, g) = (f v, lookup-update_all name f m e, keeps v g)

  release_borrow-Gone :
      (borrower : Bytes) (t : Tracker)
      → Gone name loc t.variables
      → Gone name loc (release_borrow borrower t).variables
  unfolding release_borrow
  release_borrow-Gone borrower t h = go (lookup borrower t.borrower_to_source)
    where
      go : (o : Option Bytes) → Gone name loc (release_source o borrower t).variables
      go none = h
      go (some source) =
          update-Gone source (State.release_borrow borrower) t.variables
            (λ v e g. release_borrow-IsGone borrower v g) h

  release_all-Gone :
      (names : List Bytes) (t : Tracker)
      → Gone name loc t.variables
      → Gone name loc (release_all names t).variables
  release_all-Gone [] t h = h
  release_all-Gone (n ∷ names) t h =
      release_all-Gone names (release_borrow n t) (release_borrow-Gone n t h)

  pop_variables-Gone :
      (scopes : List (List Bytes)) (t : Tracker)
      → Gone name loc t.variables
      → Gone name loc (pop_variables scopes t).variables
  pop_variables-Gone [] t h = h
  pop_variables-Gone (names ∷ scopes) t h = release_all-Gone names t h

  leave-Gone : (t : Tracker) → Gone name loc t.variables → Gone name loc (pop_scope t).variables
  unfolding pop_scope
  leave-Gone t h = elim (Bool-cases (t.scope_depth == 0)) [
    | inl outermost ↦ rw outermost h
    | inr inner ↦ rw inner (
        pop_variables-Gone t.scope_variables _ (
          update_all-Gone (release_borrows_at_depth t.scope_depth) t.variables
            (release_borrows_at_depth-IsGone t.scope_depth) h))
  ]

  move-Gone :
      (n : Bytes) (at : SourceLocation) (t : Tracker)
      → check_move n at t ≡ success
      → Gone name loc t.variables
      → Gone name loc (do_move n at t).variables
  unfolding check_move do_move
  move-Gone n at t e h = update-Gone n _ t.variables (λ v here g. absurd (refused v here g)) h
    where
      refused : (v : VariableOwnership) → lookup n t.variables ≡ some v → IsGone loc v → ⊥
      refused v here g = cc (rw (here, g.moves, g.moved) at e)

  borrow-Gone :
      (n : Bytes) (kind : BorrowKind) (borrower : Bytes) (at : SourceLocation) (t : Tracker)
      → check_borrow n kind at t ≡ success
      → Gone name loc t.variables
      → Gone name loc (do_borrow n kind borrower at t).variables
  unfolding check_borrow do_borrow
  borrow-Gone n kind borrower at t e h = go (lookup n t.variables)
    where
      refused : (v : VariableOwnership) → lookup n t.variables ≡ some v → IsGone loc v → ⊥
      refused v here g = cc (rw (here, g.moved) at e)

      go :
          (o : Option VariableOwnership)
          → Gone name loc (borrow_source o n kind borrower at t).variables
      go none = h
      go (some _) = update-Gone n _ t.variables (λ v here g. absurd (refused v here g)) h

  -- Every checked operation that does not renew the name leaves it moved.
  Checked-Gone :
      {t t' : Tracker} (c : Checked t t')
      → ¬ Renews name c
      → Gone name loc t.variables
      → Gone name loc t'.variables
  unfolding push_scope define_variable undefine_variable reinitialize
  Checked-Gone Checked.enter n h = h
  Checked-Gone {t} Checked.leave n h = leave-Gone t h
  Checked-Gone {t} (Checked.define j kind is_transparent at) n (v, e, g) =
      (v, lookup-insert_or_assign_other name j _ t.variables n ∙ e, g)
  Checked-Gone {t} (Checked.undefine j) n (v, e, g) =
      (v, lookup-erase_other name j t.variables n ∙ e, g)
  Checked-Gone {t} (Checked.move j at e) n h = move-Gone j at t e h
  Checked-Gone {t} (Checked.borrow j kind borrower at e) n h = borrow-Gone j kind borrower at t e h
  Checked-Gone {t} (Checked.release borrower) n h = release_borrow-Gone borrower t h
  Checked-Gone {t} (Checked.assign j at e) n (v, f, g) =
      (v, lookup-update_other name j reset t.variables n ∙ f, g)

-- Checked operations one after the other, none of which renews the name.
pub data Later (name : Bytes) (t : Tracker) : Tracker → Type 0 where
  now : Later name t t
  after : {u u' : Tracker} → Later name t u → (c : Checked u u') → ¬ Renews name c → Later name t u'

Later-Gone :
    (name : Bytes) (loc : SourceLocation) {t t' : Tracker}
    → Later name t t'
    → Gone name loc t.variables
    → Gone name loc t'.variables
Later-Gone name loc now h = h
Later-Gone name loc (after l c n) h = Checked-Gone name loc c n (Later-Gone name loc l h)

move-IsGone :
    (name : Bytes) (loc : SourceLocation) (t : Tracker) (v : VariableOwnership)
    → lookup name t.variables ≡ some v
    → v.is_copy_type ≡ false
    → Gone name loc (do_move name loc t).variables
unfolding do_move mark_moved
move-IsGone name loc t v e moves =
    (mark_moved loc v, moved, record { moved = refl; free = refl; place = refl; moves = moves })
  where
    taken : (if v.is_copy_type then v else mark_moved loc v) ≡ mark_moved loc v
    taken = if_cases (λ w. w ≡ mark_moved loc v) v.is_copy_type (λ copied. cc) (λ _. refl)

    moved : lookup name (do_move name loc t).variables ≡ some (mark_moved loc v)
    moved = lookup-update_same name _ t.variables e ∙ ap some taken

-- After the move of a variable of no copied type, and after any checked operations that do not
-- renew its name, a use of it fails, and the failure names the place of the move.
pub check_use-do_move :
    (name : Bytes) (loc here : SourceLocation) (t t' : Tracker) (v : VariableOwnership)
    → lookup name t.variables ≡ some v
    → v.is_copy_type ≡ false
    → Later name (do_move name loc t) t'
    → check_use name here t' ≡ failure (codes "use of moved value '" ++ name ++ codes "'") here loc
unfolding check_use
check_use-do_move name loc here t t' v e moves later =
    let (w, found, g) = Later-Gone name loc later (move-IsGone name loc t v e moves) in
    rw (found, g.moved)
      (ap (failure (codes "use of moved value '" ++ name ++ codes "'") here) g.place)
