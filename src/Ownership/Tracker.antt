-- ===== src/Ownership/Tracker.antt =====
-- binder/ownership/OwnershipTracker.h and .cpp: scopes, variables, checks and the operations that a
-- check allows.
use djinn_lang_v.Base.{
  ℕ, ◌+◌, ◌-◌, ◌%◌, ◌^◌, Bool, true, false, List, [], ◌∷◌, ◌++◌, Option, none, some, Bytes, codes,
  ◌==◌, if◌then◌else◌,
}
use djinn_lang_v.Ast.Kinds.{TypeKind}
use djinn_lang_v.Base.Maps.{lookup, insert_or_assign, erase, update, update_all}
use djinn_lang_v.Ownership.State.{
  SourceLocation, no_location, OwnershipStatus, BorrowKind, ActiveBorrow, VariableOwnership,
  new_variable, is_moved, is_mutable, has_any_borrow, has_mutable_borrow, mark_moved, mark_borrowed,
  release_borrows_at_depth, reset,
}
use djinn_lang_v.Ownership.State

abbrev pub copied_kind : TypeKind → Bool
copied_kind TypeKind.struct = false
copied_kind TypeKind.auto = false
copied_kind TypeKind.array = false
copied_kind _ = true

-- `isCopyType`, on the two fields of a type that it reads.
abbrev pub is_copy_type : TypeKind → Bool → Bool
is_copy_type kind is_transparent = if is_transparent then true else copied_kind kind

-- Scopes have the innermost in front, and its last variable last.
pub record Tracker : Type 0 where
  pub variables : List (Bytes × VariableOwnership)
  pub scope_variables : List (List Bytes)
  pub scope_depth : ℕ
  pub borrower_to_source : List (Bytes × Bytes)

abbrev pub empty : Tracker
empty = record { variables = []; scope_variables = []; scope_depth = 0; borrower_to_source = [] }

unfoldable pub push_scope : Tracker → Tracker
push_scope t = record t {
  scope_depth = (t.scope_depth + 1) % 2 ^ 32;
  scope_variables = [] ∷ t.scope_variables;
}

abbrev pub release_source : Option Bytes → Bytes → Tracker → Tracker
release_source none borrower t = t
release_source (some source) borrower t = record t {
  variables = update source (State.release_borrow borrower) t.variables;
  borrower_to_source = erase borrower t.borrower_to_source;
}

-- `releaseBorrow`, which is also the body of the loop in `popScope`.
unfoldable pub release_borrow : Bytes → Tracker → Tracker
release_borrow borrower t = release_source (lookup borrower t.borrower_to_source) borrower t

abbrev pub release_all : List Bytes → Tracker → Tracker
release_all [] t = t
release_all (name ∷ names) t = release_all names (release_borrow name t)

abbrev pub pop_variables : List (List Bytes) → Tracker → Tracker
pop_variables [] t = t
pop_variables (names ∷ scopes) t = record (release_all names t) { scope_variables = scopes }

unfoldable pub pop_scope : Tracker → Tracker
unfolding release_borrow
pop_scope t =
    let released = record t {
      variables = update_all (release_borrows_at_depth t.scope_depth) t.variables;
    } in
    if t.scope_depth == 0
    then t
    else record (pop_variables t.scope_variables released) { scope_depth = t.scope_depth - 1 }

abbrev pub add_to_scope : Bytes → List (List Bytes) → List (List Bytes)
add_to_scope name [] = []
add_to_scope name (names ∷ scopes) = (names ++ name ∷ []) ∷ scopes

unfoldable pub define_variable : Bytes → TypeKind → Bool → SourceLocation → Tracker → Tracker
define_variable name kind is_transparent loc t = record t {
  variables =
      insert_or_assign name
        (record (new_variable name loc t.scope_depth) {
          is_copy_type = is_copy_type kind is_transparent;
        })
        t.variables;
  scope_variables = add_to_scope name t.scope_variables;
}

unfoldable pub undefine_variable : Bytes → Tracker → Tracker
undefine_variable name t = record t { variables = erase name t.variables }

-- `OwnershipCheckResult`
pub data CheckResult : Type 0 where
  success : CheckResult
  failure : (message : Bytes) (location related : SourceLocation) → CheckResult

abbrev pub quoted : Bytes → Bytes
quoted name = codes "'" ++ name ++ codes "'"

abbrev pub use_of : Option VariableOwnership → Bytes → SourceLocation → CheckResult
use_of none name loc = success
use_of (some v) name loc =
    if is_moved v
    then failure (codes "use of moved value " ++ quoted name) loc v.last_move_location
    else success

unfoldable pub check_use : Bytes → SourceLocation → Tracker → CheckResult
check_use name loc t = use_of (lookup name t.variables) name loc

-- A check that fails over the first of some borrows, if there is one.
abbrev pub over_first : (ActiveBorrow → Bytes) → SourceLocation → List ActiveBorrow → CheckResult
over_first message loc [] = success
over_first message loc (b ∷ _) = failure (message b) loc b.location

abbrev pub move_of : Option VariableOwnership → Bytes → SourceLocation → CheckResult
move_of none name loc = success
move_of (some v) name loc =
    if v.is_copy_type
    then success
    else if is_moved v
    then failure (codes "cannot move " ++ quoted name ++ codes ": value has already been moved") loc
        v.last_move_location
    else over_first
        (λ b.
          codes "cannot move "
          ++ quoted name
          ++ codes ": value is currently borrowed by "
          ++ quoted b.borrower_name)
        loc v.active_borrows

unfoldable pub check_move : Bytes → SourceLocation → Tracker → CheckResult
check_move name loc t = move_of (lookup name t.variables) name loc

-- `find_if` for the first mutable borrow.
abbrev pub mutable_borrows : List ActiveBorrow → List ActiveBorrow
mutable_borrows [] = []
mutable_borrows (b ∷ bs) =
    let rest = mutable_borrows bs in if is_mutable b.kind then b ∷ rest else rest

abbrev pub borrow_of : Option VariableOwnership → Bytes → BorrowKind → SourceLocation → CheckResult
borrow_of none name kind loc = success
borrow_of (some v) name kind loc =
    if is_moved v
    then failure (codes "cannot borrow " ++ quoted name ++ codes ": value has been moved") loc
        v.last_move_location
    else if is_mutable kind
    then over_first
        (λ b.
          codes "cannot borrow "
          ++ quoted name
          ++ codes " as mutable: already "
          ++ (if is_mutable b.kind then codes "mutably" else codes "immutably")
          ++ codes " borrowed by "
          ++ quoted b.borrower_name)
        loc v.active_borrows
    else over_first
        (λ b.
          codes "cannot borrow "
          ++ quoted name
          ++ codes " as immutable: already mutably borrowed by "
          ++ quoted b.borrower_name)
        loc (mutable_borrows v.active_borrows)

unfoldable pub check_borrow : Bytes → BorrowKind → SourceLocation → Tracker → CheckResult
check_borrow name kind loc t = borrow_of (lookup name t.variables) name kind loc

abbrev pub assign_of : Option VariableOwnership → Bytes → SourceLocation → CheckResult
assign_of none name loc = success
assign_of (some v) name loc =
    over_first
      (λ b.
        codes "cannot assign to "
        ++ quoted name
        ++ codes ": value is currently borrowed by "
        ++ quoted b.borrower_name)
      loc v.active_borrows

unfoldable pub check_assign : Bytes → SourceLocation → Tracker → CheckResult
check_assign name loc t = assign_of (lookup name t.variables) name loc

unfoldable pub do_move : Bytes → SourceLocation → Tracker → Tracker
do_move name loc t = record t {
  variables = update name (λ v. if v.is_copy_type then v else mark_moved loc v) t.variables;
}

abbrev pub borrow_source :
    Option VariableOwnership → Bytes → BorrowKind → Bytes → SourceLocation → Tracker → Tracker
borrow_source none name kind borrower loc t = t
borrow_source (some _) name kind borrower loc t = record t {
  variables = update name (mark_borrowed borrower kind loc t.scope_depth) t.variables;
  borrower_to_source = insert_or_assign borrower name t.borrower_to_source;
}

unfoldable pub do_borrow : Bytes → BorrowKind → Bytes → SourceLocation → Tracker → Tracker
do_borrow name kind borrower loc t =
    borrow_source (lookup name t.variables) name kind borrower loc t

unfoldable pub reinitialize : Bytes → Tracker → Tracker
reinitialize name t = record t { variables = update name reset t.variables }
