-- ===== src/Ownership/State.antt =====
-- binder/ownership/OwnershipState.h: the state of one variable. diagnostics/Diagnostic.h:
-- `SourceLocation`, with the default of its fields.
use djinn_lang_v.Base.{
  ℕ, Bool, true, false, not, ◌||◌, List, [], ◌∷◌, ◌++◌, Bytes, same_bytes, leb, if◌then◌else◌,
}

pub record SourceLocation : Type 0 where
  pub file_id : Bytes
  pub line : ℕ
  pub column : ℕ
  pub length : ℕ

abbrev pub no_location : SourceLocation
no_location = record { file_id = []; line = 0; column = 0; length = 1 }

pub data OwnershipStatus : Type 0 where
  owned moved partially_moved borrowed mutably_borrowed : OwnershipStatus

pub data BorrowKind : Type 0 where
  shared mutable : BorrowKind

pub record ActiveBorrow : Type 0 where
  pub borrower_name : Bytes
  pub kind : BorrowKind
  pub location : SourceLocation
  pub scope_depth : ℕ

pub record VariableOwnership : Type 0 where
  pub name : Bytes
  pub status : OwnershipStatus
  pub active_borrows : List ActiveBorrow
  pub definition_location : SourceLocation
  pub last_move_location : SourceLocation
  pub definition_scope_depth : ℕ
  pub is_copy_type : Bool

-- The constructor, with the initialisers of the fields.
abbrev pub new_variable : Bytes → SourceLocation → ℕ → VariableOwnership
new_variable name loc depth = record {
  name = name;
  status = OwnershipStatus.owned;
  active_borrows = [];
  definition_location = loc;
  last_move_location = no_location;
  definition_scope_depth = depth;
  is_copy_type = false;
}

abbrev pub is_moved_status : OwnershipStatus → Bool
is_moved_status OwnershipStatus.moved = true
is_moved_status _ = false

abbrev pub is_moved : VariableOwnership → Bool
is_moved v = is_moved_status v.status

abbrev pub is_mutable : BorrowKind → Bool
is_mutable BorrowKind.mutable = true
is_mutable BorrowKind.shared = false

abbrev pub any_mutable : List ActiveBorrow → Bool
any_mutable [] = false
any_mutable (b ∷ bs) = is_mutable b.kind || any_mutable bs

abbrev pub is_empty : List ActiveBorrow → Bool
is_empty [] = true
is_empty _ = false

abbrev pub has_mutable_borrow : VariableOwnership → Bool
has_mutable_borrow v = any_mutable v.active_borrows

abbrev pub has_any_borrow : VariableOwnership → Bool
has_any_borrow v = not (is_empty v.active_borrows)

unfoldable pub mark_moved : SourceLocation → VariableOwnership → VariableOwnership
mark_moved loc v = record v {
  status = OwnershipStatus.moved;
  last_move_location = loc;
  active_borrows = [];
}

unfoldable pub mark_borrowed :
    Bytes → BorrowKind → SourceLocation → ℕ → VariableOwnership → VariableOwnership
mark_borrowed borrower kind loc depth v = record v {
  active_borrows =
      v.active_borrows
      ++ record { borrower_name = borrower; kind = kind; location = loc; scope_depth = depth } ∷ [];
  status = if is_mutable kind then OwnershipStatus.mutably_borrowed else OwnershipStatus.borrowed;
}

-- The private `updateStatusAfterRelease`, on the status and the borrows left.
abbrev pub status_after_release : OwnershipStatus → List ActiveBorrow → OwnershipStatus
status_after_release status bs =
    if is_empty bs
    then if is_moved_status status then status else OwnershipStatus.owned
    else if any_mutable bs
    then OwnershipStatus.mutably_borrowed
    else OwnershipStatus.borrowed

-- `erase(remove_if(...))`
abbrev pub remove_if : (ActiveBorrow → Bool) → List ActiveBorrow → List ActiveBorrow
remove_if p [] = []
remove_if p (b ∷ bs) = let rest = remove_if p bs in if p b then rest else b ∷ rest

abbrev pub release_if : (ActiveBorrow → Bool) → VariableOwnership → VariableOwnership
release_if p v =
    let bs = remove_if p v.active_borrows in
    record v { active_borrows = bs; status = status_after_release v.status bs }

unfoldable pub release_borrow : Bytes → VariableOwnership → VariableOwnership
release_borrow borrower v = release_if (λ b. same_bytes b.borrower_name borrower) v

unfoldable pub release_borrows_at_depth : ℕ → VariableOwnership → VariableOwnership
release_borrows_at_depth depth v = release_if (λ b. leb depth b.scope_depth) v

unfoldable pub reset : VariableOwnership → VariableOwnership
reset v = record v { status = OwnershipStatus.owned; active_borrows = [] }
