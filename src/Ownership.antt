-- ===== src/Ownership.antt =====
-- binder/ownership/: the tracker of moves and borrows.
pub mod State
pub mod Tracker
pub mod Consistent
pub mod Checked
pub mod Moves
pub mod Scopes
pub mod Borrows
mod Tests
