-- ===== src/Parser.antt =====
-- parser/Parser.cpp: the cursor of the parser, and the parser of types.
pub mod Cursor
pub mod Types
mod Tests
