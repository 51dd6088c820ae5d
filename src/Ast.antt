-- ===== src/Ast.antt =====
-- parser/ast/: the part of the syntax tree that the other modules read.
pub mod Kinds
pub mod TypeNames
pub mod DjinnType
pub mod Expression
pub mod Statement
