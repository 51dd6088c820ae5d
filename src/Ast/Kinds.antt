-- ===== src/Ast/Kinds.antt =====
-- parser/ast/Type.h: the kinds of types.
pub data TypeKind : Type 0 where
  integer void f16 f32 f64 f128 struct auto array pointer : TypeKind
