-- ===== src/ConstEval/Compiler/Expressions.antt =====
-- evaluator/ConstEvaluator.cpp: `compileExpression` and the functions that it calls.
use Prim.Native.Nat.{bit_or}
use djinn_lang_v.Base.{
  ℕ, ◌^◌, Bool, true, false, ◌&&◌, ◌||◌, ◌++◌, Option, none, some, Bytes, codes, same_bytes,
  if◌then◌else◌,
}
use djinn_lang_v.Base.Maps.{lookup}
use djinn_lang_v.Lexer.Token.{TokenType}
use djinn_lang_v.Ast.Kinds.{TypeKind}
use djinn_lang_v.Ast.Expression.{Expression, Arguments, no_arguments, argument}
use djinn_lang_v.ConstEval.Fit.{OverflowMode}
use djinn_lang_v.ConstEval.Value.{Doubles, ConstValue}
use djinn_lang_v.ConstEval.Code.{OpCode}
use djinn_lang_v.ConstEval.Compiler.{
  Attempt, done, threw, ◌>>=◌, Parsed, parsed, out_of_range, invalid_argument, Numerals, Compiler,
  fail, unless_error, emit, push_int, push_int128, push_float, push_bool, push_constant,
  get_or_create_local,
}
use djinn_lang_v.ConstEval.Compiler.Literals.{Literal, integer_literal}

-- `static_cast<uint32_t>(overflowMode)`
abbrev pub mode_code : OverflowMode → ℕ
mode_code OverflowMode.unchecked = 0
mode_code OverflowMode.wrapped = 1
mode_code OverflowMode.trapped = 2
mode_code OverflowMode.checked = 3
mode_code OverflowMode.saturating = 4

-- The instruction of a binary operator.
abbrev pub binary_code : TokenType → OverflowMode → Option (OpCode × ℕ)
binary_code TokenType.plus mode = some (OpCode.add_int, mode_code mode)
binary_code TokenType.minus mode = some (OpCode.sub_int, mode_code mode)
binary_code TokenType.star mode = some (OpCode.mul_int, mode_code mode)
binary_code TokenType.slash mode = some (OpCode.div_int, mode_code mode)
binary_code TokenType.percent mode = some (OpCode.mod_int, mode_code mode)
binary_code TokenType.equal_equal mode = some (OpCode.cmp_eq_int, 0)
binary_code TokenType.bang_equal mode = some (OpCode.cmp_ne_int, 0)
binary_code TokenType.less mode = some (OpCode.cmp_lt_int, 0)
binary_code TokenType.less_equal mode = some (OpCode.cmp_le_int, 0)
binary_code TokenType.greater mode = some (OpCode.cmp_gt_int, 0)
binary_code TokenType.greater_equal mode = some (OpCode.cmp_ge_int, 0)
binary_code TokenType.less_less mode = some (OpCode.shl_int, 0)
binary_code TokenType.greater_greater mode = some (OpCode.shr_int, 0)
binary_code TokenType.ampersand mode = some (OpCode.and_int, 0)
binary_code TokenType.pipe mode = some (OpCode.or_int, 0)
binary_code TokenType.caret mode = some (OpCode.xor_int, 0)
binary_code TokenType.and_and mode = some (OpCode.logic_and, 0)
binary_code TokenType.or_or mode = some (OpCode.logic_or, 0)
binary_code _ mode = none

abbrev pub unary_code : TokenType → OverflowMode → Option (OpCode × ℕ)
unary_code TokenType.minus mode = some (OpCode.neg_int, mode_code mode)
unary_code TokenType.bang mode = some (OpCode.logic_not, 0)
unary_code TokenType.tilde mode = some (OpCode.not_int, 0)
unary_code _ mode = none

abbrev pub cast_code : TypeKind → ℕ → Bool → Option (OpCode × ℕ)
cast_code TypeKind.integer size sign =
    some (OpCode.cast_int, bit_or size (if sign then 2 ^ 16 else 0))
cast_code TypeKind.f32 size sign = some (OpCode.cast_float, 32)
cast_code TypeKind.f64 size sign = some (OpCode.cast_float, 64)
cast_code _ size sign = none

abbrev pub has_one : Arguments → Bool
has_one (argument _ no_arguments) = true
has_one _ = false

module _ (F : Doubles) where
  abbrev pub emit_code : Option (OpCode × ℕ) → Compiler F → Attempt (Compiler F)
  emit_code none c = done (fail F c)
  emit_code (some (op, operand)) c = done (emit F op operand c)

  abbrev pub emit_literal : Literal → Compiler F → Attempt (Compiler F)
  emit_literal (Literal.int64 v) c = done (push_int F v c)
  emit_literal (Literal.int128 v) c = done (push_int128 F v c)
  emit_literal Literal.unsupported c = done (fail F c)
  emit_literal Literal.throws c = threw

  -- Only `std::out_of_range` is caught.
  abbrev pub emit_float : Parsed F.Double → Compiler F → Attempt (Compiler F)
  emit_float (parsed v) c = done (push_float F v c)
  emit_float out_of_range c = done (fail F c)
  emit_float invalid_argument c = threw

  abbrev pub or_fail : Option (Compiler F) → Compiler F → Compiler F
  or_fail none c = fail F c
  or_fail (some c') c = c'

  abbrev pub constant_named : Option (ConstValue F) → Compiler F → Compiler F
  constant_named none c = fail F c
  constant_named (some v) c = or_fail (push_constant F v c) c

  abbrev pub named : Option ℕ → Bytes → Compiler F → Compiler F
  named (some slot) name c = emit F OpCode.load_local slot c
  named none name c = constant_named (lookup name c.constants) c

  unfoldable pub compile_identifier : Bytes → Compiler F → Compiler F
  unfolding emit push_constant
  compile_identifier name c = named (lookup name c.local_slots) name c

  abbrev pub field_of : Expression → Bytes → Compiler F → Compiler F
  field_of (Expression.identifier object) field c =
      compile_identifier (object ++ codes "." ++ field) c
  field_of _ field c = fail F c

  unfoldable pub compile_init : Bytes → Compiler F → Compiler F
  unfolding get_or_create_local emit
  compile_init name c =
      let (slot, c') = get_or_create_local F name c in emit F OpCode.store_local slot c'

  abbrev pub assign_to : Option ℕ → Compiler F → Compiler F
  assign_to none c = fail F c
  assign_to (some slot) c = emit F OpCode.store_local slot c

  abbrev pub is_hint : Bytes → Bool
  is_hint name = same_bytes name (codes "likely") || same_bytes name (codes "unlikely")

  -- `m` compiles the arguments.
  abbrev pub call_named : Option ℕ → Attempt (Compiler F) → Compiler F → Attempt (Compiler F)
  call_named none m c = done (fail F c)
  call_named (some i) m c = m >>= λ c. unless_error F c λ c. done (emit F OpCode.call i c)

  module _ (N : Numerals F) where
    -- Each case stands behind the test of `_hadError`.
    unfoldable mutual
      unfolding emit push_int push_int128 push_float push_bool compile_identifier compile_init
          integer_literal

      pub compile_expression : Expression → Compiler F → Attempt (Compiler F)
      compile_expression (Expression.integer_literal value) c =
          unless_error F c (emit_literal (integer_literal F N value))
      compile_expression (Expression.float_literal value) c =
          unless_error F c (emit_float (N.stod value))
      compile_expression (Expression.boolean_literal value) c =
          unless_error F c λ c. done (push_bool F (same_bytes value (codes "true")) c)
      compile_expression (Expression.identifier name) c =
          unless_error F c λ c. done (compile_identifier name c)
      compile_expression (Expression.field_access object field) c =
          unless_error F c λ c. done (field_of object field c)
      compile_expression (Expression.binary op mode left right) c = unless_error F c λ c.
          compile_expression left c >>= λ c. unless_error F c λ c.
            compile_expression right c >>= λ c. unless_error F c (emit_code (binary_code op mode))
      compile_expression (Expression.unary op mode operand) c = unless_error F c λ c.
          compile_expression operand c >>= λ c. unless_error F c (emit_code (unary_code op mode))
      compile_expression (Expression.cast kind size sign operand) c = unless_error F c λ c.
          compile_expression operand c >>= λ c.
          unless_error F c (emit_code (cast_code kind size sign))
      compile_expression (Expression.function_call name arguments) c = unless_error F c λ c.
          if is_hint name && has_one arguments
          then compile_arguments arguments c
          else call_named (lookup name c.function_index) (compile_arguments arguments c) c
      compile_expression (Expression.variable_init name value) c =
          unless_error F c λ c.
            compile_expression value c >>= λ c. unless_error F c λ c. done (compile_init name c)
      compile_expression (Expression.assignment name value) c = unless_error F c λ c.
          compile_expression value c >>= λ c.
          unless_error F c λ c. done (assign_to (lookup name c.local_slots) c)
      compile_expression Expression.other_expression c = unless_error F c λ c. done (fail F c)

      -- Left to right, up to the first error.
      pub compile_arguments : Arguments → Compiler F → Attempt (Compiler F)
      compile_arguments no_arguments c = done c
      compile_arguments (argument e rest) c =
          compile_expression e c >>= λ c. unless_error F c λ c. compile_arguments rest c
