-- ===== src/ConstEval/Compiler/Operators.antt =====
-- evaluator/ConstEvaluator.cpp: the instruction that is emitted for an operator computes it.
use Prim.Native.Nat.{bit_or}
use djinn_lang_v.Base.{ℕ, ◌^◌, Bool, true, false, some, ◌≡◌, refl, ap, ◌∙◌, if◌then◌else◌}
use djinn_lang_v.Lexer.Token.{TokenType}
use djinn_lang_v.Ast.Kinds.{TypeKind}
use djinn_lang_v.ConstEval.Value.{Doubles, make_int, to_int}
use djinn_lang_v.ConstEval.Fit.{OverflowMode}
use djinn_lang_v.ConstEval.Code.{OpCode, Program, ConstEvalConfig}
use djinn_lang_v.ConstEval.Vm.{Value, Vm, Exec, next}
use djinn_lang_v.ConstEval.Vm.Arith.{
  mode_of, add_values, sub_values, mul_values, div_values, mod_values, neg_value,
}
use djinn_lang_v.ConstEval.Vm.Dispatch.{step, unary, binary}
use djinn_lang_v.ConstEval.Compiler.Expressions.{mode_code, binary_code, unary_code, cast_code}
use djinn_lang_v.ConstEval.Compiler.Means.{Width, Operator, UnaryOperator, Conversion, always}

mode_of-mode_code : (mode : OverflowMode) → mode_of (mode_code mode) ≡ mode
mode_of-mode_code OverflowMode.unchecked = refl
mode_of-mode_code OverflowMode.wrapped = refl
mode_of-mode_code OverflowMode.trapped = refl
mode_of-mode_code OverflowMode.checked = refl
mode_of-mode_code OverflowMode.saturating = refl

module _ (F : Doubles) (cfg : ConstEvalConfig) where
  abbrev pub StepsAs : OpCode → ℕ → (Value F → Value F → Exec F (Value F)) → Type 0
  StepsAs op n f =
      (program : Program F) (vm : Vm F) → step F cfg program op n vm ≡ binary F cfg program f vm

  abbrev pub StepsAsUnary : OpCode → ℕ → (Value F → Exec F (Value F)) → Type 0
  StepsAsUnary op n f =
      (program : Program F) (vm : Vm F) → step F cfg program op n vm ≡ unary F cfg program f vm

  -- An operator whose instruction carries the mode.
  with_mode :
      (op : OpCode) (f : OverflowMode → Value F → Value F → Exec F (Value F))
      → ((n : ℕ) → StepsAs op n (f (mode_of n)))
      → (mode : OverflowMode) → StepsAs op (mode_code mode) (f mode)
  with_mode op f e mode program vm =
      e (mode_code mode) program vm
      ∙ ap (λ m. binary F cfg program (f m) vm) (mode_of-mode_code mode)

  pub binary_code_lem :
      (op : TokenType) (mode : OverflowMode) (f : Value F → Value F → Exec F (Value F))
      → Operator F op mode f
      → (code : OpCode) × (n : ℕ) × (binary_code op mode ≡ some (code, n)) × StepsAs code n f
  unfolding step
  binary_code_lem _ mode _ Operator.plus = (
    OpCode.add_int,
    mode_code mode,
    refl,
    with_mode OpCode.add_int (λ m. always F (add_values F m)) (λ n program vm. refl) mode,
  )
  binary_code_lem _ mode _ Operator.minus = (
    OpCode.sub_int,
    mode_code mode,
    refl,
    with_mode OpCode.sub_int (λ m. always F (sub_values F m)) (λ n program vm. refl) mode,
  )
  binary_code_lem _ mode _ Operator.star = (
    OpCode.mul_int,
    mode_code mode,
    refl,
    with_mode OpCode.mul_int (λ m. always F (mul_values F m)) (λ n program vm. refl) mode,
  )
  binary_code_lem _ mode _ Operator.slash = (
    OpCode.div_int,
    mode_code mode,
    refl,
    with_mode OpCode.div_int (div_values F) (λ n program vm. refl) mode,
  )
  binary_code_lem _ mode _ Operator.percent = (
    OpCode.mod_int,
    mode_code mode,
    refl,
    with_mode OpCode.mod_int (mod_values F) (λ n program vm. refl) mode,
  )
  binary_code_lem _ mode _ Operator.equal_equal = (OpCode.cmp_eq_int, 0, refl, λ program vm. refl)
  binary_code_lem _ mode _ Operator.bang_equal = (OpCode.cmp_ne_int, 0, refl, λ program vm. refl)
  binary_code_lem _ mode _ Operator.less = (OpCode.cmp_lt_int, 0, refl, λ program vm. refl)
  binary_code_lem _ mode _ Operator.less_equal = (OpCode.cmp_le_int, 0, refl, λ program vm. refl)
  binary_code_lem _ mode _ Operator.greater = (OpCode.cmp_gt_int, 0, refl, λ program vm. refl)
  binary_code_lem _ mode _ Operator.greater_equal = (OpCode.cmp_ge_int, 0, refl, λ program vm. refl)
  binary_code_lem _ mode _ Operator.less_less = (OpCode.shl_int, 0, refl, λ program vm. refl)
  binary_code_lem _ mode _ Operator.greater_greater = (OpCode.shr_int, 0, refl, λ program vm. refl)
  binary_code_lem _ mode _ Operator.ampersand = (OpCode.and_int, 0, refl, λ program vm. refl)
  binary_code_lem _ mode _ Operator.pipe = (OpCode.or_int, 0, refl, λ program vm. refl)
  binary_code_lem _ mode _ Operator.caret = (OpCode.xor_int, 0, refl, λ program vm. refl)
  binary_code_lem _ mode _ Operator.and_and = (OpCode.logic_and, 0, refl, λ program vm. refl)
  binary_code_lem _ mode _ Operator.or_or = (OpCode.logic_or, 0, refl, λ program vm. refl)

  pub unary_code_lem :
      (op : TokenType) (mode : OverflowMode) (f : Value F → Exec F (Value F))
      → UnaryOperator F op mode f
      → (code : OpCode) × (n : ℕ) × (unary_code op mode ≡ some (code, n)) × StepsAsUnary code n f
  unfolding step
  unary_code_lem _ mode _ UnaryOperator.minus = (
    OpCode.neg_int,
    mode_code mode,
    refl,
    λ program vm. ap (λ m. unary F cfg program (neg_value F m) vm) (mode_of-mode_code mode),
  )
  unary_code_lem _ mode _ UnaryOperator.bang = (OpCode.logic_not, 0, refl, λ program vm. refl)
  unary_code_lem _ mode _ UnaryOperator.tilde = (OpCode.not_int, 0, refl, λ program vm. refl)

  -- The size and the sign share the operand of `CAST_INT`.
  cast_int_lem :
      (size : ℕ) (sign : Bool)
      → Width size
      → StepsAsUnary OpCode.cast_int
          (bit_or size (if sign then 2 ^ 16 else 0))
          (λ v. next (make_int F (to_int F v) size sign))
  unfolding step
  cast_int_lem _ true Width.of_8 program vm = refl
  cast_int_lem _ true Width.of_16 program vm = refl
  cast_int_lem _ true Width.of_32 program vm = refl
  cast_int_lem _ true Width.of_64 program vm = refl
  cast_int_lem _ true Width.of_128 program vm = refl
  cast_int_lem _ false Width.of_8 program vm = refl
  cast_int_lem _ false Width.of_16 program vm = refl
  cast_int_lem _ false Width.of_32 program vm = refl
  cast_int_lem _ false Width.of_64 program vm = refl
  cast_int_lem _ false Width.of_128 program vm = refl

  pub cast_code_lem :
      (kind : TypeKind) (size : ℕ) (sign : Bool) (f : Value F → Exec F (Value F))
      → Conversion F kind size sign f
      → (code : OpCode) × (n : ℕ) × (cast_code kind size sign ≡ some (code, n))
        × StepsAsUnary code n f
  unfolding step
  cast_code_lem _ size sign _ (Conversion.integer w) =
      (OpCode.cast_int, _, refl, cast_int_lem size sign w)
  cast_code_lem _ size sign _ Conversion.f32 = (OpCode.cast_float, 32, refl, λ program vm. refl)
  cast_code_lem _ size sign _ Conversion.f64 = (OpCode.cast_float, 64, refl, λ program vm. refl)
