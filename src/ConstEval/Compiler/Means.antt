-- ===== src/ConstEval/Compiler/Means.antt =====
-- The values of expressions with no calls and no variables but constants: the reference for the
-- compiler and the machine of evaluator/ConstEvaluator.cpp. There is no code, no pool and no stack.
-- Float literals and constants that are a zero or a NaN are left out, since the pool of floats does
-- not tell the zeros apart and never finds a NaN again; so are casts to other widths than those of
-- the integer types.
use Prim.Native.Nat.{bit_and, bit_or, bit_xor, max}
use djinn_lang_v.Base.{
  ℕ, ◌+◌, Bool, true, ◌&&◌, ◌||◌, not, List, ◌++◌, some, Bytes, codes, same_bytes, ◌≡◌,
}
use djinn_lang_v.Base.Int.{ltb_ℤ, leb_ℤ, eqb_ℤ, ℤ}
use djinn_lang_v.Base.Maps.{lookup}
use djinn_lang_v.Lexer.Token.{TokenType}
use djinn_lang_v.Ast.Kinds.{TypeKind}
use djinn_lang_v.Ast.Expression.{Expression}
use djinn_lang_v.ConstEval.Words.{shl64, shr64, not64}
use djinn_lang_v.ConstEval.Int128.{Int128}
use djinn_lang_v.ConstEval.Value.{
  Doubles, Kind, make_int, make_int128, make_float, make_bool, to_int, to_float, to_bool,
}
use djinn_lang_v.ConstEval.Fit.{OverflowMode}
use djinn_lang_v.ConstEval.Vm.{Value, Exec, next, ◌>>=◌}
use djinn_lang_v.ConstEval.Vm.Arith.{
  add_values, sub_values, mul_values, div_values, mod_values, neg_value, compare_ints, logic_values,
  bits_values, shift_values,
}
use djinn_lang_v.ConstEval.Vm.Dispatch.{literal_width}
use djinn_lang_v.ConstEval.Compiler.{parsed, Numerals}
use djinn_lang_v.ConstEval.Compiler.Literals.{Literal, integer_literal}

-- The widths of the integer types.
pub data Width : ℕ → Type 0 where
  of_8 : Width 8
  of_16 : Width 16
  of_32 : Width 32
  of_64 : Width 64
  of_128 : Width 128

-- The number of operators and leaves, each one instruction, and the values that wait at one time.
unfoldable pub count : Expression → ℕ
count (Expression.binary op mode left right) = count left + (count right + 1)
count (Expression.unary op mode operand) = count operand + 1
count (Expression.cast kind size sign operand) = count operand + 1
count _ = 1

unfoldable pub depth : Expression → ℕ
depth (Expression.binary op mode left right) = max (depth left) (depth right + 1)
depth (Expression.unary op mode operand) = depth operand
depth (Expression.cast kind size sign operand) = depth operand
depth _ = 1

module _ (F : Doubles) where
  -- An operator that ends no evaluation.
  abbrev pub always : (Value F → Value F → Value F) → Value F → Value F → Exec F (Value F)
  always op l r = next (op l r)

  pub data Operator
      : TokenType → OverflowMode → (Value F → Value F → Exec F (Value F)) → Type 0 where
    plus : {mode : OverflowMode} → Operator TokenType.plus mode (always (add_values F mode))
    minus : {mode : OverflowMode} → Operator TokenType.minus mode (always (sub_values F mode))
    star : {mode : OverflowMode} → Operator TokenType.star mode (always (mul_values F mode))
    slash : {mode : OverflowMode} → Operator TokenType.slash mode (div_values F mode)
    percent : {mode : OverflowMode} → Operator TokenType.percent mode (mod_values F mode)
    equal_equal :
        {mode : OverflowMode} → Operator TokenType.equal_equal mode (always (compare_ints F eqb_ℤ))
    bang_equal :
        {mode : OverflowMode}
        → Operator TokenType.bang_equal mode (always (compare_ints F (λ a b. not (eqb_ℤ a b))))
    less : {mode : OverflowMode} → Operator TokenType.less mode (always (compare_ints F ltb_ℤ))
    less_equal :
        {mode : OverflowMode} → Operator TokenType.less_equal mode (always (compare_ints F leb_ℤ))
    greater :
        {mode : OverflowMode}
        → Operator TokenType.greater mode (always (compare_ints F (λ a b. ltb_ℤ b a)))
    greater_equal :
        {mode : OverflowMode}
        → Operator TokenType.greater_equal mode (always (compare_ints F (λ a b. leb_ℤ b a)))
    less_less : {mode : OverflowMode} → Operator TokenType.less_less mode (shift_values F shl64)
    greater_greater :
        {mode : OverflowMode} → Operator TokenType.greater_greater mode (shift_values F shr64)
    ampersand :
        {mode : OverflowMode} → Operator TokenType.ampersand mode (always (bits_values F bit_and))
    pipe : {mode : OverflowMode} → Operator TokenType.pipe mode (always (bits_values F bit_or))
    caret : {mode : OverflowMode} → Operator TokenType.caret mode (always (bits_values F bit_xor))
    and_and : {mode : OverflowMode} → Operator TokenType.and_and mode (always (logic_values F ◌&&◌))
    or_or : {mode : OverflowMode} → Operator TokenType.or_or mode (always (logic_values F ◌||◌))

  pub data UnaryOperator : TokenType → OverflowMode → (Value F → Exec F (Value F)) → Type 0 where
    minus : {mode : OverflowMode} → UnaryOperator TokenType.minus mode (neg_value F mode)
    bang :
        {mode : OverflowMode}
        → UnaryOperator TokenType.bang mode (λ v. next (make_bool F (not (to_bool F v))))
    tilde :
        {mode : OverflowMode}
        → UnaryOperator TokenType.tilde mode (λ v. next (make_int F (not64 (to_int F v)) 32 true))

  pub data Conversion : TypeKind → ℕ → Bool → (Value F → Exec F (Value F)) → Type 0 where
    integer :
        {size : ℕ} {sign : Bool}
        → Width size
        → Conversion TypeKind.integer size sign (λ v. next (make_int F (to_int F v) size sign))
    f32 :
        {size : ℕ} {sign : Bool}
        → Conversion TypeKind.f32 size sign (λ v. next (make_float F (to_float F v) 32))
    f64 :
        {size : ℕ} {sign : Bool}
        → Conversion TypeKind.f64 size sign (λ v. next (make_float F (to_float F v) 64))

  -- No other double is equal to `v`: it is neither a zero nor a NaN.
  abbrev pub Alone : F.Double → Type 0
  Alone v = (w : F.Double) → F.eq w v ≡ true → w ≡ v

  -- A constant as an expression reads it: it keeps its number, not its width.
  pub data Reads : Value F → Value F → Type 0 where
    integer :
        {v : Value F}
        → v.kind ≡ Kind.integer
        → Reads v (make_int F v.int_val (literal_width v.int_val) true)
    integer128 :
        {v : Value F} → v.kind ≡ Kind.integer128 → Reads v (make_int128 F v.int128_val true)
    float :
        {v : Value F}
        → v.kind ≡ Kind.float
        → Alone v.float_val
        → Reads v (make_float F v.float_val 64)
    bool : {v : Value F} → v.kind ≡ Kind.bool → Reads v (make_bool F v.bool_val)

module _ (F : Doubles) (N : Numerals F) (constants : List (Bytes × Value F)) where
  -- Operands from left to right, both of them also under `&&` and `||`.
  pub data Means : Expression → Exec F (Value F) → Type 0 where
    small_integer :
        {value : Bytes} (v : ℤ)
        → integer_literal F N value ≡ Literal.int64 v
        → Means (Expression.integer_literal value) (next (make_int F v (literal_width v) true))
    large_integer :
        {value : Bytes} (v : Int128)
        → integer_literal F N value ≡ Literal.int128 v
        → Means (Expression.integer_literal value) (next (make_int128 F v true))
    float :
        {value : Bytes} (v : F.Double)
        → N.stod value ≡ parsed v
        → Alone F v
        → Means (Expression.float_literal value) (next (make_float F v 64))
    boolean :
        {value : Bytes}
        → Means
            (Expression.boolean_literal value)
            (next (make_bool F (same_bytes value (codes "true"))))
    constant :
        {name : Bytes} (v : Value F) {w : Value F}
        → lookup name constants ≡ some v
        → Reads F v w
        → Means (Expression.identifier name) (next w)
    field :
        {object field : Bytes} (v : Value F) {w : Value F}
        → lookup (object ++ codes "." ++ field) constants ≡ some v
        → Reads F v w
        → Means (Expression.field_access (Expression.identifier object) field) (next w)
    binary :
        {op : TokenType} {mode : OverflowMode} {left right : Expression} {l r : Exec F (Value F)}
        {f : Value F → Value F → Exec F (Value F)}
        → Operator F op mode f
        → Means left l
        → Means right r
        → Means (Expression.binary op mode left right) (l >>= λ v. r >>= λ w. f v w)
    unary :
        {op : TokenType} {mode : OverflowMode} {operand : Expression} {m : Exec F (Value F)}
        {f : Value F → Exec F (Value F)}
        → UnaryOperator F op mode f
        → Means operand m
        → Means (Expression.unary op mode operand) (m >>= f)
    cast :
        {kind : TypeKind} {size : ℕ} {sign : Bool} {operand : Expression} {m : Exec F (Value F)}
        {f : Value F → Exec F (Value F)}
        → Conversion F kind size sign f
        → Means operand m
        → Means (Expression.cast kind size sign operand) (m >>= f)
