-- ===== src/ConstEval/Vm/Dispatch.antt =====
-- evaluator/ConstEvaluator.cpp: the `switch (instr.op)` of `execute`.
use Prim.Native.Nat.{bit_and, bit_or, bit_xor}
use djinn_lang_v.Base.{
  ℕ, ◌+◌, ◌-◌, ◌%◌, ◌/◌, ◌^◌, Bool, true, false, ◌&&◌, ◌||◌, not, List, [], ◌∷◌, ◌==◌,
  if◌then◌else◌, Option, none, some, get_elem?, Bytes,
}
use djinn_lang_v.Base.Int.{ℤ, pos, negsuc, ltb_ℤ, leb_ℤ, eqb_ℤ}
use djinn_lang_v.ConstEval.Words.{shl64, shr64, not64}
use djinn_lang_v.ConstEval.Value.{
  Doubles, make_int, make_int128, make_float, make_bool, make_void, make_thrown, to_int, to_float,
  to_bool,
}
use djinn_lang_v.ConstEval.Code.{OpCode, Program, ConstEvalConfig}
use djinn_lang_v.ConstEval.Vm.{
  Value, Vm, Exec, next, finished, ◌>>=◌, push, pop, pop2, index_or_undefined,
}
use djinn_lang_v.ConstEval.Vm.Arith.{
  mode_of, add_values, sub_values, mul_values, div_values, div_floats, mod_values, neg_value,
  float_values, compare_ints, compare_floats, logic_values, bits_values, shift_values,
}
use djinn_lang_v.ConstEval.Vm.Calls.{store_local, load_local, call, return_value}

-- `v >= INT32_MIN && v <= INT32_MAX ? 32 : 64`
abbrev pub literal_width : ℤ → ℕ
literal_width v = if leb_ℤ (negsuc (2 ^ 31 - 1)) v && leb_ℤ v (pos (2 ^ 31 - 1)) then 32 else 64

module _ (F : Doubles) (cfg : ConstEvalConfig) (program : Program F) where
  -- A case that ends in `break`: `ip++` follows.
  abbrev pub then_next : Exec F (Vm F) → Exec F (Vm F)
  then_next m = m >>= λ vm. next (record vm { ip = vm.ip + 1 })

  unfoldable pub push_next : Value F → Vm F → Exec F (Vm F)
  unfolding push
  push_next v vm = then_next (push F cfg v vm)

  -- `auto v = pop(); push(...)`, and with two operands.
  unfoldable pub unary : (Value F → Exec F (Value F)) → Vm F → Exec F (Vm F)
  unfolding pop push_next
  unary op vm = pop F vm >>= λ p. op p.0 >>= λ v. push_next v p.1

  unfoldable pub binary : (Value F → Value F → Exec F (Value F)) → Vm F → Exec F (Vm F)
  unfolding pop2 push_next
  binary op vm = pop2 F vm >>= λ p. op p.0 p.1 >>= λ v. push_next v p.2

  abbrev pub total : (Value F → Value F → Value F) → Value F → Value F → Exec F (Value F)
  total op l r = next (op l r)

  unfoldable pub jump_if : Bool → ℕ → Vm F → Exec F (Vm F)
  unfolding pop
  jump_if want target vm = pop F vm >>= λ p.
      if (if want then to_bool F p.0 else not (to_bool F p.0))
      then next (record (p.1) { ip = target })
      else next (record (p.1) { ip = p.1.ip + 1 })

  abbrev pub halt_with : List (Value F) → Exec F (Vm F)
  halt_with [] = finished (make_void F)
  halt_with (v ∷ _) = finished v

  abbrev pub thrown_name : Option Bytes → Bytes
  thrown_name none = []
  thrown_name (some name) = name

  unfoldable pub step : OpCode → ℕ → Vm F → Exec F (Vm F)
  step OpCode.push_int n vm = index_or_undefined F (get_elem? program.int_pool n) >>= λ v.
      push_next (make_int F v (literal_width v) true) vm
  step OpCode.push_int128 n vm = index_or_undefined F (get_elem? program.int128_pool n) >>= λ v.
      push_next (make_int128 F v true) vm
  step OpCode.push_float n vm = index_or_undefined F (get_elem? program.float_pool n) >>= λ v.
      push_next (make_float F v 64) vm
  step OpCode.push_bool n vm = push_next (make_bool F (not (n == 0))) vm
  step OpCode.pop n vm = then_next (pop F vm >>= λ p. next p.1)
  step OpCode.add_int n vm = binary (total (add_values F (mode_of n))) vm
  step OpCode.sub_int n vm = binary (total (sub_values F (mode_of n))) vm
  step OpCode.mul_int n vm = binary (total (mul_values F (mode_of n))) vm
  step OpCode.div_int n vm = binary (div_values F (mode_of n)) vm
  step OpCode.mod_int n vm = binary (mod_values F (mode_of n)) vm
  step OpCode.neg_int n vm = unary (neg_value F (mode_of n)) vm
  step OpCode.add_float n vm = binary (total (float_values F F.add)) vm
  step OpCode.sub_float n vm = binary (total (float_values F F.sub)) vm
  step OpCode.mul_float n vm = binary (total (float_values F F.mul)) vm
  step OpCode.div_float n vm = binary (div_floats F) vm
  step OpCode.neg_float n vm =
      unary (λ v. next (make_float F (F.neg (to_float F v)) v.bit_width)) vm
  step OpCode.cmp_eq_int n vm = binary (total (compare_ints F eqb_ℤ)) vm
  step OpCode.cmp_ne_int n vm = binary (total (compare_ints F (λ a b. not (eqb_ℤ a b)))) vm
  step OpCode.cmp_lt_int n vm = binary (total (compare_ints F ltb_ℤ)) vm
  step OpCode.cmp_le_int n vm = binary (total (compare_ints F leb_ℤ)) vm
  step OpCode.cmp_gt_int n vm = binary (total (compare_ints F (λ a b. ltb_ℤ b a))) vm
  step OpCode.cmp_ge_int n vm = binary (total (compare_ints F (λ a b. leb_ℤ b a))) vm
  step OpCode.cmp_eq_float n vm = binary (total (compare_floats F F.eq)) vm
  step OpCode.cmp_ne_float n vm = binary (total (compare_floats F (λ a b. not (F.eq a b)))) vm
  step OpCode.cmp_lt_float n vm = binary (total (compare_floats F F.lt)) vm
  step OpCode.cmp_le_float n vm = binary (total (compare_floats F F.le)) vm
  step OpCode.cmp_gt_float n vm = binary (total (compare_floats F (λ a b. F.lt b a))) vm
  step OpCode.cmp_ge_float n vm = binary (total (compare_floats F (λ a b. F.le b a))) vm
  step OpCode.shl_int n vm = binary (shift_values F shl64) vm
  step OpCode.shr_int n vm = binary (shift_values F shr64) vm
  step OpCode.and_int n vm = binary (total (bits_values F bit_and)) vm
  step OpCode.or_int n vm = binary (total (bits_values F bit_or)) vm
  step OpCode.xor_int n vm = binary (total (bits_values F bit_xor)) vm
  step OpCode.not_int n vm = unary (λ v. next (make_int F (not64 (to_int F v)) 32 true)) vm
  step OpCode.logic_and n vm = binary (total (logic_values F ◌&&◌)) vm
  step OpCode.logic_or n vm = binary (total (logic_values F ◌||◌)) vm
  step OpCode.logic_not n vm = unary (λ v. next (make_bool F (not (to_bool F v)))) vm
  step OpCode.int_to_float n vm = unary (λ v. next (make_float F (F.of_int v.int_val) 64)) vm
  step OpCode.float_to_int n vm = unary (λ v. next (make_int F (F.to_int v.float_val) 32 true)) vm
  step OpCode.bool_to_int n vm =
      unary (λ v. next (make_int F (if v.bool_val then pos 1 else pos 0) 32 true)) vm
  step OpCode.int_to_bool n vm = unary (λ v. next (make_bool F (not (eqb_ℤ v.int_val (pos 0))))) vm
  step OpCode.cast_int n vm =
      unary (λ v. next (make_int F (to_int F v) (n % 2 ^ 16) (n / 2 ^ 16 % 2 == 1))) vm
  step OpCode.cast_float n vm = unary (λ v. next (make_float F (to_float F v) n)) vm
  step OpCode.store_local n vm = then_next (store_local F cfg n vm)
  step OpCode.load_local n vm = then_next (load_local F cfg n vm)
  step OpCode.jmp n vm = next (record vm { ip = n })
  step OpCode.jmp_if_false n vm = jump_if false n vm
  step OpCode.jmp_if_true n vm = jump_if true n vm
  step OpCode.call n vm = call F cfg program n vm
  step OpCode.ret n vm = return_value F cfg vm
  step OpCode.halt n vm = halt_with vm.stack
  step OpCode.throw n vm = finished (make_thrown F (thrown_name (get_elem? program.string_pool n)))
