-- ===== src/ConstEval/Tests.antt =====
-- Runs of the evaluator on small programs, and its theorems at concrete inputs.
use djinn_lang_v.Base.{
  ℕ, ◌+◌, ◌-◌, ◌*◌, ◌%◌, ◌^◌, ◌<◌, [], ◌∷◌, ◌≡◌, ◌↔◌, inr, refl, false, true, arith, some,
}
use djinn_lang_v.Base.Int.{
  ℤ, pos, negsuc, pos_part, neg_part, ◌+ℤ◌, ◌-ℤ◌, ◌*ℤ◌, eqb_ℤ, ltb_ℤ, leb_ℤ,
}
use djinn_lang_v.ConstEval.Words.{wrap64, quot, rem}
use djinn_lang_v.ConstEval.Int128.{Int128, add, sub, neg, lt}
use djinn_lang_v.ConstEval.Int128.Laws.{
  InRange, bits_of, add-bits_of, sub-bits_of, neg-bits_of, lt_iff,
}
use djinn_lang_v.ConstEval.Value.{Doubles, make_int, error_value}
use djinn_lang_v.ConstEval.Fit.{OverflowMode, fit_int, add_overflows64, sub_overflows64}
use djinn_lang_v.ConstEval.Fit.Exact.{
  add_overflows64_iff, sub_overflows64_iff, fit_int-exact, add_ints-exact, sub_ints-exact,
}
use djinn_lang_v.ConstEval.Fit.Width.{w8, w32, w64, InWidth, fit_exact}
use djinn_lang_v.ConstEval.Fit.Products.{mul_ints-exact}
use djinn_lang_v.ConstEval.Fit.Quotients.{div_ints-exact, mod_ints-exact}
use djinn_lang_v.ConstEval.Fit.Faults.{
  sub_ints-saturates_high, step-trapped_add, trapped_sum_vanishes,
}
use djinn_lang_v.ConstEval.Code.{
  OpCode, Instruction, CompiledFunction, CallFrame, Program, ConstEvalConfig, default_config,
}
use djinn_lang_v.ConstEval.Vm.{Value, Vm, next, finished, ◌>>=◌}
use djinn_lang_v.ConstEval.Vm.Arith.{
  add_ints, sub_ints, mul_ints, div_ints, mod_ints, add_values, mul_values,
}
use djinn_lang_v.ConstEval.Vm.Calls.{load_local, call, call_function, return_value}
use djinn_lang_v.ConstEval.Vm.Dispatch.{step}
use djinn_lang_v.ConstEval.Vm.Execute.{Outcome, initial, execute}
use djinn_lang_v.ConstEval.Vm.Bounds.{Bounded}
use djinn_lang_v.ConstEval.Vm.Reach.{Reach, Reach-Bounded}
use djinn_lang_v.ConstEval.Vm.Frames.{called, call_function-next}
use djinn_lang_v.ConstEval.Vm.Returns.{
  returned, load_local-return_value, load_local-return_value_kept,
}

-- Doubles that hold whole numbers only.
abbrev pub wholes : Doubles
wholes = record {
  Double = ℤ;
  of_int = λ z. z;
  to_int = λ z. z;
  add = λ a b. a +ℤ b;
  sub = λ a b. a -ℤ b;
  mul = λ a b. a *ℤ b;
  div = λ a b. a;
  neg = λ a. pos 0 -ℤ a;
  eq = eqb_ℤ;
  lt = ltb_ℤ;
  le = leb_ℤ;
}

abbrev at : OpCode → ℕ → Instruction
at op n = record { op = op; operand = n }

-- `square(5) + 1`, where the body of `square` comes first.
abbrev square_plus_one : Program wholes
square_plus_one = record {
  code =
      at OpCode.jmp 5
      ∷ at OpCode.load_local 0
      ∷ at OpCode.load_local 0
      ∷ at OpCode.mul_int 0
      ∷ at OpCode.ret 0
      ∷ at OpCode.push_int 0
      ∷ at OpCode.call 0
      ∷ at OpCode.push_int 1
      ∷ at OpCode.add_int 0
      ∷ at OpCode.halt 0
      ∷ [];
  int_pool = pos 5 ∷ pos 1 ∷ [];
  int128_pool = [];
  float_pool = [];
  string_pool = [];
  functions = square ∷ [];
}
  where
    square : CompiledFunction
    square = record { name = []; num_params = 1; num_locals = 1; code_start = 1 }

abbrev small_config : ConstEvalConfig
small_config = record default_config { max_iterations = 20; initial_heap_size = 2 }

add_ints-exact_example :
    add_ints (pos 100) (pos 50) 8 true OverflowMode.wrapped
    ≡ fit_exact w8 OverflowMode.wrapped (pos 100 +ℤ pos 50)
add_ints-exact_example =
    add_ints-exact w8 OverflowMode.wrapped (pos 100) (pos 50) (omega arith) (omega arith)

sub_ints-exact_example :
    sub_ints (negsuc 99) (pos 50) 8 true OverflowMode.saturating
    ≡ fit_exact w8 OverflowMode.saturating (negsuc 99 -ℤ pos 50)
sub_ints-exact_example =
    sub_ints-exact w8 OverflowMode.saturating (negsuc 99) (pos 50) (omega arith) (omega arith)

mul_ints-exact_example :
    mul_ints (negsuc 19) (pos 10) 8 true OverflowMode.saturating
    ≡ fit_exact w8 OverflowMode.saturating (negsuc 19 *ℤ pos 10)
mul_ints-exact_example =
    mul_ints-exact w8 OverflowMode.saturating (negsuc 19) (pos 10) tt (omega arith) (omega arith)

div_ints-exact_example :
    div_ints (negsuc 127) (negsuc 0) 8 true OverflowMode.saturating
    ≡ some (fit_exact w8 OverflowMode.saturating (quot (negsuc 127) (negsuc 0)))
div_ints-exact_example =
    div_ints-exact w8 OverflowMode.saturating (negsuc 127) (negsuc 0) tt (omega arith)

mod_ints-exact_example :
    mod_ints (negsuc 6) (pos 3) 8 true OverflowMode.trapped ≡ some (some (rem (negsuc 6) (pos 3)))
mod_ints-exact_example =
    mod_ints-exact w8 OverflowMode.trapped (negsuc 6) (pos 3) tt (omega arith) (omega arith)

fit_int-exact_example :
    fit_int (wrap64 (pos 300)) false false 8 true OverflowMode.trapped
    ≡ fit_exact w8 OverflowMode.trapped (pos 300)
fit_int-exact_example = fit_int-exact w8 OverflowMode.trapped (pos 300) false false refl (inr refl)

add_overflows64_iff_example :
    (add_overflows64 (pos (2 ^ 63 - 1)) (pos 1) ≡ false) ↔ InWidth w64 (pos (2 ^ 63 - 1) +ℤ pos 1)
add_overflows64_iff_example =
    add_overflows64_iff (pos (2 ^ 63 - 1)) (pos 1) (omega arith) (omega arith)

sub_overflows64_iff_example :
    (sub_overflows64 (negsuc (2 ^ 63 - 1)) (pos 1) ≡ false)
    ↔ InWidth w64 (negsuc (2 ^ 63 - 1) -ℤ pos 1)
sub_overflows64_iff_example =
    sub_overflows64_iff (negsuc (2 ^ 63 - 1)) (pos 1) (omega arith) (omega arith)

-- 2 ^ 64 - 1, and -1
abbrev full_low : Int128
full_low = record { high = pos 0; low = 2 ^ 64 - 1 }

abbrev minus_one : Int128
minus_one = record { high = negsuc 0; low = 2 ^ 64 - 1 }

full_low-InRange : InRange full_low
full_low-InRange = record { above = omega arith; below = omega arith; low_word = omega arith }

minus_one-InRange : InRange minus_one
minus_one-InRange = record { above = omega arith; below = omega arith; low_word = omega arith }

add-bits_of_example :
    bits_of (add full_low minus_one) ≡ (bits_of full_low + bits_of minus_one) % 2 ^ 128
add-bits_of_example = add-bits_of full_low minus_one full_low-InRange minus_one-InRange

sub-bits_of_example :
    bits_of (sub full_low minus_one) ≡ (bits_of full_low + 2 ^ 128 - bits_of minus_one) % 2 ^ 128
sub-bits_of_example = sub-bits_of full_low minus_one full_low-InRange minus_one-InRange

neg-bits_of_example : bits_of (neg full_low) ≡ (2 ^ 128 - bits_of full_low) % 2 ^ 128
neg-bits_of_example = neg-bits_of full_low full_low-InRange

lt_iff_example : (lt minus_one full_low ≡ true) ↔ (
    pos_part minus_one.high * 2 ^ 64 + minus_one.low + neg_part full_low.high * 2 ^ 64
    < pos_part full_low.high * 2 ^ 64 + full_low.low + neg_part minus_one.high * 2 ^ 64)
lt_iff_example = lt_iff minus_one full_low minus_one-InRange full_low-InRange

sub_ints-saturates_high_example :
    sub_ints (pos 3) (pos 5) 8 false OverflowMode.saturating ≡ some (pos (2 * 2 ^ 7 - 1))
sub_ints-saturates_high_example = sub_ints-saturates_high w8 3 5 tt (omega arith) (omega arith)

abbrev i32 : ℤ → Value wholes
i32 z = make_int wholes z 32 true

abbrev two_on_stack : Vm wholes
two_on_stack = record {
  stack = i32 (pos 1) ∷ i32 (pos (2 ^ 31 - 1)) ∷ [];
  locals = [];
  call_frames = [];
  locals_base = 0;
  ip = 8;
}

step-trapped_add_example :
    step wholes default_config square_plus_one OpCode.add_int 2 two_on_stack
    ≡ next (record two_on_stack { stack = error_value wholes ∷ []; ip = 9 })
step-trapped_add_example =
    step-trapped_add wholes default_config square_plus_one w32 (pos (2 ^ 31 - 1)) (pos 1)
      two_on_stack [] (omega arith) (omega arith) (unfold ◌+ℤ◌ in refl) refl (omega arith)

trapped_sum_vanishes_example :
    add_values wholes OverflowMode.unchecked
      (add_values wholes OverflowMode.trapped (i32 (pos (2 ^ 31 - 1))) (i32 (pos 1)))
      (i32 (pos 7))
    ≡ i32 (pos 7)
trapped_sum_vanishes_example =
    trapped_sum_vanishes wholes (pos (2 ^ 31 - 1)) (pos 1) (pos 7) (omega arith) (omega arith)
      (unfold ◌+ℤ◌ in refl) (omega arith)

-- Inside a call: the caller has three slots from 0 on, the callee one.
abbrev frame : CallFrame
frame = record { return_ip = 7; locals_base = 0; num_locals = 1 }

abbrev in_call : Vm wholes
in_call = record {
  stack = i32 (pos 9) ∷ [];
  locals = i32 (pos 1) ∷ i32 (pos 2) ∷ i32 (pos 3) ∷ i32 (pos 4) ∷ [];
  call_frames = frame ∷ [];
  locals_base = 3;
  ip = 4;
}

load_local-return_value_example :
    (return_value wholes default_config in_call >>= load_local wholes default_config 2)
    ≡ finished (error_value wholes)
load_local-return_value_example =
    load_local-return_value wholes default_config in_call (i32 (pos 9)) [] frame [] refl refl
      (omega arith) 2 (omega arith) (omega arith) (omega arith)

load_local-return_value_kept_example :
    (return_value wholes default_config in_call >>= load_local wholes default_config 0)
    ≡ next (record (returned wholes default_config in_call (i32 (pos 9)) [] frame []) {
      stack = i32 (pos 1) ∷ i32 (pos 9) ∷ [];
    })
load_local-return_value_kept_example =
    load_local-return_value_kept wholes default_config in_call (i32 (pos 9)) [] frame [] refl refl
      (omega arith) 0 (i32 (pos 1)) (omega arith) (omega arith) refl

-- A function with two parameters and a local of its own.
abbrev clamp : CompiledFunction
clamp = record { name = []; num_params = 2; num_locals = 3; code_start = 1 }

call_function-next_example :
    call_function wholes default_config clamp two_on_stack
    ≡ next (called wholes default_config clamp two_on_stack.stack [] two_on_stack)
call_function-next_example =
    call_function-next wholes default_config clamp two_on_stack.stack [] two_on_stack (ground arith)
      (omega arith) refl refl (omega arith) (omega arith)

-- The state behind the jump.
abbrev jumped : Vm wholes
jumped = record {
  stack = [];
  locals = i32 (pos 0) ∷ i32 (pos 0) ∷ [];
  call_frames = [];
  locals_base = 0;
  ip = 5;
}

jumped-Reach : Reach wholes small_config square_plus_one jumped
jumped-Reach =
    Reach.round {vm = initial wholes small_config} {vm' = jumped} (at OpCode.jmp 5) Reach.start
      (unfold initial in refl) (unfold step initial in refl)

Reach-Bounded_example : Bounded wholes small_config jumped
Reach-Bounded_example = Reach-Bounded wholes small_config square_plus_one jumped-Reach

square_plus_one_runs : execute wholes small_config square_plus_one ≡ Outcome.value (i32 (pos 26))
unfolding execute call load_local return_value add_values mul_values
square_plus_one_runs = refl
