-- ===== src/ConstEval/Vm/Arith.antt =====
-- evaluator/ConstEvaluator.cpp: the cases of `execute` that compute on the values of the stack.
-- Each takes what was popped and gives what is pushed, or ends the evaluation.
use Prim.Native.Nat.{max}
use djinn_lang_v.Base.{
  ℕ, Bool, true, false, ◌&&◌, ◌||◌, not, ltb, ◌==◌, if◌then◌else◌, Option, none, some,
}
use djinn_lang_v.Base.Int.{ℤ, pos, negsuc, ◌+ℤ◌, ◌-ℤ◌, ◌*ℤ◌, ltb_ℤ, eqb_ℤ}
use djinn_lang_v.ConstEval.Words.{
  int64_min, int64_max, wrap64, quot, rem, bitwise64, is_negative, magnitude,
}
use djinn_lang_v.ConstEval.Value.{
  Doubles, make_int, make_float, make_bool, is_float, to_int, to_float, to_bool, error_value,
}
use djinn_lang_v.ConstEval.Fit.{
  OverflowMode, add_overflows64, sub_overflows64, mul_overflows64, limits_for, fit_int,
}
use djinn_lang_v.ConstEval.Vm.{Value, Exec, next, finished, undefined}

-- `static_cast<OverflowMode>(instr.operand)`; the compiler emits 0 to 4 only.
abbrev pub mode_of : ℕ → OverflowMode
mode_of n =
    if n == 1
    then OverflowMode.wrapped
    else if n == 2
    then OverflowMode.trapped
    else if n == 3
    then OverflowMode.checked
    else if n == 4
    then OverflowMode.saturating
    else OverflowMode.unchecked

-- The integer parts of the cases, on `l.toInt()` and `r.toInt()`.
unfoldable pub add_ints : ℤ → ℤ → ℕ → Bool → OverflowMode → Option ℤ
unfolding wrap64 ◌+ℤ◌ add_overflows64 fit_int
add_ints a b bits sign mode =
    fit_int (wrap64 (a +ℤ b)) (add_overflows64 a b) (is_negative a && is_negative b) bits sign mode

unfoldable pub sub_ints : ℤ → ℤ → ℕ → Bool → OverflowMode → Option ℤ
unfolding wrap64 ◌-ℤ◌ sub_overflows64 fit_int
sub_ints a b bits sign mode =
    fit_int (wrap64 (a -ℤ b)) (sub_overflows64 a b) (is_negative a && ltb_ℤ (pos 0) b) bits sign
      mode

unfoldable pub mul_ints : ℤ → ℤ → ℕ → Bool → OverflowMode → Option ℤ
unfolding wrap64 ◌*ℤ◌ mul_overflows64 fit_int
mul_ints a b bits sign mode =
    fit_int (wrap64 (a *ℤ b)) (mul_overflows64 a b)
      (not (is_negative a) && is_negative b || is_negative a && not (is_negative b)) bits sign mode

-- `INT_MIN / -1`, under each mode: an end of the evaluation, a saturated value, or what fits.
abbrev pub on_extreme : OverflowMode → Option ℤ → Option (Option ℤ)
on_extreme OverflowMode.trapped fit = none
on_extreme OverflowMode.checked fit = none
on_extreme OverflowMode.saturating fit = some (some int64_max)
on_extreme _ fit = some fit

-- The outer `none` is a `return ConstValue::error()`, the inner one a result that does not fit.
unfoldable pub div_ints : ℤ → ℤ → ℕ → Bool → OverflowMode → Option (Option ℤ)
unfolding quot fit_int
div_ints a b bits sign mode =
    let extreme = eqb_ℤ a int64_min && eqb_ℤ b (negsuc 0) in
    let fit = fit_int (if extreme then int64_min else quot a b) false false bits sign mode in
    if eqb_ℤ b (pos 0) then none else if extreme then on_extreme mode fit else some fit

unfoldable pub mod_ints : ℤ → ℤ → ℕ → Bool → OverflowMode → Option (Option ℤ)
unfolding rem fit_int
mod_ints a b bits sign mode =
    let m = if eqb_ℤ a int64_min && eqb_ℤ b (negsuc 0) then pos 0 else rem a b in
    if eqb_ℤ b (pos 0) then none else some (fit_int m false false bits sign mode)

unfoldable pub neg_int : ℤ → ℕ → Bool → OverflowMode → Option ℤ
unfolding ◌-ℤ◌ limits_for fit_int
neg_int x bits sign mode =
    let lowest = eqb_ℤ x int64_min in
    let raw = if lowest then int64_min else pos 0 -ℤ x in
    fit_int raw (lowest || (ltb bits 64 && eqb_ℤ x (limits_for bits sign).min)) false bits sign mode

module _ (F : Doubles) where
  -- `std::max(l.bitWidth, r.bitWidth), l.isSigned && r.isSigned`
  abbrev pub width : Value F → Value F → ℕ
  width l r = max l.bit_width r.bit_width

  abbrev pub sign : Value F → Value F → Bool
  sign l r = l.is_signed && r.is_signed

  -- What `fitInt` returns: a result that does not fit is the value `ConstValue::error()`.
  abbrev pub fit_value : ℕ → Bool → Option ℤ → Value F
  fit_value bits s none = error_value F
  fit_value bits s (some z) = make_int F z bits s

  abbrev pub either_float : Value F → Value F → Bool
  either_float l r = is_float F l.kind || is_float F r.kind

  -- A case that works on floats if one operand is a float, and on integers otherwise. The value of
  -- a failed `fitInt` is pushed like any other.
  abbrev pub promoted :
      (F.Double → F.Double → F.Double)
      → (ℤ → ℤ → ℕ → Bool → OverflowMode → Option ℤ)
      → OverflowMode
      → Value F
      → Value F
      → Value F
  promoted on_floats on_ints mode l r =
      if either_float l r
      then make_float F (on_floats (to_float F l) (to_float F r)) 64
      else fit_value (width l r) (sign l r)
          (on_ints (to_int F l) (to_int F r) (width l r) (sign l r) mode)

  unfoldable pub add_values : OverflowMode → Value F → Value F → Value F
  unfolding add_ints
  add_values = promoted F.add add_ints

  unfoldable pub sub_values : OverflowMode → Value F → Value F → Value F
  unfolding sub_ints
  sub_values = promoted F.sub sub_ints

  unfoldable pub mul_values : OverflowMode → Value F → Value F → Value F
  unfolding mul_ints
  mul_values = promoted F.mul mul_ints

  -- `DIV_FLOAT`, and the float branch of `DIV_INT`.
  unfoldable pub div_floats : Value F → Value F → Exec F (Value F)
  div_floats l r =
      if F.eq (to_float F r) (F.of_int (pos 0))
      then finished (error_value F)
      else next (make_float F (F.div (to_float F l) (to_float F r)) 64)

  abbrev pub fit_or_error : Value F → Value F → Option (Option ℤ) → Exec F (Value F)
  fit_or_error l r none = finished (error_value F)
  fit_or_error l r (some fit) = next (fit_value (width l r) (sign l r) fit)

  unfoldable pub div_values : OverflowMode → Value F → Value F → Exec F (Value F)
  unfolding div_ints div_floats
  div_values mode l r =
      if either_float l r
      then div_floats l r
      else fit_or_error l r (div_ints (to_int F l) (to_int F r) (width l r) (sign l r) mode)

  unfoldable pub mod_values : OverflowMode → Value F → Value F → Exec F (Value F)
  unfolding mod_ints
  mod_values mode l r =
      fit_or_error l r (mod_ints (to_int F l) (to_int F r) (width l r) (sign l r) mode)

  -- Only here a result that does not fit ends the evaluation.
  abbrev neg_fit : Value F → Option ℤ → Exec F (Value F)
  neg_fit v none = finished (error_value F)
  neg_fit v (some z) = next (make_int F z v.bit_width v.is_signed)

  unfoldable pub neg_value : OverflowMode → Value F → Exec F (Value F)
  unfolding neg_int
  neg_value mode v =
      if is_float F v.kind
      then next (make_float F (F.neg v.float_val) v.bit_width)
      else neg_fit v (neg_int (to_int F v) v.bit_width v.is_signed mode)

  abbrev pub float_values : (F.Double → F.Double → F.Double) → Value F → Value F → Value F
  float_values op l r = make_float F (op (to_float F l) (to_float F r)) 64

  abbrev pub compare_ints : (ℤ → ℤ → Bool) → Value F → Value F → Value F
  compare_ints test l r = make_bool F (test (to_int F l) (to_int F r))

  abbrev pub compare_floats : (F.Double → F.Double → Bool) → Value F → Value F → Value F
  compare_floats test l r = make_bool F (test (to_float F l) (to_float F r))

  abbrev pub logic_values : (Bool → Bool → Bool) → Value F → Value F → Value F
  logic_values op l r = make_bool F (op (to_bool F l) (to_bool F r))

  unfoldable pub bits_values : (ℕ → ℕ → ℕ) → Value F → Value F → Value F
  unfolding bitwise64
  bits_values op l r = make_int F (bitwise64 op (to_int F l) (to_int F r)) 32 true

  -- A shift by a count outside 0 ... 63 is undefined in C++.
  unfoldable pub shift_values : (ℤ → ℕ → ℤ) → Value F → Value F → Exec F (Value F)
  shift_values shift l r =
      if is_negative (to_int F r) || not (ltb (magnitude (to_int F r)) 64)
      then undefined
      else next (make_int F (shift (to_int F l) (magnitude (to_int F r))) 32 true)
