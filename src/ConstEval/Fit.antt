-- ===== src/ConstEval/Fit.antt =====
-- evaluator/ConstEvaluator.cpp: the overflow checks at 64 bits, and `fitInt`, which brings a result
-- into a width under an overflow mode. parser/ast/Type.h: the modes.
pub mod Width
pub mod Exact
pub mod Faults
pub mod Products
pub mod Quotients
use djinn_lang_v.Base.{
  ℕ, ◌+◌, ◌-◌, ◌/◌, ◌%◌, ◌^◌, Bool, true, false, ◌&&◌, ◌||◌, not, ltb, leb, ◌==◌, if◌then◌else◌,
  Option, none, some,
}
use djinn_lang_v.Base.Int.{ℤ, pos, ◌+ℤ◌, ◌-ℤ◌, ◌*ℤ◌, ltb_ℤ, eqb_ℤ}
use djinn_lang_v.ConstEval.Words.{int64_min, int64_max, uint64_max, to_u64, as_i64, wrap64, quot}

pub data OverflowMode : Type 0 where
  unchecked wrapped trapped checked saturating : OverflowMode

pub record IntLimits : Type 0 where
  pub min : ℤ
  pub max : ℤ
  pub umax : ℕ

-- `(1ULL << bits) - 1`
abbrev pub mask : ℕ → ℕ
mask bits = 2 ^ bits - 1

unfoldable pub limits_for : ℕ → Bool → IntLimits
unfolding as_i64
limits_for bits is_signed =
    if leb 64 bits then record { min = int64_min; max = int64_max; umax = uint64_max } else record {
      min = if is_signed then as_i64 (uint64_max - mask bits / 2) else pos 0;
      max = if is_signed then as_i64 (mask bits / 2) else as_i64 (mask bits);
      umax = mask bits;
    }

-- Each bound is computed in `int64_t`; the guards before it keep it in range.
unfoldable pub add_overflows64 : ℤ → ℤ → Bool
unfolding ◌-ℤ◌
add_overflows64 a b =
    (ltb_ℤ (pos 0) b && ltb_ℤ (int64_max -ℤ b) a) || (ltb_ℤ b (pos 0) && ltb_ℤ a (int64_min -ℤ b))

unfoldable pub sub_overflows64 : ℤ → ℤ → Bool
unfolding ◌+ℤ◌
sub_overflows64 a b =
    (ltb_ℤ b (pos 0) && ltb_ℤ (int64_max +ℤ b) a) || (ltb_ℤ (pos 0) b && ltb_ℤ a (int64_min +ℤ b))

unfoldable pub mul_overflows64 : ℤ → ℤ → Bool
unfolding wrap64 quot ◌*ℤ◌
mul_overflows64 a b =
    if eqb_ℤ a (pos 0) || eqb_ℤ b (pos 0)
    then false
    else if eqb_ℤ a int64_min || eqb_ℤ b int64_min
    then true
    else not (eqb_ℤ (quot (wrap64 (a *ℤ b)) b) a)

-- The result of `fitInt`: `none` is `ConstValue::error()`, and `some v` the value of `makeInt`
-- with the width and the sign that were given.
abbrev pub out_of_range : ℤ → Bool → ℕ → Bool → Bool
out_of_range raw overflow_hint bits is_signed =
    let lim = limits_for bits is_signed in
    overflow_hint
    || (if is_signed then ltb_ℤ raw lim.min || ltb_ℤ lim.max raw else ltb lim.umax (to_u64 raw))

-- `static_cast<uint64_t>(raw) & mask`, and its sign extension.
unfoldable pub wrap_to_width : ℤ → ℕ → Bool → ℤ
unfolding to_u64 as_i64
wrap_to_width raw bits is_signed =
    let u = to_u64 raw % 2 ^ bits in
    if ltb bits 64
    then as_i64 (if is_signed && leb (2 ^ (bits - 1)) u then u + (uint64_max - mask bits) else u)
    else raw

unfoldable pub overflow_result : ℤ → Bool → ℕ → Bool → OverflowMode → Option ℤ
unfolding limits_for wrap_to_width
overflow_result raw negative bits is_signed OverflowMode.unchecked =
    some (wrap_to_width raw bits is_signed)
overflow_result raw negative bits is_signed OverflowMode.wrapped =
    some (wrap_to_width raw bits is_signed)
overflow_result raw negative bits is_signed OverflowMode.trapped = none
overflow_result raw negative bits is_signed OverflowMode.checked = none
overflow_result raw negative bits is_signed OverflowMode.saturating =
    some (if negative then (limits_for bits is_signed).min else (limits_for bits is_signed).max)

unfoldable pub fit_int : ℤ → Bool → Bool → ℕ → Bool → OverflowMode → Option ℤ
unfolding overflow_result
fit_int raw overflow_hint negative bits is_signed mode =
    if out_of_range raw overflow_hint bits is_signed
    then overflow_result raw negative bits is_signed mode
    else some (wrap_to_width raw bits is_signed)
