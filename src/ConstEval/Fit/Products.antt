-- ===== src/ConstEval/Fit/Products.antt =====
-- evaluator/ConstEvaluator.cpp: the integer part of MUL_INT against the product of the integers.
use native.Mathlib.Nat.{mul-le-mul, mul-div_cancel}
use djinn_lang_v.Base.{
  not, ℕ, zero, suc, ◌*◌, ◌/◌, ◌^◌, ◌<◌, ◌≤◌, Bool, true, false, ◌&&◌, ◌||◌, ◌≡◌, ◌⊎◌, refl, ap,
  ◌∙◌, arith, if◌then◌else◌, Bool-cases, inl, inr,
}
use djinn_lang_v.Base.Int.{ℤ, pos, negsuc, sub_ℕ, ◌*ℤ◌, eqb_ℤ}
use djinn_lang_v.ConstEval.Words.{int64_min, quot, is_negative, magnitude}
use djinn_lang_v.ConstEval.Fit.{OverflowMode, mul_overflows64}
use djinn_lang_v.ConstEval.Fit.Exact.{fit_int-exact, wrap64_self}
use djinn_lang_v.ConstEval.Fit.Width.{
  Width, w8, w16, w32, w64, bits, InWidth, in_width, IsNarrow, fit_exact, in_width_iff,
}
use djinn_lang_v.ConstEval.Vm.Arith.{mul_ints}

-- The product by the signs of its factors.
mul_pos-pos : (x y : ℕ) → pos x *ℤ pos y ≡ pos (x * y)
unfolding ◌*ℤ◌
mul_pos-pos x y = ground arith

mul_pos-negsuc : (x y : ℕ) → pos x *ℤ negsuc y ≡ sub_ℕ 0 (x * suc y)
unfolding ◌*ℤ◌
mul_pos-negsuc x y = ground arith

mul_negsuc-pos : (x y : ℕ) → negsuc x *ℤ pos y ≡ sub_ℕ 0 (suc x * y)
unfolding ◌*ℤ◌
mul_negsuc-pos x y = ground arith

mul_negsuc-negsuc : (x y : ℕ) → negsuc x *ℤ negsuc y ≡ pos (suc x * suc y)
unfolding ◌*ℤ◌
mul_negsuc-negsuc x y = ground arith

quot_opposite :
    (n : ℕ) (b : ℤ)
    → 0 < magnitude b
    → quot (sub_ℕ 0 n) b
      ≡ (if is_negative b then pos (n / magnitude b) else sub_ℕ 0 (n / magnitude b))
unfolding quot
quot_opposite zero (pos y) h = ground arith
quot_opposite zero (negsuc y) h = ground arith
quot_opposite (suc n) (pos y) h = ground arith
quot_opposite (suc n) (negsuc y) h = ground arith

-- The check of `mulOverflows64`, where the product has not wrapped.
quot_mul : (a b : ℤ) → eqb_ℤ b (pos 0) ≡ false → quot (a *ℤ b) b ≡ a
unfolding quot
quot_mul (pos x) (pos y) h = rw (mul_pos-pos x y) (ap pos (mul-div_cancel x (ground arith)))
quot_mul (pos x) (negsuc y) h =
    rw (mul_pos-negsuc x y)
      (quot_opposite (x * suc y) (negsuc y) (omega arith) ∙ ap pos (mul-div_cancel x (omega arith)))
quot_mul (negsuc x) (pos y) h = rw (mul_negsuc-pos x y) (
    quot_opposite (suc x * y) (pos y) (ground arith)
    ∙ ap (sub_ℕ 0) (mul-div_cancel (suc x) (ground arith))
    ∙ ground arith)
quot_mul (negsuc x) (negsuc y) h =
    rw (mul_negsuc-negsuc x y) (ap (sub_ℕ 0) (mul-div_cancel (suc x) (omega arith)) ∙ ground arith)

pub narrow_magnitude : (w : Width) (z : ℤ) → IsNarrow w → InWidth w z → magnitude z ≤ 2 ^ 31
narrow_magnitude w8 z n h = ground arith
narrow_magnitude w16 z n h = ground arith
narrow_magnitude w32 z n h = ground arith
narrow_magnitude w64 z n h = elim n [ ]

-- A product of two integers of at most 32 bits has 64.
mul-InWidth : (a b : ℤ) → magnitude a ≤ 2 ^ 31 → magnitude b ≤ 2 ^ 31 → InWidth w64 (a *ℤ b)
mul-InWidth (pos x) (pos y) h k = rw (mul_pos-pos x y) (ground (arith, mul-le-mul h k))
mul-InWidth (pos x) (negsuc y) h k = rw (mul_pos-negsuc x y) (ground (arith, mul-le-mul h k))
mul-InWidth (negsuc x) (pos y) h k = rw (mul_negsuc-pos x y) (ground (arith, mul-le-mul h k))
mul-InWidth (negsuc x) (negsuc y) h k = rw (mul_negsuc-negsuc x y) (ground (arith, mul-le-mul h k))

-- `a < 0 != b < 0`, as the code has it
abbrev opposite : ℤ → ℤ → Bool
opposite a b = not (is_negative a) && is_negative b || is_negative a && not (is_negative b)

opposite-is_negative : (a b : ℤ) → (a *ℤ b ≡ pos 0) ⊎ (opposite a b ≡ is_negative (a *ℤ b))
opposite-is_negative (pos x) (pos y) = rw (mul_pos-pos x y) (inr refl)
opposite-is_negative (pos x) (negsuc y) = rw (mul_pos-negsuc x y) (by_size (x * suc y))
  where
    by_size : (n : ℕ) → (sub_ℕ 0 n ≡ pos 0) ⊎ (true ≡ is_negative (sub_ℕ 0 n))
    by_size zero = inl refl
    by_size (suc n) = inr (ground arith)
opposite-is_negative (negsuc x) (pos y) = rw (mul_negsuc-pos x y) (by_size (suc x * y))
  where
    by_size : (n : ℕ) → (sub_ℕ 0 n ≡ pos 0) ⊎ (true ≡ is_negative (sub_ℕ 0 n))
    by_size zero = inl refl
    by_size (suc n) = inr (ground arith)
opposite-is_negative (negsuc x) (negsuc y) = rw (mul_negsuc-negsuc x y) (inr refl)

zero-in_width : (w : Width) → in_width w (pos 0) ≡ true
zero-in_width w8 = ground arith
zero-in_width w16 = ground arith
zero-in_width w32 = ground arith
zero-in_width w64 = ground arith

eqb_ℤ_self : (z : ℤ) → eqb_ℤ z z ≡ true
eqb_ℤ_self (pos n) = ground arith
eqb_ℤ_self (negsuc n) = ground arith

pub narrow-int64_min : (z : ℤ) → magnitude z ≤ 2 ^ 31 → eqb_ℤ z int64_min ≡ false
narrow-int64_min (pos n) h = ground arith
narrow-int64_min (negsuc n) h = ground arith

mul_overflows64-narrow :
    (a b : ℤ) → magnitude a ≤ 2 ^ 31 → magnitude b ≤ 2 ^ 31 → mul_overflows64 a b ≡ false
unfolding mul_overflows64
mul_overflows64-narrow a b h k = elim (Bool-cases (eqb_ℤ a (pos 0) || eqb_ℤ b (pos 0))) [
  | inl nothing ↦ rw nothing refl
  | inr something ↦
      let same = wrap64_self (a *ℤ b) ((in_width_iff w64 (a *ℤ b)).0 (mul-InWidth a b h k)) in
      rw
        (
          something,
          narrow-int64_min a h,
          narrow-int64_min b k,
          same,
          quot_mul a b (ground arith),
          eqb_ℤ_self a,
        )
        refl
]

-- `MUL_INT` on signed operands of a width of at most 32 bits: under every overflow mode the result
-- is what the mode makes of the exact product, as for `ADD_INT`.
pub mul_ints-exact :
    (w : Width) (mode : OverflowMode) (a b : ℤ)
    → IsNarrow w
    → InWidth w a
    → InWidth w b
    → mul_ints a b (bits w) true mode ≡ fit_exact w mode (a *ℤ b)
unfolding mul_ints
mul_ints-exact w mode a b n ha hb =
    let h = narrow_magnitude w a n ha in
    let k = narrow_magnitude w b n hb in
    fit_int-exact w mode (a *ℤ b) (mul_overflows64 a b) (opposite a b)
      (rw (mul_overflows64-narrow a b h k, (in_width_iff w64 (a *ℤ b)).0 (mul-InWidth a b h k))
        refl)
      (elim (opposite-is_negative a b) [
        | inl nothing ↦ inl (rw nothing (zero-in_width w))
        | inr same ↦ inr same
      ])
