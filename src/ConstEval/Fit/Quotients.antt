-- ===== src/ConstEval/Fit/Quotients.antt =====
-- evaluator/ConstEvaluator.cpp: the integer parts of DIV_INT and MOD_INT against the exact results.
use native.Mathlib.Nat.{div-le_self, mod-lt}
use djinn_lang_v.Base.{
  ℕ, zero, suc, ◌/◌, ◌%◌, ◌<◌, ◌≤◌, Bool, true, false, ◌≡◌, ◌⊎◌, refl, sym, ap, ◌∙◌, arith,
  if◌then◌else◌, some, none, inl, inr,
}
use djinn_lang_v.Base.Int.{ℤ, pos, negsuc, sub_ℕ, eqb_ℤ}
use djinn_lang_v.ConstEval.Words.{quot, rem, is_negative, magnitude}
use djinn_lang_v.ConstEval.Fit.{OverflowMode, fit_int}
use djinn_lang_v.ConstEval.Fit.Exact.{fit_int-exact, wrap64_self}
use djinn_lang_v.ConstEval.Fit.Width.{
  Width, w8, w16, w32, w64, bits, half, InWidth, in_width, IsNarrow, fit_exact, in_width_iff,
}
use djinn_lang_v.ConstEval.Fit.Width
use djinn_lang_v.ConstEval.Fit.Products.{narrow_magnitude, narrow-int64_min}
use djinn_lang_v.ConstEval.Vm.Arith.{div_ints, mod_ints}

magnitude-sub_ℕ : (n : ℕ) → magnitude (sub_ℕ 0 n) ≡ n
magnitude-sub_ℕ zero = refl
magnitude-sub_ℕ (suc n) = ground arith

magnitude-quot : (a b : ℤ) → magnitude (quot a b) ≤ magnitude a
unfolding quot
magnitude-quot (pos x) (pos y) = div-le_self x y
magnitude-quot (pos x) (negsuc y) =
    omega (arith, magnitude-sub_ℕ (x / suc y), div-le_self x (suc y))
magnitude-quot (negsuc x) (pos y) =
    omega (arith, magnitude-sub_ℕ (suc x / y), div-le_self (suc x) y)
magnitude-quot (negsuc x) (negsuc y) = div-le_self (suc x) (suc y)

magnitude-rem : (a b : ℤ) → 0 < magnitude b → magnitude (rem a b) < magnitude b
unfolding rem
magnitude-rem (pos x) b h = mod-lt x h
magnitude-rem (negsuc x) b h =
    omega (arith, magnitude-sub_ℕ (suc x % magnitude b), mod-lt (suc x) h)

InWidth-magnitude : (w : Width) (z : ℤ) → InWidth w z → magnitude z ≤ half w
InWidth-magnitude w8 z h = ground arith
InWidth-magnitude w16 z h = ground arith
InWidth-magnitude w32 z h = ground arith
InWidth-magnitude w64 z h = ground arith

small-in_width : (w : Width) (z : ℤ) → magnitude z < half w → in_width w z ≡ true
small-in_width w8 z h = ground arith
small-in_width w16 z h = ground arith
small-in_width w32 z h = ground arith
small-in_width w64 z h = ground arith

-- Only the negative integers of a width reach its half.
half-in_width :
    (w : Width) (z : ℤ) → magnitude z ≤ half w → (in_width w z ≡ true) ⊎ (false ≡ is_negative z)
half-in_width w (pos n) h = inr refl
half-in_width w8 (negsuc n) h = inl (ground arith)
half-in_width w16 (negsuc n) h = inl (ground arith)
half-in_width w32 (negsuc n) h = inl (ground arith)
half-in_width w64 (negsuc n) h = inl (ground arith)

half_small : (w : Width) → IsNarrow w → half w < half w64
half_small w8 n = omega arith
half_small w16 n = omega arith
half_small w32 n = omega arith
half_small w64 n = elim n [ ]

fit_int-small :
    (w : Width) (mode : OverflowMode) (z : ℤ)
    → IsNarrow w
    → magnitude z ≤ half w
    → fit_int z false false (bits w) true mode ≡ fit_exact w mode z
fit_int-small w mode z n h =
    let wide = small-in_width w64 z (omega (arith, half_small w n)) in
    ap (λ r. fit_int r false false (bits w) true mode) (sym (wrap64_self z wide))
    ∙ fit_int-exact w mode z false false (rw wide refl) (half-in_width w z h)

nonzero-magnitude : (b : ℤ) → eqb_ℤ b (pos 0) ≡ false → 0 < magnitude b
nonzero-magnitude (pos y) h = ground arith
nonzero-magnitude (negsuc y) h = omega arith

-- `DIV_INT` on signed operands of a width of at most 32 bits: division by zero ends the evaluation
-- with an error, and any other gives what the overflow mode makes of the quotient towards zero.
pub div_ints-exact :
    (w : Width) (mode : OverflowMode) (a b : ℤ)
    → IsNarrow w
    → InWidth w a
    → div_ints a b (bits w) true mode
      ≡ (if eqb_ℤ b (pos 0) then none else some (fit_exact w mode (quot a b)))
unfolding div_ints
div_ints-exact w mode a b n ha = rw (narrow-int64_min a (narrow_magnitude w a n ha)) (
    ap (λ r. if eqb_ℤ b (pos 0) then none else some r)
      (fit_int-small w mode (quot a b) n
        (omega (arith, magnitude-quot a b, InWidth-magnitude w a ha))))

-- `MOD_INT` on signed operands of a width of at most 32 bits: a remainder by zero ends the
-- evaluation with an error, and any other is the remainder of the quotient towards zero, which
-- fits under every overflow mode.
pub mod_ints-exact :
    (w : Width) (mode : OverflowMode) (a b : ℤ)
    → IsNarrow w
    → InWidth w a
    → InWidth w b
    → mod_ints a b (bits w) true mode ≡ (if eqb_ℤ b (pos 0) then none else some (some (rem a b)))
unfolding mod_ints
mod_ints-exact w mode a b n ha hb =
    rw (narrow-int64_min a (narrow_magnitude w a n ha)) (by_divisor (eqb_ℤ b (pos 0)) refl)
  where
    by_divisor :
        (c : Bool)
        → eqb_ℤ b (pos 0) ≡ c
        → (if c then none else some (fit_int (rem a b) false false (bits w) true mode))
          ≡ (if c then none else some (some (rem a b)))
    by_divisor true e = refl
    by_divisor false e =
        let less = magnitude-rem a b (nonzero-magnitude b e) in
        let small : magnitude (rem a b) < half w = omega (arith, less, InWidth-magnitude w b hb) in
        ap some (
          fit_int-small w mode (rem a b) n (omega arith)
          ∙ ap (λ c. if c then some (rem a b) else Width.of_mode w mode (rem a b))
              (small-in_width w (rem a b) small))
