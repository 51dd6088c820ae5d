-- ===== src/ConstEval/Fit/Exact.antt =====
-- evaluator/ConstEvaluator.cpp: fitInt, and the integer parts of ADD_INT and SUB_INT, against
-- arithmetic on the integers themselves.
use djinn_lang_v.Base.{
  not, Bool, true, false, ◌&&◌, ◌≡◌, ◌↔◌, ◌⊎◌, refl, arith, if◌then◌else◌, Bool-cases, inl, inr, ap,
  ◌∙◌, some,
}
use djinn_lang_v.Base.Int.{ℤ, pos, ◌+ℤ◌, ◌-ℤ◌, ltb_ℤ}
use djinn_lang_v.ConstEval.Words.{wrap64, is_negative}
use djinn_lang_v.ConstEval.Fit.{
  OverflowMode, add_overflows64, sub_overflows64, limits_for, wrap_to_width, fit_int, out_of_range,
  overflow_result,
}
use djinn_lang_v.ConstEval.Vm.Arith.{add_ints, sub_ints}
use djinn_lang_v.ConstEval.Fit.Width.{
  Width, bits, lowest, highest, InWidth, in_width, wrap_exact, of_mode, fit_exact, in_width_iff, w8,
  w16, w32, w64,
}

-- On operands of 64 bits, `addOverflows64` is false exactly when their sum has 64 bits.
pub add_overflows64_iff :
    (a b : ℤ) → InWidth w64 a → InWidth w64 b → (add_overflows64 a b ≡ false) ↔ InWidth w64 (a +ℤ b)
unfolding add_overflows64 ◌+ℤ◌
add_overflows64_iff a b ha hb = ground arith

-- On operands of 64 bits, `subOverflows64` is false exactly when their difference has 64 bits.
pub sub_overflows64_iff :
    (a b : ℤ) → InWidth w64 a → InWidth w64 b → (sub_overflows64 a b ≡ false) ↔ InWidth w64 (a -ℤ b)
unfolding sub_overflows64 ◌-ℤ◌
sub_overflows64_iff a b ha hb = ground arith

-- The wrapped word, brought into the width, is the exact residue.
wrap_to_width-wrap64 : (w : Width) (z : ℤ) → wrap_to_width (wrap64 z) (bits w) true ≡ wrap_exact w z
unfolding wrap_to_width wrap64
wrap_to_width-wrap64 w8 z = ground arith
wrap_to_width-wrap64 w16 z = ground arith
wrap_to_width-wrap64 w32 z = ground arith
wrap_to_width-wrap64 w64 z = ground arith

pub wrap64_self : (z : ℤ) → in_width w64 z ≡ true → wrap64 z ≡ z
unfolding wrap64
wrap64_self z h = ground arith

wrap_exact_self : (w : Width) (z : ℤ) → in_width w z ≡ true → wrap_exact w z ≡ z
wrap_exact_self w8 z h = ground arith
wrap_exact_self w16 z h = ground arith
wrap_exact_self w32 z h = ground arith
wrap_exact_self w64 z h = ground arith

out_of_range_lem : (w : Width) (r : ℤ) → out_of_range r false (bits w) true ≡ not (in_width w r)
unfolding limits_for
out_of_range_lem w8 r = ground arith
out_of_range_lem w16 r = ground arith
out_of_range_lem w32 r = ground arith
out_of_range_lem w64 r = ground arith

in_width-w64 : (w : Width) (z : ℤ) → in_width w z ≡ true → in_width w64 z ≡ true
in_width-w64 w8 z h = ground arith
in_width-w64 w16 z h = ground arith
in_width-w64 w32 z h = ground arith
in_width-w64 w64 z h = h

saturated :
    (w : Width) (b : Bool)
    → (if b then (limits_for (bits w) true).min else (limits_for (bits w) true).max)
      ≡ (if b then lowest w else highest w)
unfolding limits_for
saturated w8 b = ground arith
saturated w16 b = ground arith
saturated w32 b = ground arith
saturated w64 b = ground arith

out_of_range-exact :
    (w : Width) (z : ℤ) (hint : Bool)
    → hint ≡ not (in_width w64 z)
    → out_of_range (wrap64 z) hint (bits w) true ≡ not (in_width w z)
out_of_range-exact w z hint h = elim (Bool-cases (in_width w64 z)) [
  | inl fits ↦ rw (h, fits, wrap64_self z fits) (out_of_range_lem w z)
  | inr out ↦ rw (h, out) (too_wide (in_width w z) refl out)
]
  where
    too_wide : (b : Bool) → in_width w z ≡ b → in_width w64 z ≡ false → true ≡ not (in_width w z)
    too_wide true e out = cc (in_width-w64 w z e)
    too_wide false e out = rw e

overflow_result-exact :
    (w : Width) (mode : OverflowMode) (z : ℤ)
    → overflow_result (wrap64 z) (is_negative z) (bits w) true mode ≡ of_mode w mode z
unfolding overflow_result
overflow_result-exact w OverflowMode.unchecked z = ap some (wrap_to_width-wrap64 w z)
overflow_result-exact w OverflowMode.wrapped z = ap some (wrap_to_width-wrap64 w z)
overflow_result-exact w OverflowMode.trapped z = refl
overflow_result-exact w OverflowMode.checked z = refl
overflow_result-exact w OverflowMode.saturating z = ap some (saturated w (is_negative z))

-- At a signed width of 8, 16, 32 or 64 bits, `fitInt`, given a word that may have wrapped, whether
-- it did, and the sign of a result that does not fit, gives what the mode makes of the exact result.
pub fit_int-exact :
    (w : Width) (mode : OverflowMode) (z : ℤ) (hint negative : Bool)
    → hint ≡ not (in_width w64 z)
    → (in_width w z ≡ true) ⊎ (negative ≡ is_negative z)
    → fit_int (wrap64 z) hint negative (bits w) true mode ≡ fit_exact w mode z
unfolding fit_int
fit_int-exact w mode z hint negative h n =
    rw (out_of_range-exact w z hint h) (by_range (in_width w z) refl)
  where
    by_range :
        (b : Bool)
        → in_width w z ≡ b
        → (if not (in_width w z)
            then overflow_result (wrap64 z) negative (bits w) true mode
            else some (wrap_to_width (wrap64 z) (bits w) true))
          ≡ fit_exact w mode z
    by_range true e = rw e (ap some (wrap_to_width-wrap64 w z ∙ wrap_exact_self w z e))
    by_range false e = elim n [
      | inl fits ↦ cc
      | inr same ↦ rw (e, same) (overflow_result-exact w mode z)
    ]

not_iff : (a b : Bool) → (a ≡ false) ↔ (b ≡ true) → a ≡ not b
not_iff true true h = cc (h.1 refl)
not_iff true false h = refl
not_iff false true h = refl
not_iff false false h = cc (h.0 refl)

wide : (w : Width) (z : ℤ) → InWidth w z → InWidth w64 z
wide w8 z h = omega arith
wide w16 z h = omega arith
wide w32 z h = omega arith
wide w64 z h = h

add_negative :
    (w : Width) (a b : ℤ)
    → InWidth w a
    → InWidth w b
    → (in_width w (a +ℤ b) ≡ true) ⊎ ((is_negative a && is_negative b) ≡ is_negative (a +ℤ b))
unfolding ◌+ℤ◌
add_negative w8 a b ha hb = ground arith
add_negative w16 a b ha hb = ground arith
add_negative w32 a b ha hb = ground arith
add_negative w64 a b ha hb = ground arith

sub_negative :
    (w : Width) (a b : ℤ)
    → InWidth w a
    → InWidth w b
    → (in_width w (a -ℤ b) ≡ true) ⊎ ((is_negative a && ltb_ℤ (pos 0) b) ≡ is_negative (a -ℤ b))
unfolding ◌-ℤ◌
sub_negative w8 a b ha hb = ground arith
sub_negative w16 a b ha hb = ground arith
sub_negative w32 a b ha hb = ground arith
sub_negative w64 a b ha hb = ground arith

-- `ADD_INT` on signed operands of a width: under every overflow mode the result is what the mode
-- makes of the exact sum. It is the sum itself if that fits; otherwise it wraps, is an error, or
-- is the bound of the width on the side of the sum.
pub add_ints-exact :
    (w : Width) (mode : OverflowMode) (a b : ℤ)
    → InWidth w a
    → InWidth w b
    → add_ints a b (bits w) true mode ≡ fit_exact w mode (a +ℤ b)
unfolding add_ints
add_ints-exact w mode a b ha hb =
    let exact = add_overflows64_iff a b (wide w a ha) (wide w b hb) in
    let test = in_width_iff w64 (a +ℤ b) in
    fit_int-exact w mode (a +ℤ b) (add_overflows64 a b) (is_negative a && is_negative b)
      (not_iff (add_overflows64 a b) (in_width w64 (a +ℤ b))
        ((λ h. test.0 (exact.0 h)), (λ h. exact.1 (test.1 h))))
      (add_negative w a b ha hb)

-- `SUB_INT` on signed operands of a width: under every overflow mode the result is what the mode
-- makes of the exact difference, as for `ADD_INT`.
pub sub_ints-exact :
    (w : Width) (mode : OverflowMode) (a b : ℤ)
    → InWidth w a
    → InWidth w b
    → sub_ints a b (bits w) true mode ≡ fit_exact w mode (a -ℤ b)
unfolding sub_ints
sub_ints-exact w mode a b ha hb =
    let exact = sub_overflows64_iff a b (wide w a ha) (wide w b hb) in
    let test = in_width_iff w64 (a -ℤ b) in
    fit_int-exact w mode (a -ℤ b) (sub_overflows64 a b) (is_negative a && ltb_ℤ (pos 0) b)
      (not_iff (sub_overflows64 a b) (in_width w64 (a -ℤ b))
        ((λ h. test.0 (exact.0 h)), (λ h. exact.1 (test.1 h))))
      (sub_negative w a b ha hb)
