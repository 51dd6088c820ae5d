-- ===== src/ConstEval/Fit/Faults.antt =====
-- evaluator/ConstEvaluator.cpp: cases of integer arithmetic that depart from the overflow modes.
use djinn_lang_v.Base.{
  ℕ, ◌+◌, ◌-◌, ◌*◌, ◌<◌, true, false, ◌≡◌, refl, arith, ap, ◌∙◌, List, ◌∷◌, none, some, length, leb,
}
use djinn_lang_v.Base.Int.{ℤ, pos, ◌+ℤ◌}
use djinn_lang_v.ConstEval.Value.{Doubles, make_int, error_value}
use djinn_lang_v.ConstEval.Code.{OpCode, Program, ConstEvalConfig}
use djinn_lang_v.ConstEval.Fit.{OverflowMode}
use djinn_lang_v.ConstEval.Fit.Exact.{add_ints-exact}
use djinn_lang_v.ConstEval.Fit.Width.{
  IsNarrow, Width, w8, w16, w32, w64, bits, half, InWidth, in_width, in_width_iff, fit_exact,
}
use djinn_lang_v.ConstEval.Vm.{Value, Vm, next, push, pop, pop2}
use djinn_lang_v.ConstEval.Vm.Arith.{sub_ints, add_values, fit_value}
use djinn_lang_v.ConstEval.Vm.Dispatch.{step, binary, push_next}

-- At a width below 64, an unsigned subtraction below zero of numbers of the width, saturating, gives
-- the greatest number of the width and not 0.
pub sub_ints-saturates_high :
    (w : Width) (a b : ℕ)
    → IsNarrow w
    → a < b
    → b < 2 * half w
    → sub_ints (pos a) (pos b) (bits w) false OverflowMode.saturating ≡ some (pos (2 * half w - 1))
unfolding sub_ints
sub_ints-saturates_high w8 a b n h k = ground arith
sub_ints-saturates_high w16 a b n h k = ground arith
sub_ints-saturates_high w32 a b n h k = ground arith
sub_ints-saturates_high w64 a b n h k = elim n [ ]

fit_trapped : (w : Width) (z : ℤ) → in_width w z ≡ false → fit_exact w OverflowMode.trapped z ≡ none
fit_trapped w z h = rw h refl

module _ (F : Doubles) where
  abbrev int_of : Width → ℤ → Value F
  int_of w z = make_int F z (bits w) true

  add_values-error :
      (w : Width) (a b : ℤ)
      → InWidth w a
      → InWidth w b
      → in_width w (a +ℤ b) ≡ false
      → add_values F OverflowMode.trapped (int_of w a) (int_of w b) ≡ error_value F
  unfolding add_values
  add_values-error w8 a b ha hb out =
      ap (fit_value F 8 true)
        (add_ints-exact w8 OverflowMode.trapped a b ha hb ∙ fit_trapped w8 (a +ℤ b) out)
  add_values-error w16 a b ha hb out =
      ap (fit_value F 16 true)
        (add_ints-exact w16 OverflowMode.trapped a b ha hb ∙ fit_trapped w16 (a +ℤ b) out)
  add_values-error w32 a b ha hb out =
      ap (fit_value F 32 true)
        (add_ints-exact w32 OverflowMode.trapped a b ha hb ∙ fit_trapped w32 (a +ℤ b) out)
  add_values-error w64 a b ha hb out =
      ap (fit_value F 64 true)
        (add_ints-exact w64 OverflowMode.trapped a b ha hb ∙ fit_trapped w64 (a +ℤ b) out)

  -- Adding `c` of 32 bits to a trapped sum of 32 bits that overflows gives `c`, with no trace of the overflow.
  pub trapped_sum_vanishes :
      (a b c : ℤ)
      → InWidth w32 a
      → InWidth w32 b
      → in_width w32 (a +ℤ b) ≡ false
      → InWidth w32 c
      → add_values F OverflowMode.unchecked
          (add_values F OverflowMode.trapped (int_of w32 a) (int_of w32 b))
          (int_of w32 c)
        ≡ int_of w32 c
  trapped_sum_vanishes a b c ha hb out hc = rw (add_values-error w32 a b ha hb out) (
      unfold add_values in
      (ap (fit_value F 32 true)
        (add_ints-exact w32 OverflowMode.unchecked (pos 0) c (omega arith) hc ∙ plus_zero)))
    where
      zero_plus : pos 0 +ℤ c ≡ c
      zero_plus = unfold ◌+ℤ◌ in ground arith

      plus_zero : fit_exact w32 OverflowMode.unchecked (pos 0 +ℤ c) ≡ some c
      plus_zero = rw (zero_plus, (in_width_iff w32 c).0 hc) refl

module _ (F : Doubles) (cfg : ConstEvalConfig) (program : Program F) where
  -- A trapped addition of two integers of a signed width whose sum is outside it does not end the
  -- evaluation: the error value is pushed, and
  -- the next instruction runs, if the stack has room.
  pub step-trapped_add :
      (w : Width) (a b : ℤ) (vm : Vm F) (s : List (Value F))
      → InWidth w a
      → InWidth w b
      → in_width w (a +ℤ b) ≡ false
      → vm.stack ≡ int_of F w b ∷ int_of F w a ∷ s
      → length s < cfg.max_stack_size
      → step F cfg program OpCode.add_int 2 vm
        ≡ next (record vm { stack = error_value F ∷ s; ip = vm.ip + 1 })
  unfolding step binary push_next push pop pop2
  step-trapped_add w a b vm s ha hb out e room =
      rw (e, add_values-error F w a b ha hb out, not_full) refl
    where
      not_full : leb cfg.max_stack_size (length s) ≡ false
      not_full = ground arith
