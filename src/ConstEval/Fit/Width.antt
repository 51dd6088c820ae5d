-- ===== src/ConstEval/Fit/Width.antt =====
-- The signed widths of integers, and what each overflow mode makes of an exact result.
use djinn_lang_v.Base.{
  ℕ, ◌-◌, ◌*◌, ◌%◌, ◌^◌, Bool, true, ◌&&◌, ◌≡◌, ◌↔◌, arith, ltb, if◌then◌else◌, Option, none, some,
}
use djinn_lang_v.Base.Int.{ℤ, pos, negsuc, ◌≤ℤ◌, leb_ℤ}
use djinn_lang_v.ConstEval.Words.{is_negative}
use djinn_lang_v.ConstEval.Fit.{OverflowMode}

-- The widths of the integer types that the evaluator holds in one word.
pub data Width : Type 0 where
  w8 w16 w32 w64 : Width

-- The widths below that of the machine word.
abbrev pub IsNarrow : Width → Type 0
IsNarrow w64 = ⊥
IsNarrow _ = Unit

abbrev pub bits : Width → ℕ
bits w8 = 8
bits w16 = 16
bits w32 = 32
bits w64 = 64

-- 2 ^ (bits - 1)
abbrev pub half : Width → ℕ
half w8 = 2 ^ 7
half w16 = 2 ^ 15
half w32 = 2 ^ 31
half w64 = 2 ^ 63

abbrev pub lowest : Width → ℤ
lowest w = negsuc (half w - 1)

abbrev pub highest : Width → ℤ
highest w = pos (half w - 1)

abbrev pub InWidth : Width → ℤ → Type 0
InWidth w z = (lowest w ≤ℤ z) × (z ≤ℤ highest w)

abbrev pub in_width : Width → ℤ → Bool
in_width w z = leb_ℤ (lowest w) z && leb_ℤ z (highest w)

-- The integer of the width that is `z` modulo 2 ^ bits.
abbrev residue : Width → ℤ → ℕ
residue w (pos n) = n % (2 * half w)
residue w (negsuc n) = 2 * half w - 1 - n % (2 * half w)

abbrev pub wrap_exact : Width → ℤ → ℤ
wrap_exact w z =
    if ltb (residue w z) (half w) then pos (residue w z) else negsuc (2 * half w - 1 - residue w z)

-- What an overflow mode makes of the exact result `z`.
abbrev pub of_mode : Width → OverflowMode → ℤ → Option ℤ
of_mode w OverflowMode.unchecked z = some (wrap_exact w z)
of_mode w OverflowMode.wrapped z = some (wrap_exact w z)
of_mode w OverflowMode.trapped z = none
of_mode w OverflowMode.checked z = none
of_mode w OverflowMode.saturating z = some (if is_negative z then lowest w else highest w)

abbrev pub fit_exact : Width → OverflowMode → ℤ → Option ℤ
fit_exact w mode z = if in_width w z then some z else of_mode w mode z

pub in_width_iff : (w : Width) (z : ℤ) → InWidth w z ↔ (in_width w z ≡ true)
in_width_iff w8 z = ground arith
in_width_iff w16 z = ground arith
in_width_iff w32 z = ground arith
in_width_iff w64 z = ground arith
