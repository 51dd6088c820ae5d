-- ===== src/ConstEval/Words.antt =====
-- The 64-bit words of evaluator/: an `int64_t` is the integer that it stands for, a `uint64_t` a
-- number below 2 ^ 64. Signed arithmetic that overflows wraps, as two's complement does.
use djinn_lang_v.Base.{ℕ, suc, ◌-◌, ◌/◌, ◌%◌, ◌^◌, Bool, true, false, ltb, if◌then◌else◌}
use djinn_lang_v.Base.Int.{ℤ, pos, negsuc, sub_ℕ, ◌*ℤ◌}

abbrev pub int64_min : ℤ
int64_min = negsuc (2 ^ 63 - 1)

abbrev pub int64_max : ℤ
int64_max = pos (2 ^ 63 - 1)

abbrev pub uint64_max : ℕ
uint64_max = 2 ^ 64 - 1

-- `static_cast<uint64_t>` of any integer, and `static_cast<int64_t>` of a word.
unfoldable pub to_u64 : ℤ → ℕ
to_u64 (pos n) = n % 2 ^ 64
to_u64 (negsuc n) = uint64_max - n % 2 ^ 64

unfoldable pub as_i64 : ℕ → ℤ
as_i64 u = if ltb u (2 ^ 63) then pos u else negsuc (uint64_max - u)

unfoldable pub wrap64 : ℤ → ℤ
unfolding to_u64 as_i64
wrap64 z = as_i64 (to_u64 z)

abbrev pub is_negative : ℤ → Bool
is_negative (pos _) = false
is_negative (negsuc _) = true

abbrev pub magnitude : ℤ → ℕ
magnitude (pos n) = n
magnitude (negsuc n) = suc n

-- `/` and `%` of C++ round towards zero.
unfoldable pub quot : ℤ → ℤ → ℤ
quot (pos a) b = if is_negative b then sub_ℕ 0 (a / magnitude b) else pos (a / magnitude b)
quot (negsuc a) b =
    if is_negative b then pos (suc a / magnitude b) else sub_ℕ 0 (suc a / magnitude b)

unfoldable pub rem : ℤ → ℤ → ℤ
rem (pos a) b = pos (a % magnitude b)
rem (negsuc a) b = sub_ℕ 0 (suc a % magnitude b)

-- `<<` and `>>` by a count below 64, and the bitwise operators.
unfoldable pub shl64 : ℤ → ℕ → ℤ
unfolding wrap64 ◌*ℤ◌
shl64 z n = wrap64 (z *ℤ pos (2 ^ n))

unfoldable pub shr64 : ℤ → ℕ → ℤ
shr64 (pos a) n = pos (a / 2 ^ n)
shr64 (negsuc a) n = negsuc (a / 2 ^ n)

unfoldable pub bitwise64 : (ℕ → ℕ → ℕ) → ℤ → ℤ → ℤ
unfolding to_u64 as_i64
bitwise64 op a b = as_i64 (op (to_u64 a) (to_u64 b))

unfoldable pub not64 : ℤ → ℤ
unfolding to_u64 as_i64
not64 a = as_i64 (uint64_max - to_u64 a)
