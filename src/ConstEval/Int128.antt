-- ===== src/ConstEval/Int128.antt =====
-- evaluator/ConstValue.h, `Int128`: a signed high word and an unsigned low word.
pub mod Laws
use djinn_lang_v.Base.{
  ℕ, ◌+◌, ◌-◌, ◌%◌, ◌^◌, Bool, true, false, ◌&&◌, not, ltb, ◌==◌, if◌then◌else◌,
}
use djinn_lang_v.Base.Int.{ℤ, pos, negsuc, ◌+ℤ◌, ◌-ℤ◌, ltb_ℤ, eqb_ℤ}
use djinn_lang_v.ConstEval.Words.{wrap64, to_u64, is_negative, not64}

pub record Int128 : Type 0 where
  pub high : ℤ
  pub low : ℕ

-- The constructor that extends the sign of a 64-bit value, and `fromUnsigned`.
unfoldable pub from_int64 : ℤ → Int128
unfolding to_u64
from_int64 val = record { high = if is_negative val then negsuc 0 else pos 0; low = to_u64 val }

unfoldable pub from_unsigned : ℕ → Int128
from_unsigned val = record { high = pos 0; low = val }

unfoldable pub is_zero : Int128 → Bool
is_zero a = eqb_ℤ a.high (pos 0) && a.low == 0

unfoldable pub to_int64 : Int128 → ℤ
unfolding wrap64
to_int64 a = wrap64 (pos a.low)

unfoldable pub add : Int128 → Int128 → Int128
unfolding wrap64 ◌+ℤ◌
add a r =
    let lo = (a.low + r.low) % 2 ^ 64 in
    record { high = wrap64 (a.high +ℤ r.high +ℤ (if ltb lo a.low then pos 1 else pos 0)); low = lo }

unfoldable pub sub : Int128 → Int128 → Int128
unfolding wrap64 ◌-ℤ◌
sub a r =
    let lo = (a.low + 2 ^ 64 - r.low) % 2 ^ 64 in
    record {
      high = wrap64 (a.high -ℤ r.high -ℤ (if ltb a.low r.low then pos 1 else pos 0));
      low = lo;
    }

unfoldable pub neg : Int128 → Int128
unfolding wrap64 ◌+ℤ◌ not64
neg a =
    let lo = (2 ^ 64 - 1 - a.low + 1) % 2 ^ 64 in
    record { high = wrap64 (not64 a.high +ℤ (if lo == 0 then pos 1 else pos 0)); low = lo }

unfoldable pub eq : Int128 → Int128 → Bool
eq a r = eqb_ℤ a.high r.high && a.low == r.low

unfoldable pub lt : Int128 → Int128 → Bool
lt a r = if not (eqb_ℤ a.high r.high) then ltb_ℤ a.high r.high else ltb a.low r.low

unfoldable pub le : Int128 → Int128 → Bool
unfolding lt
le a r = not (lt r a)

unfoldable pub gt : Int128 → Int128 → Bool
unfolding lt
gt a r = lt r a

unfoldable pub ge : Int128 → Int128 → Bool
unfolding lt
ge a r = not (lt a r)
