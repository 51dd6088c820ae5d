-- ===== src/ConstEval/Int128/Laws.antt =====
-- evaluator/ConstValue.h: `Int128` against the integers that its words stand for.
use djinn_lang_v.Base.{ℕ, ◌+◌, ◌-◌, ◌*◌, ◌%◌, ◌^◌, ◌<◌, true, ◌≡◌, ◌↔◌, arith}
use djinn_lang_v.Base.Int.{pos_part, neg_part, ◌≤ℤ◌}
use djinn_lang_v.ConstEval.Words.{int64_min, int64_max}
use djinn_lang_v.ConstEval.Int128.{Int128, add, sub, neg, lt}

-- Both words are in their range.
pub record InRange (a : Int128) : Type 0 where
  pub above : int64_min ≤ℤ a.high
  pub below : a.high ≤ℤ int64_max
  pub low_word : a.low < 2 ^ 64

-- The 128 bits, as a number: the value modulo 2 ^ 128.
abbrev pub bits_of : Int128 → ℕ
bits_of a = (pos_part a.high + 2 ^ 64 - neg_part a.high) % 2 ^ 64 * 2 ^ 64 + a.low

-- On words in their range, addition is addition modulo 2 ^ 128: the carry between the words is
-- right.
pub add-bits_of :
    (a b : Int128) → InRange a → InRange b → bits_of (add a b) ≡ (bits_of a + bits_of b) % 2 ^ 128
unfolding add
add-bits_of a b ra rb = ground arith

-- On words in their range, subtraction is subtraction modulo 2 ^ 128.
pub sub-bits_of :
    (a b : Int128)
    → InRange a
    → InRange b
    → bits_of (sub a b) ≡ (bits_of a + 2 ^ 128 - bits_of b) % 2 ^ 128
unfolding sub
sub-bits_of a b ra rb = ground arith

-- On words in their range, negation is negation modulo 2 ^ 128.
pub neg-bits_of : (a : Int128) → InRange a → bits_of (neg a) ≡ (2 ^ 128 - bits_of a) % 2 ^ 128
unfolding neg
neg-bits_of a ra = ground arith

-- On words in their range, `operator<` is the order of the integers that they stand for. (Both
-- sides have the two negative parts added.)
pub lt_iff :
    (a b : Int128)
    → InRange a
    → InRange b
    → (lt a b ≡ true) ↔ (
        pos_part a.high * 2 ^ 64 + a.low + neg_part b.high * 2 ^ 64
        < pos_part b.high * 2 ^ 64 + b.low + neg_part a.high * 2 ^ 64)
unfolding lt
lt_iff a b ra rb = ground arith
