-- ===== src/ConstEval/Value.antt =====
-- evaluator/ConstValue.h, `ConstValue`. The type `double` and its operations are a parameter.
use djinn_lang_v.Base.{ℕ, ◌^◌, Bool, true, false, not, [], Bytes, if◌then◌else◌}
use djinn_lang_v.Base.Int.{ℤ, pos, eqb_ℤ}
use djinn_lang_v.ConstEval.Int128.{Int128, from_int64, to_int64, is_zero}

-- `double`: its arithmetic and comparisons, and the casts from and to `int64_t`.
pub record Doubles : Type 1 where
  pub Double : Type 0
  pub of_int : ℤ → Double
  pub to_int : Double → ℤ
  pub add : Double → Double → Double
  pub sub : Double → Double → Double
  pub mul : Double → Double → Double
  pub div : Double → Double → Double
  pub neg : Double → Double
  pub eq : Double → Double → Bool
  pub lt : Double → Double → Bool
  pub le : Double → Double → Bool

pub data Kind : Type 0 where
  integer integer128 float bool void thrown error : Kind

module _ (F : Doubles) where
  pub record ConstValue : Type 0 where
    pub kind : Kind
    pub int_val : ℤ
    pub int128_val : Int128
    pub float_val : F.Double
    pub bool_val : Bool
    pub error_name : Bytes
    pub bit_width : ℕ
    pub is_signed : Bool

  -- The initialisers of the fields; also `ConstValue::error()`.
  abbrev pub error_value : ConstValue
  error_value = record {
    kind = Kind.error;
    int_val = pos 0;
    int128_val = record { high = pos 0; low = 0 };
    float_val = F.of_int (pos 0);
    bool_val = false;
    error_name = [];
    bit_width = 32;
    is_signed = true;
  }

  abbrev pub make_int : ℤ → ℕ → Bool → ConstValue
  make_int val bits sign = record error_value {
    kind = Kind.integer;
    int_val = val;
    bit_width = bits;
    is_signed = sign;
  }

  abbrev pub make_int128 : Int128 → Bool → ConstValue
  make_int128 val sign = record error_value {
    kind = Kind.integer128;
    int128_val = val;
    bit_width = 128;
    is_signed = sign;
  }

  abbrev pub make_float : F.Double → ℕ → ConstValue
  make_float val bits = record error_value { kind = Kind.float; float_val = val; bit_width = bits }

  abbrev pub make_bool : Bool → ConstValue
  make_bool val = record error_value { kind = Kind.bool; bool_val = val; bit_width = 1 }

  abbrev pub make_void : ConstValue
  make_void = record error_value { kind = Kind.void }

  abbrev pub make_thrown : Bytes → ConstValue
  make_thrown name = record error_value { kind = Kind.thrown; error_name = name }

  abbrev pub is_float : Kind → Bool
  is_float Kind.float = true
  is_float _ = false

  abbrev pub is_error : Kind → Bool
  is_error Kind.error = true
  is_error _ = false

  abbrev to_int_of : Kind → ConstValue → ℤ
  to_int_of Kind.integer v = v.int_val
  to_int_of Kind.integer128 v = to_int64 v.int128_val
  to_int_of Kind.float v = F.to_int v.float_val
  to_int_of Kind.bool v = if v.bool_val then pos 1 else pos 0
  to_int_of _ v = pos 0

  abbrev pub to_int : ConstValue → ℤ
  to_int v = to_int_of v.kind v

  abbrev to_int128_of : Kind → ConstValue → Int128
  to_int128_of Kind.integer v = from_int64 v.int_val
  to_int128_of Kind.integer128 v = v.int128_val
  to_int128_of Kind.float v = from_int64 (F.to_int v.float_val)
  to_int128_of Kind.bool v = from_int64 (if v.bool_val then pos 1 else pos 0)
  to_int128_of _ v = record { high = pos 0; low = 0 }

  abbrev pub to_int128 : ConstValue → Int128
  to_int128 v = to_int128_of v.kind v

  abbrev to_float_of : Kind → ConstValue → F.Double
  to_float_of Kind.integer v = F.of_int v.int_val
  to_float_of Kind.integer128 v =
      F.add (F.mul (F.of_int v.int128_val.high) (F.of_int (pos (2 ^ 64))))
        (F.of_int (pos v.int128_val.low))
  to_float_of Kind.float v = v.float_val
  to_float_of Kind.bool v = F.of_int (if v.bool_val then pos 1 else pos 0)
  to_float_of _ v = F.of_int (pos 0)

  abbrev pub to_float : ConstValue → F.Double
  to_float v = to_float_of v.kind v

  abbrev to_bool_of : Kind → ConstValue → Bool
  to_bool_of Kind.integer v = not (eqb_ℤ v.int_val (pos 0))
  to_bool_of Kind.integer128 v = not (is_zero v.int128_val)
  to_bool_of Kind.float v = not (F.eq v.float_val (F.of_int (pos 0)))
  to_bool_of Kind.bool v = v.bool_val
  to_bool_of _ v = false

  abbrev pub to_bool : ConstValue → Bool
  to_bool v = to_bool_of v.kind v
