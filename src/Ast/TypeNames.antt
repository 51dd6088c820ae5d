-- ===== src/Ast/TypeNames.antt =====
-- parser/ast/Type.h, `parse_integer_type_name`: the names of the integer types.
use djinn_lang_v.Base.{
  ℕ, zero, suc, ◌-◌, ◌^◌, Bool, true, false, ◌&&◌, ◌||◌, not, [], ◌∷◌, Option, none, some, Bytes,
  codes, same_bytes, ltb, ◌==◌, if◌then◌else◌, length, get_or, take, drop,
}
use djinn_lang_v.Base.Int.{ℤ, pos, negsuc}
use djinn_lang_v.Lexer.Chars.{is_digit}
use djinn_lang_v.ConstEval.Fit.{OverflowMode}
use djinn_lang_v.ConstEval.Compiler.{Parsed, parsed, out_of_range, invalid_argument}
use djinn_lang_v.ConstEval.Compiler.Literals.{stoll}

-- `sizeof(void*) * 8`, on a host of 64 bits.
abbrev pub native_int_bits : ℕ
native_int_bits = 64

pub record IntegerTypeName : Type 0 where
  pub bits : ℕ
  pub sign : Bool
  pub mode : OverflowMode
  pub native : Bool
  pub non_zero : Bool

abbrev pub overflow_mode_suffix : OverflowMode → Bytes
overflow_mode_suffix OverflowMode.wrapped = codes "w"
overflow_mode_suffix OverflowMode.trapped = codes "t"
overflow_mode_suffix OverflowMode.checked = codes "c"
overflow_mode_suffix OverflowMode.saturating = codes "s"
overflow_mode_suffix OverflowMode.unchecked = []

abbrev pub mode_from_char : ℕ → Option OverflowMode
mode_from_char c =
    if c == b'w'
    then some OverflowMode.wrapped
    else if c == b't'
    then some OverflowMode.trapped
    else if c == b'c'
    then some OverflowMode.checked
    else if c == b's'
    then some OverflowMode.saturating
    else none

abbrev pub starts_with : Bytes → Bytes → Bool
starts_with name prefix = same_bytes (take (length prefix) name) prefix

unfoldable pub last : Bytes → Option ℕ
last [] = none
last (c ∷ []) = some c
last (c ∷ d ∷ s) = last (d ∷ s)

unfoldable pub drop_last : Bytes → Bytes
drop_last [] = []
drop_last (c ∷ []) = []
drop_last (c ∷ d ∷ s) = c ∷ drop_last (d ∷ s)

unfoldable pub all_digits : Bytes → Bool
unfolding is_digit
all_digits [] = true
all_digits (c ∷ s) = is_digit c && all_digits s

-- The variables of the loop that takes the suffixes off.
pub record Stripped : Type 0 where
  pub digits : Bytes
  pub mode : OverflowMode
  pub non_zero : Bool

abbrev is_unchecked : OverflowMode → Bool
is_unchecked OverflowMode.unchecked = true
is_unchecked _ = false

abbrev pub strip_mode : Option OverflowMode → Stripped → Option Stripped
strip_mode none s = none
strip_mode (some m) s =
    if is_unchecked s.mode then some (record s { digits = drop_last s.digits; mode = m }) else none

-- A round of the loop, where it does not break.
abbrev pub strip_last : Option ℕ → Stripped → Option Stripped
strip_last none s = none
strip_last (some c) s =
    if c == b'n' && not s.non_zero
    then some (record s { digits = drop_last s.digits; non_zero = true })
    else strip_mode (mode_from_char c) s

abbrev pub after_round : Option Stripped → (Stripped → Stripped) → Stripped → Stripped
after_round none more s = s
after_round (some s') more s = more s'

unfoldable pub strip : ℕ → Stripped → Stripped
unfolding last drop_last
strip zero s = s
strip (suc rounds) s = after_round (strip_last (last s.digits) s) (strip rounds) s

-- No name of an integer type, one, or one whose number leaves `std::stol` by an exception.
pub data NameParse : Type 0 where
  no_integer : NameParse
  integer_name : IntegerTypeName → NameParse
  throws : NameParse

-- `static_cast<size_t>`
abbrev as_size : ℤ → ℕ
as_size (pos n) = n
as_size (negsuc n) = 2 ^ 64 - 1 - n

abbrev pub with_bits : Parsed ℤ → Bool → Stripped → NameParse
with_bits (parsed v) sign s =
    NameParse.integer_name (record {
      bits = as_size v;
      sign = sign;
      mode = s.mode;
      native = false;
      non_zero = s.non_zero;
    })
with_bits out_of_range sign s = NameParse.throws
with_bits invalid_argument sign s = NameParse.throws

abbrev pub stripped_name : Bool → Stripped → NameParse
stripped_name sign s =
    if same_bytes s.digits [] || not (all_digits s.digits)
    then NameParse.no_integer
    else with_bits (stoll 10 s.digits) sign s

abbrev pub sized_name : Bytes → NameParse
sized_name name =
    if ltb (length name) 2
    then NameParse.no_integer
    else if not (get_or name 0 0 == b'i') && not (get_or name 0 0 == b'u')
    then NameParse.no_integer
    else stripped_name (get_or name 0 0 == b'i')
        (strip 2 (record { digits = drop 1 name; mode = OverflowMode.unchecked; non_zero = false }))

abbrev pub native_name : OverflowMode → NameParse
native_name m =
    NameParse.integer_name
      (record { bits = native_int_bits; sign = true; mode = m; native = true; non_zero = false })

abbrev pub word_name : Bool → NameParse
word_name sign = NameParse.integer_name (record {
  bits = 32;
  sign = sign;
  mode = OverflowMode.unchecked;
  native = false;
  non_zero = false;
})

-- `nint` with one more character.
abbrev native_suffixed : Bytes → Option OverflowMode
native_suffixed name =
    if length name == 5 && starts_with name (codes "nint")
    then mode_from_char (get_or name 4 0)
    else none

abbrev unless_native : Option OverflowMode → Bytes → NameParse
unless_native (some m) name = native_name m
unless_native none name =
    if same_bytes name (codes "isize")
    then word_name true
    else if same_bytes name (codes "usize")
    then word_name false
    else sized_name name

unfoldable pub parse_integer_type_name : Bytes → NameParse
unfolding strip all_digits stoll
parse_integer_type_name name =
    if same_bytes name (codes "nint")
    then native_name OverflowMode.unchecked
    else unless_native (native_suffixed name) name
