-- ===== src/Ast/DjinnType/Names.antt =====
-- parser/ast/Type.h: the names of types in messages, and types from tokens.
pub mod Suffixes
pub mod Digits
pub mod Integers
use djinn_lang_v.Base.{
  ℕ, zero, suc, ◌+◌, ◌/◌, ◌%◌, Bool, true, false, List, [], ◌∷◌, ◌++◌, Bytes, codes, same_bytes,
  ltb, ◌||◌, if◌then◌else◌,
}
use djinn_lang_v.Lexer.Token.{Token}
use djinn_lang_v.Ast.Kinds.{TypeKind}
use djinn_lang_v.Ast.TypeNames.{NameParse, parse_integer_type_name, overflow_mode_suffix}
use djinn_lang_v.Ast.DjinnType.{
  TypeFields, DjinnType, node, Element, no_element, element, TypeList, no_types, cons, new_type,
  voided, auto_type, native_floating, integer_type,
}

abbrev kind_to_string : TypeKind → Bytes
kind_to_string TypeKind.integer = codes "INTEGER"
kind_to_string TypeKind.void = codes "VOID"
kind_to_string TypeKind.f16 = codes "F16"
kind_to_string TypeKind.f32 = codes "F32"
kind_to_string TypeKind.f64 = codes "F64"
kind_to_string TypeKind.f128 = codes "F128"
kind_to_string TypeKind.struct = codes "STRUCT"
kind_to_string TypeKind.auto = codes "AUTO"
kind_to_string TypeKind.array = codes "ARRAY"
kind_to_string TypeKind.pointer = codes "POINTER"

-- `std::to_string`: the decimal digits, the last first, before `acc`.
unfoldable pub digits_before : ℕ → ℕ → Bytes → Bytes
digits_before zero n acc = acc
digits_before (suc fuel) n acc =
    let more = digits_before fuel (n / 10) ((b'0' + n % 10) ∷ acc) in
    if ltb n 10 then (b'0' + n) ∷ acc else more

-- A number has fewer digits than its successor counts.
unfoldable pub decimal : ℕ → Bytes
unfolding digits_before
decimal n = digits_before (suc n) n []

abbrev pub integer_string : TypeFields → Bytes
integer_string fields =
    if fields.native
    then codes "nint"
    else (if fields.sign then b'i' else b'u')
      ∷ (decimal fields.size
          ++ ((if fields.non_zero then codes "n" else [])
              ++ overflow_mode_suffix fields.overflow_mode))

-- `inner` and `args` are the strings of the element and of the arguments.
abbrev pub string_by_kind : TypeKind → TypeFields → Bytes → Bytes → Bytes
string_by_kind TypeKind.integer fields inner args = integer_string fields
string_by_kind TypeKind.f16 fields inner args = codes "f16"
string_by_kind TypeKind.f32 fields inner args =
    if fields.native then codes "nfloat" else codes "f32"
string_by_kind TypeKind.f64 fields inner args =
    if fields.native then codes "ndouble" else codes "f64"
string_by_kind TypeKind.f128 fields inner args = codes "f128"
string_by_kind TypeKind.void fields inner args = codes "void"
string_by_kind TypeKind.auto fields inner args = codes "auto"
string_by_kind TypeKind.pointer fields inner args = inner ++ codes "*"
string_by_kind TypeKind.array fields inner args = inner ++ codes "[]"
string_by_kind TypeKind.struct fields inner args = fields.struct_name ++ args

unfoldable mutual
  unfolding decimal

  pub to_human_string : DjinnType → Bytes
  to_human_string (node fields elem args) =
      string_by_kind fields.kind fields (element_string elem) (arguments_string args)

  element_string : Element → Bytes
  element_string no_element = codes "void"
  element_string (element t) = to_human_string t

  -- `<`, the arguments, and `>`, if there are any.
  arguments_string : TypeList → Bytes
  arguments_string no_types = []
  arguments_string (cons t ts) = codes "<" ++ to_human_string t ++ more_strings ts

  more_strings : TypeList → Bytes
  more_strings no_types = codes ">"
  more_strings (cons t ts) = codes ", " ++ to_human_string t ++ more_strings ts

-- A type, or the exception of `std::stol`.
pub data FromToken : Type 0 where
  type : DjinnType → FromToken
  throws : FromToken

abbrev from_name : NameParse → Bytes → FromToken
from_name NameParse.throws value = FromToken.throws
from_name (NameParse.integer_name name) value = FromToken.type (integer_type name)
from_name NameParse.no_integer value = FromToken.type (
    if same_bytes value (codes "nfloat")
    then native_floating TypeKind.f32 32
    else if same_bytes value (codes "ndouble")
    then native_floating TypeKind.f64 64
    else if same_bytes value (codes "f16")
    then new_type TypeKind.f16 16 true
    else if same_bytes value (codes "f32")
    then new_type TypeKind.f32 32 true
    else if same_bytes value (codes "f64")
    then new_type TypeKind.f64 64 true
    else if same_bytes value (codes "f128")
    then new_type TypeKind.f128 128 true
    else if same_bytes value (codes "void")
    then voided
    else if same_bytes value (codes "auto") || same_bytes value (codes "var")
    then auto_type
    else voided)

unfoldable pub from_token : Token → FromToken
unfolding parse_integer_type_name
from_token t = from_name (parse_integer_type_name t.value) t.value
