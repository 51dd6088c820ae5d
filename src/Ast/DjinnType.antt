-- ===== src/Ast/DjinnType.antt =====
-- parser/ast/Type.h: `Type`, without its place in the source.
pub mod Copies
pub mod Names
use djinn_lang_v.Base.{
  ℕ, Bool, true, false, ◌&&◌, ◌||◌, not, [], Option, none, some, Bytes, codes, same_bytes, ◌==◌,
  if◌then◌else◌,
}
use djinn_lang_v.ConstEval.Fit.{OverflowMode}
use djinn_lang_v.Ast.Kinds.{TypeKind}
use djinn_lang_v.Ast.TypeNames.{IntegerTypeName, native_int_bits}

-- The fields of a type that are no types.
pub record TypeFields : Type 0 where
  pub size : ℕ
  pub kind : TypeKind
  pub sign : Bool
  pub nullable : Bool
  pub read_only : Bool
  pub is_transparent : Bool
  pub native : Bool
  pub overflow_mode : OverflowMode
  pub non_zero : Bool
  pub struct_name : Bytes

mutual
  pub data DjinnType : Type 0 where
    node : TypeFields → Element → TypeList → DjinnType

  -- `elementType`, which may be null, and `genericArgs`.
  pub data Element : Type 0 where
    no_element : Element
    element : DjinnType → Element

  pub data TypeList : Type 0 where
    no_types : TypeList
    cons : DjinnType → TypeList → TypeList

abbrev pub fields_of : DjinnType → TypeFields
fields_of (node fields _ _) = fields

-- `Type(kind, size, sign)`
abbrev pub new_fields : TypeKind → ℕ → Bool → TypeFields
new_fields kind size sign = record {
  size = size;
  kind = kind;
  sign = sign;
  nullable = false;
  read_only = false;
  is_transparent = false;
  native = false;
  overflow_mode = OverflowMode.unchecked;
  non_zero = false;
  struct_name = [];
}

abbrev pub new_type : TypeKind → ℕ → Bool → DjinnType
new_type kind size sign = node (new_fields kind size sign) no_element no_types

abbrev pub struct_type : Bytes → DjinnType
struct_type name =
    node (record (new_fields TypeKind.struct 0 false) { struct_name = name }) no_element no_types

abbrev pub auto_type : DjinnType
auto_type = new_type TypeKind.auto 0 false

-- `floating`, for the sizes that it does not refuse.
abbrev pub floating : ℕ → Option DjinnType
floating size =
    if size == 16
    then some (new_type TypeKind.f16 16 true)
    else if size == 32
    then some (new_type TypeKind.f32 32 true)
    else if size == 64
    then some (new_type TypeKind.f64 64 true)
    else if size == 128
    then some (new_type TypeKind.f128 128 true)
    else none

abbrev pub voided : DjinnType
voided = new_type TypeKind.void 0 false

abbrev pub array : DjinnType → DjinnType
array t = node (new_fields TypeKind.array 0 false) (element t) no_types

abbrev pub pointer : DjinnType → DjinnType
pointer t = node (new_fields TypeKind.pointer 0 false) (element t) no_types

abbrev pub integer_fields : IntegerTypeName → TypeFields
integer_fields name =
    if name.native
    then record (new_fields TypeKind.integer native_int_bits true) { native = true }
    else new_fields TypeKind.integer name.bits name.sign

-- `native_integer()` or `integer(...)`, with the mode and the suffix of the name.
abbrev pub integer_type : IntegerTypeName → DjinnType
integer_type name =
    node (record (integer_fields name) { overflow_mode = name.mode; non_zero = name.non_zero })
      no_element no_types

abbrev pub native_floating : TypeKind → ℕ → DjinnType
native_floating kind size =
    node (record (new_fields kind size true) { native = true }) no_element no_types

abbrev pub with_args : TypeList → DjinnType → DjinnType
with_args args (node fields elem _) = node fields elem args

abbrev pub as_nullable : DjinnType → DjinnType
as_nullable (node fields elem args) = node (record fields { nullable = true }) elem args

-- The copy constructor.
abbrev pub copied_fields : TypeFields → TypeFields
copied_fields fields = record fields { read_only = false }

unfoldable mutual
  pub copy : DjinnType → DjinnType
  copy (node fields elem args) = node (copied_fields fields) (copy_element elem) (copy_list args)

  pub copy_element : Element → Element
  copy_element no_element = no_element
  copy_element (element t) = element (copy t)

  pub copy_list : TypeList → TypeList
  copy_list no_types = no_types
  copy_list (cons t ts) = cons (copy t) (copy_list ts)

abbrev pub kind_number : TypeKind → ℕ
kind_number TypeKind.integer = 0
kind_number TypeKind.void = 1
kind_number TypeKind.f16 = 2
kind_number TypeKind.f32 = 3
kind_number TypeKind.f64 = 4
kind_number TypeKind.f128 = 5
kind_number TypeKind.struct = 6
kind_number TypeKind.auto = 7
kind_number TypeKind.array = 8
kind_number TypeKind.pointer = 9

abbrev pub same_bool : Bool → Bool → Bool
same_bool true b = b
same_bool false b = not b

-- The fields that `operator==` compares.
unfoldable pub same_fields : TypeFields → TypeFields → Bool
same_fields a b =
    a.size == b.size
    && kind_number a.kind == kind_number b.kind
    && same_bool a.sign b.sign
    && same_bool a.nullable b.nullable
    && same_bool a.read_only b.read_only
    && same_bool a.non_zero b.non_zero
    && same_bytes a.struct_name b.struct_name

unfoldable mutual
  unfolding same_fields

  pub equals : DjinnType → DjinnType → Bool
  equals (node fields elem args) (node fields' elem' args') =
      same_fields fields fields' && equal_elements elem elem' && equal_lists args args'

  pub equal_elements : Element → Element → Bool
  equal_elements no_element no_element = true
  equal_elements (element t) (element u) = equals t u
  equal_elements _ _ = false

  pub equal_lists : TypeList → TypeList → Bool
  equal_lists no_types no_types = true
  equal_lists (cons t ts) (cons u us) = equals t u && equal_lists ts us
  equal_lists _ _ = false
