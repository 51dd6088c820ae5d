-- ===== src/Ast/DjinnType/Copies.antt =====
-- parser/ast/Type.h: copies of types, and their equality.
use djinn_lang_v.Base.{
  ℕ, Bool, true, false, ◌&&◌, ◌||◌, not, Bytes, same_bytes, same_bytes_iff, ◌==◌, ◌≡◌, refl, ◌∙◌,
  arith,
}
use djinn_lang_v.Ast.DjinnType.{
  TypeFields, DjinnType, node, Element, no_element, element, TypeList, no_types, cons,
  copied_fields, copy, copy_element, copy_list, kind_number, same_bool, same_fields, equals,
  equal_elements, equal_lists,
}

-- A type that is read-only, or that has a part that is.
unfoldable mutual
  pub some_read_only : DjinnType → Bool
  some_read_only (node fields elem args) =
      fields.read_only || read_only_element elem || read_only_list args

  read_only_element : Element → Bool
  read_only_element no_element = false
  read_only_element (element t) = some_read_only t

  read_only_list : TypeList → Bool
  read_only_list no_types = false
  read_only_list (cons t ts) = some_read_only t || read_only_list ts

same_bool_refl : (b : Bool) → same_bool b b ≡ true
same_bool_refl true = refl
same_bool_refl false = refl

eq_refl : (n : ℕ) → n == n ≡ true
eq_refl n = ground arith

same_bytes_refl : (s : Bytes) → same_bytes s s ≡ true
same_bytes_refl s = (same_bytes_iff s s).1 refl

de_morgan : (a b : Bool) → not a && not b ≡ not (a || b)
de_morgan true b = refl
de_morgan false b = refl

and_true : (b : Bool) → b && true ≡ b
and_true true = refl
and_true false = refl

same_fields-copied_fields :
    (fields : TypeFields) → same_fields (copied_fields fields) fields ≡ not fields.read_only
unfolding same_fields
same_fields-copied_fields fields =
    rw
      (
        eq_refl fields.size,
        eq_refl (kind_number fields.kind),
        same_bool_refl fields.sign,
        same_bool_refl fields.nullable,
        same_bool_refl fields.non_zero,
        same_bytes_refl fields.struct_name,
      )
      (and_true (not fields.read_only && true) ∙ and_true (not fields.read_only))

mutual
  unfolding equals copy some_read_only

  equals-copy_type : (t : DjinnType) → equals (copy t) t ≡ not (some_read_only t)
  equals-copy_type (node fields elem args) =
      rw
        (
          same_fields-copied_fields fields,
          equal_elements-copy_element elem,
          equal_lists-copy_list args,
          de_morgan fields.read_only (read_only_element elem),
        )
        (de_morgan (fields.read_only || read_only_element elem) (read_only_list args))

  equal_elements-copy_element :
      (e : Element) → equal_elements (copy_element e) e ≡ not (read_only_element e)
  equal_elements-copy_element no_element = refl
  equal_elements-copy_element (element t) = equals-copy_type t

  equal_lists-copy_list : (ts : TypeList) → equal_lists (copy_list ts) ts ≡ not (read_only_list ts)
  equal_lists-copy_list no_types = refl
  equal_lists-copy_list (cons t ts) =
      rw (equals-copy_type t, equal_lists-copy_list ts)
        (de_morgan (some_read_only t) (read_only_list ts))

-- A type is equal to its copy exactly if nothing in it is read-only: the copy drops that flag,
-- which the comparison reads.
pub equals-copy : (t : DjinnType) → equals (copy t) t ≡ not (some_read_only t)
equals-copy = equals-copy_type
