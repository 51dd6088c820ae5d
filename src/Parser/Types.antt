-- ===== src/Parser/Types.antt =====
-- parser/Parser.cpp, `parse_type`.
pub mod Ends
pub mod Written
pub mod Reads
pub mod RoundTrip
pub mod Splits
use djinn_lang_v.Base.{
  ℕ, zero, suc, ◌+◌, ◌*◌, Bool, true, false, ◌&&◌, ◌||◌, List, [], ◌∷◌, Option, none, some, Bytes,
  codes, same_bytes, ltb, ◌==◌, if◌then◌else◌, length,
}
use djinn_lang_v.Lexer.Token.{TokenType, Token}
use djinn_lang_v.Ast.Kinds.{TypeKind}
use djinn_lang_v.Ast.TypeNames.{
  IntegerTypeName, NameParse, parse_integer_type_name, starts_with, last, drop_last,
}
use djinn_lang_v.Ast.DjinnType.{
  DjinnType, node, element, TypeList, no_types, cons, fields_of, struct_type, auto_type, floating,
  voided, array, pointer, integer_type, native_floating, with_args, as_nullable,
}
use djinn_lang_v.Parser.Cursor.{
  Parser, DiagnosticCode, Result, ok, failed, out_of_range, undefined, unfinished, ◌>>=◌, is, check,
  match, expect, expect_any, moved,
}

-- The names of `string_to_type_kind` that begin with `f`, with the number behind that letter.
abbrev pub float_bits : Bytes → Option ℕ
float_bits name =
    if same_bytes name (codes "f16")
    then some 16
    else if same_bytes name (codes "f32")
    then some 32
    else if same_bytes name (codes "f64")
    then some 64
    else if same_bytes name (codes "f128")
    then some 128
    else none

abbrev is_int_suffix : Option ℕ → Bool
is_int_suffix none = false
is_int_suffix (some c) = c == b'w' || c == b't' || c == b'c' || c == b's' || c == b'n'

abbrev is_some : {A : Type 0} → Option A → Bool
is_some none = false
is_some (some _) = true

-- A float name with one more character, a suffix of integers.
abbrev bad_float : Bytes → Bool
bad_float name =
    starts_with name (codes "f")
    && ltb 3 (length name)
    && is_int_suffix (last name)
    && is_some (float_bits (drop_last name))

-- What the name of a type begins: a type, a type that may take arguments, a pointer that may say
-- what it points to, an error, or an exception.
pub data Base : Type 0 where
  simple : DjinnType → Base
  struct_named : Bytes → Base
  ptr suffix_error throws : Base

abbrev named_base : Token → Base
named_base t =
    if is t.type TokenType.identifier && same_bytes t.value (codes "ptr")
    then Base.ptr
    else if same_bytes t.value (codes "void") || is t.type TokenType.void
    then Base.simple voided
    else if same_bytes t.value (codes "auto")
        || same_bytes t.value (codes "var")
        || is t.type TokenType.auto
    then Base.simple auto_type
    else Base.struct_named t.value

abbrev integer_base : NameParse → Token → Base
integer_base (NameParse.integer_name name) t = Base.simple (integer_type name)
integer_base NameParse.throws t = Base.throws
integer_base NameParse.no_integer t = named_base t

abbrev sized_float : Option DjinnType → Base
sized_float none = Base.throws
sized_float (some t) = Base.simple t

abbrev float_base : Option ℕ → Token → Base
float_base (some bits) t = sized_float (floating bits)
float_base none t =
    if bad_float t.value
    then Base.suffix_error
    else integer_base (parse_integer_type_name t.value) t

unfoldable pub base_of : Token → Base
unfolding is last drop_last parse_integer_type_name
base_of t =
    if same_bytes t.value (codes "nfloat")
    then Base.simple (native_floating TypeKind.f32 32)
    else if same_bytes t.value (codes "ndouble")
    then Base.simple (native_floating TypeKind.f64 64)
    else float_base (float_bits t.value) t

-- `while (match(TokenType::STAR))`, on the tokens behind the current one.
unfoldable pub stars_on : List Token → DjinnType → Parser → Result DjinnType
unfolding check
stars_on [] t s = if check TokenType.star s then undefined else ok t s
stars_on (x ∷ xs) t s =
    let more = stars_on xs (pointer t) (moved s x xs) in
    if check TokenType.star s then more else ok t s

abbrev pub stars : DjinnType → Parser → Result DjinnType
stars t s = stars_on s.rest t s

abbrev pub brackets : Bool → DjinnType → Parser → Result DjinnType
brackets false t s = ok t s
brackets true t s = expect TokenType.rbracket s >>= λ _ s. ok (array t) s

-- What may follow a type: `*`, `[]` and `?`.
unfoldable pub parse_suffixes : DjinnType → Parser → Result DjinnType
unfolding stars_on match expect
parse_suffixes t s = stars t s >>= λ t s. match TokenType.lbracket s >>= λ found s.
    brackets found t s >>= λ t s.
    match TokenType.question s >>= λ found s. ok (if found then as_nullable t else t) s

-- The type between `<` and `>` behind `ptr`, if there is a `<`; `inner` parses a type.
abbrev pub parse_pointee : (Parser → Result DjinnType) → Bool → Parser → Result DjinnType
parse_pointee inner false s = ok (pointer voided) s
parse_pointee inner true s =
    inner s >>= λ t s. expect TokenType.greater s >>= λ _ s. ok (pointer t) s

-- The arguments between `<` and `>`, if there is a `<`; `inner` parses them.
abbrev pub parse_arguments :
    (Parser → Result TypeList) → Bool → DjinnType → Parser → Result DjinnType
parse_arguments inner false t s = ok t s
parse_arguments inner true t s =
    inner s >>= λ args s. expect TokenType.greater s >>= λ _ s. ok (with_args args t) s

abbrev pub parse_base :
    (Parser → Result DjinnType) → (Parser → Result TypeList) → Base → Parser → Result DjinnType
parse_base one many (Base.simple t) s = ok t s
parse_base one many Base.suffix_error s = failed DiagnosticCode.invalid_type s
parse_base one many Base.throws s = out_of_range
parse_base one many Base.ptr s = match TokenType.less s >>= λ found s. parse_pointee one found s
parse_base one many (Base.struct_named name) s =
    match TokenType.less s >>= λ found s. parse_arguments many found (struct_type name) s

abbrev pub parse_more : (Parser → Result TypeList) → Bool → DjinnType → Parser → Result TypeList
parse_more many false t s = ok (cons t no_types) s
parse_more many true t s = many s >>= λ ts s. ok (cons t ts) s

unfoldable mutual
  unfolding base_of parse_suffixes match expect expect_any

  pub parse_type : ℕ → Parser → Result DjinnType
  parse_type zero s = unfinished
  parse_type (suc fuel) s =
      expect_any (TokenType.identifier ∷ TokenType.void ∷ TokenType.auto ∷ []) s >>= λ t s.
      parse_base (λ s. parse_type fuel s) (λ s. parse_list fuel s) (base_of t) s >>= λ t s.
      parse_suffixes t s

  -- The loop over the arguments.
  pub parse_list : ℕ → Parser → Result TypeList
  parse_list zero s = unfinished
  parse_list (suc fuel) s = parse_type fuel s >>= λ t s.
      match TokenType.comma s >>= λ found s. parse_more (λ s. parse_list fuel s) found t s

-- Each recursive call stands behind a token, so this much fuel is enough.
abbrev pub parse_type_at : Parser → Result DjinnType
parse_type_at s = parse_type (2 * length s.rest + 1) s
