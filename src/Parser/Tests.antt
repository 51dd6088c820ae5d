-- ===== src/Parser/Tests.antt =====
-- Runs of the parser of types, and its theorems at concrete inputs.
use djinn_lang_v.Base.{
  arith, true, false, not, [], ◌∷◌, Bytes, codes, same_bytes, ◌≡◌, refl, length, inr,
}
use djinn_lang_v.Lexer.Token.{TokenType, Position, Token}
use djinn_lang_v.Ast.Kinds.{TypeKind}
use djinn_lang_v.Ast.TypeNames.{IntegerTypeName, NameParse, parse_integer_type_name}
use djinn_lang_v.Ast.DjinnType.{
  DjinnType, node, no_element, no_types, cons, new_fields, new_type, struct_type, pointer,
  with_args, integer_type, copy, equals,
}
use djinn_lang_v.Ast.DjinnType.Names.{to_human_string, FromToken, from_token}
use djinn_lang_v.Ast.DjinnType.Names.Integers.{
  sized_name_of, parse_integer_type_name-to_human_string,
}
use djinn_lang_v.Ast.DjinnType.Copies.{some_read_only, equals-copy}
use djinn_lang_v.ConstEval.Fit.{OverflowMode}
use djinn_lang_v.Parser.Cursor.{is, check, check_any, Parser, ok}
use djinn_lang_v.Parser.Types.{Base, base_of, parse_type, parse_type_at}
use djinn_lang_v.Parser.Cursor.Ends.{Ends}
use djinn_lang_v.Parser.Types.Ends.{parse_type_at-Ends}
use djinn_lang_v.Parser.Types.Written.{
  Written, written, basic, struct, generic, pointer_to, end, comma, meaning, symbol, word, spell,
  Valid, suffixed,
}
use djinn_lang_v.Parser.Types.Reads.{IsEnd, start, Reads}
use djinn_lang_v.Parser.Types.RoundTrip.{parse_type_at-spell}
use djinn_lang_v.Parser.Types.Splits.{joined, applied, parse_type_at-joined}

abbrev nowhere : Position
nowhere = record { file_id = []; line = 1; column = 1; index = 0 }

abbrev name : Bytes → Token
name = word nowhere []

abbrev i32 : DjinnType
i32 = new_type TypeKind.integer 32 true

-- A pointer to a read-only `i32`.
abbrev to_read_only : DjinnType
to_read_only =
    pointer
      (node (record (new_fields TypeKind.integer 32 true) { read_only = true }) no_element no_types)

equals-copy_example : equals (copy to_read_only) to_read_only ≡ not (some_read_only to_read_only)
equals-copy_example = equals-copy to_read_only

abbrev some_tokens : Parser
some_tokens = start nowhere [] 0 [] (
    spell nowhere [] (written (struct (codes "Point")) 1 false false)
      (name (codes "x") ∷ symbol nowhere [] TokenType.end_of_file ∷ []))

parse_type_at-Ends_example : Ends (length some_tokens.rest) (parse_type_at some_tokens)
unfolding spell check_any check is
parse_type_at-Ends_example = parse_type_at-Ends some_tokens (refl, inr refl)

suffixed_name :
    parse_integer_type_name (codes "u16nw")
    ≡ NameParse.integer_name (record {
      bits = 16;
      sign = false;
      mode = OverflowMode.wrapped;
      native = false;
      non_zero = true;
    })
unfolding parse_integer_type_name same_bytes
suffixed_name = refl

-- `u16nw`
abbrev counter : IntegerTypeName
counter = sized_name_of 16 false OverflowMode.wrapped true

parse_integer_type_name-to_human_string_example :
    parse_integer_type_name (to_human_string (integer_type counter))
    ≡ NameParse.integer_name counter
parse_integer_type_name-to_human_string_example =
    parse_integer_type_name-to_human_string 16 false OverflowMode.wrapped true (omega arith)

counter_name : to_human_string (integer_type counter) ≡ codes "u16nw"
unfolding to_human_string
counter_name = refl

counter_token : from_token (name (codes "u16nw")) ≡ FromToken.type (integer_type counter)
unfolding from_token same_bytes
counter_token = refl

i32_base : base_of (name (codes "i32")) ≡ Base.simple i32
unfolding base_of same_bytes
i32_base = refl

map_base : base_of (name (codes "Map")) ≡ Base.struct_named (codes "Map")
unfolding base_of same_bytes is
map_base = refl

list_base : base_of (name (codes "List")) ≡ Base.struct_named (codes "List")
unfolding base_of same_bytes is
list_base = refl

-- `Map<i32, ptr<List> *>[]?`
abbrev map_type : Written
map_type =
    written
      (generic (codes "Map") (written (basic (name (codes "i32")) i32) 0 false false) (
        comma (written (pointer_to (written (struct (codes "List")) 0 false false)) 1 false false)
          end))
      0 true true

map_type-Valid : Valid nowhere [] map_type
unfolding Valid is
map_type-Valid = (map_base, (refl, i32_base), (list_base, tt))

word-IsEnd : IsEnd (name (codes "x"))
unfolding is
word-IsEnd = record { no_star = refl; no_bracket = refl; no_question = refl; no_less = refl }

parse_type_at-spell_example :
    Reads nowhere [] 0
      (parse_type_at (start nowhere [] 0 [] (spell nowhere [] map_type (name (codes "x") ∷ []))))
      (meaning map_type)
      (name (codes "x") ∷ [])
parse_type_at-spell_example =
    parse_type_at-spell nowhere [] map_type [] (name (codes "x")) [] map_type-Valid word-IsEnd

-- `Map<List<i32>>* x`
abbrev i32_written : Written
i32_written = written (basic (name (codes "i32")) i32) 0 false false

parse_type_at-joined_example :
    Reads nowhere [] 0
      (parse_type_at (
        start nowhere [] 0 [] (
          joined nowhere []
            (codes "Map")
            (codes "List")
            i32_written
            1
            false
            false
            (name (codes "x"))
            [])))
      (applied nowhere []
        (codes "Map")
        (suffixed 1 false false (applied nowhere [] (codes "List") (meaning i32_written))))
      (name (codes "x") ∷ [])
unfolding Valid is
parse_type_at-joined_example =
    parse_type_at-joined nowhere [] (codes "Map") (codes "List") i32_written 1 false false
      (name (codes "x")) [] map_base list_base (refl, i32_base) word-IsEnd refl []

joined_run :
    parse_type_at (
      start nowhere [] 0 [] (
        joined nowhere []
          (codes "Map")
          (codes "List")
          i32_written
          1
          false
          false
          (name (codes "x"))
          []))
    ≡ ok
        (with_args
          (cons (pointer (with_args (cons i32 no_types) (struct_type (codes "List")))) no_types)
          (struct_type (codes "Map")))
        (record {
          passed =
              symbol nowhere [] TokenType.star
              ∷ symbol nowhere [] TokenType.greater_greater
              ∷ name (codes "i32")
              ∷ symbol nowhere [] TokenType.less
              ∷ name (codes "List")
              ∷ symbol nowhere [] TokenType.less
              ∷ name (codes "Map")
              ∷ [];
          token = name (codes "x");
          rest = [];
          pending_greater = 0;
        })
unfolding parse_type same_bytes spell
joined_run = refl
