-- ===== src/Ast/Expression.antt =====
-- parser/ast/Expression.h: the expressions that evaluation at compile time tells apart.
use djinn_lang_v.Base.{ℕ, Bool, Bytes}
use djinn_lang_v.Ast.Kinds.{TypeKind}
use djinn_lang_v.Lexer.Token.{TokenType}
use djinn_lang_v.ConstEval.Fit.{OverflowMode}

-- A literal holds its spelling. Of the type of a cast there are its kind, size and sign. All
-- other classes of expressions are `other_expression`.
mutual
  pub data Expression : Type 0 where
    integer_literal float_literal boolean_literal identifier : Bytes → Expression
    field_access : Expression → Bytes → Expression
    binary : TokenType → OverflowMode → Expression → Expression → Expression
    unary : TokenType → OverflowMode → Expression → Expression
    cast : TypeKind → ℕ → Bool → Expression → Expression
    function_call : Bytes → Arguments → Expression
    variable_init assignment : Bytes → Expression → Expression
    other_expression : Expression

  pub data Arguments : Type 0 where
    no_arguments : Arguments
    argument : Expression → Arguments → Arguments
