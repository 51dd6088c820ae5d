-- ===== src/Ast/Statement.antt =====
-- parser/ast/Statement.h: the statements that evaluation at compile time tells apart.
use djinn_lang_v.Base.{Option}
use djinn_lang_v.Ast.Expression.{Expression}

-- A pointer that may be null is an `Option`, or, to a block, a `Branch`. All other classes of
-- statements are `other_statement`.
mutual
  pub data Statement : Type 0 where
    return_statement throw_statement : Option Expression → Statement
    if_statement : Expression → Branch → Branch → Statement
    while_statement : Expression → Branch → Statement
    for_statement : Option Expression → Option Expression → Option Expression → Branch → Statement
    block_statement : Block → Statement
    expression_statement : Expression → Statement
    other_statement : Statement

  pub data Branch : Type 0 where
    no_branch : Branch
    branch : Block → Branch

  pub data Block : Type 0 where
    end : Block
    statement : Statement → Block → Block
