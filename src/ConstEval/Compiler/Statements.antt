-- ===== src/ConstEval/Compiler/Statements.antt =====
-- evaluator/ConstEvaluator.cpp: `compileStatement` and the functions that it calls.
use djinn_lang_v.Base.{ℕ, Bool, true, false, Option, none, some, Bytes, [], if◌then◌else◌}
use djinn_lang_v.Base.Int.{pos}
use djinn_lang_v.Ast.Expression.{Expression}
use djinn_lang_v.Ast.Statement.{
  Statement, return_statement, throw_statement, if_statement, while_statement, for_statement,
  block_statement, expression_statement, other_statement, Branch, no_branch, branch, Block, end,
  statement,
}
use djinn_lang_v.ConstEval.Value.{Doubles}
use djinn_lang_v.ConstEval.Code.{OpCode}
use djinn_lang_v.ConstEval.Compiler.{
  Attempt, done, ◌>>=◌, Numerals, Compiler, fail, unless_error, emit, push_int, throw_name, here,
  emit_jump, patch_jump,
}
use djinn_lang_v.ConstEval.Compiler.Expressions.{compile_expression}

-- The name of the error that a `throw` records.
abbrev pub error_name : Option Expression → Bytes
error_name (some (Expression.function_call name _)) = name
error_name (some (Expression.identifier name)) = name
error_name _ = []

-- Initialisations and assignments leave nothing on the stack.
abbrev pub leaves_value : Expression → Bool
leaves_value (Expression.variable_init _ _) = false
leaves_value (Expression.assignment _ _) = false
leaves_value _ = true

module _ (F : Doubles) (N : Numerals F) where
  unfoldable pub compile_optional : Option Expression → Compiler F → Attempt (Compiler F)
  unfolding compile_expression
  compile_optional none c = done c
  compile_optional (some e) c = compile_expression F N e c

  unfoldable pub compile_return : Option Expression → Compiler F → Attempt (Compiler F)
  unfolding compile_expression push_int emit
  compile_return none c = done (emit F OpCode.ret 0 (push_int F (pos 0) c))
  compile_return (some e) c = compile_expression F N e c >>= λ c. done (emit F OpCode.ret 0 c)

  unfoldable pub compile_expression_statement : Expression → Compiler F → Attempt (Compiler F)
  unfolding compile_expression emit
  compile_expression_statement e c = compile_expression F N e c >>= λ c.
      unless_error F c λ c. if leaves_value e then done (emit F OpCode.pop 0 c) else done c

  -- The condition of a `for`, with the index of the jump behind it.
  unfoldable pub compile_condition :
      Expression → Compiler F → (ℕ → Compiler F → Attempt (Compiler F)) → Attempt (Compiler F)
  unfolding compile_expression emit_jump
  compile_condition e c f = compile_expression F N e c >>= λ c.
      unless_error F c λ c. let (jump, c) = emit_jump F OpCode.jmp_if_false c in f jump c

  -- The `else` of an `if`, behind its jump at `to_else`; `compile` compiles the block.
  abbrev pub compile_else :
      Branch → (Compiler F → Attempt (Compiler F)) → ℕ → Compiler F → Attempt (Compiler F)
  compile_else no_branch compile to_else c = done (patch_jump F to_else c)
  compile_else (branch _) compile to_else c =
      let (to_end, c) = emit_jump F OpCode.jmp c in
      compile (patch_jump F to_else c) >>= λ c. done (patch_jump F to_end c)

  abbrev pub for_loop :
      Option Expression
      → Option Expression
      → (Compiler F → Attempt (Compiler F))
      → Compiler F
      → Attempt (Compiler F)
  for_loop none postfix compile c =
      let start = here F c in
      compile c >>= λ c. compile_optional postfix c >>= λ c. done (emit F OpCode.jmp start c)
  for_loop (some e) postfix compile c =
      let start = here F c in
      compile_condition e c λ to_end c. compile c >>= λ c.
      compile_optional postfix c >>= λ c. done (patch_jump F to_end (emit F OpCode.jmp start c))

  unfoldable mutual
    unfolding compile_optional compile_return compile_expression_statement compile_condition emit
        throw_name patch_jump emit_jump

    pub compile_statement : Statement → Compiler F → Attempt (Compiler F)
    compile_statement (return_statement value) c = unless_error F c (compile_return value)
    compile_statement (throw_statement value) c =
        unless_error F c λ c. done (throw_name F (error_name value) c)
    compile_statement (if_statement e taken otherwise) c = unless_error F c λ c.
        compile_condition e c λ to_else c. compile_branch taken c >>= λ c.
        compile_else otherwise (λ c. compile_branch otherwise c) to_else c
    compile_statement (while_statement e body) c = unless_error F c λ c.
        let start = here F c in
        compile_condition e c λ to_end c.
          compile_branch body c >>= λ c. done (patch_jump F to_end (emit F OpCode.jmp start c))
    compile_statement (for_statement initializer condition postfix body) c = unless_error F c λ c.
        compile_optional initializer c >>= λ c.
        for_loop condition postfix (λ c. compile_branch body c) c
    compile_statement (block_statement b) c = unless_error F c λ c. compile_block b c
    compile_statement (expression_statement e) c = unless_error F c (compile_expression_statement e)
    compile_statement other_statement c = unless_error F c λ c. done (fail F c)

    pub compile_branch : Branch → Compiler F → Attempt (Compiler F)
    compile_branch no_branch c = done c
    compile_branch (branch b) c = compile_block b c

    pub compile_block : Block → Compiler F → Attempt (Compiler F)
    compile_block end c = done c
    compile_block (statement s rest) c =
        compile_statement s c >>= λ c. unless_error F c λ c. compile_block rest c
