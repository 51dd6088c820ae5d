-- ===== src/ConstEval/Evaluator.antt =====
-- evaluator/ConstEvaluator.h and .cpp, `ConstEvaluator`: constants, functions, and their evaluation.
pub mod Tables
pub mod Refines
pub mod Floats
mod Tests
use djinn_lang_v.Base.{
  ℕ, Bool, true, false, not, List, [], ◌∷◌, Option, none, some, Bytes, if◌then◌else◌,
}
use djinn_lang_v.Base.Maps.{lookup, insert_or_assign, erase}
use djinn_lang_v.Ast.Expression.{Expression}
use djinn_lang_v.Ast.Statement.{Block}
use djinn_lang_v.ConstEval.Value.{Doubles, ConstValue, error_value}
use djinn_lang_v.ConstEval.Code.{ConstEvalConfig, Program}
use djinn_lang_v.ConstEval.Vm.Execute.{Outcome, execute}
use djinn_lang_v.ConstEval.Compiler.{
  Attempt, done, ◌>>=◌, Numerals, Compiler, ConstFunction, new_compiler,
}
use djinn_lang_v.ConstEval.Compiler.Functions.{
  define_constant, register_function, compile, compile_all_functions, compile_call_driver,
}

module _ (F : Doubles) where
  pub record ConstEvaluator : Type 0 where
    pub constants : List (Bytes × ConstValue F)
    pub functions : List (Bytes × ConstFunction)
    pub config : ConstEvalConfig

  abbrev pub with_constants : List (Bytes × ConstValue F) → Compiler F → Compiler F
  with_constants [] c = c
  with_constants ((name, value) ∷ rest) c = with_constants rest (define_constant F name value c)

  abbrev pub with_functions : List (Bytes × ConstFunction) → Compiler F → Compiler F
  with_functions [] c = c
  with_functions ((name, function) ∷ rest) c =
      with_functions rest (register_function F name function.param_names function.body c)

  unfoldable pub sync_to_compiler : ConstEvaluator → Compiler F → Compiler F
  unfolding define_constant register_function
  sync_to_compiler e c = with_functions e.functions (with_constants e.constants c)

  abbrev pub program_of : Compiler F → Program F
  program_of c = record {
    code = c.instructions;
    int_pool = c.int_pool;
    int128_pool = c.int128_pool;
    float_pool = c.float_pool;
    string_pool = c.string_pool;
    functions = c.function_table;
  }

  unfoldable pub define_value : Bytes → ConstValue F → ConstEvaluator → ConstEvaluator
  define_value name value e = record e { constants = insert_or_assign name value e.constants }

  unfoldable pub remove_constant : Bytes → ConstEvaluator → ConstEvaluator
  remove_constant name e = record e { constants = erase name e.constants }

  abbrev has_entry : {A : Type 0} → Option A → Bool
  has_entry none = false
  has_entry (some _) = true

  abbrev has_function : Bytes → ConstEvaluator → Bool
  has_function name e = has_entry (lookup name e.functions)

  abbrev lookup_constant : Bytes → ConstEvaluator → Option (ConstValue F)
  lookup_constant name e = lookup name e.constants

  unfoldable pub define_function : Bytes → List Bytes → Block → ConstEvaluator → ConstEvaluator
  define_function name param_names body e = record e {
    functions =
        insert_or_assign name (record { param_names = param_names; body = body }) e.functions;
  }

module _ (F : Doubles) (N : Numerals F) where
  -- What follows the driver code: the bodies of all functions, and the run.
  unfoldable pub run_compiled : ConstEvalConfig → Compiler F → Attempt (Outcome F)
  unfolding compile_all_functions execute
  run_compiled cfg c = compile_all_functions F N c >>= λ r. done (execute F cfg (program_of F r.1))

  unfoldable pub evaluate : Expression → ConstEvaluator F → Attempt (Outcome F)
  unfolding compile sync_to_compiler run_compiled
  evaluate e evaluator = compile F N e (sync_to_compiler F evaluator (new_compiler F)) >>= λ r.
      if r.0 then run_compiled evaluator.config r.1 else done (Outcome.value (error_value F))

  abbrev evaluate_known :
      Option ConstFunction → Bytes → List (ConstValue F) → ConstEvaluator F → Attempt (Outcome F)
  evaluate_known none name args evaluator = done (Outcome.value (error_value F))
  evaluate_known (some _) name args evaluator =
      let r = compile_call_driver F N name args (sync_to_compiler F evaluator (new_compiler F)) in
      if r.0 then run_compiled evaluator.config r.1 else done (Outcome.value (error_value F))

  unfoldable pub evaluate_function :
      Bytes → List (ConstValue F) → ConstEvaluator F → Attempt (Outcome F)
  unfolding compile_call_driver sync_to_compiler run_compiled
  evaluate_function name args evaluator =
      evaluate_known (lookup name evaluator.functions) name args evaluator
