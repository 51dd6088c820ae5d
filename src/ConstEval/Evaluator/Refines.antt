-- ===== src/ConstEval/Evaluator/Refines.antt =====
-- evaluator/ConstEvaluator.cpp, `ConstEvaluator::evaluate`: what it returns is what the expression means.
use djinn_lang_v.Base.{
  ℕ, suc, ◌-◌, ◌^◌, ◌<◌, ◌≤◌, true, false, not, [], if◌then◌else◌, get_elem?, ◌≡◌, refl, sym, ap,
  ◌∙◌, arith,
}
use djinn_lang_v.Ast.Expression.{Expression}
use djinn_lang_v.ConstEval.Value.{Doubles, error_value}
use djinn_lang_v.ConstEval.Code.{ConstEvalConfig, OpCode, Program}
use djinn_lang_v.ConstEval.Vm.{Value, Vm, Exec}
use djinn_lang_v.ConstEval.Vm.Dispatch.{step}
use djinn_lang_v.ConstEval.Vm.Execute.{Outcome, round, loop, initial, execute}
use djinn_lang_v.ConstEval.Compiler.{done, ◌>>=◌, Numerals, Compiler, new_compiler, emit}
use djinn_lang_v.ConstEval.Compiler.Functions.{compile, compile_functions, compile_all_functions}
use djinn_lang_v.ConstEval.Compiler.Expressions.{compile_expression}
use djinn_lang_v.ConstEval.Compiler.Grows.{Extends-refl, get_elem?-last, emit-Grows}
use djinn_lang_v.ConstEval.Compiler.Means.{Means, count, depth}
use djinn_lang_v.ConstEval.Compiler.Runs.{
  Holds, Holds-earlier, Computes, loop-step, pushed, round-cong,
}
use djinn_lang_v.ConstEval.Compiler.Correct.{compile_expression-Compiles}
use djinn_lang_v.ConstEval.Evaluator.{
  ConstEvaluator, sync_to_compiler, program_of, run_compiled, evaluate,
}
use djinn_lang_v.ConstEval.Evaluator.Tables.{
  Distinct, sync_to_compiler-constants, sync_to_compiler-pending_functions,
}

module _ (F : Doubles) (N : Numerals F) where
  -- The state in which `compile` starts on the expression.
  abbrev pub cleared : Compiler F → Compiler F
  cleared c = record c {
    instructions = [];
    int_pool = [];
    int128_pool = [];
    float_pool = [];
    string_pool = [];
    local_slots = [];
    next_local_slot = 0;
    had_error = false;
  }

  pub compile_lem :
      (e : Expression) (c c' : Compiler F)
      → compile_expression F N e (cleared c) ≡ done c'
      → c'.had_error ≡ false
      → compile F N e c ≡ done (true, emit F OpCode.halt 0 c')
  unfolding compile
  compile_lem e c c' f fine =
      ap (λ a. a >>= λ c. done (not c.had_error, if c.had_error then c else emit F OpCode.halt 0 c))
        f
      ∙ ap (λ t. done (not t, if t then c' else emit F OpCode.halt 0 c')) fine

  pub run_compiled_lem :
      (cfg : ConstEvalConfig) (c : Compiler F)
      → c.pending_functions ≡ []
      → run_compiled F N cfg c ≡ done (execute F cfg (program_of F c))
  unfolding run_compiled compile_all_functions compile_functions
  run_compiled_lem cfg c e =
      ap
        (λ pending.
          compile_functions F N pending c >>= λ r. done (execute F cfg (program_of F r.1)))
        e

  -- Code that computes `m`, with `HALT` behind it, returns what `m` gives.
  execute_lem :
      (cfg : ConstEvalConfig) (m : Exec F (Value F)) (n h : ℕ) (c c' : Compiler F)
      → Computes F cfg m n h (cleared c) c'
      → h ≤ cfg.max_stack_size
      → n < cfg.max_iterations
      → n < 2 ^ 32
      → execute F cfg (program_of F (emit F OpCode.halt 0 c')) ≡ round F m Outcome.value
  unfolding execute initial emit step
  execute_lem cfg m n h c c' computes shallow enough small =
      ap (λ k. loop F cfg program k start) (omega arith)
      ∙ computes.runs program start (suc (cfg.max_iterations - n - 1)) holds refl (omega arith)
      ∙ round-cong F m _ _ λ v.
        loop-step F cfg program OpCode.halt 0 (cfg.max_iterations - n - 1) (pushed F n v start)
          (ap (get_elem? program.code) (sym computes.code_size) ∙ get_elem?-last c'.instructions _)
    where
      program : Program F
      program = program_of F (emit F OpCode.halt 0 c')

      start : Vm F
      start = initial F cfg

      holds : Holds F program c'
      holds =
          Holds-earlier F program c' (emit F OpCode.halt 0 c') (emit-Grows F OpCode.halt 0 c')
            (record {
              code = Extends-refl program.code;
              ints = Extends-refl program.int_pool;
              wides = Extends-refl program.int128_pool;
              floats = Extends-refl program.float_pool;
              few_ints = omega (arith, computes.adds.ints);
              few_wides = omega (arith, computes.adds.wides);
              few_floats = omega (arith, computes.adds.floats);
            })

  -- An evaluator with no functions returns for an expression of the reference semantics what the
  -- expression means: its value, or the error, exception or undefined behaviour of an operator. Such
  -- an expression has no calls; its identifiers and fields are defined constants; its float literals
  -- and float constants are neither a zero nor a NaN; and it is cast to float types, and to integer
  -- types of 8, 16, 32, 64 or 128 bits. (The limits of the configuration leave room, and no constant
  -- has two entries.)
  pub evaluate-Means :
      (e : Expression) (m : Exec F (Value F)) (evaluator : ConstEvaluator F)
      → Means F N evaluator.constants e m
      → Distinct evaluator.constants
      → evaluator.functions ≡ []
      → depth e ≤ evaluator.config.max_stack_size
      → count e < evaluator.config.max_iterations
      → count e < 2 ^ 32
      → evaluate F N e evaluator ≡ done (round F m Outcome.value)
  unfolding evaluate emit
  evaluate-Means e m evaluator means distinct none_defined shallow enough small =
      let c = sync_to_compiler F evaluator (new_compiler F) in
      let (c', compiled, h) =
        compile_expression-Compiles F N evaluator.config evaluator.constants means (cleared c)
          (record {
            no_error = refl;
            these_constants = sync_to_compiler-constants F evaluator none_defined distinct;
            no_locals = refl;
          }) in
      ap
        (λ a. a >>= λ r.
          if r.0
          then run_compiled F N evaluator.config r.1
          else done (Outcome.value (error_value F)))
        (compile_lem e c c' compiled h.no_error)
      ∙ run_compiled_lem evaluator.config (emit F OpCode.halt 0 c')
          (h.same_pending ∙ sync_to_compiler-pending_functions F evaluator none_defined)
      ∙ ap done (execute_lem evaluator.config m (count e) (depth e) c c' h shallow enough small)
