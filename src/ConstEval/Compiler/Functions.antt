-- ===== src/ConstEval/Compiler/Functions.antt =====
-- evaluator/ConstEvaluator.cpp: `BytecodeCompiler` on whole expressions and functions.
use djinn_lang_v.Base.{
  ℕ, ◌%◌, ◌^◌, Bool, true, false, ◌&&◌, not, List, [], ◌∷◌, ◌++◌, Option, none, some, Bytes, length,
  get_elem?, set, if◌then◌else◌,
}
use djinn_lang_v.Base.Int.{pos}
use djinn_lang_v.Base.Maps.{lookup, insert_or_assign}
use djinn_lang_v.Ast.Expression.{Expression}
use djinn_lang_v.Ast.Statement.{Block}
use djinn_lang_v.ConstEval.Value.{Doubles, ConstValue}
use djinn_lang_v.ConstEval.Code.{OpCode, CompiledFunction, invalid_code_start}
use djinn_lang_v.ConstEval.Compiler.{
  Attempt, done, ◌>>=◌, Numerals, Compiler, ConstFunction, fail, emit, push_int, push_constant,
  get_or_create_local, here,
}
use djinn_lang_v.ConstEval.Compiler.Expressions.{compile_expression}
use djinn_lang_v.ConstEval.Compiler.Statements.{compile_block}

module _ (F : Doubles) where
  unfoldable pub define_constant : Bytes → ConstValue F → Compiler F → Compiler F
  define_constant name value c = record c { constants = insert_or_assign name value c.constants }

  -- `registerFunction` of a function with a body, where the name is not yet known.
  abbrev pub register_new : Option ℕ → Bytes → List Bytes → Block → Compiler F → Compiler F
  register_new (some i) name param_names body c = c
  register_new none name param_names body c = record c {
    function_index = insert_or_assign name (length c.function_table % 2 ^ 32) c.function_index;
    function_table =
        c.function_table
        ++ record {
          name = name;
          num_params = length param_names % 2 ^ 32;
          num_locals = 0;
          code_start = 0;
        }
          ∷ [];
    pending_functions =
        insert_or_assign name (record { param_names = param_names; body = body })
          c.pending_functions;
  }

  unfoldable pub register_function : Bytes → List Bytes → Block → Compiler F → Compiler F
  register_function name param_names body c =
      register_new (lookup name c.function_index) name param_names body c

  -- `registerFunction` of a declaration with no body.
  abbrev declare_new : Option ℕ → Bytes → ℕ → Compiler F → Compiler F
  declare_new (some i) name num_params c = c
  declare_new none name num_params c = record c {
    function_index = insert_or_assign name (length c.function_table % 2 ^ 32) c.function_index;
    function_table =
        c.function_table
        ++ record {
          name = name;
          num_params = num_params;
          num_locals = 0;
          code_start = invalid_code_start;
        }
          ∷ [];
  }

  unfoldable pub register_declaration : Bytes → List Bytes → Compiler F → Compiler F
  register_declaration name param_names c =
      declare_new (lookup name c.function_index) name (length param_names % 2 ^ 32) c

  abbrev pub add_locals : List Bytes → Compiler F → Compiler F
  add_locals [] c = c
  add_locals (name ∷ names) c = add_locals names (get_or_create_local F name c).1

  -- A change of the entry at an index, if there is one.
  abbrev pub at_entry :
      ℕ → (CompiledFunction → CompiledFunction) → List CompiledFunction → List CompiledFunction
  at_entry i f table = changed (get_elem? table i)
    where
      changed : Option CompiledFunction → List CompiledFunction
      changed none = table
      changed (some entry) = set table i (f entry)

  abbrev pub starts_at : ℕ → CompiledFunction → CompiledFunction
  starts_at n entry = record entry { code_start = n }

  abbrev has_locals : ℕ → CompiledFunction → CompiledFunction
  has_locals n entry = record entry { num_locals = n }

  -- The state in which the body is compiled, and what follows it.
  abbrev pub enter_function : ℕ → List Bytes → Compiler F → Compiler F
  enter_function i param_names c = add_locals param_names (record c {
    had_error = false;
    local_slots = [];
    next_local_slot = 0;
    function_table = at_entry i (starts_at (here F c)) c.function_table;
  })

  abbrev invalidated : Bool → ℕ → List CompiledFunction → List CompiledFunction
  invalidated had_error i table =
      if had_error then at_entry i (starts_at invalid_code_start) table else table

  abbrev pub leave_function : ℕ → Compiler F → Compiler F → Compiler F
  leave_function i before c =
      let c = emit F OpCode.ret 0 (push_int F (pos 0) c) in
      record c {
        local_slots = before.local_slots;
        next_local_slot = before.next_local_slot;
        function_table =
            invalidated c.had_error i (at_entry i (has_locals c.next_local_slot) c.function_table);
      }

module _ (F : Doubles) (N : Numerals F) where
  abbrev pub compile_pending : ℕ → Option ConstFunction → Compiler F → Attempt (Bool × Compiler F)
  compile_pending i none c = done (
    false,
    fail F (record c {
      function_table = at_entry F i (starts_at F invalid_code_start) c.function_table;
    }),
  )
  compile_pending i (some function) c =
      compile_block F N function.body (enter_function F i function.param_names c) >>= λ c'.
      done (not c'.had_error, leave_function F i c c')

  abbrev pub compile_indexed : Option ℕ → Bytes → Compiler F → Attempt (Bool × Compiler F)
  compile_indexed none name c = done (false, fail F c)
  compile_indexed (some i) name c = compile_pending i (lookup name c.pending_functions) c

  unfoldable pub compile_function : Bytes → Compiler F → Attempt (Bool × Compiler F)
  unfolding compile_block
  compile_function name c = compile_indexed (lookup name c.function_index) name c

  -- `compileAllFunctions`, in some order of the map.
  unfoldable pub compile_functions :
      List (Bytes × ConstFunction) → Compiler F → Attempt (Bool × Compiler F)
  unfolding compile_function
  compile_functions [] c = done (true, c)
  compile_functions ((name, _) ∷ rest) c =
      compile_function name c >>= λ r. compile_functions rest r.1 >>= λ q. done (r.0 && q.0, q.1)

  unfoldable pub compile_all_functions : Compiler F → Attempt (Bool × Compiler F)
  unfolding compile_functions
  compile_all_functions c = compile_functions c.pending_functions c

  -- `compile(expr)`
  unfoldable pub compile : Expression → Compiler F → Attempt (Bool × Compiler F)
  unfolding compile_expression emit
  compile e c =
      compile_expression F N e (record c {
        instructions = [];
        int_pool = [];
        int128_pool = [];
        float_pool = [];
        string_pool = [];
        local_slots = [];
        next_local_slot = 0;
        had_error = false;
      })
      >>= λ c. done (not c.had_error, if c.had_error then c else emit F OpCode.halt 0 c)

  abbrev go_on :
      Option (Compiler F) → (Compiler F → Bool × Compiler F) → Compiler F → Bool × Compiler F
  go_on none f c = (false, c)
  go_on (some c') f c = f c'

  -- Arguments of the kinds that have an instruction; any other ends the loop.
  unfoldable pub push_arguments : List (ConstValue F) → Compiler F → Bool × Compiler F
  unfolding push_constant
  push_arguments [] c = (true, c)
  push_arguments (v ∷ args) c = go_on (push_constant F v c) (λ c. push_arguments args c) c

  abbrev call_driver : Option ℕ → List (ConstValue F) → Compiler F → Bool × Compiler F
  call_driver none args c = (false, c)
  call_driver (some i) args c =
      let (pushed, c') = push_arguments args c in
      if pushed then (true, emit F OpCode.halt 0 (emit F OpCode.call i c')) else (false, c')

  unfoldable pub compile_call_driver : Bytes → List (ConstValue F) → Compiler F → Bool × Compiler F
  unfolding push_arguments emit
  compile_call_driver name args c = call_driver (lookup name c.function_index) args c
