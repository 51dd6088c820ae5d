-- ===== src/ConstEval/Code.antt =====
-- evaluator/ConstEvaluator.h: the bytecode, compiled functions, and the limits of the machine.
use djinn_lang_v.Base.{ℕ, ◌-◌, ◌^◌, List, Bytes}
use djinn_lang_v.Base.Int.{ℤ}
use djinn_lang_v.ConstEval.Int128.{Int128}
use djinn_lang_v.ConstEval.Value.{Doubles}

pub data OpCode : Type 0 where
  push_int push_int128 push_float push_bool pop : OpCode
  add_int sub_int mul_int div_int mod_int neg_int : OpCode
  add_float sub_float mul_float div_float neg_float : OpCode
  cmp_eq_int cmp_ne_int cmp_lt_int cmp_le_int cmp_gt_int cmp_ge_int : OpCode
  cmp_eq_float cmp_ne_float cmp_lt_float cmp_le_float cmp_gt_float cmp_ge_float : OpCode
  shl_int shr_int and_int or_int xor_int not_int : OpCode
  logic_and logic_or logic_not : OpCode
  int_to_float float_to_int bool_to_int int_to_bool : OpCode
  cast_int cast_float : OpCode
  store_local load_local : OpCode
  jmp jmp_if_false jmp_if_true : OpCode
  call ret throw halt : OpCode

pub record Instruction : Type 0 where
  pub op : OpCode
  pub operand : ℕ

pub record CompiledFunction : Type 0 where
  pub name : Bytes
  pub num_params : ℕ
  pub num_locals : ℕ
  pub code_start : ℕ

abbrev pub invalid_code_start : ℕ
invalid_code_start = 2 ^ 32 - 1

pub record ConstEvalConfig : Type 0 where
  pub max_stack_size : ℕ
  pub max_locals : ℕ
  pub max_call_depth : ℕ
  pub max_iterations : ℕ
  pub max_heap_size : ℕ
  pub initial_heap_size : ℕ

-- The initialisers of the fields.
abbrev pub default_config : ConstEvalConfig
default_config = record {
  max_stack_size = 1024;
  max_locals = 4096;
  max_call_depth = 512;
  max_iterations = 1000000;
  max_heap_size = 65536;
  initial_heap_size = 256;
}

pub record CallFrame : Type 0 where
  pub return_ip : ℕ
  pub locals_base : ℕ
  pub num_locals : ℕ

-- The arguments of `ConstVM::execute`.
pub record Program (F : Doubles) : Type 0 where
  pub code : List Instruction
  pub int_pool : List ℤ
  pub int128_pool : List Int128
  pub float_pool : List F.Double
  pub string_pool : List Bytes
  pub functions : List CompiledFunction
