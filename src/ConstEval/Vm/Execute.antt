-- ===== src/ConstEval/Vm/Execute.antt =====
-- evaluator/ConstEvaluator.cpp: the loop of `ConstVM::execute`.
use Prim.Native.Nat.{min}
use djinn_lang_v.Base.{ℕ, zero, suc, List, [], ◌∷◌, Option, none, some, get_elem?, replicate}
use djinn_lang_v.ConstEval.Value.{Doubles, error_value}
use djinn_lang_v.ConstEval.Code.{Instruction, Program, ConstEvalConfig}
use djinn_lang_v.ConstEval.Vm.{
  Value, Vm, Exec, VmError, next, finished, raised, undefined, int_zero,
}
use djinn_lang_v.ConstEval.Vm.Dispatch.{step, push_next, unary, binary, jump_if}

module _ (F : Doubles) where
  -- What a call of `execute` ends with.
  pub data Outcome : Type 0 where
    value : Value F → Outcome
    thrown_error : VmError → Outcome
    undefined_behaviour : Outcome

  abbrev last_value : List (Value F) → Value F
  last_value [] = error_value F
  last_value (v ∷ _) = v

  -- The end of a round, where the loop goes on with `more`.
  abbrev pub round : {A : Type 0} → Exec F A → (A → Outcome) → Outcome
  round (next a) more = more a
  round (finished v) more = Outcome.value v
  round (raised e) more = Outcome.thrown_error e
  round undefined more = Outcome.undefined_behaviour

  -- The state before the loop.
  unfoldable pub initial : ConstEvalConfig → Vm F
  initial cfg = record {
    stack = [];
    locals = replicate (min cfg.initial_heap_size cfg.max_locals) (int_zero F);
    call_frames = [];
    locals_base = 0;
    ip = 0;
  }

module _ (F : Doubles) (cfg : ConstEvalConfig) (program : Program F) where
  -- What a round does with the instruction at `ip`, if there is one, and the rounds behind it; they
  -- are none when `iterations` would pass `maxIterations`.
  abbrev round_at : Option Instruction → Option (Vm F → Outcome F) → Vm F → Outcome F
  round_at none more vm = Outcome.value (last_value F vm.stack)
  round_at (some i) none vm = Outcome.value (error_value F)
  round_at (some i) (some more) vm = round F (step F cfg program i.op i.operand vm) more

  -- The loop, with the rounds that `maxIterations` leaves.
  unfoldable pub loop : ℕ → Vm F → Outcome F
  unfolding step push_next unary binary jump_if
  loop zero vm = round_at (get_elem? program.code vm.ip) none vm
  loop (suc left) vm = round_at (get_elem? program.code vm.ip) (some (λ vm'. loop left vm')) vm

  unfoldable pub execute : Outcome F
  unfolding loop initial
  execute = loop cfg.max_iterations (initial F cfg)
