-- ===== src/ConstEval/Vm/Calls.antt =====
-- evaluator/ConstEvaluator.cpp: the cases of `execute` for locals, calls and returns.
use djinn_lang_v.Base.{
  ℕ, zero, suc, ◌+◌, ◌%◌, ◌^◌, List, [], ◌∷◌, ltb, leb, ◌==◌, if◌then◌else◌, Option, none, some,
  length, get_elem?, set,
}
use djinn_lang_v.ConstEval.Value.{Doubles, error_value}
use djinn_lang_v.ConstEval.Code.{
  Program, ConstEvalConfig, CompiledFunction, CallFrame, invalid_code_start,
}
use djinn_lang_v.ConstEval.Vm.{
  Value, Vm, Exec, next, finished, undefined, ◌>>=◌, push, pop, resize, int_zero,
}

module _ (F : Doubles) (cfg : ConstEvalConfig) where
  -- `uint32_t absSlot = _currentLocalsBase + instr.operand`
  abbrev pub abs_slot : Vm F → ℕ → ℕ
  abs_slot vm operand = (vm.locals_base + operand) % 2 ^ 32

  unfoldable pub store_local : ℕ → Vm F → Exec F (Vm F)
  unfolding pop
  store_local operand vm = pop F vm >>= λ p.
      let vm' = p.1 in
      let slot = abs_slot vm' operand in
      let locals =
        if leb (length vm'.locals) slot
        then resize F (slot + 64) (int_zero F) vm'.locals
        else vm'.locals in
      if leb cfg.max_locals slot
      then finished (error_value F)
      else next (record vm' { locals = set locals slot p.0 })

  abbrev pub push_local : Option (Value F) → Vm F → Exec F (Vm F)
  push_local none vm = finished (error_value F)
  push_local (some v) vm = push F cfg v vm

  unfoldable pub load_local : ℕ → Vm F → Exec F (Vm F)
  unfolding push
  load_local operand vm = push_local (get_elem? vm.locals (abs_slot vm operand)) vm

  -- The loop of `CALL`: the last of the `n` arguments is on the top of the stack.
  unfoldable pub pop_args : ℕ → Vm F → Exec F (Vm F)
  unfolding pop
  pop_args zero vm = next vm
  pop_args (suc i) vm = pop F vm >>= λ p.
      if ltb (p.1.locals_base + i) (length p.1.locals)
      then pop_args i (record (p.1) { locals = set p.1.locals (p.1.locals_base + i) p.0 })
      else undefined

  unfoldable pub call_function : CompiledFunction → Vm F → Exec F (Vm F)
  unfolding pop_args
  call_function func vm =
      if func.code_start == invalid_code_start
      then finished (error_value F)
      else if leb cfg.max_call_depth (length vm.call_frames)
      then finished (error_value F)
      else let frame : CallFrame = record {
        return_ip = (vm.ip + 1) % 2 ^ 32;
        locals_base = vm.locals_base;
        num_locals = func.num_locals;
      } in
        let base = length vm.locals % 2 ^ 32 in
        pop_args func.num_params (record vm {
          call_frames = frame ∷ vm.call_frames;
          locals_base = base;
          locals = resize F ((base + func.num_locals) % 2 ^ 32) (int_zero F) vm.locals;
        })
        >>= λ vm'. next (record vm' { ip = func.code_start })

  abbrev pub call_of : Option CompiledFunction → Vm F → Exec F (Vm F)
  call_of none vm = finished (error_value F)
  call_of (some func) vm = call_function func vm

  unfoldable pub call : Program F → ℕ → Vm F → Exec F (Vm F)
  unfolding call_function
  call program operand vm = call_of (get_elem? program.functions operand) vm

  abbrev pub return_to : List CallFrame → Value F → Vm F → Exec F (Vm F)
  return_to [] v vm = finished v
  return_to (frame ∷ frames) v vm =
      push F cfg v (record vm {
        call_frames = frames;
        locals =
            resize F ((frame.locals_base + frame.num_locals) % 2 ^ 32) (error_value F) vm.locals;
        locals_base = frame.locals_base;
      })
      >>= λ vm'. next (record vm' { ip = frame.return_ip })

  unfoldable pub return_value : Vm F → Exec F (Vm F)
  unfolding pop push
  return_value vm = pop F vm >>= λ p. return_to p.1.call_frames p.0 p.1
