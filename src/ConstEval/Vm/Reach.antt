-- ===== src/ConstEval/Vm/Reach.antt =====
-- evaluator/ConstEvaluator.cpp: the limits of `ConstVM` in every instruction and every run.
use djinn_lang_v.Base.{
  ℕ, Bool, List, [], ◌∷◌, if◌then◌else◌, Option, none, some, ◌≡◌, arith, get_elem?, subst, not,
  Bool-cases, inl, inr,
}
use djinn_lang_v.ConstEval.Value.{Doubles, to_bool}
use djinn_lang_v.ConstEval.Code.{OpCode, Instruction, Program, ConstEvalConfig, CompiledFunction}
use djinn_lang_v.ConstEval.Vm.{Value, Vm, Exec, next, ◌>>=◌, push, pop, pop2, index_or_undefined}
use djinn_lang_v.ConstEval.Vm.Calls.{call_of, call}
use djinn_lang_v.ConstEval.Vm.Dispatch.{
  step, then_next, push_next, unary, binary, jump_if, halt_with,
}
use djinn_lang_v.ConstEval.Vm.Execute.{initial}
use djinn_lang_v.ConstEval.Vm.Post.{Post, Post-bind, Post-any}
use djinn_lang_v.ConstEval.Vm.Bounds.{
  Bounded, push-Bounded, pop-Bounded, store_local-Bounded, load_local-Bounded,
  call_function-Bounded, return_value-Bounded,
}

module _ (F : Doubles) (cfg : ConstEvalConfig) (program : Program F) where
  abbrev Kept : Exec F (Vm F) → Type 0
  Kept = Post (Bounded F cfg)

  then_next-Bounded : (m : Exec F (Vm F)) → Kept m → Kept (then_next F cfg program m)
  then_next-Bounded m h =
      Post-bind (Bounded F cfg) (Bounded F cfg) m _ h
        λ vm b. record { stack_fits = b.stack_fits; frames_fit = b.frames_fit }

  push_next-Bounded :
      (v : Value F) (vm : Vm F) → Bounded F cfg vm → Kept (push_next F cfg program v vm)
  unfolding push_next
  push_next-Bounded v vm h = then_next-Bounded (push F cfg v vm) (push-Bounded F cfg v vm h)

  unary-Bounded :
      (op : Value F → Exec F (Value F)) (vm : Vm F)
      → Bounded F cfg vm
      → Kept (unary F cfg program op vm)
  unfolding unary
  unary-Bounded op vm h = Post-bind _ (Bounded F cfg) (pop F vm) _ (pop-Bounded F cfg vm h) λ p b.
      Post-bind _ (Bounded F cfg) (op p.0) _ (Post-any (op p.0)) λ v _. push_next-Bounded v p.1 b

  pop2-Bounded :
      (vm : Vm F)
      → Bounded F cfg vm
      → Post (λ (p : Value F × Value F × Vm F). Bounded F cfg p.2) (pop2 F vm)
  unfolding pop2
  pop2-Bounded vm h =
      Post-bind _ _ (pop F vm) _ (pop-Bounded F cfg vm h)
        λ a b. Post-bind _ _ (pop F a.1) _ (pop-Bounded F cfg a.1 b) λ c d. d

  binary-Bounded :
      (op : Value F → Value F → Exec F (Value F)) (vm : Vm F)
      → Bounded F cfg vm
      → Kept (binary F cfg program op vm)
  unfolding binary
  binary-Bounded op vm h = Post-bind _ (Bounded F cfg) (pop2 F vm) _ (pop2-Bounded vm h) λ p b.
      Post-bind _ (Bounded F cfg) (op p.0 p.1) _ (Post-any (op p.0 p.1))
        λ v _. push_next-Bounded v p.2 b

  jump_if-Bounded :
      (want : Bool) (n : ℕ) (vm : Vm F) → Bounded F cfg vm → Kept (jump_if F cfg program want n vm)
  unfolding jump_if
  jump_if-Bounded want n vm h =
      Post-bind _ (Bounded F cfg) (pop F vm) _ (pop-Bounded F cfg vm h) λ p b.
        elim (Bool-cases (if want then to_bool F p.0 else not (to_bool F p.0))) [
          | inl jumps ↦ rw jumps (record { stack_fits = b.stack_fits; frames_fit = b.frames_fit })
          | inr falls ↦ rw falls (record { stack_fits = b.stack_fits; frames_fit = b.frames_fit })
        ]

  index-Bounded :
      {A : Type 0} (o : Option A) (f : A → Value F) (vm : Vm F)
      → Bounded F cfg vm
      → Kept (index_or_undefined F o >>= λ a. push_next F cfg program (f a) vm)
  index-Bounded none f vm h = tt
  index-Bounded (some a) f vm h = push_next-Bounded (f a) vm h

  call-Bounded : (n : ℕ) (vm : Vm F) → Bounded F cfg vm → Kept (call F cfg program n vm)
  unfolding call
  call-Bounded n vm h = go (get_elem? program.functions n)
    where
      go : (o : Option CompiledFunction) → Kept (call_of F cfg o vm)
      go none = tt
      go (some func) = call_function-Bounded F cfg func vm h

  -- Every instruction keeps the stack and the frames within their limits.
  pub step-Bounded :
      (op : OpCode) (n : ℕ) (vm : Vm F) → Bounded F cfg vm → Kept (step F cfg program op n vm)
  unfolding step
  step-Bounded OpCode.push_int n vm h = index-Bounded _ _ vm h
  step-Bounded OpCode.push_int128 n vm h = index-Bounded _ _ vm h
  step-Bounded OpCode.push_float n vm h = index-Bounded _ _ vm h
  step-Bounded OpCode.push_bool n vm h = push_next-Bounded _ vm h
  step-Bounded OpCode.pop n vm h =
      then_next-Bounded _
        (Post-bind _ (Bounded F cfg) (pop F vm) _ (pop-Bounded F cfg vm h) λ p b. b)
  step-Bounded OpCode.add_int n vm h = binary-Bounded _ vm h
  step-Bounded OpCode.sub_int n vm h = binary-Bounded _ vm h
  step-Bounded OpCode.mul_int n vm h = binary-Bounded _ vm h
  step-Bounded OpCode.div_int n vm h = binary-Bounded _ vm h
  step-Bounded OpCode.mod_int n vm h = binary-Bounded _ vm h
  step-Bounded OpCode.neg_int n vm h = unary-Bounded _ vm h
  step-Bounded OpCode.add_float n vm h = binary-Bounded _ vm h
  step-Bounded OpCode.sub_float n vm h = binary-Bounded _ vm h
  step-Bounded OpCode.mul_float n vm h = binary-Bounded _ vm h
  step-Bounded OpCode.div_float n vm h = binary-Bounded _ vm h
  step-Bounded OpCode.neg_float n vm h = unary-Bounded _ vm h
  step-Bounded OpCode.cmp_eq_int n vm h = binary-Bounded _ vm h
  step-Bounded OpCode.cmp_ne_int n vm h = binary-Bounded _ vm h
  step-Bounded OpCode.cmp_lt_int n vm h = binary-Bounded _ vm h
  step-Bounded OpCode.cmp_le_int n vm h = binary-Bounded _ vm h
  step-Bounded OpCode.cmp_gt_int n vm h = binary-Bounded _ vm h
  step-Bounded OpCode.cmp_ge_int n vm h = binary-Bounded _ vm h
  step-Bounded OpCode.cmp_eq_float n vm h = binary-Bounded _ vm h
  step-Bounded OpCode.cmp_ne_float n vm h = binary-Bounded _ vm h
  step-Bounded OpCode.cmp_lt_float n vm h = binary-Bounded _ vm h
  step-Bounded OpCode.cmp_le_float n vm h = binary-Bounded _ vm h
  step-Bounded OpCode.cmp_gt_float n vm h = binary-Bounded _ vm h
  step-Bounded OpCode.cmp_ge_float n vm h = binary-Bounded _ vm h
  step-Bounded OpCode.shl_int n vm h = binary-Bounded _ vm h
  step-Bounded OpCode.shr_int n vm h = binary-Bounded _ vm h
  step-Bounded OpCode.and_int n vm h = binary-Bounded _ vm h
  step-Bounded OpCode.or_int n vm h = binary-Bounded _ vm h
  step-Bounded OpCode.xor_int n vm h = binary-Bounded _ vm h
  step-Bounded OpCode.not_int n vm h = unary-Bounded _ vm h
  step-Bounded OpCode.logic_and n vm h = binary-Bounded _ vm h
  step-Bounded OpCode.logic_or n vm h = binary-Bounded _ vm h
  step-Bounded OpCode.logic_not n vm h = unary-Bounded _ vm h
  step-Bounded OpCode.int_to_float n vm h = unary-Bounded _ vm h
  step-Bounded OpCode.float_to_int n vm h = unary-Bounded _ vm h
  step-Bounded OpCode.bool_to_int n vm h = unary-Bounded _ vm h
  step-Bounded OpCode.int_to_bool n vm h = unary-Bounded _ vm h
  step-Bounded OpCode.cast_int n vm h = unary-Bounded _ vm h
  step-Bounded OpCode.cast_float n vm h = unary-Bounded _ vm h
  step-Bounded OpCode.store_local n vm h = then_next-Bounded _ (store_local-Bounded F cfg n vm h)
  step-Bounded OpCode.load_local n vm h = then_next-Bounded _ (load_local-Bounded F cfg n vm h)
  step-Bounded OpCode.jmp n vm h = record { stack_fits = h.stack_fits; frames_fit = h.frames_fit }
  step-Bounded OpCode.jmp_if_false n vm h = jump_if-Bounded _ n vm h
  step-Bounded OpCode.jmp_if_true n vm h = jump_if-Bounded _ n vm h
  step-Bounded OpCode.call n vm h = call-Bounded n vm h
  step-Bounded OpCode.ret n vm h = return_value-Bounded F cfg vm h
  step-Bounded OpCode.halt n vm h = halted vm.stack
    where
      halted : (s : List (Value F)) → Kept (halt_with F cfg program s)
      halted [] = tt
      halted (v ∷ s) = tt
  step-Bounded OpCode.throw n vm h = tt

-- The states that a run of the program goes through.
pub data Reach (F : Doubles) (cfg : ConstEvalConfig) (program : Program F) : Vm F → Type 0 where
  start : Reach F cfg program (initial F cfg)
  round :
      {vm vm' : Vm F} (i : Instruction)
      → Reach F cfg program vm
      → get_elem? program.code vm.ip ≡ some i
      → step F cfg program i.op i.operand vm ≡ next vm'
      → Reach F cfg program vm'

module _ (F : Doubles) (cfg : ConstEvalConfig) (program : Program F) where
  -- No state of a run has more values on the stack, or more calls open, than the configuration
  -- allows.
  pub Reach-Bounded : {vm : Vm F} → Reach F cfg program vm → Bounded F cfg vm
  unfolding initial
  Reach-Bounded Reach.start = record { stack_fits = omega arith; frames_fit = omega arith }
  Reach-Bounded (Reach.round {vm} {vm'} i r here e) =
      subst (Post (Bounded F cfg)) e
        (step-Bounded F cfg program i.op i.operand vm (Reach-Bounded r))
