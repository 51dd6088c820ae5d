-- ===== src/ConstEval/Vm/Bounds.antt =====
-- evaluator/ConstEvaluator.cpp: the limits of `ConstVM` in the operations on its state.
use djinn_lang_v.Base.{
  ℕ, zero, suc, ◌+◌, ◌%◌, ◌^◌, ◌≤◌, List, [], ◌∷◌, ltb, leb, ◌==◌, if_cases, Option, none, some,
  length, ◌≡◌, refl, arith, get_elem?, set, ap, Bool-cases, inl, inr,
}
use djinn_lang_v.ConstEval.Value.{Doubles}
use djinn_lang_v.ConstEval.Code.{ConstEvalConfig, CompiledFunction, CallFrame, invalid_code_start}
use djinn_lang_v.ConstEval.Vm.{Value, Vm, Exec, push, pop, pop_of}
use djinn_lang_v.ConstEval.Vm.Calls.{
  abs_slot, push_local, return_to, store_local, load_local, pop_args, call_function, return_value,
}
use djinn_lang_v.ConstEval.Vm.Post.{Post, Post-bind}

module _ (F : Doubles) (cfg : ConstEvalConfig) where
  pub record Bounded (vm : Vm F) : Type 0 where
    pub stack_fits : length vm.stack ≤ cfg.max_stack_size
    pub frames_fit : length vm.call_frames ≤ cfg.max_call_depth

  abbrev Keeps : Exec F (Vm F) → Type 0
  Keeps = Post Bounded

  pub push-Bounded : (v : Value F) (vm : Vm F) → Bounded vm → Keeps (push F cfg v vm)
  unfolding push
  push-Bounded v vm h =
      if_cases Keeps (leb cfg.max_stack_size (length vm.stack)) (λ _. tt)
        (λ room. record { stack_fits = ground arith; frames_fit = h.frames_fit })

  pub pop-Bounded : (vm : Vm F) → Bounded vm → Post (λ (p : Value F × Vm F). Bounded p.1) (pop F vm)
  unfolding pop
  pop-Bounded vm h = go vm.stack h.stack_fits
    where
      go :
          (s : List (Value F))
          → length s ≤ cfg.max_stack_size
          → Post (λ (p : Value F × Vm F). Bounded p.1) (pop_of F s vm)
      go [] f = tt
      go (v ∷ s) f = record { stack_fits = omega arith; frames_fit = h.frames_fit }

  pub store_local-Bounded : (n : ℕ) (vm : Vm F) → Bounded vm → Keeps (store_local F cfg n vm)
  unfolding store_local
  store_local-Bounded n vm h = Post-bind _ Bounded (pop F vm) _ (pop-Bounded vm h) λ p b.
      elim (Bool-cases (leb cfg.max_locals (abs_slot F cfg p.1 n))) [
        | inl over ↦ rw over tt
        | inr fits ↦ rw fits (record { stack_fits = b.stack_fits; frames_fit = b.frames_fit })
      ]

  pub load_local-Bounded : (n : ℕ) (vm : Vm F) → Bounded vm → Keeps (load_local F cfg n vm)
  unfolding load_local
  load_local-Bounded n vm h = go (get_elem? vm.locals ((vm.locals_base + n) % 2 ^ 32))
    where
      go : (o : Option (Value F)) → Keeps (push_local F cfg o vm)
      go none = tt
      go (some v) = push-Bounded v vm h

  pub pop_args-Bounded : (n : ℕ) (vm : Vm F) → Bounded vm → Keeps (pop_args F cfg n vm)
  unfolding pop_args
  pop_args-Bounded zero vm h = h
  pop_args-Bounded (suc i) vm h = Post-bind _ Bounded (pop F vm) _ (pop-Bounded vm h) λ p b.
      elim (Bool-cases (ltb (p.1.locals_base + i) (length p.1.locals))) [
        | inl fits ↦ rw fits (
            pop_args-Bounded i (record (p.1) { locals = set p.1.locals (p.1.locals_base + i) p.0 })
              (record { stack_fits = b.stack_fits; frames_fit = b.frames_fit }))
        | inr over ↦ rw over tt
      ]

  pub call_function-Bounded :
      (func : CompiledFunction) (vm : Vm F) → Bounded vm → Keeps (call_function F cfg func vm)
  unfolding call_function
  call_function-Bounded func vm h = elim (Bool-cases (func.code_start == invalid_code_start)) [
    | inl bad ↦ rw bad tt
    | inr good ↦ elim (Bool-cases (leb cfg.max_call_depth (length vm.call_frames))) [
      | inl full ↦ rw (good, full) tt
      | inr room ↦
          rw (good, room)
            (Post-bind Bounded Bounded _ _
              (pop_args-Bounded func.num_params _
                (record { stack_fits = h.stack_fits; frames_fit = ground arith }))
              (λ vm' b. record { stack_fits = b.stack_fits; frames_fit = b.frames_fit }))
    ]
  ]

  pub return_to-Bounded :
      (frames : List CallFrame) (v : Value F) (vm : Vm F)
      → frames ≡ vm.call_frames
      → Bounded vm
      → Keeps (return_to F cfg frames v vm)
  return_to-Bounded [] v vm e h = tt
  return_to-Bounded (frame ∷ frames) v vm e h =
      Post-bind Bounded Bounded (push F cfg v _) _
        (push-Bounded v _ (record {
          stack_fits = h.stack_fits;
          frames_fit = omega (arith, ap length e, h.frames_fit);
        }))
        (λ vm' b. record { stack_fits = b.stack_fits; frames_fit = b.frames_fit })

  pub return_value-Bounded : (vm : Vm F) → Bounded vm → Keeps (return_value F cfg vm)
  unfolding return_value
  return_value-Bounded vm h =
      Post-bind _ Bounded (pop F vm) _ (pop-Bounded vm h)
        λ p b. return_to-Bounded p.1.call_frames p.0 p.1 refl b
