-- ===== src/ConstEval/Vm/Returns.antt =====
-- evaluator/ConstEvaluator.cpp, RET: the frame that it leaves, and the locals of the caller.
use djinn_lang_v.Base.{
  ℕ, zero, suc, ◌+◌, ◌-◌, ◌%◌, ◌^◌, ◌≤◌, ◌<◌, false, List, [], ◌∷◌, ◌++◌, leb, none, some, length,
  length-append, length-replicate, take, replicate, ◌≡◌, refl, arith, get_elem?, ap, ◌∙◌,
}
use djinn_lang_v.ConstEval.Value.{Doubles, error_value}
use djinn_lang_v.ConstEval.Code.{ConstEvalConfig, CallFrame}
use djinn_lang_v.ConstEval.Vm.{Value, Vm, next, finished, ◌>>=◌, push, pop, resize}
use djinn_lang_v.ConstEval.Vm.Calls.{push_local, load_local, return_value}

module _ {ℓ} {A : Type ℓ} where
  length-take_le : (n : ℕ) (xs : List A) → length (take n xs) + (n - length xs) ≡ n
  length-take_le zero xs = omega arith
  length-take_le (suc n) [] = omega arith
  length-take_le (suc n) (x ∷ xs) = omega (arith, length-take_le n xs)

  get_elem?_beyond : (xs : List A) (i : ℕ) → length xs ≤ i → get_elem? xs i ≡ none
  get_elem?_beyond [] i h = refl
  get_elem?_beyond (x ∷ xs) zero h = absurd (omega arith)
  get_elem?_beyond (x ∷ xs) (suc i) h = get_elem?_beyond xs i (omega arith)

  get_elem?-take :
      (n i : ℕ) (xs ys : List A) {a : A}
      → i < n
      → get_elem? xs i ≡ some a
      → get_elem? (take n xs ++ ys) i ≡ some a
  get_elem?-take zero i xs ys h e = absurd (omega arith)
  get_elem?-take (suc n) i [] ys h e = cc
  get_elem?-take (suc n) zero (x ∷ xs) ys h e = e
  get_elem?-take (suc n) (suc i) (x ∷ xs) ys h e = get_elem?-take n i xs ys (omega arith) e

module _ (F : Doubles) (cfg : ConstEvalConfig) where
  pub length-resize : (n : ℕ) (v : Value F) (xs : List (Value F)) → length (resize F n v xs) ≡ n
  length-resize n v xs = omega (
    arith,
    length-append {0} (take n xs) (replicate (n - length xs) v),
    length-replicate {0} (n - length xs) v,
    length-take_le {0} n xs,
  )

  -- The state behind a return to `frame`.
  abbrev pub returned : Vm F → Value F → List (Value F) → CallFrame → List CallFrame → Vm F
  returned vm v s frame frames = record {
    stack = v ∷ s;
    locals = resize F ((frame.locals_base + frame.num_locals) % 2 ^ 32) (error_value F) vm.locals;
    call_frames = frames;
    locals_base = frame.locals_base;
    ip = frame.return_ip;
  }

  return_value_lem :
      (vm : Vm F) (v : Value F) (s : List (Value F)) (frame : CallFrame) (frames : List CallFrame)
      → vm.stack ≡ v ∷ s
      → vm.call_frames ≡ frame ∷ frames
      → length s < cfg.max_stack_size
      → return_value F cfg vm ≡ next (returned vm v s frame frames)
  unfolding return_value pop push
  return_value_lem vm v s frame frames e f h = rw (e, f, full) refl
    where
      full : leb cfg.max_stack_size (length s) ≡ false
      full = ground arith

  module _ (vm : Vm F) (v : Value F) (s : List (Value F)) (frame : CallFrame)
      (frames : List CallFrame) (stack_is : vm.stack ≡ v ∷ s)
      (frames_are : vm.call_frames ≡ frame ∷ frames)
      (fits : frame.locals_base + frame.num_locals < 2 ^ 32) where
    -- A return with a value and an open frame cuts the locals of the caller to as many as the frame
    -- says, which is what the callee had: each further slot of the caller is gone, and reading it
    -- ends the evaluation with an error. (The stack has room, and slots are below 2 ^ 32.)
    pub load_local-return_value :
        (k : ℕ)
        → length s < cfg.max_stack_size
        → frame.num_locals ≤ k
        → frame.locals_base + k < 2 ^ 32
        → (return_value F cfg vm >>= load_local F cfg k) ≡ finished (error_value F)
    unfolding load_local
    load_local-return_value k room beyond small =
        rw (return_value_lem vm v s frame frames stack_is frames_are room) (
          ap (λ o. push_local F cfg o (returned vm v s frame frames))
            (get_elem?_beyond (returned vm v s frame frames).locals
              ((frame.locals_base + k) % 2 ^ 32) gone))
      where
        gone : length (returned vm v s frame frames).locals ≤ (frame.locals_base + k) % 2 ^ 32
        gone = omega (
          arith,
          length-resize ((frame.locals_base + frame.num_locals) % 2 ^ 32) (error_value F) vm.locals,
        )

    -- A slot of the caller below that number keeps its value over the return, which leaves the
    -- returned value on the stack; reading the slot pushes it. (The stack has room for both.)
    pub load_local-return_value_kept :
        (k : ℕ) (w : Value F)
        → suc (length s) < cfg.max_stack_size
        → k < frame.num_locals
        → get_elem? vm.locals (frame.locals_base + k) ≡ some w
        → (return_value F cfg vm >>= load_local F cfg k)
          ≡ next (record (returned vm v s frame frames) { stack = w ∷ v ∷ s })
    unfolding load_local push
    load_local-return_value_kept k w room below holds =
        rw (return_value_lem vm v s frame frames stack_is frames_are (omega arith))
          (ap (λ o. push_local F cfg o (returned vm v s frame frames)) kept ∙ rw not_full)
      where
        not_full : leb cfg.max_stack_size (suc (length s)) ≡ false
        not_full = ground arith

        slot : (frame.locals_base + k) % 2 ^ 32 ≡ frame.locals_base + k
        slot = omega arith

        size :
            (frame.locals_base + frame.num_locals) % 2 ^ 32 ≡ frame.locals_base + frame.num_locals
        size = omega arith

        kept :
            get_elem? (returned vm v s frame frames).locals ((frame.locals_base + k) % 2 ^ 32)
            ≡ some w
        kept =
            rw (slot, size)
              (get_elem?-take (frame.locals_base + frame.num_locals) (frame.locals_base + k)
                vm.locals
                (replicate (frame.locals_base + frame.num_locals - length vm.locals)
                  (error_value F))
                (omega arith) holds)
