-- ===== src/ConstEval/Vm/Frames.antt =====
-- evaluator/ConstEvaluator.cpp, CALL: the arguments, the frame, and the slots of the callee.
use djinn_lang_v.Base.{
  ℕ, zero, suc, ◌+◌, ◌-◌, ◌%◌, ◌^◌, ◌≤◌, ◌<◌, true, false, List, [], ◌∷◌, ◌++◌, ltb, leb, ◌==◌,
  length, length-append, length-replicate, take, replicate, ◌≡◌, ◌≢◌, refl, sym, arith, set, ap,
  ◌∙◌,
}
use djinn_lang_v.ConstEval.Value.{Doubles}
use djinn_lang_v.ConstEval.Code.{ConstEvalConfig, CompiledFunction, invalid_code_start}
use djinn_lang_v.ConstEval.Vm.{Value, Vm, Exec, next, ◌>>=◌, pop, resize, int_zero}
use djinn_lang_v.ConstEval.Vm.Calls.{pop_args, call_function}

module _ {ℓ} {A : Type ℓ} where
  -- The values of `xs`, the last one first, and then `ys`.
  abbrev pub reverse_onto : List A → List A → List A
  reverse_onto [] ys = ys
  reverse_onto (x ∷ xs) ys = reverse_onto xs (x ∷ ys)

  set-append :
      (xs : List A) (y v : A) (ys : List A) → set (xs ++ y ∷ ys) (length xs) v ≡ xs ++ v ∷ ys
  set-append [] y v ys = refl
  set-append (x ∷ xs) y v ys = ap (◌∷◌ x) (set-append xs y v ys)

  replicate-suc :
      (n : ℕ) (z : A) (ys : List A) → z ∷ (replicate n z ++ ys) ≡ replicate n z ++ z ∷ ys
  replicate-suc zero z ys = refl
  replicate-suc (suc n) z ys = ap (◌∷◌ z) (replicate-suc n z ys)

  replicate-plus : (n m k : ℕ) (z : A) → k ≡ n + m → replicate k z ≡ replicate n z ++ replicate m z
  replicate-plus zero m k z e = ap (λ i. replicate i z) (omega arith)
  replicate-plus (suc n) m zero z e = absurd (omega arith)
  replicate-plus (suc n) m (suc k) z e = ap (◌∷◌ z) (replicate-plus n m k z (omega arith))

  take-all : (n : ℕ) (xs : List A) → length xs ≤ n → take n xs ≡ xs
  take-all zero [] h = refl
  take-all zero (x ∷ xs) h = absurd (omega arith)
  take-all (suc n) [] h = refl
  take-all (suc n) (x ∷ xs) h = ap (◌∷◌ x) (take-all n xs (omega arith))

  -- The last of some slots behind `xs` and in front of `ys`.
  set-slot :
      (n i : ℕ) (xs ys : List A) (z v : A)
      → i ≡ length xs + n
      → set (xs ++ (replicate (suc n) z ++ ys)) i v ≡ xs ++ (replicate n z ++ v ∷ ys)
  set-slot n i [] ys z v e =
      ap (λ l. set l i v) (replicate-suc n z ys)
      ∙ ap (λ k. set (replicate n z ++ z ∷ ys) k v) (omega (arith, length-replicate n z))
      ∙ set-append (replicate n z) z v ys
  set-slot n zero (x ∷ xs) ys z v e = absurd (omega arith)
  set-slot n (suc i) (x ∷ xs) ys z v e = ap (◌∷◌ x) (set-slot n i xs ys z v (omega arith))

module _ (F : Doubles) (cfg : ConstEvalConfig) where
  pop_args-suc :
      (i : ℕ) (vm : Vm F) (v : Value F) (s : List (Value F))
      → vm.stack ≡ v ∷ s
      → ltb (vm.locals_base + i) (length vm.locals) ≡ true
      → pop_args F cfg (suc i) vm
        ≡ pop_args F cfg i (record vm { stack = s; locals = set vm.locals (vm.locals_base + i) v })
  unfolding pop_args pop
  pop_args-suc i vm v s e inside = rw (e, inside) refl

  -- The loop over the arguments, the last of which is on the top of the stack: each goes into its
  -- slot behind `before`, and those of the slots that are no argument's stay as they are.
  pop_args_lem :
      (args s before own : List (Value F)) (z : Value F) (vm : Vm F)
      → vm.stack ≡ args ++ s
      → vm.locals ≡ before ++ (replicate (length args) z ++ own)
      → vm.locals_base ≡ length before
      → pop_args F cfg (length args) vm
        ≡ next (record vm { stack = s; locals = before ++ reverse_onto args own })
  unfolding pop_args
  pop_args_lem [] s before own z vm e f g = rw (sym e, sym f) refl
  pop_args_lem (v ∷ args) s before own z vm e f g =
      pop_args-suc (length args) vm v (args ++ s) e inside
      ∙ pop_args_lem args s before (v ∷ own) z
          (record vm { stack = args ++ s; locals = set vm.locals (vm.locals_base + length args) v })
          refl
          (ap (λ l. set l (vm.locals_base + length args) v) f
            ∙ set-slot (length args) (vm.locals_base + length args) before own z v (omega arith))
          g
    where
      inside : ltb (vm.locals_base + length args) (length vm.locals) ≡ true
      inside = ground (
        arith,
        f,
        g,
        length-append {0} before (replicate (length (v ∷ args)) z ++ own),
        length-append {0} (replicate (length (v ∷ args)) z) own,
        length-replicate {0} (length (v ∷ args)) z,
      )

  -- The state behind a call with the arguments `args`, the last one first, above `s`.
  abbrev pub called : CompiledFunction → List (Value F) → List (Value F) → Vm F → Vm F
  called func args s vm = record {
    stack = s;
    locals =
        vm.locals ++ reverse_onto args (replicate (func.num_locals - func.num_params) (int_zero F));
    call_frames =
        record {
          return_ip = (vm.ip + 1) % 2 ^ 32;
          locals_base = vm.locals_base;
          num_locals = func.num_locals;
        }
        ∷ vm.call_frames;
    locals_base = length vm.locals;
    ip = func.code_start;
  }

  resize_more :
      (n : ℕ) (z : Value F) (xs : List (Value F))
      → length xs ≤ n
      → resize F n z xs ≡ xs ++ replicate (n - length xs) z
  resize_more n z xs h = ap (λ l. l ++ replicate (n - length xs) z) (take-all n xs h)

  -- The call of a function that compiled, below the limit of depth, with as many arguments on the
  -- stack as it has parameters and a slot for each, goes on. It takes just the arguments off the
  -- stack; leaves the slots of all callers as they are, and opens behind them those of the callee,
  -- the arguments in the order of the parameters and then zeros; and pushes a frame that leads back
  -- behind the call and holds the base of the caller's locals but the number of the callee's.
  pub call_function-next :
      (func : CompiledFunction) (args s : List (Value F)) (vm : Vm F)
      → func.code_start ≢ invalid_code_start
      → length vm.call_frames < cfg.max_call_depth
      → vm.stack ≡ args ++ s
      → length args ≡ func.num_params
      → func.num_params ≤ func.num_locals
      → length vm.locals + func.num_locals < 2 ^ 32
      → call_function F cfg func vm ≡ next (called func args s vm)
  unfolding call_function
  call_function-next func args s vm valid shallow given each slots small =
      rw (compiled, room, base, sym each)
        (ap (λ (m : Exec F (Vm F)). m >>= λ vm'. next (record vm' { ip = func.code_start }))
          (pop_args_lem args s vm.locals (replicate (func.num_locals - length args) (int_zero F))
            (int_zero F) _ given opened refl))
    where
      compiled : (func.code_start == invalid_code_start) ≡ false
      compiled = ground arith

      room : leb cfg.max_call_depth (length vm.call_frames) ≡ false
      room = ground arith

      base : length vm.locals % 2 ^ 32 ≡ length vm.locals
      base = omega arith

      size : (length vm.locals + func.num_locals) % 2 ^ 32 ≡ length vm.locals + func.num_locals
      size = omega arith

      opened :
          resize F ((length vm.locals + func.num_locals) % 2 ^ 32) (int_zero F) vm.locals
          ≡ vm.locals
            ++ (replicate (length args) (int_zero F)
                ++ replicate (func.num_locals - length args) (int_zero F))
      opened =
          ap (λ n. resize F n (int_zero F) vm.locals) size
          ∙ resize_more (length vm.locals + func.num_locals) (int_zero F) vm.locals (omega arith)
          ∙ ap (λ l. vm.locals ++ l)
              (replicate-plus (length args) (func.num_locals - length args)
                (length vm.locals + func.num_locals - length vm.locals) (int_zero F) (omega arith))
