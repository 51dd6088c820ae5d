-- ===== src/ConstEval/Compiler/Runs/Pieces.antt =====
-- evaluator/ConstEvaluator.cpp: code that computes a value, put together from that of its parts.
use Prim.Native.Nat.{max}
use djinn_lang_v.Base.{
  ℕ, suc, ◌+◌, ◌<◌, false, [], ◌∷◌, ◌++◌, length, length-append, ◌≡◌, refl, sym, ap, ◌∙◌, arith,
}
use djinn_lang_v.ConstEval.Value.{Doubles}
use djinn_lang_v.ConstEval.Code.{OpCode, Program, ConstEvalConfig}
use djinn_lang_v.ConstEval.Vm.{Value, Vm, Exec, next, ◌>>=◌, pop, pop2}
use djinn_lang_v.ConstEval.Vm.Dispatch.{step, push_next, unary, binary}
use djinn_lang_v.ConstEval.Vm.Execute.{round, loop}
use djinn_lang_v.ConstEval.Compiler.{Compiler, emit}
use djinn_lang_v.ConstEval.Compiler.Grows.{Grows, Grows-trans, emit-Grows}
use djinn_lang_v.ConstEval.Compiler.Runs.{
  Holds, Holds-earlier, Adds, emit-Adds, Adds-trans, pushed, round-cong, round-bind, push_next_lem,
  loop-step, Computes, last_instruction,
}

module _ (F : Doubles) (cfg : ConstEvalConfig) where
  -- One instruction that pushes `w`.
  pub Computes-leaf :
      (op : OpCode) (n : ℕ) (w : Value F) (c c' : Compiler F)
      → Grows F c c'
      → c'.instructions ≡ c.instructions ++ record { op = op; operand = n } ∷ []
      → c'.had_error ≡ false
      → c'.constants ≡ c.constants
      → c'.local_slots ≡ c.local_slots
      → c'.pending_functions ≡ c.pending_functions
      → Adds F 1 c c'
      → ((program : Program F) (vm : Vm F)
          → Holds F program c'
          → step F cfg program op n vm ≡ push_next F cfg program w vm)
      → Computes F cfg (next w) 1 1 c c'
  Computes-leaf op n w c c' g e no_error constants slots pending adds pushes = record {
    grows = g;
    no_error = no_error;
    same_constants = constants;
    same_slots = slots;
    same_pending = pending;
    adds = adds;
    code_size = ap length e ∙ length-append c.instructions (record { op = op; operand = n } ∷ []);
    some_height = omega arith;
    runs = λ program vm left h at room.
        ap (λ k. loop F cfg program k vm) (omega arith)
        ∙ loop-step F cfg program op n left vm
            (last_instruction F cfg op n program c c' e h vm.ip at)
        ∙ ap (λ m. round F m (loop F cfg program left))
            (pushes program vm h ∙ push_next_lem F cfg program w vm (omega arith));
  }

  unary_lem :
      (program : Program F) (f : Value F → Exec F (Value F)) (v : Value F) (n left : ℕ) (vm : Vm F)
      → length vm.stack < cfg.max_stack_size
      → round F (unary F cfg program f (pushed F n v vm)) (loop F cfg program left)
        ≡ round F (f v) (λ w. loop F cfg program left (pushed F (n + 1) w vm))
  unfolding unary pop
  unary_lem program f v n left vm room =
      round-bind F (f v) (λ w. push_next F cfg program w (record vm { ip = vm.ip + n }))
        (loop F cfg program left)
      ∙ round-cong F (f v) _ _ λ w.
        ap (λ m. round F m (loop F cfg program left))
          (push_next_lem F cfg program w (record vm { ip = vm.ip + n }) room)
        ∙ ap (λ i. loop F cfg program left (record vm { stack = w ∷ vm.stack; ip = i }))
            (omega arith)

  binary_lem :
      (program : Program F) (f : Value F → Value F → Exec F (Value F)) (v w : Value F)
      (k n left : ℕ) (vm : Vm F)
      → length vm.stack < cfg.max_stack_size
      → round F (binary F cfg program f (pushed F n w (pushed F k v vm))) (loop F cfg program left)
        ≡ round F (f v w) (λ x. loop F cfg program left (pushed F (k + (n + 1)) x vm))
  unfolding binary pop2 pop
  binary_lem program f v w k n left vm room =
      round-bind F (f v w) (λ x. push_next F cfg program x (record vm { ip = vm.ip + k + n }))
        (loop F cfg program left)
      ∙ round-cong F (f v w) _ _ λ x.
        ap (λ m. round F m (loop F cfg program left))
          (push_next_lem F cfg program x (record vm { ip = vm.ip + k + n }) room)
        ∙ ap (λ i. loop F cfg program left (record vm { stack = x ∷ vm.stack; ip = i }))
            (omega arith)

  -- The code of an operand, and one instruction behind it.
  pub Computes-unary :
      (op : OpCode) (n : ℕ) (m : Exec F (Value F)) (f : Value F → Exec F (Value F))
      (size height : ℕ) (c c' : Compiler F)
      → ((program : Program F) (vm : Vm F) → step F cfg program op n vm ≡ unary F cfg program f vm)
      → Computes F cfg m size height c c'
      → Computes F cfg (m >>= f) (size + 1) height c (emit F op n c')
  unfolding emit
  Computes-unary op n m f size height c c' does h = record {
    grows = Grows-trans F c c' (emit F op n c') h.grows (emit-Grows F op n c');
    no_error = h.no_error;
    same_constants = h.same_constants;
    same_slots = h.same_slots;
    same_pending = h.same_pending;
    adds = emit-Adds F size op n c c' h.adds;
    code_size =
        omega (
          arith,
          length-append c'.instructions (record { op = op; operand = n } ∷ []),
          h.code_size,
        );
    some_height = h.some_height;
    runs = λ program vm left holds at room.
        ap (λ k. loop F cfg program k vm) (omega arith)
        ∙ h.runs program vm (suc left)
            (Holds-earlier F program c' (emit F op n c') (emit-Grows F op n c') holds) at room
        ∙ round-cong F m _ _ (λ v.
          loop-step F cfg program op n left (pushed F size v vm) (
            last_instruction F cfg op n program c' (emit F op n c') refl holds (vm.ip + size)
              (omega (arith, h.code_size)))
          ∙ ap (λ x. round F x (loop F cfg program left)) (does program (pushed F size v vm))
          ∙ unary_lem program f v size left vm (omega (arith, h.some_height)))
        ∙ sym (round-bind F m f (λ w. loop F cfg program left (pushed F (size + 1) w vm)));
  }

  -- The code of two operands, and one instruction behind them.
  pub Computes-binary :
      (op : OpCode) (n : ℕ) (l r : Exec F (Value F)) (f : Value F → Value F → Exec F (Value F))
      (size size' height height' : ℕ) (c c' c'' : Compiler F)
      → ((program : Program F) (vm : Vm F) → step F cfg program op n vm ≡ binary F cfg program f vm)
      → Computes F cfg l size height c c'
      → Computes F cfg r size' height' c' c''
      → Computes F cfg
          (l >>= λ v. r >>= λ w. f v w)
          (size + (size' + 1))
          (max height (height' + 1))
          c
          (emit F op n c'')
  unfolding emit
  Computes-binary op n l r f size size' height height' c c' c'' does h k = record {
    grows = Grows-trans F c c' _ h.grows (Grows-trans F c' c'' _ k.grows (emit-Grows F op n c''));
    no_error = k.no_error;
    same_constants = k.same_constants ∙ h.same_constants;
    same_slots = k.same_slots ∙ h.same_slots;
    same_pending = k.same_pending ∙ h.same_pending;
    adds =
        Adds-trans F size (size' + 1) c c' (emit F op n c'') h.adds
          (emit-Adds F size' op n c' c'' k.adds);
    code_size = omega (
      arith,
      length-append c''.instructions (record { op = op; operand = n } ∷ []),
      h.code_size,
      k.code_size,
    );
    some_height = omega (arith, h.some_height);
    runs = λ program vm left holds at room.
        let holds'' = Holds-earlier F program c'' (emit F op n c'') (emit-Grows F op n c'') holds in
        ap (λ i. loop F cfg program i vm) (omega arith)
        ∙ h.runs program vm (size' + suc left) (Holds-earlier F program c' c'' k.grows holds'') at
            (omega arith)
        ∙ round-cong F l _ _ (λ v.
          k.runs program (pushed F size v vm) (suc left) holds'' (omega (arith, h.code_size))
            (omega arith)
          ∙ round-cong F r _ _ (λ w.
            loop-step F cfg program op n left (pushed F size' w (pushed F size v vm)) (
              last_instruction F cfg op n program c'' (emit F op n c'') refl holds _
                (omega (arith, h.code_size, k.code_size)))
            ∙ ap (λ x. round F x (loop F cfg program left))
                (does program (pushed F size' w (pushed F size v vm)))
            ∙ binary_lem program f v w size size' left vm (omega (arith, h.some_height)))
          ∙ sym (round-bind F r (λ w. f v w) _))
        ∙ sym (round-bind F l (λ v. r >>= λ w. f v w) _);
  }
