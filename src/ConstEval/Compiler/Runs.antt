-- ===== src/ConstEval/Compiler/Runs.antt =====
-- evaluator/ConstEvaluator.cpp: code that computes a value, in the loop of the machine.
pub mod Pieces
use Prim.Native.Nat.{max}
use djinn_lang_v.Base.{
  ℕ, suc, ◌+◌, ◌^◌, ◌≤◌, ◌<◌, false, [], ◌∷◌, ◌++◌, leb, some, length, length-append, get_elem?,
  ◌≡◌, refl, sym, ap, ◌∙◌, arith,
}
use djinn_lang_v.ConstEval.Value.{Doubles}
use djinn_lang_v.ConstEval.Code.{OpCode, Program, ConstEvalConfig}
use djinn_lang_v.ConstEval.Vm.{
  Value, Vm, Exec, next, finished, raised, undefined, ◌>>=◌, push, pop, pop2,
}
use djinn_lang_v.ConstEval.Vm.Dispatch.{step, push_next, unary, binary}
use djinn_lang_v.ConstEval.Vm.Execute.{Outcome, round, loop}
use djinn_lang_v.ConstEval.Compiler.{Compiler, emit}
use djinn_lang_v.ConstEval.Compiler.Grows.{
  Extends, Extends-trans, Extends-get_elem?, get_elem?-last, Grows, Grows-trans, emit-Grows,
}

module _ (F : Doubles) where
  -- The program contains the code and the pools of the compiler, and the pools have 32-bit indices.
  pub record Holds (program : Program F) (c : Compiler F) : Type 0 where
    pub code : Extends c.instructions program.code
    pub ints : Extends c.int_pool program.int_pool
    pub wides : Extends c.int128_pool program.int128_pool
    pub floats : Extends c.float_pool program.float_pool
    pub few_ints : length program.int_pool < 2 ^ 32
    pub few_wides : length program.int128_pool < 2 ^ 32
    pub few_floats : length program.float_pool < 2 ^ 32

  pub Holds-earlier :
      (program : Program F) (c c' : Compiler F) → Grows F c c' → Holds program c' → Holds program c
  Holds-earlier program c c' g h = record {
    code = Extends-trans c.instructions c'.instructions program.code g.code h.code;
    ints = Extends-trans c.int_pool c'.int_pool program.int_pool g.ints h.ints;
    wides = Extends-trans c.int128_pool c'.int128_pool program.int128_pool g.wides h.wides;
    floats = Extends-trans c.float_pool c'.float_pool program.float_pool g.floats h.floats;
    few_ints = h.few_ints;
    few_wides = h.few_wides;
    few_floats = h.few_floats;
  }

  -- The pools grow by at most `n` entries each.
  pub record Adds (n : ℕ) (c c' : Compiler F) : Type 0 where
    pub ints : length c'.int_pool ≤ length c.int_pool + n
    pub wides : length c'.int128_pool ≤ length c.int128_pool + n
    pub floats : length c'.float_pool ≤ length c.float_pool + n

  pub emit-Adds :
      (n : ℕ) (op : OpCode) (k : ℕ) (c c' : Compiler F)
      → Adds n c c'
      → Adds (n + 1) c (emit F op k c')
  unfolding emit
  emit-Adds n op k c c' h = record {
    ints = omega (arith, h.ints);
    wides = omega (arith, h.wides);
    floats = omega (arith, h.floats);
  }

  pub Adds-trans : (n m : ℕ) (a b c : Compiler F) → Adds n a b → Adds m b c → Adds (n + m) a c
  Adds-trans n m a b c g h = record {
    ints = omega (arith, g.ints, h.ints);
    wides = omega (arith, g.wides, h.wides);
    floats = omega (arith, g.floats, h.floats);
  }

  -- `v` is pushed, and `n` instructions are passed.
  abbrev pub pushed : ℕ → Value F → Vm F → Vm F
  pushed n v vm = record vm { stack = v ∷ vm.stack; ip = vm.ip + n }

  pub round-cong :
      {A : Type 0} (m : Exec F A) (f g : A → Outcome F)
      → ((a : A) → f a ≡ g a)
      → round F m f ≡ round F m g
  round-cong (next a) f g e = e a
  round-cong (finished v) f g e = refl
  round-cong (raised x) f g e = refl
  round-cong undefined f g e = refl

  pub round-bind :
      {A B : Type 0} (m : Exec F A) (k : A → Exec F B) (f : B → Outcome F)
      → round F (m >>= k) f ≡ round F m (λ a. round F (k a) f)
  round-bind (next a) k f = refl
  round-bind (finished v) k f = refl
  round-bind (raised x) k f = refl
  round-bind undefined k f = refl

  module _ (cfg : ConstEvalConfig) where
    pub push_next_lem :
        (program : Program F) (v : Value F) (vm : Vm F)
        → length vm.stack < cfg.max_stack_size
        → push_next F cfg program v vm ≡ next (pushed 1 v vm)
    unfolding push_next push
    push_next_lem program v vm room = rw full refl
      where
        full : leb cfg.max_stack_size (length vm.stack) ≡ false
        full = ground arith

    module _ (program : Program F) where
      pub loop-step :
          (op : OpCode) (n left : ℕ) (vm : Vm F)
          → get_elem? program.code vm.ip ≡ some (record { op = op; operand = n })
          → loop F cfg program (suc left) vm
            ≡ round F (step F cfg program op n vm) (loop F cfg program left)
      unfolding loop
      loop-step op n left vm e = rw e refl

    -- `c'` adds code that computes what `m` says, in `size` instructions and with at most `height`
    -- values on the stack; nothing else changes but the pools.
    pub record Computes (m : Exec F (Value F)) (size height : ℕ) (c c' : Compiler F) : Type 0 where
      pub grows : Grows F c c'
      pub no_error : c'.had_error ≡ false
      pub same_constants : c'.constants ≡ c.constants
      pub same_slots : c'.local_slots ≡ c.local_slots
      pub same_pending : c'.pending_functions ≡ c.pending_functions
      pub adds : Adds size c c'
      pub code_size : length c'.instructions ≡ length c.instructions + size
      pub some_height : 1 ≤ height
      pub runs :
          (program : Program F) (vm : Vm F) (left : ℕ)
          → Holds program c'
          → vm.ip ≡ length c.instructions
          → length vm.stack + height ≤ cfg.max_stack_size
          → loop F cfg program (size + left) vm
            ≡ round F m (λ v. loop F cfg program left (pushed size v vm))

    pub last_instruction :
        (op : OpCode) (n : ℕ) (program : Program F) (c c' : Compiler F)
        → c'.instructions ≡ c.instructions ++ record { op = op; operand = n } ∷ []
        → Holds program c'
        → (i : ℕ) → i ≡ length c.instructions
        → get_elem? program.code i ≡ some (record { op = op; operand = n })
    last_instruction op n program c c' e h i at =
        ap (get_elem? program.code) at
        ∙ Extends-get_elem? c'.instructions program.code (length c.instructions) h.code (
            ap (λ code. get_elem? code (length c.instructions)) e
            ∙ get_elem?-last c.instructions (record { op = op; operand = n }))
