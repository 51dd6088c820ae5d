-- ===== src/ConstEval/Vm.antt =====
-- evaluator/ConstEvaluator.cpp: the state of `ConstVM`, its stack and its locals.
pub mod Arith
pub mod Bounds
pub mod Frames
pub mod Post
pub mod Reach
pub mod Returns
pub mod Calls
pub mod Dispatch
pub mod Execute
use djinn_lang_v.Base.{
  ℕ, ◌+◌, ◌-◌, ◌%◌, ◌^◌, Bool, true, false, List, [], ◌∷◌, ◌++◌, ltb, leb, if◌then◌else◌, Option,
  none, some, length, take, replicate, get_elem?, set, Bytes,
}
use djinn_lang_v.Base.Int.{pos}
use djinn_lang_v.ConstEval.Value.{Doubles, ConstValue, make_int, error_value}
use djinn_lang_v.ConstEval.Code.{ConstEvalConfig, CallFrame}

-- The exceptions of `push` and `pop`.
pub data VmError : Type 0 where
  stack_overflow stack_underflow : VmError

-- An instruction goes on, ends the evaluation with a value, throws, or has no defined behaviour:
-- an index beyond a vector, or a shift by a count outside 0 ... 63.
pub data Step {ℓ} (V : Type 0) (A : Type ℓ) : Type ℓ where
  next : A → Step V A
  finished : V → Step V A
  raised : VmError → Step V A
  undefined : Step V A

infixl 5 ◌>>=◌
abbrev pub ◌>>=◌ {ℓ κ} :
    {V : Type 0} {A : Type ℓ} {B : Type κ} → Step V A → (A → Step V B) → Step V B
next a >>= f = f a
finished v >>= f = finished v
raised e >>= f = raised e
undefined >>= f = undefined

module _ (F : Doubles) where
  abbrev pub Value : Type 0
  Value = ConstValue F

  -- The stacks have their tops in front.
  pub record Vm : Type 0 where
    pub stack : List Value
    pub locals : List Value
    pub call_frames : List CallFrame
    pub locals_base : ℕ
    pub ip : ℕ

  abbrev pub Exec : Type 0 → Type 0
  Exec A = Step Value A

  unfoldable pub push : ConstEvalConfig → Value → Vm → Exec Vm
  push cfg v vm =
      if leb cfg.max_stack_size (length vm.stack)
      then raised stack_overflow
      else next (record vm { stack = v ∷ vm.stack })

  abbrev pub pop_of : List Value → Vm → Exec (Value × Vm)
  pop_of [] vm = raised stack_underflow
  pop_of (v ∷ s) vm = next (v, record vm { stack = s })

  unfoldable pub pop : Vm → Exec (Value × Vm)
  pop vm = pop_of vm.stack vm

  -- `auto r = pop(); auto l = pop();`, as (l, r, vm)
  unfoldable pub pop2 : Vm → Exec (Value × Value × Vm)
  unfolding pop
  pop2 vm = pop vm >>= λ a. pop a.1 >>= λ b. next (b.0, a.0, b.1)

  -- `_locals.resize(n, v)`
  abbrev pub resize : ℕ → Value → List Value → List Value
  resize n v xs = take n xs ++ replicate (n - length xs) v

  abbrev pub int_zero : Value
  int_zero = make_int F (pos 0) 32 true

  abbrev pub index_or_undefined : {A : Type 0} → Option A → Exec A
  index_or_undefined none = undefined
  index_or_undefined (some a) = next a
