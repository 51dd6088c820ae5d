-- ===== src/ConstEval/Compiler.antt =====
-- evaluator/ConstEvaluator.h and .cpp: the state of `BytecodeCompiler` and its helpers.
pub mod Literals
pub mod Expressions
pub mod Statements
pub mod Functions
pub mod Grows
pub mod Means
pub mod Runs
pub mod Leaves
pub mod Operators
pub mod Correct
use djinn_lang_v.Base.{
  ℕ, ◌+◌, ◌-◌, ◌%◌, ◌^◌, Bool, true, false, List, [], ◌∷◌, ◌++◌, Option, none, some, Bytes,
  same_bytes, length, get_elem?, set, ◌==◌, if◌then◌else◌,
}
use djinn_lang_v.Base.Int.{ℤ, eqb_ℤ}
use djinn_lang_v.Base.Maps.{lookup, insert_or_assign}
use djinn_lang_v.Ast.Statement.{Block}
use djinn_lang_v.ConstEval.Int128
use djinn_lang_v.ConstEval.Int128.{Int128}
use djinn_lang_v.ConstEval.Value.{Doubles, ConstValue, Kind}
use djinn_lang_v.ConstEval.Code.{OpCode, Instruction, CompiledFunction}

-- A call of the compiler returns, or an exception of `std::stod` or `std::stoll` leaves it.
pub data Attempt {ℓ} (A : Type ℓ) : Type ℓ where
  done : A → Attempt A
  threw : Attempt A

infixl 5 ◌>>=◌
abbrev pub ◌>>=◌ {ℓ κ} : {A : Type ℓ} {B : Type κ} → Attempt A → (A → Attempt B) → Attempt B
done a >>= f = f a
threw >>= f = threw

-- What a conversion of the standard library gives.
pub data Parsed {ℓ} (A : Type ℓ) : Type ℓ where
  parsed : A → Parsed A
  out_of_range invalid_argument : Parsed A

-- `std::stod`, and `std::pow(10.0, x)`.
pub record Numerals (F : Doubles) : Type 0 where
  pub stod : Bytes → Parsed F.Double
  pub pow10 : F.Double → F.Double

pub record ConstFunction : Type 0 where
  pub param_names : List Bytes
  pub body : Block

abbrev one_more : Option ℕ → Option ℕ
one_more none = none
one_more (some i) = some (i + 1)

-- The index of the first entry that is equal.
unfoldable pub index_of {ℓ} : {A : Type ℓ} → (A → A → Bool) → A → List A → Option ℕ
index_of eq v [] = none
index_of eq v (a ∷ pool) =
    let later = one_more (index_of eq v pool) in if eq a v then some 0 else later

-- The index of a constant, and the pool that then holds it. An index is a `uint32_t`.
abbrev pub pooled_at {ℓ} : {A : Type ℓ} → Option ℕ → A → List A → ℕ × List A
pooled_at (some i) v pool = (i, pool)
pooled_at none v pool = (length pool % 2 ^ 32, pool ++ v ∷ [])

abbrev pub pooled {ℓ} : {A : Type ℓ} → (A → A → Bool) → A → List A → ℕ × List A
pooled eq v pool = pooled_at (index_of eq v pool) v pool

module _ (F : Doubles) where
  pub record Compiler : Type 0 where
    pub instructions : List Instruction
    pub int_pool : List ℤ
    pub int128_pool : List Int128
    pub float_pool : List F.Double
    pub string_pool : List Bytes
    pub function_table : List CompiledFunction
    pub constants : List (Bytes × ConstValue F)
    pub function_index : List (Bytes × ℕ)
    pub pending_functions : List (Bytes × ConstFunction)
    pub local_slots : List (Bytes × ℕ)
    pub next_local_slot : ℕ
    pub had_error : Bool

  abbrev pub new_compiler : Compiler
  new_compiler = record {
    instructions = [];
    int_pool = [];
    int128_pool = [];
    float_pool = [];
    string_pool = [];
    function_table = [];
    constants = [];
    function_index = [];
    pending_functions = [];
    local_slots = [];
    next_local_slot = 0;
    had_error = false;
  }

  abbrev pub fail : Compiler → Compiler
  fail c = record c { had_error = true }

  -- `if (_hadError) return;`
  abbrev pub unless_error : Compiler → (Compiler → Attempt Compiler) → Attempt Compiler
  unless_error c f = if c.had_error then done c else f c

  unfoldable pub emit : OpCode → ℕ → Compiler → Compiler
  emit op operand c = record c {
    instructions = c.instructions ++ record { op = op; operand = operand } ∷ [];
  }

  -- `emit(PUSH_..., add...Constant(val))`
  unfoldable pub push_int : ℤ → Compiler → Compiler
  unfolding emit index_of
  push_int v c =
      let (i, pool) = pooled eqb_ℤ v c.int_pool in
      emit OpCode.push_int i (record c { int_pool = pool })

  unfoldable pub push_int128 : Int128 → Compiler → Compiler
  unfolding emit index_of
  push_int128 v c =
      let (i, pool) = pooled Int128.eq v c.int128_pool in
      emit OpCode.push_int128 i (record c { int128_pool = pool })

  unfoldable pub push_float : F.Double → Compiler → Compiler
  unfolding emit index_of
  push_float v c =
      let (i, pool) = pooled F.eq v c.float_pool in
      emit OpCode.push_float i (record c { float_pool = pool })

  unfoldable pub push_bool : Bool → Compiler → Compiler
  unfolding emit
  push_bool b c = emit OpCode.push_bool (if b then 1 else 0) c

  unfoldable pub throw_name : Bytes → Compiler → Compiler
  unfolding emit index_of
  throw_name name c =
      let (i, pool) = pooled same_bytes name c.string_pool in
      emit OpCode.throw i (record c { string_pool = pool })

  abbrev local_at : Option ℕ → Bytes → Compiler → ℕ × Compiler
  local_at (some slot) name c = (slot, c)
  local_at none name c = (
    c.next_local_slot,
    record c {
      next_local_slot = (c.next_local_slot + 1) % 2 ^ 32;
      local_slots = insert_or_assign name c.next_local_slot c.local_slots;
    },
  )

  unfoldable pub get_or_create_local : Bytes → Compiler → ℕ × Compiler
  get_or_create_local name c = local_at (lookup name c.local_slots) name c

  -- The number of instructions, as a `uint32_t`.
  abbrev pub here : Compiler → ℕ
  here c = length c.instructions % 2 ^ 32

  unfoldable pub emit_jump : OpCode → Compiler → ℕ × Compiler
  unfolding emit
  emit_jump op c = (here c, emit op (2 ^ 32 - 1) c)

  abbrev retarget : Option Instruction → ℕ → ℕ → List Instruction → List Instruction
  retarget none i target code = code
  retarget (some instruction) i target code = set code i (record instruction { operand = target })

  unfoldable pub patch_jump : ℕ → Compiler → Compiler
  patch_jump i c = record c {
    instructions = retarget (get_elem? c.instructions i) i (here c) c.instructions;
  }

  -- A constant of the four kinds that have an instruction.
  abbrev push_kind : Kind → ConstValue F → Compiler → Option Compiler
  push_kind Kind.integer v c = some (push_int v.int_val c)
  push_kind Kind.integer128 v c = some (push_int128 v.int128_val c)
  push_kind Kind.float v c = some (push_float v.float_val c)
  push_kind Kind.bool v c = some (push_bool v.bool_val c)
  push_kind _ v c = none

  unfoldable pub push_constant : ConstValue F → Compiler → Option Compiler
  unfolding push_int push_int128 push_float push_bool
  push_constant v c = push_kind v.kind v c
