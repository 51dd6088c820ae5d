-- ===== src/ConstEval/Compiler/Leaves.antt =====
-- evaluator/ConstEvaluator.cpp: the instructions for literals and constants push their values.
use djinn_lang_v.Base.{
  ℕ, ◌+◌, ◌^◌, ◌<◌, Bool, true, false, ◌&&◌, not, List, [], ◌∷◌, Option, none, some, length,
  length-append, ◌≤◌, get_elem?, ◌==◌, if◌then◌else◌, ◌≡◌, refl, ap, arith,
}
use djinn_lang_v.Base.Int.{ℤ, pos, negsuc, eqb_ℤ}
use djinn_lang_v.ConstEval.Int128
use djinn_lang_v.ConstEval.Int128.{Int128}
use djinn_lang_v.ConstEval.Value.{Doubles, make_int, make_int128, make_float, make_bool}
use djinn_lang_v.ConstEval.Code.{OpCode, ConstEvalConfig}
use djinn_lang_v.ConstEval.Vm.{Value, next, index_or_undefined, ◌>>=◌}
use djinn_lang_v.ConstEval.Vm.Dispatch.{step, push_next, literal_width}
use djinn_lang_v.ConstEval.Compiler.{
  Compiler, index_of, pooled, pooled_at, emit, push_int, push_int128, push_float, push_bool,
  push_constant,
}
use djinn_lang_v.ConstEval.Compiler.Grows.{
  Extends, Extends-length, Extends-get_elem?, pooled-get_elem?, push_int-Grows, push_int128-Grows,
  push_float-Grows, push_bool-Grows,
}
use djinn_lang_v.ConstEval.Compiler.Means.{Alone, Reads}
use djinn_lang_v.ConstEval.Compiler.Runs.{Computes}
use djinn_lang_v.ConstEval.Compiler.Runs.Pieces.{Computes-leaf}

eqb_ℤ-exact : (a b : ℤ) → eqb_ℤ a b ≡ true → a ≡ b
eqb_ℤ-exact (pos a) (pos b) e = ap pos (ground arith)
eqb_ℤ-exact (negsuc a) (negsuc b) e = ap negsuc (ground arith)
eqb_ℤ-exact (pos a) (negsuc b) e = cc
eqb_ℤ-exact (negsuc a) (pos b) e = cc

eq-exact : (a b : Int128) → Int128.eq a b ≡ true → a ≡ b
unfolding Int128.eq
eq-exact a b e = go (eqb_ℤ a.high b.high) refl e
  where
    go : (t : Bool) → eqb_ℤ a.high b.high ≡ t → t && a.low == b.low ≡ true → a ≡ b
    go true f g = λ i. record { high = eqb_ℤ-exact a.high b.high f i; low = lows g i }
      where
        lows : a.low == b.low ≡ true → a.low ≡ b.low
        lows g = ground arith
    go false f g = cc

module _ {A : Type 0} where
  pooled-length :
      (eq : A → A → Bool) (v : A) (pool : List A) → length (pooled eq v pool).1 ≤ length pool + 1
  pooled-length eq v pool = go (index_of eq v pool)
    where
      go : (o : Option ℕ) → length (pooled_at o v pool).1 ≤ length pool + 1
      go none = omega (arith, length-append pool (v ∷ []))
      go (some i) = omega arith

  -- A constant that the compiler put in a pool is found by the machine.
  found :
      (eq : A → A → Bool) (v : A) (pool all : List A)
      → ((w : A) → eq w v ≡ true → w ≡ v)
      → Extends (pooled eq v pool).1 all
      → length all < 2 ^ 32
      → get_elem? all (pooled eq v pool).0 ≡ some v
  found eq v pool all exact extends small =
      Extends-get_elem? (pooled eq v pool).1 all (pooled eq v pool).0 extends (
        pooled-get_elem? eq v pool exact
          (omega (arith, Extends-length (pooled eq v pool).1 all extends)))

module _ (F : Doubles) (cfg : ConstEvalConfig) (c : Compiler F) (fine : c.had_error ≡ false) where
  pub push_int-Computes :
      (v : ℤ) → Computes F cfg (next (make_int F v (literal_width v) true)) 1 1 c (push_int F v c)
  unfolding push_int emit step
  push_int-Computes v =
      Computes-leaf F cfg OpCode.push_int (pooled eqb_ℤ v c.int_pool).0 _ c (push_int F v c)
        (push_int-Grows F v c) refl fine refl refl refl
        (record {
          ints = pooled-length eqb_ℤ v c.int_pool;
          wides = omega arith;
          floats = omega arith;
        })
        λ program vm h.
          ap
            (λ o. index_or_undefined F o >>= λ v.
              push_next F cfg program (make_int F v (literal_width v) true) vm)
            (found eqb_ℤ v c.int_pool program.int_pool (λ w. eqb_ℤ-exact w v) h.ints h.few_ints)

  pub push_int128-Computes :
      (v : Int128) → Computes F cfg (next (make_int128 F v true)) 1 1 c (push_int128 F v c)
  unfolding push_int128 emit step
  push_int128-Computes v =
      Computes-leaf F cfg OpCode.push_int128 (pooled Int128.eq v c.int128_pool).0 _ c
        (push_int128 F v c) (push_int128-Grows F v c) refl fine refl refl refl
        (record {
          ints = omega arith;
          wides = pooled-length Int128.eq v c.int128_pool;
          floats = omega arith;
        })
        λ program vm h.
          ap
            (λ o. index_or_undefined F o >>= λ v. push_next F cfg program (make_int128 F v true) vm)
            (found Int128.eq v c.int128_pool program.int128_pool (λ w. eq-exact w v) h.wides
              h.few_wides)

  pub push_float-Computes :
      (v : F.Double)
      → Alone F v
      → Computes F cfg (next (make_float F v 64)) 1 1 c (push_float F v c)
  unfolding push_float emit step
  push_float-Computes v alone =
      Computes-leaf F cfg OpCode.push_float (pooled F.eq v c.float_pool).0 _ c (push_float F v c)
        (push_float-Grows F v c) refl fine refl refl refl
        (record {
          ints = omega arith;
          wides = omega arith;
          floats = pooled-length F.eq v c.float_pool;
        })
        λ program vm h.
          ap (λ o. index_or_undefined F o >>= λ v. push_next F cfg program (make_float F v 64) vm)
            (found F.eq v c.float_pool program.float_pool alone h.floats h.few_floats)

  pub push_bool-Computes :
      (b : Bool) → Computes F cfg (next (make_bool F b)) 1 1 c (push_bool F b c)
  unfolding push_bool emit step
  push_bool-Computes b =
      Computes-leaf F cfg OpCode.push_bool (if b then 1 else 0) _ c (push_bool F b c)
        (push_bool-Grows F b c) refl fine refl refl refl
        (record { ints = omega arith; wides = omega arith; floats = omega arith })
        λ program vm h. ap (λ t. push_next F cfg program (make_bool F t) vm) (back b)
    where
      back : (b : Bool) → not ((if b then 1 else 0) == 0) ≡ b
      back true = refl
      back false = refl

  pub push_constant-Computes :
      (v w : Value F)
      → Reads F v w
      → (c' : Compiler F) × (push_constant F v c ≡ some c') × Computes F cfg (next w) 1 1 c c'
  unfolding push_constant
  push_constant-Computes v _ (Reads.integer e) =
      (push_int F v.int_val c, rw e refl, push_int-Computes v.int_val)
  push_constant-Computes v _ (Reads.integer128 e) =
      (push_int128 F v.int128_val c, rw e refl, push_int128-Computes v.int128_val)
  push_constant-Computes v _ (Reads.float e alone) =
      (push_float F v.float_val c, rw e refl, push_float-Computes v.float_val alone)
  push_constant-Computes v _ (Reads.bool e) =
      (push_bool F v.bool_val c, rw e refl, push_bool-Computes v.bool_val)
