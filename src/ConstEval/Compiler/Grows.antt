-- ===== src/ConstEval/Compiler/Grows.antt =====
-- evaluator/ConstEvaluator.cpp: `BytecodeCompiler` only adds to its code and its pools.
use djinn_lang_v.Base.{
  ℕ, zero, suc, ◌%◌, ◌^◌, ◌<◌, ◌≤◌, Bool, true, List, [], ◌∷◌, ◌++◌, Option, none, some, ◌≡◌, refl,
  sym, ap, ◌∙◌, append_assoc, append-nil, arith, length, length-append, get_elem?, Bool-cases, inl,
  inr,
}
use djinn_lang_v.Base.Int.{ℤ}
use djinn_lang_v.ConstEval.Int128.{Int128}
use djinn_lang_v.ConstEval.Value.{Doubles}
use djinn_lang_v.ConstEval.Code.{OpCode}
use djinn_lang_v.ConstEval.Compiler.{
  index_of, one_more, pooled, pooled_at, Compiler, emit, push_int, push_int128, push_float,
  push_bool,
}

module _ {ℓ} {A : Type ℓ} where
  -- The second list starts with the first.
  abbrev pub Extends : List A → List A → Type ℓ
  Extends xs ys = (zs : List A) × (ys ≡ xs ++ zs)

  pub Extends-refl : (xs : List A) → Extends xs xs
  Extends-refl xs = ([], sym (append-nil xs))

  pub Extends-trans : (xs ys zs : List A) → Extends xs ys → Extends ys zs → Extends xs zs
  Extends-trans xs ys zs (us, e) (vs, f) =
      (us ++ vs, f ∙ ap (λ t. t ++ vs) e ∙ append_assoc xs us vs)

  pub get_elem?-append :
      (xs zs : List A) (i : ℕ) {a : A} → get_elem? xs i ≡ some a → get_elem? (xs ++ zs) i ≡ some a
  get_elem?-append [] zs i e = cc
  get_elem?-append (x ∷ xs) zs zero e = e
  get_elem?-append (x ∷ xs) zs (suc i) e = get_elem?-append xs zs i e

  pub get_elem?-last : (xs : List A) (a : A) → get_elem? (xs ++ a ∷ []) (length xs) ≡ some a
  get_elem?-last [] a = refl
  get_elem?-last (x ∷ xs) a = get_elem?-last xs a

  pub Extends-get_elem? :
      (xs ys : List A) (i : ℕ) {a : A}
      → Extends xs ys
      → get_elem? xs i ≡ some a
      → get_elem? ys i ≡ some a
  Extends-get_elem? xs ys i (zs, e) f = ap (λ t. get_elem? t i) e ∙ get_elem?-append xs zs i f

  pub Extends-length : (xs ys : List A) → Extends xs ys → length xs ≤ length ys
  Extends-length xs ys (zs, e) = omega (arith, ap length e, length-append xs zs)

  pub pooled_at-Extends :
      (o : Option ℕ) (v : A) (pool : List A) → Extends pool (pooled_at o v pool).1
  pooled_at-Extends none v pool = (v ∷ [], refl)
  pooled_at-Extends (some i) v pool = Extends-refl pool

  index_of-get_elem? :
      (eq : A → A → Bool) (v : A) (pool : List A)
      → ((w : A) → eq w v ≡ true → w ≡ v)
      → (i : ℕ) → index_of eq v pool ≡ some i
      → get_elem? pool i ≡ some v
  unfolding index_of
  index_of-get_elem? eq v [] exact i e = cc
  index_of-get_elem? eq v (a ∷ pool) exact i e = elim (Bool-cases (eq a v)) [
    | inl same ↦ found i (rw same at e) (exact a same)
    | inr other ↦ later (index_of eq v pool) i (rw other at e) (index_of-get_elem? eq v pool exact)
  ]
    where
      found : (i : ℕ) → some 0 ≡ some i → a ≡ v → get_elem? (a ∷ pool) i ≡ some v
      found zero f g = ap some g
      found (suc i) f g = absurd (ground arith)

      later :
          (o : Option ℕ) (i : ℕ)
          → one_more o ≡ some i
          → ((j : ℕ) → o ≡ some j → get_elem? pool j ≡ some v)
          → get_elem? (a ∷ pool) i ≡ some v
      later none i f g = cc
      later (some j) zero f g = absurd (ground arith)
      later (some j) (suc i) f g = g i (ground arith)

  -- The constant stands in the pool at its index.
  pub pooled-get_elem? :
      (eq : A → A → Bool) (v : A) (pool : List A)
      → ((w : A) → eq w v ≡ true → w ≡ v)
      → length (pooled eq v pool).1 < 2 ^ 32
      → get_elem? (pooled eq v pool).1 (pooled eq v pool).0 ≡ some v
  pooled-get_elem? eq v pool exact small = go (index_of eq v pool) refl small
    where
      go :
          (o : Option ℕ)
          → index_of eq v pool ≡ o
          → length (pooled_at o v pool).1 < 2 ^ 32
          → get_elem? (pooled_at o v pool).1 (pooled_at o v pool).0 ≡ some v
      go none e h =
          let slot : length pool % 2 ^ 32 ≡ length pool =
            omega (arith, length-append pool (v ∷ [])) in
          ap (get_elem? (pool ++ v ∷ [])) slot ∙ get_elem?-last pool v
      go (some i) e h = index_of-get_elem? eq v pool exact i e

module _ (F : Doubles) where
  -- The code and the pools of `c'` start with those of `c`.
  pub record Grows (c c' : Compiler F) : Type 0 where
    pub code : Extends c.instructions c'.instructions
    pub ints : Extends c.int_pool c'.int_pool
    pub wides : Extends c.int128_pool c'.int128_pool
    pub floats : Extends c.float_pool c'.float_pool

  pub Grows-refl : (c : Compiler F) → Grows c c
  Grows-refl c = record {
    code = Extends-refl c.instructions;
    ints = Extends-refl c.int_pool;
    wides = Extends-refl c.int128_pool;
    floats = Extends-refl c.float_pool;
  }

  pub Grows-trans : (a b c : Compiler F) → Grows a b → Grows b c → Grows a c
  Grows-trans a b c g h = record {
    code = Extends-trans a.instructions b.instructions c.instructions g.code h.code;
    ints = Extends-trans a.int_pool b.int_pool c.int_pool g.ints h.ints;
    wides = Extends-trans a.int128_pool b.int128_pool c.int128_pool g.wides h.wides;
    floats = Extends-trans a.float_pool b.float_pool c.float_pool g.floats h.floats;
  }

  pub emit-Grows : (op : OpCode) (n : ℕ) (c : Compiler F) → Grows c (emit F op n c)
  unfolding emit
  emit-Grows op n c = record {
    code = (record { op = op; operand = n } ∷ [], refl);
    ints = Extends-refl c.int_pool;
    wides = Extends-refl c.int128_pool;
    floats = Extends-refl c.float_pool;
  }

  pub push_int-Grows : (v : ℤ) (c : Compiler F) → Grows c (push_int F v c)
  unfolding push_int
  push_int-Grows v c = record {
    code = (record { op = OpCode.push_int; operand = _ } ∷ [], refl);
    ints = pooled_at-Extends _ v c.int_pool;
    wides = Extends-refl c.int128_pool;
    floats = Extends-refl c.float_pool;
  }

  pub push_int128-Grows : (v : Int128) (c : Compiler F) → Grows c (push_int128 F v c)
  unfolding push_int128
  push_int128-Grows v c = record {
    code = (record { op = OpCode.push_int128; operand = _ } ∷ [], refl);
    ints = Extends-refl c.int_pool;
    wides = pooled_at-Extends _ v c.int128_pool;
    floats = Extends-refl c.float_pool;
  }

  pub push_float-Grows : (v : F.Double) (c : Compiler F) → Grows c (push_float F v c)
  unfolding push_float
  push_float-Grows v c = record {
    code = (record { op = OpCode.push_float; operand = _ } ∷ [], refl);
    ints = Extends-refl c.int_pool;
    wides = Extends-refl c.int128_pool;
    floats = pooled_at-Extends _ v c.float_pool;
  }

  pub push_bool-Grows : (b : Bool) (c : Compiler F) → Grows c (push_bool F b c)
  unfolding push_bool
  push_bool-Grows b c = emit-Grows OpCode.push_bool _ c
