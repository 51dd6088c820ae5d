-- ===== src/ConstEval/Compiler/Correct.antt =====
-- evaluator/ConstEvaluator.cpp: compiled expressions compute what they mean.
use djinn_lang_v.Base.{
  ℕ, false, List, [], ◌++◌, some, Bytes, codes, same_bytes, if◌then◌else◌, ◌≡◌, refl, ap, ◌∙◌,
}
use djinn_lang_v.Base.Maps.{lookup}
use djinn_lang_v.Ast.Expression.{Expression}
use djinn_lang_v.ConstEval.Value.{Doubles}
use djinn_lang_v.ConstEval.Code.{ConstEvalConfig}
use djinn_lang_v.ConstEval.Vm.{Value, Exec, next}
use djinn_lang_v.ConstEval.Compiler.{
  Attempt, done, ◌>>=◌, Numerals, Compiler, unless_error, emit, push_int, push_int128, push_float,
  push_bool,
}
use djinn_lang_v.ConstEval.Compiler.Expressions.{
  named, constant_named, or_fail, emit_code, binary_code, unary_code, cast_code, compile_expression,
  compile_identifier,
}
use djinn_lang_v.ConstEval.Compiler.Means.{Means, Reads, count, depth}
use djinn_lang_v.ConstEval.Compiler.Runs.{Computes}
use djinn_lang_v.ConstEval.Compiler.Runs.Pieces.{Computes-unary, Computes-binary}
use djinn_lang_v.ConstEval.Compiler.Leaves.{
  push_int-Computes, push_int128-Computes, push_float-Computes, push_bool-Computes,
  push_constant-Computes,
}
use djinn_lang_v.ConstEval.Compiler.Operators.{binary_code_lem, unary_code_lem, cast_code_lem}

module _ (F : Doubles) (N : Numerals F) (cfg : ConstEvalConfig)
    (constants : List (Bytes × Value F)) where
  -- No error so far, no locals, and the constants are these.
  pub record Ready (c : Compiler F) : Type 0 where
    pub no_error : c.had_error ≡ false
    pub these_constants : c.constants ≡ constants
    pub no_locals : c.local_slots ≡ []

  -- The compiler ends without an error, and what it added computes `m`.
  abbrev pub Compiles : Expression → Exec F (Value F) → Compiler F → Type 0
  Compiles e m c =
      (c' : Compiler F) × (compile_expression F N e c ≡ done c')
      × Computes F cfg m (count e) (depth e) c c'

  Computes-Ready :
      {m : Exec F (Value F)} {n h : ℕ} (c c' : Compiler F)
      → Ready c
      → Computes F cfg m n h c c'
      → Ready c'
  Computes-Ready c c' r h = record {
    no_error = h.no_error;
    these_constants = h.same_constants ∙ r.these_constants;
    no_locals = h.same_slots ∙ r.no_locals;
  }

  goes_on :
      (c : Compiler F)
      → c.had_error ≡ false
      → (f : Compiler F → Attempt (Compiler F)) → unless_error F c f ≡ f c
  goes_on c e f = ap (λ t. if t then done c else f c) e

  then_goes :
      {m : Attempt (Compiler F)} {c : Compiler F}
      → m ≡ done c
      → c.had_error ≡ false
      → (f : Compiler F → Attempt (Compiler F)) → (m >>= λ c. unless_error F c f) ≡ f c
  then_goes {m} {c} e fine f = ap (λ a. a >>= λ c. unless_error F c f) e ∙ goes_on c fine f

  constant_lem :
      (name : Bytes) (v w : Value F) (c : Compiler F)
      → lookup name constants ≡ some v
      → Reads F v w
      → Ready c
      → (c' : Compiler F) × (compile_identifier F name c ≡ c') × Computes F cfg (next w) 1 1 c c'
  unfolding compile_identifier lookup
  constant_lem name v w c here reads r =
      let (c', e, h) = push_constant-Computes F cfg c r.no_error v w reads in
      (
        c',
        ap (λ slots. named F (lookup name slots) name c) r.no_locals
            ∙ ap (λ table. constant_named F (lookup name table) c) r.these_constants
            ∙ ap (λ o. constant_named F o c) here
            ∙ ap (λ o. or_fail F o c) e,
        h,
      )

  pub compile_expression-Compiles :
      {e : Expression} {m : Exec F (Value F)}
      → Means F N constants e m
      → (c : Compiler F) → Ready c
      → Compiles e m c
  unfolding compile_expression count depth
  compile_expression-Compiles (Means.small_integer v e) c r =
      (push_int F v c, rw (r.no_error, e) refl, push_int-Computes F cfg c r.no_error v)
  compile_expression-Compiles (Means.large_integer v e) c r =
      (push_int128 F v c, rw (r.no_error, e) refl, push_int128-Computes F cfg c r.no_error v)
  compile_expression-Compiles (Means.float v e alone) c r =
      (push_float F v c, rw (r.no_error, e) refl, push_float-Computes F cfg c r.no_error v alone)
  compile_expression-Compiles (Means.boolean {value}) c r = (
    push_bool F (same_bytes value (codes "true")) c,
    rw r.no_error refl,
    push_bool-Computes F cfg c r.no_error (same_bytes value (codes "true")),
  )
  compile_expression-Compiles (Means.constant {name} v {w} e reads) c r =
      let (c', f, h) = constant_lem name v w c e reads r in
      (c', goes_on c r.no_error (λ c. done (compile_identifier F name c)) ∙ ap done f, h)
  compile_expression-Compiles (Means.field {object} {field} v {w} e reads) c r =
      let (c', f, h) = constant_lem (object ++ codes "." ++ field) v w c e reads r in
      (
        c',
        goes_on c r.no_error (λ c. done (compile_identifier F (object ++ codes "." ++ field) c))
            ∙ ap done f,
        h,
      )
  compile_expression-Compiles
        (Means.binary {op} {mode} {left} {right} {l} {r = m} {f} means means_l means_m) c r =
      let (c', e, h) = compile_expression-Compiles means_l c r in
      let (c'', e', h') = compile_expression-Compiles means_m c' (Computes-Ready c c' r h) in
      let (code, n, e'', steps) = binary_code_lem F cfg op mode f means in
      (
        emit F code n c'',
        goes_on c r.no_error (λ c. compile_expression F N left c >>= λ c. unless_error F c λ c.
              compile_expression F N right c >>= λ c.
              unless_error F c (emit_code F (binary_code op mode)))
            ∙ then_goes e h.no_error (λ c. compile_expression F N right c >>= λ c.
                unless_error F c (emit_code F (binary_code op mode)))
            ∙ then_goes e' h'.no_error (emit_code F (binary_code op mode))
            ∙ ap (λ o. emit_code F o c'') e'',
        Computes-binary F cfg code n l m f (count left) (count right) (depth left) (depth right) c
            c' c'' steps h h',
      )
  compile_expression-Compiles (Means.unary {op} {mode} {operand} {m} {f} means means_m) c r =
      let (c', e, h) = compile_expression-Compiles means_m c r in
      let (code, n, e', steps) = unary_code_lem F cfg op mode f means in
      (
        emit F code n c',
        goes_on c r.no_error (λ c. compile_expression F N operand c >>= λ c.
              unless_error F c (emit_code F (unary_code op mode)))
            ∙ then_goes e h.no_error (emit_code F (unary_code op mode))
            ∙ ap (λ o. emit_code F o c') e',
        Computes-unary F cfg code n m f (count operand) (depth operand) c c' steps h,
      )
  compile_expression-Compiles (Means.cast {kind} {size} {sign} {operand} {m} {f} means means_m) c
        r =
      let (c', e, h) = compile_expression-Compiles means_m c r in
      let (code, n, e', steps) = cast_code_lem F cfg kind size sign f means in
      (
        emit F code n c',
        goes_on c r.no_error (λ c. compile_expression F N operand c >>= λ c.
              unless_error F c (emit_code F (cast_code kind size sign)))
            ∙ then_goes e h.no_error (emit_code F (cast_code kind size sign))
            ∙ ap (λ o. emit_code F o c') e',
        Computes-unary F cfg code n m f (count operand) (depth operand) c c' steps h,
      )
