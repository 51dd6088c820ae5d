-- ===== src/Lexer/Chars/Runs.antt =====
-- What `read_while` reads: the longest run of characters that pass the test.
use djinn_lang_v.Base.{
  ℕ, Bool, true, false, [], ◌∷◌, ◌++◌, ◌≡◌, refl, sym, ◌∙◌, append_assoc, append-nil, Bytes,
  Bool-cases, inl, inr,
}
use djinn_lang_v.Lexer.State.{Lexer, peek, advance}
use djinn_lang_v.Lexer.Cursor.{Reads, Reads-nil, Reads-one, Reads-trans}
use djinn_lang_v.Lexer.Chars.{Reading, read_while_on, read_while}

-- Every character passes the test.
abbrev pub All : (ℕ → Bool) → Bytes → Type 0
All test [] = Unit
All test (c ∷ cs) = (test c ≡ true) × All test cs

-- The run `w` was read behind `value`, and is as long as can be.
pub record Runs (test : ℕ → Bool) (value : Bytes) (s : Lexer) (w : Bytes) (r : Reading)
    : Type 0 where
  pub appended : r.0 ≡ value ++ w
  pub reads : Reads s w r.1
  pub passes : All test w
  pub ends : test (peek r.1) ≡ false

module _ (test : ℕ → Bool) (stops : test 0 ≡ false) where
  read_while_on-Runs :
      (cs value : Bytes) (s : Lexer)
      → (w : Bytes) × Runs test value
          (record s { rest = cs })
          w
          (read_while_on test cs (value, record s { rest = cs }))
  unfolding read_while_on advance
  read_while_on-Runs [] value s = (
    [],
    record {
      appended = sym (append-nil value);
      reads = Reads-nil (record s { rest = [] });
      passes = tt;
      ends = stops;
    },
  )
  read_while_on-Runs (c ∷ cs) value s =
      let here = record s { rest = c ∷ cs } in
      let (w, later) = read_while_on-Runs cs (value ++ c ∷ []) (advance here) in
      elim (Bool-cases (test c)) [
        | inl pass ↦ (
          c ∷ w,
          rw pass (record {
            appended = later.appended ∙ append_assoc value (c ∷ []) w;
            reads = Reads-trans (c ∷ []) w (Reads-one here c cs refl) later.reads;
            passes = (pass, later.passes);
            ends = later.ends;
          }),
        )
        | inr fail ↦ (
          [],
          rw fail (record {
            appended = sym (append-nil value);
            reads = Reads-nil here;
            passes = tt;
            ends = fail;
          }),
        )
      ]

  pub read_while-Runs :
      (value : Bytes) (s : Lexer) → (w : Bytes) × Runs test value s w (read_while test (value, s))
  unfolding read_while
  read_while-Runs value s = read_while_on-Runs s.rest value s

  -- As a stage of a reader that began at `s₀`.
  pub read_while-Reads :
      (s₀ : Lexer) (r : Reading)
      → Reads s₀ r.0 r.1
      → Reads s₀ (read_while test r).0 (read_while test r).1
  read_while-Reads s₀ r h =
      let (w, runs) = read_while-Runs r.0 r.1 in rw (runs.appended) (Reads-trans r.0 w h runs.reads)
