-- ===== src/Lexer/Cursor.antt =====
-- The cursor of `Lexer`: what it means to read a piece of text, and where the cursor then stands.
pub mod Ahead
pub mod Place
use djinn_lang_v.Base.{
  ℕ, zero, suc, ◌+◌, ◌%◌, ◌^◌, Bool, false, true, [], ◌∷◌, ◌++◌, ◌==◌, ◌||◌, if◌then◌else◌, ◌≡◌,
  refl, sym, ap, ◌∙◌, append_assoc, append-nil, Bytes, length, length-append, tail, drop, get_or,
  ltb, arith, Bool-cases, ◌⊎◌, inl, inr,
}
use djinn_lang_v.Lexer.State.{Lexer, start, has, peek, advance, advance_n}

-- The cursor read `w` between the two states, and nothing but `advance` moved it.
pub record Reads (s : Lexer) (w : Bytes) (s' : Lexer) : Type 0 where
  pub splits : s.rest ≡ w ++ s'.rest
  pub moved : s' ≡ advance_n (length w) s

pub Reads-nil : (s : Lexer) → Reads s [] s
unfolding advance_n
Reads-nil s = record { splits = refl; moved = refl }

-- A character is at hand where a test that '\0' fails holds of `peek`.
pub rest_of_peek : (s : Lexer) → (peek s == 0) ≡ false → (cs : Bytes) × (s.rest ≡ peek s ∷ cs)
rest_of_peek s = go s.rest
  where
    go : (r : Bytes) → (get_or r 0 0 == 0) ≡ false → (cs : Bytes) × (r ≡ get_or r 0 0 ∷ cs)
    go [] h = cc
    go (c ∷ cs) h = (cs, refl)

pub rest_of_has : (s : Lexer) → has s 0 ≡ true → (cs : Bytes) × (s.rest ≡ peek s ∷ cs)
rest_of_has s = go s.rest
  where
    go : (r : Bytes) → ltb 0 (length r) ≡ true → (cs : Bytes) × (r ≡ get_or r 0 0 ∷ cs)
    go [] h = absurd (ground arith)
    go (c ∷ cs) h = (cs, refl)

pub rest_of_not_has : (s : Lexer) → has s 0 ≡ false → s.rest ≡ []
rest_of_not_has s = go s.rest
  where
    go : (r : Bytes) → ltb 0 (length r) ≡ false → r ≡ []
    go [] h = refl
    go (c ∷ cs) h = absurd (ground arith)

advance_n-suc : (n : ℕ) (s : Lexer) → advance_n (suc n) s ≡ advance (advance_n n s)
unfolding advance_n
advance_n-suc zero s = refl
advance_n-suc (suc n) s = advance_n-suc n (advance s)

advance_n-append :
    (v w : Bytes) (s : Lexer)
    → advance_n (length (v ++ w)) s ≡ advance_n (length w) (advance_n (length v) s)
unfolding advance_n
advance_n-append [] w s = refl
advance_n-append (c ∷ v) w s = advance_n-append v w (advance s)

pub Reads-trans : {s t u : Lexer} (v w : Bytes) → Reads s v t → Reads t w u → Reads s (v ++ w) u
Reads-trans v w a b = record {
  splits = a.splits ∙ ap (λ r. v ++ r) b.splits ∙ sym (append_assoc v w _);
  moved = b.moved ∙ ap (advance_n (length w)) a.moved ∙ sym (advance_n-append v w _);
}

pub Reads-one : (s : Lexer) (c : ℕ) (cs : Bytes) → s.rest ≡ c ∷ cs → Reads s (c ∷ []) (advance s)
unfolding advance advance_n
Reads-one s c cs e = record { splits = e ∙ ap (λ r. c ∷ tail r) (sym e); moved = refl }

-- One more character, at the end of what was read.
pub Reads-grab :
    {s t : Lexer} (v : Bytes)
    → Reads s v t
    → (peek t == 0) ≡ false
    → Reads s (v ++ peek t ∷ []) (advance t)
Reads-grab {t} v r h =
    let (cs, e) = rest_of_peek t h in Reads-trans v (peek t ∷ []) r (Reads-one t (peek t) cs e)

-- So too, but where the text ran out the cursor may have moved past its end.
pub record Passes (s : Lexer) (w : Bytes) (s' : Lexer) : Type 0 where
  pub splits : s.rest ≡ w ++ s'.rest
  pub moved : (s' ≡ advance_n (length w) s) ⊎ (s'.rest ≡ [])

pub Reads-Passes : {s s' : Lexer} {w : Bytes} → Reads s w s' → Passes s w s'
Reads-Passes r = record { splits = r.splits; moved = inl r.moved }

pub Reads-Passes_trans :
    {s t u : Lexer} (v w : Bytes) → Reads s v t → Passes t w u → Passes s (v ++ w) u
Reads-Passes_trans v w a b = record {
  splits = a.splits ∙ ap (λ r. v ++ r) b.splits ∙ sym (append_assoc v w _);
  moved = elim b.moved [
    | inl m ↦ inl (m ∙ ap (advance_n (length w)) a.moved ∙ sym (advance_n-append v w _))
    | inr e ↦ inr e
  ];
}
