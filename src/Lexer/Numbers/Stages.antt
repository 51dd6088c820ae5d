-- ===== src/Lexer/Numbers/Stages.antt =====
-- lexer/Lexer.cpp: the steps of `read_number`, each against the part of the grammar that it reads.
use djinn_lang_v.Base.{
  ℕ, zero, suc, Bool, true, false, ◌||◌, not, [], ◌∷◌, ◌++◌, ◌==◌, ◌≡◌, refl, sym, ◌∙◌, ap, subst,
  append_assoc, append-nil, arith, Bool-cases, inl, inr, if◌then◌else◌, if_cases, Bytes, get_or,
  tail,
}
use djinn_lang_v.Lexer.State.{peek, advance}
use djinn_lang_v.Lexer.Cursor.{rest_of_peek}
use djinn_lang_v.Lexer.Result.{Holds}
use djinn_lang_v.Lexer.Chars.{Reading, grab, is_digit, read_while}
use djinn_lang_v.Lexer.Chars.Runs.{read_while-Runs}
use djinn_lang_v.Lexer.Numbers.{
  is_decimal_part, read_suffix, read_fraction, read_sign, read_exponent,
}
use djinn_lang_v.Lexer.Numbers.Grammar.{
  Language, One, Run, Seq, Part, present, absent, head, is_e, is_sign, is_dot, is_suffix, Suffix,
  Fraction, Sign, Digits, Exponent, bad_exponent,
}

-- A stage of the reader adds a word of the language to its value, and takes it off the text.
pub record Stage (P : Language) (r r' : Reading) : Type 0 where
  pub word : Bytes
  pub appended : r'.0 ≡ r.0 ++ word
  pub splits : r.1.rest ≡ word ++ r'.1.rest
  pub shape : P word r'.1.rest

pub Stage-seq :
    {P Q : Language} (r r' r'' : Reading) → Stage P r r' → Stage Q r' r'' → Stage (Seq P Q) r r''
Stage-seq {P} r r' r'' a b = record {
  word = a.word ++ b.word;
  appended = b.appended ∙ ap (λ v. v ++ b.word) a.appended ∙ append_assoc r.0 a.word b.word;
  splits = a.splits ∙ ap (λ v. a.word ++ v) b.splits ∙ sym (append_assoc a.word b.word r''.1.rest);
  shape = (a.word, b.word, refl, subst (P a.word) b.splits a.shape, b.shape);
}

pub Stage-map :
    {P Q : Language} (r r' : Reading)
    → ((w : Bytes) → r.1.rest ≡ w ++ r'.1.rest → P w r'.1.rest → Q w r'.1.rest)
    → Stage P r r'
    → Stage Q r r'
Stage-map r r' f a = record {
  word = a.word;
  appended = a.appended;
  splits = a.splits;
  shape = f a.word a.splits a.shape;
}

pub Stage-none : {P : Language} (r : Reading) → P [] r.1.rest → Stage P r r
Stage-none r h = record { word = []; appended = sym (append-nil r.0); splits = refl; shape = h }

module _ (test : ℕ → Bool) (stops : test 0 ≡ false) where
  pub grab-Stage : (r : Reading) → test (peek r.1) ≡ true → Stage (One test) r (grab r)
  unfolding advance
  grab-Stage r h =
      let (cs, e) = rest_of_peek r.1 (some_char (peek r.1) h) in
      record {
        word = peek r.1 ∷ [];
        appended = refl;
        splits = e ∙ ap (λ q. peek r.1 ∷ tail q) (sym e);
        shape = (peek r.1, refl, h);
      }
    where
      some_char : (c : ℕ) → test c ≡ true → (c == 0) ≡ false
      some_char zero t = absurd (cc (stops, t))
      some_char (suc c) t = ground arith

  pub read_while-Stage : (r : Reading) → Stage (Run test) r (read_while test r)
  read_while-Stage r =
      let (w, runs) = read_while-Runs test stops r.0 r.1 in
      record {
        word = w;
        appended = runs.appended;
        splits = runs.reads.splits;
        shape = (runs.passes, runs.ends);
      }

module _ {P : Language} (starts : Bytes → Bool) (r : Reading) where
  Stage-present :
      (r' : Reading)
      → starts (r.1.rest) ≡ true
      → Stage P r r'
      → Stage (λ w rest. Part starts P rest true w) r r'
  Stage-present r' h = Stage-map r r' (λ w e p. present (subst (λ t. starts t ≡ true) e h) p)

  Stage-absent : starts (r.1.rest) ≡ false → Stage (λ w rest. Part starts P rest false w) r r
  Stage-absent h = Stage-none r (absent h)

-- A part of one character, of which the test looks at that character only.
one-Stage :
    (test : ℕ → Bool)
    → test 0 ≡ false
    → (r : Reading)
    → Stage
        (λ w rest. (b : Bool) × Part (λ t. test (head t)) (One test) rest b w)
        r
        (if test (peek r.1) then grab r else r)
one-Stage test stops r =
    if_cases (Stage _ r) (test (peek r.1))
      (λ h.
        Stage-map r (grab r) (λ w e p. (true, p))
          (Stage-present (λ t. test (head t)) r (grab r) h (grab-Stage test stops r h)))
      (λ h.
        Stage-map r r (λ w e p. (false, p)) (Stage-absent {P = One test} (λ t. test (head t)) r h))

pub read_suffix-Stage : (allow : Bool) (r : Reading) → Stage (Suffix allow) r (read_suffix allow r)
unfolding read_suffix
read_suffix-Stage allow r = one-Stage (is_suffix allow) (ground arith) r

read_sign-Stage : (r : Reading) → Stage Sign r (read_sign r)
unfolding read_sign
read_sign-Stage r = one-Stage is_sign refl r

pub read_fraction-Stage : (r : Reading) → Stage (Fraction (read_fraction r).0) r (read_fraction r).1
unfolding read_fraction
read_fraction-Stage r =
    if_cases (λ (q : Bool × Reading). Stage (Fraction q.0) r q.1) _
      (λ h. Stage-present _ r _ h (
        Stage-seq r (grab r) _ (grab-Stage is_dot refl r (ground arith))
          (read_while-Stage is_decimal_part (unfold is_decimal_part in refl) (grab r))))
      (λ h. Stage-absent _ r h)

pub get_or-tail : (v : Bytes) (n : ℕ) → get_or (tail v) n 0 ≡ get_or v (suc n) 0
get_or-tail [] n = refl
get_or-tail (c ∷ v) n = refl

no_digits :
    (r : Reading)
    → is_e (peek r.1) ≡ true
    → not (is_digit (peek (read_sign (grab r)).1)) ≡ true
    → bad_exponent r.1.rest ≡ true
unfolding bad_exponent read_sign advance
no_digits r e n =
    ground (arith, get_or-tail r.1.rest 0, get_or-tail (tail r.1.rest) 0, get_or-tail r.1.rest 1)

-- An exponent that is there makes the number a float, whatever it was before it.
abbrev pub ReadsExponent : Bool → Reading → Bool × Reading → Type 0
ReadsExponent was_float r q = (b : Bool) × (q.0 ≡ (was_float || b)) × Stage (Exponent b) r q.1

or_true : (b : Bool) → true ≡ (b || true)
or_true true = refl
or_true false = refl

or_false : (b : Bool) → b ≡ (b || false)
or_false true = refl
or_false false = refl

pub read_exponent-Stage :
    (was_float : Bool) (r : Reading)
    → Holds
        (bad_exponent r.1.rest ≡ true)
        (ReadsExponent was_float r)
        (read_exponent (was_float, r))
unfolding read_exponent
read_exponent-Stage was_float r = elim (Bool-cases (is_e (peek r.1))) [
  | inr plain ↦ rw plain (false, or_false was_float, Stage-absent _ r plain)
  | inl e ↦ rw e (
      if_cases (Holds (bad_exponent r.1.rest ≡ true) (ReadsExponent was_float r))
        (not (is_digit (peek (read_sign (grab r)).1))) (λ n. no_digits r e n)
        (λ d. (
          true,
          or_true was_float,
          Stage-present _ r _ e (
              Stage-seq r (grab r) _ (grab-Stage is_e refl r e) (
                Stage-seq (grab r) (read_sign (grab r)) _ (read_sign-Stage (grab r))
                  (digits (read_sign (grab r)) (ground arith)))),
        )))
]
  where
    digits : (q : Reading) → is_digit (peek q.1) ≡ true → Stage Digits q (read_while is_digit q)
    digits q h =
        Stage-map q _ (λ w e p. (subst (λ t. is_digit (head t) ≡ true) e h, p))
          (read_while-Stage is_digit (unfold is_digit in refl) q)
