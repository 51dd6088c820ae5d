-- ===== src/Lexer/Trivia/Skips.antt =====
-- lexer/Lexer.cpp: what `skip_whitespace` skips, as blanks and comments.
use djinn_lang_v.Base.{
  ℕ, zero, suc, ◌≤◌, Bool, true, false, ◌&&◌, ◌||◌, not, [], ◌∷◌, ◌++◌, ◌==◌, ◌≡◌, refl, sym, ap,
  subst, ◌∙◌, Bytes, arith, Bool-cases, inl, inr, length, length-append, get_or, ltb,
}
use djinn_lang_v.Lexer.State.{Lexer, has, peek, peek_at, advance}
use djinn_lang_v.Lexer.Cursor.{Reads, Reads-nil, Reads-one, Reads-trans, rest_of_has}
use djinn_lang_v.Lexer.Chars.{read_while_on, read_while}
use djinn_lang_v.Lexer.Chars.Runs.{All, read_while-Runs}
use djinn_lang_v.Lexer.Trivia.{is_blank, skip_comment_on, skip_comment, skip_on, skip_whitespace}

abbrev pub in_comment : ℕ → Bool
in_comment c = not (c == b'\n') && not (c == 0)

-- Blanks and comments, in front of `rest`. A comment runs to a line feed, to a NUL or to the end,
-- and not less far.
pub data IsTrivia (rest : Bytes) : Bytes → Type 0 where
  none : IsTrivia rest []
  blank : {c : ℕ} {t : Bytes} → is_blank c ≡ true → IsTrivia rest t → IsTrivia rest (c ∷ t)
  comment :
      (b : Bytes) {t : Bytes}
      → All in_comment b
      → in_comment (get_or (t ++ rest) 0 0) ≡ false
      → IsTrivia rest t
      → IsTrivia rest (b'/' ∷ b'/' ∷ (b ++ t))

-- Whether a blank or a comment starts at the cursor.
abbrev pub at_trivia : Lexer → Bool
at_trivia s = has s 0 && (is_blank (peek s) || (peek s == b'/' && has s 1 && peek_at s 1 == b'/'))

pub record Skips (s : Lexer) (t : Bytes) (s' : Lexer) : Type 0 where
  pub reads : Reads s t s'
  pub trivia : IsTrivia s'.rest t
  pub ends : at_trivia s' ≡ false

skip_comment_on-read_while_on :
    (cs value : Bytes) (s : Lexer)
    → skip_comment_on cs s ≡ (read_while_on in_comment cs (value, s)).1
unfolding skip_comment_on read_while_on
skip_comment_on-read_while_on [] value s = refl
skip_comment_on-read_while_on (c ∷ cs) value s = elim (Bool-cases (in_comment c)) [
  | inl inside ↦ rw inside (skip_comment_on-read_while_on cs _ (advance s))
  | inr out ↦ rw out
]

skip_comment-Runs :
    (s : Lexer)
    → (w : Bytes) × Reads s w (skip_comment s)
      × All in_comment w
      × (in_comment (peek (skip_comment s)) ≡ false)
unfolding skip_comment
skip_comment-Runs s =
    let (w, runs) = read_while-Runs in_comment refl [] s in
    rw (skip_comment_on-read_while_on s.rest [] s)
      (unfold read_while in (w, runs.reads, runs.passes, runs.ends))

comment_start :
    (s : Lexer)
    → (peek s == b'/' && has s 1 && peek_at s 1 == b'/') ≡ true
    → (r : Bytes) × (s.rest ≡ b'/' ∷ b'/' ∷ r)
comment_start s = go s.rest
  where
    go :
        (r : Bytes)
        → (get_or r 0 0 == b'/' && ltb 1 (length r) && get_or r 1 0 == b'/') ≡ true
        → (q : Bytes) × (r ≡ b'/' ∷ b'/' ∷ q)
    go [] h = absurd (ground arith)
    go (a ∷ []) h = absurd (ground arith)
    go (a ∷ b ∷ r) h = (r, ground arith)

comment_shape :
    (w r u : Bytes)
    → b'/' ∷ b'/' ∷ r ≡ w ++ u
    → All in_comment w
    → (in_comment (get_or u 0 0)) ≡ false
    → (b : Bytes) × (w ≡ b'/' ∷ b'/' ∷ b) × All in_comment b
comment_shape [] r u e a f = absurd (ground arith)
comment_shape (x ∷ []) r u e a f = absurd (ground arith)
comment_shape (x ∷ y ∷ b) r u e a f = (b, ground arith, a.1.1)

-- A comment at the cursor is skipped whole, its two slashes included, up to where it ends.
skip_comment-comment :
    (s : Lexer)
    → (peek s == b'/' && has s 1 && peek_at s 1 == b'/') ≡ true
    → (b : Bytes) × Reads s (b'/' ∷ b'/' ∷ b) (skip_comment s)
      × All in_comment b
      × (in_comment (peek (skip_comment s)) ≡ false)
skip_comment-comment s h =
    let (r, starts) = comment_start s h in
    let (w, reads, all, ends) = skip_comment-Runs s in
    let (b, shape, all_b) =
      comment_shape w r (skip_comment s).rest (sym starts ∙ reads.splits) all ends in
    (b, subst (λ v. Reads s v (skip_comment s)) shape reads, all_b, ends)

-- What was read is no longer left.
shorter :
    {s s' : Lexer} (c : ℕ) (w : Bytes) {fuel : ℕ}
    → Reads s (c ∷ w) s'
    → length s.rest ≤ suc fuel
    → length s'.rest ≤ fuel
shorter {s} {s'} c w r h = omega (arith, ap length r.splits, length-append {0} w s'.rest)

skip_on-Skips :
    (fuel : ℕ) (s : Lexer) → length s.rest ≤ fuel → (t : Bytes) × Skips s t (skip_on fuel s)
unfolding skip_on
skip_on-Skips zero s h = ([], record { reads = Reads-nil s; trivia = none; ends = ground arith })
skip_on-Skips (suc fuel) s h = elim (Bool-cases (has s 0)) [
  | inr out ↦ ([], rw out (record { reads = Reads-nil s; trivia = none; ends = rw out refl }))
  | inl more ↦ elim (Bool-cases (is_blank (peek s))) [
    | inl white ↦
        let (cs, e) = rest_of_has s more in
        let one = Reads-one s (peek s) cs e in
        let (t, later) = skip_on-Skips fuel (advance s) (shorter (peek s) [] one h) in
        (
          peek s ∷ t,
          rw (more, white)
              (record {
                reads = Reads-trans (peek s ∷ []) t one later.reads;
                trivia = blank white later.trivia;
                ends = later.ends;
              }),
        )
    | inr dark ↦ elim (Bool-cases (peek s == b'/' && has s 1 && peek_at s 1 == b'/')) [
      | inl slashes ↦
          let (b, reads, all, stops) = skip_comment-comment s slashes in
          let (t, later) = skip_on-Skips fuel (skip_comment s) (shorter b'/' (b'/' ∷ b) reads h) in
          (
            b'/' ∷ b'/' ∷ (b ++ t),
            rw (more, dark, slashes)
                (record {
                  reads = Reads-trans (b'/' ∷ b'/' ∷ b) t reads later.reads;
                  trivia =
                      comment b all
                        (subst (λ r. in_comment (get_or r 0 0) ≡ false) later.reads.splits stops)
                        later.trivia;
                  ends = later.ends;
                }),
          )
      | inr other ↦ (
        [],
        rw (more, dark, other)
            (record { reads = Reads-nil s; trivia = none; ends = rw (more, dark, other) refl }),
      )
    ]
  ]
]

-- From any state the skipped text is blanks and comments, each comment up to the end of its line,
-- to a NUL or to the end of the text; and neither starts where the cursor then stands.
pub skip_whitespace-Skips : (s : Lexer) → (t : Bytes) × Skips s t (skip_whitespace s)
unfolding skip_whitespace
skip_whitespace-Skips s = skip_on-Skips (length s.rest) s (omega arith)
