-- ===== src/Lexer/Cursor/Place.antt =====
-- The line and the column of the cursor, from the text before it.
use djinn_lang_v.Base.{
  ℕ, zero, suc, ◌+◌, ◌%◌, ◌^◌, ◌≤◌, [], ◌∷◌, ◌++◌, ◌==◌, ◌≡◌, refl, sym, append_assoc, append-nil,
  Bytes, arith, if◌then◌else◌, length, take, subst,
}
use djinn_lang_v.Lexer.State.{Lexer, start, advance, advance_n}
use djinn_lang_v.Lexer.Cursor.{Reads}
use djinn_lang_v.Lexer.Cursor.Ahead.{rest_advance}

abbrev pub line_feeds : Bytes → ℕ
line_feeds [] = 0
line_feeds (c ∷ w) = (if c == b'\n' then 1 else 0) + line_feeds w

-- The characters since the last line feed, or `n` more if there is none.
abbrev pub since_line_feed : ℕ → Bytes → ℕ
since_line_feed n [] = n
since_line_feed n (c ∷ w) = since_line_feed (if c == b'\n' then 0 else n + 1) w

abbrev pub line_after : Bytes → ℕ
line_after w = (1 + line_feeds w) % 2 ^ 32

abbrev pub column_after : Bytes → ℕ
column_after w = (1 + since_line_feed 0 w) % 2 ^ 32

-- The cursor stands behind `w`.
pub record At (w : Bytes) (s : Lexer) : Type 0 where
  pub line : s.line ≡ line_after w
  pub column : s.column ≡ column_after w

line_feeds-append :
    (w : Bytes) (c : ℕ) → line_feeds (w ++ c ∷ []) ≡ line_feeds w + (if c == b'\n' then 1 else 0)
line_feeds-append [] c = omega arith
line_feeds-append (x ∷ w) c = omega (arith, line_feeds-append w c)

since_line_feed-append :
    (n : ℕ) (w : Bytes) (c : ℕ)
    → since_line_feed n (w ++ c ∷ []) ≡ (if c == b'\n' then 0 else since_line_feed n w + 1)
since_line_feed-append n [] c = refl
since_line_feed-append n (x ∷ w) c = since_line_feed-append (if x == b'\n' then 0 else n + 1) w c

pub start-At : (source file_id : Bytes) → At [] (start source file_id)
unfolding start
start-At source file_id = record { line = refl; column = refl }

At-advance_on :
    (w : Bytes) (c : ℕ) (r : Bytes) (s : Lexer)
    → At w s
    → At (w ++ c ∷ []) (advance (record s { rest = c ∷ r }))
unfolding advance
At-advance_on w c r s h = record {
  line = ground (arith, line_feeds-append w c, h.line);
  column = ground (arith, since_line_feed-append 0 w c, h.column);
}

At-advance :
    (w : Bytes) (c : ℕ) (r : Bytes) (s : Lexer)
    → s.rest ≡ c ∷ r
    → At w s
    → At (w ++ c ∷ []) (advance s)
At-advance w c r s e h =
    subst (λ q. At (w ++ c ∷ []) (advance (record s { rest = q }))) (sym e)
      (At-advance_on w c r s h)

pub At-advance_n :
    (w v r : Bytes) (s : Lexer) → s.rest ≡ v ++ r → At w s → At (w ++ v) (advance_n (length v) s)
unfolding advance_n
At-advance_n w [] r s e h = rw append-nil h
At-advance_n w (c ∷ v) r s e h = rw (← append_assoc w (c ∷ []) v) (
    At-advance_n (w ++ c ∷ []) v r (advance s) (rest_advance s c (v ++ r) e)
      (At-advance w c (v ++ r) s e h))

-- The cursor keeps the place of the text that it has read.
pub Reads-At : {s s' : Lexer} (w v : Bytes) → Reads s v s' → At w s → At (w ++ v) s'
Reads-At {s} {s'} w v reads h =
    subst (At (w ++ v)) (sym reads.moved) (At-advance_n w v s'.rest s reads.splits h)

-- So too where it stopped on the way.
pub At-take :
    (n : ℕ) (w v r : Bytes) (s : Lexer)
    → n ≤ length v
    → s.rest ≡ v ++ r
    → At w s
    → At (w ++ take n v) (advance_n n s)
unfolding advance_n
At-take zero w v r s h e a = rw append-nil a
At-take (suc n) w [] r s h e a = absurd (omega arith)
At-take (suc n) w (c ∷ v) r s h e a = rw (← append_assoc w (c ∷ []) (take n v)) (
    At-take n (w ++ c ∷ []) v r (advance s) (omega arith) (rest_advance s c (v ++ r) e)
      (At-advance w c (v ++ r) s e a))
