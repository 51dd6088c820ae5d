-- ===== src/Lexer/Chars/Grabs.antt =====
-- Stages of a reader: all that they hold was read since it began, and it is not empty.
use djinn_lang_v.Base.{
  ℕ, ◌<◌, Bool, true, false, [], ◌∷◌, ◌==◌, ◌≡◌, ap, Bytes, arith, length, length-append,
}
use djinn_lang_v.Lexer.State.{Lexer, peek}
use djinn_lang_v.Lexer.Cursor.{Reads, Reads-nil, Reads-grab}
use djinn_lang_v.Lexer.Chars.{Reading, grab, read_while}
use djinn_lang_v.Lexer.Chars.Runs.{Runs, read_while-Runs, read_while-Reads}

pub record Grabs (s : Lexer) (r : Reading) : Type 0 where
  pub reads : Reads s r.0 r.1
  pub some_read : 0 < length r.0

pub grab-Grabs :
    (s : Lexer) (r : Reading) → Reads s r.0 r.1 → (peek r.1 == 0) ≡ false → Grabs s (grab r)
grab-Grabs s r h c = record {
  reads = Reads-grab r.0 h c;
  some_read = omega (arith, length-append {0} r.0 (peek r.1 ∷ []));
}

module _ (test : ℕ → Bool) (stops : test 0 ≡ false) where
  pub read_while-Grabs : (s : Lexer) (r : Reading) → Grabs s r → Grabs s (read_while test r)
  read_while-Grabs s r g =
      let (w, runs) = read_while-Runs test stops r.0 r.1 in
      record {
        reads = read_while-Reads test stops s r g.reads;
        some_read = omega (arith, ap length runs.appended, length-append {0} r.0 w, g.some_read);
      }

  -- From the start, where the first character passes the test.
  pub read_while-Grabs_first :
      (s : Lexer) → test (peek s) ≡ true → Grabs s (read_while test ([], s))
  read_while-Grabs_first s h =
      let (w, runs) = read_while-Runs test stops [] s in
      record { reads = read_while-Reads test stops s ([], s) (Reads-nil s); some_read = go w runs }
    where
      go :
          (w : Bytes)
          → Runs test [] s w (read_while test ([], s))
          → 0 < length (read_while test ([], s)).0
      go [] runs = absurd (cc (h, runs.ends, ap (λ (u : Lexer). test (peek u)) runs.reads.moved))
      go (c ∷ w) runs = omega (arith, ap length runs.appended)
