-- ===== src/Lexer/Strings/RoundTrip.antt =====
-- lexer/Lexer.cpp: `read_string` on a value written with escapes between quotes.
use djinn_lang_v.Base.{
  ℕ, false, ◌&&◌, [], ◌∷◌, ◌++◌, ◌==◌, ◌≡◌, ◌≢◌, refl, ap, ◌⊎◌, ◌∙◌, append_assoc, append-nil,
  Bytes, arith, Bool-cases, inl, inr, if◌then◌else◌, length, length-append, get_or, ◌<◌,
}
use djinn_lang_v.Lexer.State.{Lexer, advance, make_token_from}
use djinn_lang_v.Lexer.Strings.{two_quotes_follow, read_quoted_on, read_string}

-- How a character is written between quotes.
abbrev pub write_char : ℕ → Bytes
write_char c =
    if c == b'\n'
    then b'\\' ∷ b'n' ∷ []
    else if c == b'\t'
    then b'\\' ∷ b't' ∷ []
    else if c == b'\\'
    then b'\\' ∷ b'\\' ∷ []
    else if c == b'"'
    then b'\\' ∷ b'"' ∷ []
    else c ∷ []

abbrev pub write_text : Bytes → Bytes
write_text [] = []
write_text (c ∷ v) = write_char c ++ write_text v

-- No character is a NUL, at which a literal ends.
abbrev pub NoNul : Bytes → Type 0
NoNul [] = Unit
NoNul (c ∷ v) = (c ≢ 0) × NoNul v

abbrev at : Lexer → Bytes → Lexer
at s r = record s { rest = r }

-- One written character, whatever comes behind it.
read_quoted_on-write_char :
    (c : ℕ) (x : ℕ) (r value : Bytes) (s : Lexer)
    → c ≢ 0
    → (t : Lexer) × (read_quoted_on (write_char c ++ x ∷ r) (value, at s (write_char c ++ x ∷ r))
        ≡ read_quoted_on (x ∷ r) (value ++ c ∷ [], at t (x ∷ r)))
unfolding read_quoted_on advance
read_quoted_on-write_char c x r value s n =
    let here = at s (write_char c ++ x ∷ r) in
    elim (Bool-cases (c == b'\n')) [
      | inl e ↦ (advance (advance here), ground arith)
      | inr a ↦ elim (Bool-cases (c == b'\t')) [
        | inl e ↦ (advance (advance here), ground arith)
        | inr b ↦ elim (Bool-cases (c == b'\\')) [
          | inl e ↦ (advance (advance here), ground arith)
          | inr d ↦ elim (Bool-cases (c == b'"')) [
            | inl e ↦ (advance (advance here), ground arith)
            | inr e ↦ (advance here, ground arith)
          ]
        ]
      ]
    ]

read_quoted_on-write_char_before :
    (c : ℕ) (q value : Bytes) (s : Lexer)
    → c ≢ 0
    → 0 < length q
    → (t : Lexer) × (read_quoted_on (write_char c ++ q) (value, at s (write_char c ++ q))
        ≡ read_quoted_on q (value ++ c ∷ [], at t q))
read_quoted_on-write_char_before c [] value s n h = elim h [ ]
read_quoted_on-write_char_before c (x ∷ r) value s n h = read_quoted_on-write_char c x r value s n

-- A written text, up to its closing quote.
read_quoted_on-write_text :
    (v r value : Bytes) (s : Lexer)
    → NoNul v
    → (t : Lexer) × (read_quoted_on
          (write_text v ++ b'"' ∷ r)
          (value, at s (write_text v ++ b'"' ∷ r))
        ≡ (value ++ v, at t (b'"' ∷ r)))
read_quoted_on-write_text [] r value s n = (s, rw append-nil (close r))
  where
    close :
        (r : Bytes) → read_quoted_on (b'"' ∷ r) (value, at s (b'"' ∷ r)) ≡ (value, at s (b'"' ∷ r))
    close [] = unfold read_quoted_on in refl
    close (x ∷ r) = unfold read_quoted_on in refl
read_quoted_on-write_text (c ∷ v) r value s (n, ns) =
    let q : Bytes = write_text v ++ b'"' ∷ r in
    let (t, first) =
      read_quoted_on-write_char_before c q value s n
        (omega (arith, length-append {0} (write_text v) (b'"' ∷ r))) in
    let (u, later) = read_quoted_on-write_text v r (value ++ c ∷ []) t ns in
    (
      u,
      rw append_assoc
          (first ∙ later ∙ ap (λ w. (w, at u (b'"' ∷ r))) (append_assoc value (c ∷ []) v)),
    )

not_block :
    (v r : Bytes)
    → (0 < length v) ⊎ (get_or r 0 0 ≢ b'"')
    → (get_or (write_text v ++ b'"' ∷ r) 0 0 == b'"'
        && get_or (write_text v ++ b'"' ∷ r) 1 0 == b'"')
      ≡ false
not_block [] r (inl h) = elim h [ ]
not_block [] r (inr h) = ground arith
not_block (c ∷ v) r h = ground arith

-- The branch of `read_string` for literals with escapes.
read_string-quoted :
    (s : Lexer)
    → two_quotes_follow s ≡ false
    → (v : Bytes) (t : Lexer) (r : Bytes)
    → read_quoted_on (advance s).rest ([], advance s) ≡ (v, at t (b'"' ∷ r))
    → ((read_string s).0.value ≡ v) × ((read_string s).1.rest ≡ r)
unfolding read_string make_token_from advance
read_string-quoted s n v t r e = rw (n, e) (refl, refl)

-- Any text without NULs, written with escapes between quotes, is read back as it was, and the
-- cursor then stands behind the closing quote. After the empty text no third quote may follow,
-- since that would open a block.
pub read_string-write_text :
    (v r : Bytes) (s : Lexer)
    → NoNul v
    → (0 < length v) ⊎ (get_or r 0 0 ≢ b'"')
    → ((read_string (record s { rest = b'"' ∷ (write_text v ++ b'"' ∷ r) })).0.value ≡ v)
      × ((read_string (record s { rest = b'"' ∷ (write_text v ++ b'"' ∷ r) })).1.rest ≡ r)
unfolding advance
read_string-write_text v r s n h =
    let here = at s (b'"' ∷ (write_text v ++ b'"' ∷ r)) in
    let (t, reads) = read_quoted_on-write_text v r [] (advance here) n in
    read_string-quoted here (ground (arith, not_block v r h)) v t r reads
