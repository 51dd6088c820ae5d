-- ===== src/Lexer/Numbers/Reads.antt =====
-- lexer/Lexer.cpp: the token of `read_number` against the text.
use djinn_lang_v.Base.{
  Bool, true, false, ◌&&◌, ◌||◌, not, [], ◌∷◌, ◌==◌, ◌≡◌, refl, arith, Bool-cases, inl, inr,
  if_cases, Bytes, get_or, tail,
}
use djinn_lang_v.Lexer.State.{Lexer, peek, peek_next, make_token_from, advance, advance_n}
use djinn_lang_v.Lexer.Cursor.{Reads-nil, Reads-grab}
use djinn_lang_v.Lexer.Token.{TokenType}
use djinn_lang_v.Lexer.Result.{Result, ok, err, ◌>>=◌, invalid_exponent, out_of_fuel, Holds}
use djinn_lang_v.Lexer.Chars.{Reading, grab, is_digit, read_while}
use djinn_lang_v.Lexer.Chars.Grabs.{Grabs, grab-Grabs, read_while-Grabs, read_while-Grabs_first}
use djinn_lang_v.Lexer.Lexeme.{lateness, IsRead}
use djinn_lang_v.Lexer.Numbers.{
  is_hex_part, is_binary_part, is_decimal_part, read_suffix, read_hex, read_binary, read_fraction,
  read_sign, read_exponent, read_decimal, read_number, finish_number, number_token,
}

read_suffix-Grabs :
    (allow : Bool) (s : Lexer) (r : Reading) → Grabs s r → Grabs s (read_suffix allow r)
unfolding read_suffix
read_suffix-Grabs allow s r g =
    if_cases (Grabs s) _ (λ h. grab-Grabs s r g.reads (ground arith)) (λ _. g)

read_sign-Grabs : (s : Lexer) (r : Reading) → Grabs s r → Grabs s (read_sign r)
unfolding read_sign
read_sign-Grabs s r g = if_cases (Grabs s) _ (λ h. grab-Grabs s r g.reads (ground arith)) (λ _. g)

read_fraction-Grabs : (s : Lexer) (r : Reading) → Grabs s r → Grabs s (read_fraction r).1
unfolding read_fraction
read_fraction-Grabs s r g =
    if_cases (λ (q : Bool × Reading). Grabs s q.1) _
      (λ h.
        read_while-Grabs is_decimal_part (unfold is_decimal_part in refl) s (grab r)
          (grab-Grabs s r g.reads (ground arith)))
      (λ _. g)

read_exponent-Grabs :
    (s : Lexer) (b : Bool) (r : Reading)
    → Grabs s r
    → Holds Unit (λ q. Grabs s q.1) (read_exponent (b, r))
unfolding read_exponent
read_exponent-Grabs s b r g = elim (Bool-cases (peek r.1 == b'e' || peek r.1 == b'E')) [
  | inr plain ↦ rw plain g
  | inl exponent ↦ rw exponent (
      if_cases (Holds Unit (λ q. Grabs s q.1)) (not (is_digit (peek (read_sign (grab r)).1)))
        (λ _. tt)
        (λ _.
          read_while-Grabs is_digit (unfold is_digit in refl) s (read_sign (grab r))
            (read_sign-Grabs s (grab r) (grab-Grabs s r g.reads (ground arith)))))
]

number_token-IsRead :
    (s : Lexer) (t : TokenType) (r : Reading)
    → lateness t ≡ 0
    → Grabs s r
    → IsRead s (number_token s t r)
unfolding make_token_from advance_n
number_token-IsRead s t r late g = record {
  grabs = g;
  placed = rw late (refl, refl);
  behind = omega arith;
}

finish_number-IsRead : (s : Lexer) (q : Bool × Reading) → Grabs s q.1 → IsRead s (finish_number s q)
finish_number-IsRead s (true, r) g = number_token-IsRead s _ r refl g
finish_number-IsRead s (false, r) g = number_token-IsRead s _ _ refl (read_suffix-Grabs true s r g)

finish-IsRead :
    (s : Lexer) (m : Result (Bool × Reading))
    → Holds Unit (λ q. Grabs s q.1) m
    → Holds Unit (IsRead s) (m >>= λ r. ok (finish_number s r))
finish-IsRead s (ok q) g = finish_number-IsRead s q g
finish-IsRead s (err invalid_exponent) g = g
finish-IsRead s (err out_of_fuel) g = elim g [ ]

read_decimal-IsRead :
    (s : Lexer) → is_digit (peek s) ≡ true → Holds Unit (IsRead s) (read_decimal s)
unfolding read_decimal
read_decimal-IsRead s h =
    let digits =
      read_while-Grabs_first is_decimal_part (unfold is_decimal_part in refl) s
        (unfold is_decimal_part in rw h) in
    finish-IsRead s (read_exponent (read_fraction (read_while is_decimal_part ([], s))))
      (read_exponent-Grabs s _ _ (read_fraction-Grabs s _ digits))

-- After a prefix of two characters, `0x` or `0b`.
prefix-Grabs :
    (s : Lexer) → (peek s == 0) ≡ false → (peek_next s == 0) ≡ false → Grabs s (grab (grab ([], s)))
unfolding advance
prefix-Grabs s a b = grab-Grabs s (grab ([], s)) (Reads-grab [] (Reads-nil s) a) (go s.rest b)
  where
    go : (r : Bytes) → (get_or r 1 0 == 0) ≡ false → (get_or (tail r) 0 0 == 0) ≡ false
    go [] h = h
    go (c ∷ r) h = h

-- Where a digit stands at the cursor, `read_number` throws, or it gives a token whose value is the text that was read, from the
-- place that the token carries up to the new cursor, and something was read.
pub read_number-IsRead :
    (s : Lexer) → is_digit (peek s) ≡ true → Holds Unit (IsRead s) (read_number s)
unfolding read_number read_hex read_binary
read_number-IsRead s h =
    elim (Bool-cases (peek s == b'0' && (peek_next s == b'x' || peek_next s == b'X'))) [
      | inl hex ↦ rw hex (
          number_token-IsRead s _ _ refl (
            read_suffix-Grabs false s _ (
              read_while-Grabs is_hex_part (unfold is_hex_part in refl) s _
                (prefix-Grabs s (ground arith) (ground arith)))))
      | inr other ↦
          elim (Bool-cases (peek s == b'0' && (peek_next s == b'b' || peek_next s == b'B'))) [
            | inl binary ↦
                rw (other, binary)
                  (number_token-IsRead s _ _ refl (
                    read_suffix-Grabs true s _ (
                      read_while-Grabs is_binary_part (unfold is_binary_part in refl) s _
                        (prefix-Grabs s (ground arith) (ground arith)))))
            | inr decimal ↦ rw (other, decimal) (read_decimal-IsRead s h)
          ]
    ]
