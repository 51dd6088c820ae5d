-- ===== src/Lexer/Operators/Spells.antt =====
-- lexer/Lexer.cpp, the `switch (c)` of `tokenize`: its tokens against the text.
use djinn_lang_v.Base.{ℕ, true, false, ◌&&◌, [], ◌∷◌, ◌==◌, ◌≡◌, refl, arith, if_cases}
use djinn_lang_v.Lexer.State.{Lexer, has, peek, peek_next, peek_at, advance, advance_n, make_token}
use djinn_lang_v.Lexer.Cursor.{Reads-one, Reads-trans}
use djinn_lang_v.Lexer.Cursor.Ahead.{
  starts_here, starts_one, starts_two, starts_three, Reads-two, Reads-three,
}
use djinn_lang_v.Lexer.Token.{TokenType}
use djinn_lang_v.Lexer.Lexeme.{lateness, IsRead}
use djinn_lang_v.Lexer.Operators.{
  one, two, three, late, case_single, read_operator, case_colon, case_plus, case_minus, case_star,
  case_slash, case_percent, case_equal, case_bang, case_ampersand, case_pipe, case_caret, case_dot,
  case_question, case_less, case_greater,
}

one-IsRead :
    (t : TokenType) (c : ℕ) (s : Lexer)
    → lateness t ≡ 0
    → has s 0 ≡ true
    → (peek s == c) ≡ true
    → IsRead s (one t (c ∷ []) s)
unfolding make_token advance_n
one-IsRead t c s l m h = record {
  grabs = record { reads = Reads-one s c _ (starts_one s c m h); some_read = omega arith };
  placed = rw l (refl, refl);
  behind = omega arith;
}

two-IsRead :
    (t : TokenType) (c d : ℕ) (s : Lexer)
    → lateness t ≡ 0
    → (d == 0) ≡ false
    → (peek s == c) ≡ true
    → (peek_next s == d) ≡ true
    → IsRead s (two t (c ∷ d ∷ []) s)
unfolding make_token advance_n
two-IsRead t c d s l z h i = record {
  grabs = record { reads = Reads-two s c d _ (starts_two s c d h i z); some_read = omega arith };
  placed = rw l (refl, refl);
  behind = omega arith;
}

three-IsRead :
    (t : TokenType) (c d e : ℕ) (s : Lexer)
    → lateness t ≡ 0
    → (e == 0) ≡ false
    → (peek s == c) ≡ true
    → (has s 2 && peek_at s 1 == d && peek_at s 2 == e) ≡ true
    → IsRead s (three t (c ∷ d ∷ e ∷ []) s)
unfolding make_token advance_n
three-IsRead t c d e s l z h i = record {
  grabs = record {
    reads = Reads-three s c d e _ (starts_three s c d e h (ground arith) (ground arith) z);
    some_read = omega arith;
  };
  placed = rw l (refl, refl);
  behind = omega arith;
}

late-IsRead :
    (t t' : TokenType) (c d : ℕ) (s : Lexer)
    → lateness t ≡ 2
    → lateness t' ≡ 2
    → (d == 0) ≡ false
    → (peek s == c) ≡ true
    → (peek_next s == d) ≡ true
    → IsRead s (late t (c ∷ d ∷ b'=' ∷ []) t' (c ∷ d ∷ []) s)
unfolding make_token advance_n
late-IsRead t t' c d s l l' z h i =
    let pair = Reads-two s c d _ (starts_two s c d h i z) in
    if_cases (IsRead s) _
      (λ eq. record {
        grabs = record {
          reads = Reads-trans (c ∷ d ∷ []) (b'=' ∷ []) pair (
              Reads-one (advance (advance s)) b'=' _
                (starts_here (advance (advance s)) b'=' eq refl));
          some_read = omega arith;
        };
        placed = rw l (refl, refl);
        behind = omega arith;
      })
      (λ _. record {
        grabs = record { reads = pair; some_read = omega arith };
        placed = rw l' (refl, refl);
        behind = omega arith;
      })

-- The cases of the switch, at their first character.
module _ (s : Lexer) (more : has s 0 ≡ true) where
  case_colon-IsRead : (peek s == b':') ≡ true → IsRead s (case_colon s)
  unfolding case_colon
  case_colon-IsRead h =
      if_cases (IsRead s) _ (λ i. two-IsRead _ b':' b':' s refl refl h i)
        (λ _. one-IsRead _ b':' s refl more h)

  case_plus-IsRead : (peek s == b'+') ≡ true → IsRead s (case_plus s)
  unfolding case_plus
  case_plus-IsRead h =
      if_cases (IsRead s) _ (λ i. two-IsRead _ b'+' b'=' s refl refl h i)
        (λ _.
          if_cases (IsRead s) _ (λ i. two-IsRead _ b'+' b'+' s refl refl h i)
            (λ _. one-IsRead _ b'+' s refl more h))

  case_minus-IsRead : (peek s == b'-') ≡ true → IsRead s (case_minus s)
  unfolding case_minus
  case_minus-IsRead h =
      if_cases (IsRead s) _ (λ i. two-IsRead _ b'-' b'>' s refl refl h i)
        (λ _.
          if_cases (IsRead s) _ (λ i. two-IsRead _ b'-' b'=' s refl refl h i)
            (λ _.
              if_cases (IsRead s) _ (λ i. two-IsRead _ b'-' b'-' s refl refl h i)
                (λ _. one-IsRead _ b'-' s refl more h)))

  case_star-IsRead : (peek s == b'*') ≡ true → IsRead s (case_star s)
  unfolding case_star
  case_star-IsRead h =
      if_cases (IsRead s) _ (λ i. two-IsRead _ b'*' b'=' s refl refl h i)
        (λ _. one-IsRead _ b'*' s refl more h)

  case_slash-IsRead : (peek s == b'/') ≡ true → IsRead s (case_slash s)
  unfolding case_slash
  case_slash-IsRead h =
      if_cases (IsRead s) _ (λ i. two-IsRead _ b'/' b'=' s refl refl h i)
        (λ _. one-IsRead _ b'/' s refl more h)

  case_percent-IsRead : (peek s == b'%') ≡ true → IsRead s (case_percent s)
  unfolding case_percent
  case_percent-IsRead h =
      if_cases (IsRead s) _ (λ i. two-IsRead _ b'%' b'=' s refl refl h i)
        (λ _. one-IsRead _ b'%' s refl more h)

  case_equal-IsRead : (peek s == b'=') ≡ true → IsRead s (case_equal s)
  unfolding case_equal
  case_equal-IsRead h =
      if_cases (IsRead s) _ (λ i. two-IsRead _ b'=' b'=' s refl refl h i)
        (λ _.
          if_cases (IsRead s) _ (λ i. two-IsRead _ b'=' b'>' s refl refl h i)
            (λ _. one-IsRead _ b'=' s refl more h))

  case_bang-IsRead : (peek s == b'!') ≡ true → IsRead s (case_bang s)
  unfolding case_bang
  case_bang-IsRead h =
      if_cases (IsRead s) _ (λ i. two-IsRead _ b'!' b'=' s refl refl h i)
        (λ _.
          if_cases (IsRead s) _ (λ i. two-IsRead _ b'!' b'.' s refl refl h i)
            (λ _. one-IsRead _ b'!' s refl more h))

  case_ampersand-IsRead : (peek s == b'&') ≡ true → IsRead s (case_ampersand s)
  unfolding case_ampersand
  case_ampersand-IsRead h =
      if_cases (IsRead s) _ (λ i. two-IsRead _ b'&' b'&' s refl refl h i)
        (λ _.
          if_cases (IsRead s) _ (λ i. two-IsRead _ b'&' b'=' s refl refl h i)
            (λ _. one-IsRead _ b'&' s refl more h))

  case_pipe-IsRead : (peek s == b'|') ≡ true → IsRead s (case_pipe s)
  unfolding case_pipe
  case_pipe-IsRead h =
      if_cases (IsRead s) _ (λ i. two-IsRead _ b'|' b'|' s refl refl h i)
        (λ _.
          if_cases (IsRead s) _ (λ i. two-IsRead _ b'|' b'=' s refl refl h i)
            (λ _. one-IsRead _ b'|' s refl more h))

  case_caret-IsRead : (peek s == b'^') ≡ true → IsRead s (case_caret s)
  unfolding case_caret
  case_caret-IsRead h =
      if_cases (IsRead s) _ (λ i. two-IsRead _ b'^' b'=' s refl refl h i)
        (λ _. one-IsRead _ b'^' s refl more h)

  case_dot-IsRead : (peek s == b'.') ≡ true → IsRead s (case_dot s)
  unfolding case_dot
  case_dot-IsRead h =
      if_cases (IsRead s) _ (λ i. three-IsRead _ b'.' b'.' b'.' s refl refl h i)
        (λ _.
          if_cases (IsRead s) _ (λ i. three-IsRead _ b'.' b'.' b'=' s refl refl h i)
            (λ _.
              if_cases (IsRead s) _ (λ i. two-IsRead _ b'.' b'.' s refl refl h i)
                (λ _. one-IsRead _ b'.' s refl more h)))

  case_question-IsRead : (peek s == b'?') ≡ true → IsRead s (case_question s)
  unfolding case_question
  case_question-IsRead h =
      if_cases (IsRead s) _ (λ i. late-IsRead _ _ b'?' b'?' s refl refl refl h i)
        (λ _.
          if_cases (IsRead s) _ (λ i. two-IsRead _ b'?' b'.' s refl refl h i)
            (λ _. one-IsRead _ b'?' s refl more h))

  case_less-IsRead : (peek s == b'<') ≡ true → IsRead s (case_less s)
  unfolding case_less
  case_less-IsRead h =
      if_cases (IsRead s) _ (λ i. two-IsRead _ b'<' b'=' s refl refl h i)
        (λ _.
          if_cases (IsRead s) _ (λ i. late-IsRead _ _ b'<' b'<' s refl refl refl h i)
            (λ _. one-IsRead _ b'<' s refl more h))

  case_greater-IsRead : (peek s == b'>') ≡ true → IsRead s (case_greater s)
  unfolding case_greater
  case_greater-IsRead h =
      if_cases (IsRead s) _ (λ i. two-IsRead _ b'>' b'=' s refl refl h i)
        (λ _.
          if_cases (IsRead s) _ (λ i. late-IsRead _ _ b'>' b'>' s refl refl refl h i)
            (λ _. one-IsRead _ b'>' s refl more h))

  case_single-IsRead : IsRead s (case_single (peek s) s)
  unfolding case_single
  case_single-IsRead =
      if_cases (IsRead s) _ (λ h. one-IsRead _ b'(' s refl more h)
        (λ _.
          if_cases (IsRead s) _ (λ h. one-IsRead _ b')' s refl more h)
            (λ _.
              if_cases (IsRead s) _ (λ h. one-IsRead _ b'{' s refl more h)
                (λ _.
                  if_cases (IsRead s) _ (λ h. one-IsRead _ b'}' s refl more h)
                    (λ _.
                      if_cases (IsRead s) _ (λ h. one-IsRead _ b'[' s refl more h)
                        (λ _.
                          if_cases (IsRead s) _ (λ h. one-IsRead _ b']' s refl more h)
                            (λ _.
                              if_cases (IsRead s) _ (λ h. one-IsRead _ b';' s refl more h)
                                (λ _.
                                  if_cases (IsRead s) _ (λ h. one-IsRead _ b',' s refl more h)
                                    (λ _.
                                      if_cases (IsRead s) _ (λ h. one-IsRead _ b'@' s refl more h)
                                        (λ _.
                                          if_cases (IsRead s) _
                                            (λ h. one-IsRead _ b'~' s refl more h)
                                            (λ _.
                                              one-IsRead _ (peek s) s refl more
                                                (ground arith)))))))))))

  -- Where a character is left, every branch of the switch makes a token spelled as the characters that it consumed. Its place
  -- is that of the first of them, but the place behind the second for `<<`, `<<=`, `>>`, `>>=`, `??`
  -- and `??=`.
  pub read_operator-IsRead : IsRead s (read_operator (peek s) s)
  unfolding read_operator
  read_operator-IsRead = if_cases (IsRead s) _ case_colon-IsRead (λ _.
      if_cases (IsRead s) _ case_plus-IsRead (λ _. if_cases (IsRead s) _ case_minus-IsRead (λ _.
        if_cases (IsRead s) _ case_star-IsRead (λ _. if_cases (IsRead s) _ case_slash-IsRead (λ _.
          if_cases (IsRead s) _ case_percent-IsRead (λ _.
            if_cases (IsRead s) _ case_equal-IsRead (λ _.
              if_cases (IsRead s) _ case_bang-IsRead (λ _.
                if_cases (IsRead s) _ case_ampersand-IsRead (λ _.
                  if_cases (IsRead s) _ case_pipe-IsRead (λ _.
                    if_cases (IsRead s) _ case_caret-IsRead (λ _.
                      if_cases (IsRead s) _ case_dot-IsRead (λ _.
                        if_cases (IsRead s) _ case_question-IsRead (λ _.
                          if_cases (IsRead s) _ case_less-IsRead (λ _.
                            if_cases (IsRead s) _ case_greater-IsRead
                              (λ _. case_single-IsRead)))))))))))))))
