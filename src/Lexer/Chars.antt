-- ===== src/Lexer/Chars.antt =====
-- The character tests of <cctype> in the "C" locale, as the lexer calls them, and the two loops
-- `while (test(peek())) value += advance();` and `value += advance();`.
use djinn_lang_v.Base.{ℕ, Bool, ◌&&◌, ◌||◌, [], ◌∷◌, ◌++◌, leb, if◌then◌else◌, Bytes}
pub mod Runs
pub mod Grabs
use djinn_lang_v.Lexer.State.{Lexer, peek, advance}

abbrev within : ℕ → ℕ → ℕ → Bool
within lo hi c = leb lo c && leb c hi

unfoldable pub is_digit : ℕ → Bool
is_digit c = within b'0' b'9' c

unfoldable pub is_xdigit : ℕ → Bool
is_xdigit c = within b'0' b'9' c || within b'a' b'f' c || within b'A' b'F' c

unfoldable pub is_alpha : ℕ → Bool
is_alpha c = within b'a' b'z' c || within b'A' b'Z' c

unfoldable pub is_alnum : ℕ → Bool
unfolding is_alpha is_digit
is_alnum c = is_alpha c || is_digit c

-- What a reader holds: its local `value`, and the cursor.
abbrev pub Reading : Type 0
Reading = Bytes × Lexer

-- `value += advance();`
abbrev pub grab : Reading → Reading
grab (value, s) = (value ++ peek s ∷ [], advance s)

-- The loop over the characters left. No test used here holds of the '\0' past the end.
unfoldable pub read_while_on : (ℕ → Bool) → Bytes → Reading → Reading
read_while_on test [] r = r
read_while_on test (c ∷ cs) r =
    let more = read_while_on test cs (grab r) in if test c then more else r

unfoldable pub read_while : (ℕ → Bool) → Reading → Reading
unfolding read_while_on
read_while test (value, s) = read_while_on test s.rest (value, s)
