-- ===== src/Lexer.antt =====
-- lexer/: the state of the lexer, its readers, the loop over them, and the proofs.
pub mod Token
pub mod Keywords
pub mod State
pub mod Trivia
pub mod Result
pub mod Chars
pub mod Strings
pub mod Numbers
pub mod Identifiers
pub mod Operators
pub mod Tokenize
mod Tests
pub mod Cursor
pub mod Lexeme
