-- ===== src/Lex.antt =====
-- lex.c and lex.h: the tokens of a source text.
-- `Lex.Chars`: classes of characters and token codes. `Lex.Scan`: the scanning functions.
-- `Lex.Next`: lex_next and lex_line.
pub mod Chars
pub mod Scan
pub mod Next
pub mod Keywords
pub mod Words
pub mod Numbers
pub mod Strings
pub mod Skips
pub mod Operators
mod Tests
