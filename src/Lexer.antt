-- ===== src/Lexer.antt =====
-- src/lexer/module.c: from the bytes of a source file to tokens.
pub mod Chars
pub mod State
pub mod Comments
pub mod Numbers
pub mod Literals
pub mod Operators
pub mod Tokens
pub mod Escape
mod RoundTrip
mod Digits
mod Passes
mod Within
mod InText
mod Bounds
mod Progress
mod Tests
pub mod Names
mod Spelling
mod Longest
mod Nesting
