-- ===== src/Scanner.antt =====
-- The scanner of src/parser.c: its character classes, its tokens, and the text that its tokens stand
-- for.
pub mod Classes
pub mod State
pub mod Units
pub mod Runs
pub mod Delimited
pub mod Keywords
pub mod Tokens
pub mod Yields
pub mod Decode
pub mod Buffer
