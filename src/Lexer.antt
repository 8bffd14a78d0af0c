-- ===== src/Lexer.antt =====
-- fpp_lexer: the scanner of FPP source text.
pub mod Chars
pub mod Keywords
pub mod Token
pub mod Cursor
pub mod Scan
pub mod Fetch
pub mod Next
pub mod Skips
pub mod Lexes
pub mod Slices
pub mod Steps
pub mod Follows
pub mod Tiles
