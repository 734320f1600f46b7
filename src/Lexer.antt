-- ===== src/Lexer.antt =====
-- src/lexer: the lexer. Cursor has the logical characters of a source, Scan and Munch the scanners,
-- Next the driver; Splices, Unspliced and Extent say where characters sit, Blanks what is skipped
-- between tokens, Tokens where these are.
pub mod Cursor
pub mod Extent
pub mod Splices
pub mod Unspliced
pub mod Scan
pub mod Munch
pub mod Next
pub mod Reach
pub mod Scanners
pub mod Blanks
pub mod Kinds
pub mod Covers
pub mod Step
pub mod Tokens
pub mod EndOfInput
pub mod Punctuators
pub mod Longest
