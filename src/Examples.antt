-- ===== src/Examples.antt =====
-- The theorems at concrete inputs.
mod Constants
mod Preprocessor
mod Memory
mod Text
mod Types
mod Lexing
mod Names
