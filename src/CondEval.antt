-- ===== src/CondEval.antt =====
-- src/pp/internal/ceval.c: the evaluator of `#if` expressions (ISO C 6.10.1).
pub mod Base
pub mod Literal
pub mod Operator
pub mod Parser
pub mod Prepare
pub mod Defined
pub mod Chars
pub mod Ends
pub mod Total
pub mod Dead
pub mod Agree
