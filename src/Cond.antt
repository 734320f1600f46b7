-- ===== src/Cond.antt =====
-- src/pp/internal/cond.c and the conditional directives of src/pp/internal/directive.c (ISO C
-- 6.10.1): the stack of open conditionals and what `#if`, `#ifdef`, `#ifndef`, `#elif`, `#else`
-- and `#endif` do to it.
pub mod Stack
pub mod Line
pub mod Directive
pub mod Nesting
pub mod Emitting
pub mod Groups
