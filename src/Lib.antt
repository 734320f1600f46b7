-- ===== src/Lib.antt =====
-- qcc, the C compiler of the Quicks toolchain: a model of its front end's core and the theorems
-- about it.
--
-- The lexer (src/lexer) makes tokens of a source (src/source), with the line and column of each. The
-- preprocessor (src/pp) reads a file's tokens and keeps a stack of open conditionals
-- (src/pp/internal/cond.c), which the directives change (src/pp/internal/directive.c); `#if` and
-- `#elif` evaluate their line with an evaluator of their own (src/pp/internal/ceval.c), and hide
-- sets (src/pp/internal/hideset.c) stop the expansion of a macro within itself. The conversion to
-- tokens of the language reads integer and character constants
-- (src/convert/internal/intconst.c, charconst.c) and encodes characters
-- (src/convert/internal/encoding.c). Types (src/type) and the constant evaluator
-- (src/consteval) serve the parser, whose names are in the symbol table (src/symtab). The
-- preprocessor compares names by the addresses of their interned spellings (src/intern). All
-- objects live in arenas (src/arena).
--
-- The files and what they model, with the functions of the source under their own names, less the
-- prefix `qcc_`:
--   Status, Token    the codes of src/status/status.h, the enumerations of src/token/token.h
--   CType            src/type/type.c: predicates, sizes and alignments, compatibility
--   ConstEval        src/consteval/consteval.c: `eval_const_int` and all below it. The evaluator's
--                    results are outcomes: a value, a status, or an operation that C leaves
--                    undefined. `eval_unary`, `eval_cast` are the `apply_` functions on the
--                    operands' values; `eval_binary` is in two, for && and || and for the rest.
--   CondEval         src/pp/internal/ceval.c: `substitute_defined` and `identifiers_to_zero`, whose
--                    loops go over the list of tokens, the first with a mode that says where in
--                    `defined ( X )` it stands; then `parse_int_literal`,
--                    `parse_char_literal`, `apply_binop`, and the parser `parse_primary` to
--                    `parse_conditional`. The cursor holds the tokens that are left and the first
--                    error. The parser's functions run on fuel, `enough` of it for the tokens:
--                    seven steps a token, as the grammar has seven levels, and seven more.
--   Cond             src/pp/internal/cond.c and the six conditional directives of
--                    src/pp/internal/directive.c, with the dispatch in `pp_directive`. A stream is
--                    the list of what the calls of `pp_stream_next` return, failures included.
--                    Whether memory can be had, the macros that are defined and the evaluator of
--                    conditions are parameters. On a failure the state is given up, as the run
--                    of the preprocessor is.
--   HideSet          src/pp/internal/hideset.c; a name is the address of its spelling
--   Encoding         src/convert/internal/encoding.c
--   Escape           src/convert/internal/escape.c, over the bytes behind the backslash
--   IntConst         src/convert/internal/intconst.c
--   CharConst        src/convert/internal/charconst.c: the loops over the body run on fuel, a step for
--                    each of its bytes, as every step consumes one
--   Arena            src/arena/arena.c; `malloc` is a parameter, of which only is asked that its
--                    objects end within the addresses
--   Source           src/source/source.c: the index of line starts, `location`, `line_text`,
--                    `from_memory`; a source is its bytes and the index, without the name
--   Lexer            src/lexer: Cursor the logical characters, which line splices leave out, Scan and
--                    Munch the scanners, Next the driver. An offset at which the source reads is the
--                    list of the logical characters from there on, each with its place; `chars_from-at`
--                    ties that list to `lx_at`. The loop over white space and comments is a
--                    machine with three modes. A call whose diagnostic finds no memory fails.
--   Intern           src/intern/intern.c: the slots with their probing, growth and insertion. A probe
--                    takes as many steps as there are slots, enough since one is empty
--   Symtab           src/symtab/symtab.c: the buckets are a function from the index to a chain, the
--                    stack of scopes is a list with the innermost first
--   Prelude          words of 64 bits with their wrap-around written out, the bit operations on
--                    them, integers, lists
--   Examples         the theorems at concrete inputs
-- Machine integers are natural numbers below a power of two, reduced where the source wraps.
--
-- Not modelled: the parser, the expansion of macros, include files, the reading of source files,
-- diagnostics beyond which of them is reported; the other directives; the construction and
-- printing of types; the contents of the arena's memory.
pub mod Arena
pub mod CType
pub mod CharConst
pub mod Cond
pub mod CondEval
pub mod ConstEval
pub mod Encoding
pub mod Escape
pub mod Examples
pub mod HideSet
pub mod IntConst
pub mod Intern
pub mod Lexer
pub mod Prelude
pub mod Source
pub mod Status
pub mod Symtab
pub mod Token
