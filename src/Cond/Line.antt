-- ===== src/Cond/Line.antt =====
-- src/pp/internal/directive.c: reading the rest of a directive's line. A stream is the list of
-- the outcomes of the calls of `qcc_pp_stream_next`: a token, or the status with which the call
-- fails. Behind them it delivers the end of the input.
use quicks_qcc.Prelude.{ℕ, ◌+◌, Bool, true, false, List, [], ◌∷◌, if◌then◌else◌}
use quicks_qcc.Status.{Status, Outcome, ok, err, ◌>>=◌}
use quicks_qcc.Token.{PpTokenKind, Punct}
use quicks_qcc.CondEval.Base.{Ptok}

-- The diagnostics of the conditional directives
pub data Diagnostic : Type 0 where
  extra_tokens macro_name_expected : Diagnostic
  elif_without_if elif_after_else else_without_if else_after_else endif_without_if : Diagnostic

abbrev pub Stream : Type 0
Stream = List (Outcome Ptok)

abbrev pub eof : Ptok
eof = record { kind = PpTokenKind.eof; punct = Punct.lbracket; spelling = [] }

-- `qcc_pp_stream_next`
unfoldable pub next : Stream → Outcome (Ptok × Stream)
next [] = ok (eof, [])
next (m ∷ ms) = m >>= λ t. ok (t, ms)

-- `is_line_end`
abbrev pub is_line_end : Ptok → Bool
is_line_end t = elim t.kind [ PpTokenKind.newline ↦ true | PpTokenKind.eof ↦ true | _ ↦ false ]

-- `skip_to_line_end`
unfoldable pub skip_to_line_end : Stream → Outcome Stream
skip_to_line_end [] = ok []
skip_to_line_end (m ∷ ms) = m >>= λ t. if is_line_end t then ok ms else skip_to_line_end ms

-- `expect_line_end`: the stream behind the line, and the diagnostics with those before
unfoldable pub expect_line_end :
    Bool → Stream → List Diagnostic → Outcome (Stream × List Diagnostic)
unfolding next
expect_line_end warn stream diags = next stream >>= λ r.
    if is_line_end r.0
    then ok (r.1, diags)
    else skip_to_line_end r.1 >>= λ rest. ok (rest, if warn then extra_tokens ∷ diags else diags)

-- `collect_replacement`: the tokens up to the end of the line, and the stream behind it.
-- `room n` tells whether `qcc_ptok_list_push` succeeds on a list of `n` tokens.
unfoldable pub collect_replacement : (ℕ → Bool) → ℕ → Stream → Outcome (List Ptok × Stream)
collect_replacement room n [] = ok ([], [])
collect_replacement room n (m ∷ ms) = m >>= λ t.
    if is_line_end t
    then ok ([], ms)
    else if room n
    then (collect_replacement room (n + 1) ms >>= λ r. ok (t ∷ r.0, r.1))
    else err Status.out_of_memory
