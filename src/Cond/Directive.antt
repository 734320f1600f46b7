-- ===== src/Cond/Directive.antt =====
-- src/pp/internal/directive.c: the conditional directives, each behind its name.
use quicks_qcc.Prelude.{
  ℕ, Bool, true, false, not, ◌&&◌, List, ◌∷◌, Option, none, some, if◌then◌else◌,
}
use quicks_qcc.Status.{Outcome, ok, ◌>>=◌}
use quicks_qcc.Token.{PpTokenKind}
use quicks_qcc.CondEval.Base.{Ptok}
use quicks_qcc.Cond.Stack.{Frame, Stack, emitting, push, top, set_top, pop}
use quicks_qcc.Cond.Line.{
  Diagnostic, macro_name_expected, elif_without_if, elif_after_else, else_without_if,
  else_after_else, endif_without_if, Stream, next, is_line_end, skip_to_line_end, expect_line_end,
  collect_replacement,
}

-- What the conditional directives read and change of `qcc_pp` and the stream; the last diagnostic
-- stands first.
pub record State : Type 0 where
  pub conds : Stack
  pub stream : Stream
  pub diags : List Diagnostic

abbrev pub is_identifier : Ptok → Bool
is_identifier t = elim t.kind [ PpTokenKind.identifier ↦ true | _ ↦ false ]

-- Skips the rest of the line; the conditionals are given, and so are the diagnostics.
abbrev pub skip_line : Stack → List Diagnostic → Stream → Outcome State
skip_line conds diags stream =
    skip_to_line_end stream >>= λ rest. ok (record { conds = conds; stream = rest; diags = diags })

-- `frame->active = cond ? 1 : 0; if (frame->active) frame->taken = 1;`
unfoldable pub select : Bool → Frame → Frame
select cond f = record f { active = cond; taken = if cond then true else f.taken }

-- The writes of `do_else` to the frame
unfoldable pub enter_else : Frame → Frame
enter_else f =
    let chosen = f.outer_active && not f.taken in
    record f { seen_else = true; active = chosen; taken = if chosen then true else f.taken }

-- `realloc` tells whether the stack of frames can grow to a capacity, `room` whether a list of
-- tokens can take one more, `defined` whether a macro has a name, and `condition` is
-- `qcc_pp_eval_condition`.
module _ (realloc room : ℕ → Bool) (defined : List ℕ → Bool)
    (condition : List Ptok → Outcome Bool) where
  -- The end of `do_if` and `do_ifdef`
  abbrev pub open_conditional : State → Bool → Stream → List Diagnostic → Outcome State
  open_conditional s cond rest diags = push realloc s.conds (emitting s.conds) cond >>= λ conds.
      ok (record { conds = conds; stream = rest; diags = diags })

  -- `do_if`
  unfoldable pub do_if : State → Outcome State
  do_if s =
      if emitting s.conds
      then (collect_replacement room 0 s.stream >>= λ r.
          condition r.0 >>= λ cond. open_conditional s cond r.1 s.diags)
      else skip_to_line_end s.stream >>= λ rest. open_conditional s false rest s.diags

  -- `do_ifdef`
  unfoldable pub do_ifdef : Bool → State → Outcome State
  do_ifdef negate s = next s.stream >>= λ r.
      if is_identifier r.0
      then (expect_line_end (emitting s.conds) r.1 s.diags >>= λ e.
          open_conditional s (if negate then not (defined r.0.spelling) else defined r.0.spelling)
            e.0 e.1)
      else (if is_line_end r.0 then ok r.1 else skip_to_line_end r.1) >>= λ rest.
          open_conditional s false rest
            (if emitting s.conds then macro_name_expected ∷ s.diags else s.diags)

  -- `do_elif` on the innermost frame `f`, above `fs`
  unfoldable pub elif_frame : State → Frame → List Frame → Outcome State
  unfolding select
  elif_frame s f fs =
      if f.seen_else
      then skip_line (set_top s.conds (record f { active = false }) fs) (elif_after_else ∷ s.diags)
          s.stream
      else if f.outer_active && not f.taken
      then (collect_replacement room 0 s.stream >>= λ r. condition r.0 >>= λ cond.
          ok (record s { conds = set_top s.conds (select cond f) fs; stream = r.1 }))
      else skip_line (set_top s.conds (record f { active = false }) fs) s.diags s.stream

  -- `do_elif` on what `qcc_cond_top` returned
  abbrev pub elif_top : State → Option (Frame × List Frame) → Outcome State
  elif_top s none = skip_line s.conds (elif_without_if ∷ s.diags) s.stream
  elif_top s (some (f, fs)) = elif_frame s f fs

  -- `do_elif`
  unfoldable pub do_elif : State → Outcome State
  do_elif s = elif_top s (top s.conds)

  -- `do_else` on the innermost frame `f`, above `fs`
  unfoldable pub else_frame : State → Frame → List Frame → Outcome State
  unfolding enter_else
  else_frame s f fs =
      if f.seen_else
      then skip_line s.conds (else_after_else ∷ s.diags) s.stream
      else expect_line_end f.outer_active s.stream s.diags >>= λ e.
          ok (record { conds = set_top s.conds (enter_else f) fs; stream = e.0; diags = e.1 })

  -- `do_else` on what `qcc_cond_top` returned
  abbrev pub else_top : State → Option (Frame × List Frame) → Outcome State
  else_top s none = skip_line s.conds (else_without_if ∷ s.diags) s.stream
  else_top s (some (f, fs)) = else_frame s f fs

  -- `do_else`
  unfoldable pub do_else : State → Outcome State
  do_else s = else_top s (top s.conds)

  -- `do_endif`
  unfoldable pub do_endif : State → Outcome State
  do_endif s =
      let (conds, had) = pop s.conds in
      expect_line_end had s.stream (if had then s.diags else endif_without_if ∷ s.diags) >>= λ e.
      ok (record { conds = conds; stream = e.0; diags = e.1 })

-- The conditional directives that `qcc_pp_directive` tells apart by their names
pub data Directive : Type 0 where
  if_ elif else_ endif : Directive
  ifdef : Bool → Directive

-- The branches of `qcc_pp_directive` that are taken in skipped groups too
unfoldable pub run :
    (ℕ → Bool)
    → (ℕ → Bool)
    → (List ℕ → Bool)
    → (List Ptok → Outcome Bool)
    → Directive
    → State
    → Outcome State
unfolding do_if do_ifdef do_elif do_else do_endif
run realloc room defined condition if_ s = do_if realloc room defined condition s
run realloc room defined condition elif s = do_elif realloc room defined condition s
run realloc room defined condition else_ s = do_else realloc room defined condition s
run realloc room defined condition endif s = do_endif realloc room defined condition s
run realloc room defined condition (ifdef negate) s =
    do_ifdef realloc room defined condition negate s
