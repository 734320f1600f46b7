-- ===== src/CondEval/Total.antt =====
-- The recursive descent ends within its fuel; on a dead side no operator reports an error.
use mathlib.Core.Path.{refl}
use quicks_qcc.Prelude.{
  ℕ, zero, suc, ◌+◌, ◌*◌, ◌≤◌, refl, Bool, false, not, ◌||◌, ◌&&◌, ap, arith, length, Option-cases,
  inl, inr, Bool-cases,
}
use quicks_qcc.Token.{Punct}
use quicks_qcc.CondEval.Base.{Cval, Cursor, advance, make_int, expected_colon, truth}
use quicks_qcc.CondEval.Operator.{apply_binop}
use quicks_qcc.CondEval.Parser.{
  prefix_of, apply_prefix, next_operator, combine, is_next, of_bool, parse_unary, parse_binary,
  binary_loop, parse_logical_and, and_loop, parse_logical_or, or_loop, parse_conditional,
  conditional_tail, enough,
}
use quicks_qcc.CondEval.Ends.{
  Ends, ends, >>=-Ends, Ends-mono, Ends-start, eval_error-Ends, next_operator-some, prefix_of-some,
  is_next-true, parse_primary-Ends, note-rest, combine_dead,
}

mutual
  unfolding parse_unary

  parse_unary-Ends :
      (f : ℕ) (ev : Bool) (c : Cursor)
      → 7 * length c.rest + 1 ≤ f
      → Ends (length c.rest) ev c.error (parse_unary f ev c)
  parse_unary-Ends zero ev c h = absurd (omega arith)
  parse_unary-Ends (suc f) ev c h = elim (Option-cases (prefix_of c.rest)) [
    | inl e ↦
        rw (e, parse_unary)
          (parse_primary-Ends (parse_conditional f ev) c c.rest ev refl
            (λ d k. parse_conditional-Ends f ev d (omega arith)))
    | inr (g, e) ↦
        let shorter = prefix_of-some c.rest e in
        rw (e, parse_unary)
          (>>=-Ends (apply_prefix g) (λ q. q) (parse_unary-Ends f ev (advance c) (omega arith))
            (λ v d k. ends (omega arith) (λ _ q. q)))
  ]

  parse_binary-Ends :
      (f m : ℕ) (ev : Bool) (c : Cursor)
      → 7 * length c.rest + 2 ≤ f
      → Ends (length c.rest) ev c.error (parse_binary f m ev c)
  parse_binary-Ends zero m ev c h = absurd (omega arith)
  parse_binary-Ends (suc f) m ev c h =
      >>=-Ends (binary_loop f m ev) (λ q. q) (parse_unary-Ends f ev c (omega arith))
        λ v d k. Ends-mono k (binary_loop-Ends f m ev v d (omega arith))

  binary_loop-Ends :
      (f m : ℕ) (ev : Bool) (v : Cval) (c : Cursor)
      → 7 * length c.rest + 1 ≤ f
      → Ends (length c.rest) ev c.error (binary_loop f m ev (v, c))
  binary_loop-Ends zero m ev v c h = absurd (omega arith)
  binary_loop-Ends (suc f) m ev v c h = elim (Option-cases (next_operator m c.rest)) [
    | inl e ↦ rw (e, binary_loop) (ends (omega arith) (λ _ q. q))
    | inr ((op, prec), e) ↦
        let shorter = next_operator-some m c.rest e in
        rw (e, binary_loop)
          (>>=-Ends _ (λ q. q) (parse_binary-Ends f prec ev (advance c) (omega arith))
            (λ w d k.
              let e' = combine op v ev (w, d) in
              let same = ap length (note-rest (apply_binop op v w ev).1 d) in
              Ends-start (combine_dead op v w ev d)
                (Ends-mono (omega arith) (binary_loop-Ends f m ev e'.0 e'.1 (omega arith)))))
  ]

  parse_logical_and-Ends :
      (f : ℕ) (ev : Bool) (c : Cursor)
      → 7 * length c.rest + 3 ≤ f
      → Ends (length c.rest) ev c.error (parse_logical_and f ev c)
  parse_logical_and-Ends zero ev c h = absurd (omega arith)
  parse_logical_and-Ends (suc f) ev c h =
      >>=-Ends (and_loop f ev) (λ q. q) (parse_binary-Ends f 3 ev c (omega arith))
        λ v d k. Ends-mono k (and_loop-Ends f ev v d (omega arith))

  and_loop-Ends :
      (f : ℕ) (ev : Bool) (v : Cval) (c : Cursor)
      → 7 * length c.rest + 1 ≤ f
      → Ends (length c.rest) ev c.error (and_loop f ev (v, c))
  and_loop-Ends zero ev v c h = absurd (omega arith)
  and_loop-Ends (suc f) ev v c h = elim (Bool-cases (is_next Punct.amp_amp c.rest)) [
    | inr e ↦ rw (e, and_loop) (ends (omega arith) (λ _ q. q))
    | inl e ↦
        let shorter = is_next-true Punct.amp_amp c.rest e in
        rw (e, and_loop)
          (>>=-Ends _ (λ q. rw q) (parse_binary-Ends f 3 (ev && truth v) (advance c) (omega arith))
            (λ w d k.
              Ends-mono (omega arith)
                (and_loop-Ends f ev (of_bool (truth v && truth w)) d (omega arith))))
  ]

  parse_logical_or-Ends :
      (f : ℕ) (ev : Bool) (c : Cursor)
      → 7 * length c.rest + 4 ≤ f
      → Ends (length c.rest) ev c.error (parse_logical_or f ev c)
  parse_logical_or-Ends zero ev c h = absurd (omega arith)
  parse_logical_or-Ends (suc f) ev c h =
      >>=-Ends (or_loop f ev) (λ q. q) (parse_logical_and-Ends f ev c (omega arith))
        λ v d k. Ends-mono k (or_loop-Ends f ev v d (omega arith))

  or_loop-Ends :
      (f : ℕ) (ev : Bool) (v : Cval) (c : Cursor)
      → 7 * length c.rest + 1 ≤ f
      → Ends (length c.rest) ev c.error (or_loop f ev (v, c))
  or_loop-Ends zero ev v c h = absurd (omega arith)
  or_loop-Ends (suc f) ev v c h = elim (Bool-cases (is_next Punct.pipe_pipe c.rest)) [
    | inr e ↦ rw (e, or_loop) (ends (omega arith) (λ _ q. q))
    | inl e ↦
        let shorter = is_next-true Punct.pipe_pipe c.rest e in
        rw (e, or_loop)
          (>>=-Ends _ (λ q. rw q)
            (parse_logical_and-Ends f (ev && not (truth v)) (advance c) (omega arith))
            (λ w d k.
              Ends-mono (omega arith)
                (or_loop-Ends f ev (of_bool (truth v || truth w)) d (omega arith))))
  ]

  parse_conditional-Ends :
      (f : ℕ) (ev : Bool) (c : Cursor)
      → 7 * length c.rest + 5 ≤ f
      → Ends (length c.rest) ev c.error (parse_conditional f ev c)
  parse_conditional-Ends zero ev c h = absurd (omega arith)
  parse_conditional-Ends (suc f) ev c h =
      >>=-Ends (conditional_tail f ev) (λ q. q) (parse_logical_or-Ends f ev c (omega arith))
        λ v d k. Ends-mono k (conditional_tail-Ends f ev v d (omega arith))

  conditional_tail-Ends :
      (f : ℕ) (ev : Bool) (v : Cval) (c : Cursor)
      → 7 * length c.rest + 1 ≤ f
      → Ends (length c.rest) ev c.error (conditional_tail f ev (v, c))
  conditional_tail-Ends zero ev v c h = absurd (omega arith)
  conditional_tail-Ends (suc f) ev v c h = elim (Bool-cases (is_next Punct.question c.rest)) [
    | inr e ↦ rw (e, conditional_tail) (ends (omega arith) (λ _ q. q))
    | inl e ↦
        let shorter = is_next-true Punct.question c.rest e in
        rw (e, conditional_tail)
          (>>=-Ends _ (λ q. rw q)
            (parse_conditional-Ends f (ev && truth v) (advance c) (omega arith))
            (λ a d k. elim (Bool-cases (is_next Punct.colon d.rest)) [
              | inr e' ↦
                  rw e' (eval_error-Ends d ev (make_int 0 false) expected_colon (omega arith))
              | inl e' ↦
                  let shorter' = is_next-true Punct.colon d.rest e' in
                  rw e' (
                    >>=-Ends _ (λ q. rw q)
                      (parse_conditional-Ends f (ev && not (truth v)) (advance d) (omega arith))
                      (λ b g l. ends (omega arith) (λ _ q. q)))
            ]))
  ]

-- With the fuel that `qcc_pp_eval_condition` is given here, `parse_conditional` returns from every
-- cursor, in front of some of the tokens that it was given; and on a dead side it adds no error
-- about a division or a shift.
pub parse_conditional_total :
    (ev : Bool) (c : Cursor)
    → Ends (length c.rest) ev c.error (parse_conditional (enough (length c.rest)) ev c)
parse_conditional_total ev c = parse_conditional-Ends (enough (length c.rest)) ev c (omega arith)
