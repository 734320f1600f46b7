-- ===== src/CondEval/Parser.antt =====
-- ceval.c: the recursive descent over the prepared tokens. Each function takes fuel, and `none`
-- means that it ran out; `ev` is the flag `eval`, false on the dead side of `&&`, `||` and `?:`.
use quicks_qcc.Prelude.{
  ℕ, zero, suc, ◌+◌, ◌*◌, Bool, true, false, not, ◌||◌, ◌&&◌, List, [], ◌∷◌, Option, none, some,
  ltb, ◌==◌, if◌then◌else◌, length,
}
use quicks_qcc.Prelude.Word.{sub64, not64}
use quicks_qcc.Token.{PpTokenKind, Punct}
use quicks_qcc.CondEval.Base.{
  Cval, make_int, truth, Ptok, EvalError, Cursor, first_error, eval_error, advance, peek_punct,
  syntax, expected_value, expected_rparen, invalid_token, expected_colon, extra_tokens,
}
use quicks_qcc.CondEval.Literal.{Reading, number, parse_char_literal}
use quicks_qcc.CondEval.Operator.{binop_prec, apply_binop}

abbrev pub Run : Type 0
Run = Option (Cval × Cursor)

infixl 5 ◌>>=◌
abbrev pub ◌>>=◌ : Run → (Cval × Cursor → Run) → Run
none >>= k = none
some r >>= k = k r

-- Report an error, if there is one.
abbrev pub note : Option EvalError → Cursor → Cursor
note none c = c
note (some e) c = eval_error c e

-- A value read from a literal
abbrev pub literal : Cursor → Option Reading → Run
literal c none = none
literal c (some (v, none)) = some (v, c)
literal c (some (v, some e)) = some (v, eval_error c (syntax e))

-- `peek_is_punct`, for the punctuators that the evaluator asks for
abbrev pub is_next : Punct → List Ptok → Bool
is_next p ts = elim (peek_punct ts) [
  | some Punct.amp_amp ↦ elim p [ Punct.amp_amp ↦ true | _ ↦ false ]
  | some Punct.pipe_pipe ↦ elim p [ Punct.pipe_pipe ↦ true | _ ↦ false ]
  | some Punct.question ↦ elim p [ Punct.question ↦ true | _ ↦ false ]
  | some Punct.colon ↦ elim p [ Punct.colon ↦ true | _ ↦ false ]
  | some Punct.rparen ↦ elim p [ Punct.rparen ↦ true | _ ↦ false ]
  | _ ↦ false
]

-- The `)` that closes a parenthesised expression
unfoldable pub close : Cval × Cursor → Run
unfolding eval_error
close (v, c) =
    if is_next Punct.rparen c.rest
    then some (v, advance c)
    else some (v, eval_error c (syntax expected_rparen))

-- What `parse_primary` makes of a token
pub data Primary : Type 0 where
  open_paren numeric character invalid : Primary

abbrev pub primary_of : Ptok → Primary
primary_of t = elim t.kind [
  | PpTokenKind.punct ↦ elim t.punct [ Punct.lparen ↦ open_paren | _ ↦ invalid ]
  | PpTokenKind.pp_number ↦ numeric
  | PpTokenKind.char_const ↦ character
  | _ ↦ invalid
]

-- `parse_primary` on a token of each sort, given `parse_conditional`
unfoldable pub primary_case : Primary → (Cursor → Run) → Cursor → Ptok → Run
unfolding eval_error close
primary_case open_paren conditional c t = conditional (advance c) >>= close
primary_case numeric conditional c t = literal (advance c) (some (number t.spelling))
primary_case character conditional c t = literal (advance c) (parse_char_literal t.spelling)
primary_case invalid conditional c t =
    some (make_int 0 false, advance (eval_error c (syntax invalid_token)))

unfoldable pub parse_primary : (Cursor → Run) → Cursor → List Ptok → Run
unfolding primary_case
parse_primary conditional c [] = some (make_int 0 false, eval_error c (syntax expected_value))
parse_primary conditional c (t ∷ ts) = primary_case (primary_of t) conditional c t

-- The prefix operators of `parse_unary`
unfoldable pub prefix : Punct → Option (Cval → Cval)
prefix Punct.plus = some (λ v. v)
prefix Punct.minus = some (λ v. make_int (sub64 0 v.u) v.is_unsigned)
prefix Punct.tilde = some (λ v. make_int (not64 v.u) v.is_unsigned)
prefix Punct.bang = some (λ v. make_int (if truth v then 0 else 1) false)
prefix _ = none

abbrev pub prefix_of : List Ptok → Option (Cval → Cval)
prefix_of ts = elim (peek_punct ts) [ none ↦ none | some p ↦ prefix p ]

abbrev pub apply_prefix : (Cval → Cval) → Cval × Cursor → Run
apply_prefix g (v, c) = some (g v, c)

-- The next token, if it is a binary operator that binds at least as tightly as `min_prec`: the
-- operator and the precedence of its right operand
abbrev pub binds : ℕ → Punct → Option (Punct × ℕ)
binds min_prec p = elim (binop_prec p) [
  | none ↦ none
  | some prec ↦ if ltb prec min_prec then none else some (p, prec + 1)
]

abbrev pub next_operator : ℕ → List Ptok → Option (Punct × ℕ)
next_operator min_prec ts = elim (peek_punct ts) [ none ↦ none | some p ↦ binds min_prec p ]

-- One application in the loop of `parse_binary`
abbrev pub combine : Punct → Cval → Bool → Cval × Cursor → Cval × Cursor
combine op left ev (right, c) = let r = apply_binop op left right ev in (r.0, note r.1 c)

abbrev pub of_bool : Bool → Cval
of_bool b = make_int (if b then 1 else 0) false

-- The value of `?:` from its condition and its arms
abbrev pub choose : Bool → Cval → Cval → Cval
choose take a b = make_int (if take then a.u else b.u) (a.is_unsigned || b.is_unsigned)

unfoldable mutual
  -- `parse_unary`
  pub parse_unary : ℕ → Bool → Cursor → Run
  parse_unary zero ev c = none
  parse_unary (suc f) ev c = elim (prefix_of c.rest) [
    | some g ↦ parse_unary f ev (advance c) >>= apply_prefix g
    | none ↦ parse_primary (parse_conditional f ev) c c.rest
  ]

  -- `parse_binary` and its loop
  pub parse_binary : ℕ → ℕ → Bool → Cursor → Run
  parse_binary zero min_prec ev c = none
  parse_binary (suc f) min_prec ev c = parse_unary f ev c >>= binary_loop f min_prec ev

  pub binary_loop : ℕ → ℕ → Bool → Cval × Cursor → Run
  binary_loop zero min_prec ev s = none
  binary_loop (suc f) min_prec ev s = elim (next_operator min_prec s.1.rest) [
    | none ↦ some s
    | some (op, prec) ↦ parse_binary f prec ev (advance s.1) >>= λ r.
        binary_loop f min_prec ev (combine op s.0 ev r)
  ]

  -- `parse_logical_and` and its loop
  pub parse_logical_and : ℕ → Bool → Cursor → Run
  parse_logical_and zero ev c = none
  parse_logical_and (suc f) ev c = parse_binary f 3 ev c >>= and_loop f ev

  pub and_loop : ℕ → Bool → Cval × Cursor → Run
  and_loop zero ev s = none
  and_loop (suc f) ev s = elim (is_next Punct.amp_amp s.1.rest) [
    | false ↦ some s
    | true ↦ parse_binary f 3 (ev && truth s.0) (advance s.1) >>= λ r.
        and_loop f ev (of_bool (truth s.0 && truth r.0), r.1)
  ]

  -- `parse_logical_or` and its loop
  pub parse_logical_or : ℕ → Bool → Cursor → Run
  parse_logical_or zero ev c = none
  parse_logical_or (suc f) ev c = parse_logical_and f ev c >>= or_loop f ev

  pub or_loop : ℕ → Bool → Cval × Cursor → Run
  or_loop zero ev s = none
  or_loop (suc f) ev s = elim (is_next Punct.pipe_pipe s.1.rest) [
    | false ↦ some s
    | true ↦ parse_logical_and f (ev && not (truth s.0)) (advance s.1) >>= λ r.
        or_loop f ev (of_bool (truth s.0 || truth r.0), r.1)
  ]

  -- `parse_conditional`
  pub parse_conditional : ℕ → Bool → Cursor → Run
  parse_conditional zero ev c = none
  parse_conditional (suc f) ev c = parse_logical_or f ev c >>= conditional_tail f ev

  -- Its part behind the condition
  pub conditional_tail : ℕ → Bool → Cval × Cursor → Run
  conditional_tail zero ev s = none
  conditional_tail (suc f) ev s = elim (is_next Punct.question s.1.rest) [
    | false ↦ some s
    | true ↦ parse_conditional f (ev && truth s.0) (advance s.1) >>= λ a.
        elim (is_next Punct.colon a.1.rest) [
          | false ↦ some (make_int 0 false, eval_error a.1 (syntax expected_colon))
          | true ↦ parse_conditional f (ev && not (truth s.0)) (advance a.1) >>= λ b.
              some (choose (truth s.0) a.0 b.0, b.1)
        ]
  ]

-- The expression of a directive: the tokens must be used up, and an error makes it false.
unfoldable pub finish : Cval × Cursor → Bool × Option EvalError
unfolding first_error
finish (v, c) =
    let error = if length c.rest == 0 then c.error else first_error c.error (syntax extra_tokens) in
    elim error [ none ↦ (truth v, none) | some e ↦ (false, some e) ]

-- Fuel for `n` tokens
abbrev pub enough : ℕ → ℕ
enough n = 7 * n + 7

-- The evaluation in `qcc_pp_eval_condition` of a list of tokens that is not empty
unfoldable pub eval_tokens : List Ptok → Option (Bool × Option EvalError)
unfolding parse_conditional finish
eval_tokens ts =
    elim (parse_conditional (enough (length ts)) true (record { rest = ts; error = none })) [
      | none ↦ none
      | some r ↦ some (finish r)
    ]
