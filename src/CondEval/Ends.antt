-- ===== src/CondEval/Ends.antt =====
-- What a run of the evaluator promises, with the rules for its parts: it returns, gains no tokens,
-- and on a dead side reports nothing about values.
use quicks_qcc.Prelude.{
  ℕ, suc, ◌≤◌, ◌≡◌, refl, Bool, true, false, List, [], ◌∷◌, Option, none, some, ap, arith, length,
  inl, inr, Bool-cases,
}
use quicks_qcc.Token.{Punct}
use quicks_qcc.CondEval.Base.{
  Cval, Ptok, EvalError, Cursor, first_error, eval_error, advance, tail, syntax, division_by_zero,
  shift_out_of_range, SyntaxError, expected_rparen, invalid_token, expected_value,
}
use quicks_qcc.CondEval.Literal.{Reading, number}
use quicks_qcc.CondEval.Operator.{apply_binop, quotient, shift}
use quicks_qcc.CondEval.Parser.{
  Run, ◌>>=◌, note, literal, close, primary_of, primary_case, Primary, open_paren, numeric,
  character, invalid, parse_primary, prefix_of, next_operator, combine, is_next,
}
use quicks_qcc.CondEval.Chars.{parse_char_literal_total}

-- No error, or one that the tokens and their spelling decide
abbrev pub IsQuiet : Option EvalError → Type 0
IsQuiet (some division_by_zero) = ⊥
IsQuiet (some shift_out_of_range) = ⊥
IsQuiet _ = Unit

-- A run from a cursor with the error `start` that returns, with no more tokens left than `n`;
-- and if it ran on a dead side, with no error about values unless there was one already.
pub data Ends (n : ℕ) (ev : Bool) (start : Option EvalError) : Run → Type 0 where
  ends :
      {v : Cval} {c : Cursor}
      → length c.rest ≤ n
      → (ev ≡ false → IsQuiet start → IsQuiet c.error)
      → Ends n ev start (some (v, c))

pub >>=-Ends :
    {n k : ℕ} {ev ev' : Bool} {m : Run} {start : Option EvalError} (next : Cval × Cursor → Run)
    → (ev ≡ false → ev' ≡ false)
    → Ends n ev' start m
    → ((v : Cval) (c : Cursor) → length c.rest ≤ n → Ends k ev c.error (next (v, c)))
    → Ends k ev start (m >>= next)
>>=-Ends {k} {ev} {start} next dead (ends {v} {c} h q) step = joined (step v c h)
  where
    joined : {r : Run} → Ends k ev c.error r → Ends k ev start r
    joined (ends h' q') = ends h' (λ e o. q' e (q (dead e) o))

pub Ends-mono :
    {n k : ℕ} {ev : Bool} {start : Option EvalError} {r : Run}
    → n ≤ k
    → Ends n ev start r
    → Ends k ev start r
Ends-mono p (ends h q) = ends (omega arith) q

pub first_error-IsQuiet :
    (o : Option EvalError) (e : SyntaxError) → IsQuiet o → IsQuiet (first_error o (syntax e))
unfolding first_error
first_error-IsQuiet none e h = tt
first_error-IsQuiet (some d) e h = h

quotient_dead : (is_slash : Bool) (a b : Cval) → (quotient is_slash a b false).1 ≡ none
unfolding quotient
quotient_dead is_slash a b = refl

shift_dead : (is_left : Bool) (a b : Cval) → (shift is_left a b false).1 ≡ none
unfolding shift
shift_dead true a b = refl
shift_dead false a b = ground arith

-- On a dead side no operator reports an error.
pub apply_binop_dead : (op : Punct) (a b : Cval) → (apply_binop op a b false).1 ≡ none
unfolding apply_binop
apply_binop_dead Punct.slash a b = quotient_dead true a b
apply_binop_dead Punct.percent a b = quotient_dead false a b
apply_binop_dead Punct.lshift a b = shift_dead true a b
apply_binop_dead Punct.rshift a b = shift_dead false a b
apply_binop_dead _ a b = refl

pub next_operator-some :
    (m : ℕ) (ts : List Ptok) {x : Punct × ℕ}
    → next_operator m ts ≡ some x
    → suc (length (tail ts)) ≡ length ts
next_operator-some m [] h = cc
next_operator-some m (t ∷ ts) h = refl

pub prefix_of-some :
    (ts : List Ptok) {g : Cval → Cval} → prefix_of ts ≡ some g → suc (length (tail ts)) ≡ length ts
prefix_of-some [] h = cc
prefix_of-some (t ∷ ts) h = refl

pub is_next-true :
    (p : Punct) (ts : List Ptok) → is_next p ts ≡ true → suc (length (tail ts)) ≡ length ts
is_next-true p [] h = cc
is_next-true p (t ∷ ts) h = refl

-- Reporting an error about the tokens
pub eval_error-Ends :
    {n : ℕ} (c : Cursor) (ev : Bool) (v : Cval) (e : SyntaxError)
    → length c.rest ≤ n
    → Ends n ev c.error (some (v, eval_error c (syntax e)))
unfolding eval_error
eval_error-Ends c ev v e h = ends h (λ _ q. first_error-IsQuiet c.error e q)

literal-Ends :
    (c : Cursor) (n : ℕ) (ev : Bool) (r : Reading)
    → length c.rest ≤ n
    → Ends n ev c.error (literal c (some r))
unfolding eval_error
literal-Ends c n ev (v, none) h = ends h (λ _ q. q)
literal-Ends c n ev (v, some e) h = ends h (λ _ q. first_error-IsQuiet c.error e q)

close-Ends :
    (n : ℕ) (ev : Bool) (v : Cval) (c : Cursor)
    → length c.rest ≤ n
    → Ends n ev c.error (close (v, c))
unfolding close
close-Ends n ev v c h = elim (Bool-cases (is_next Punct.rparen c.rest)) [
  | inl e ↦ rw e (ends (omega (arith, is_next-true Punct.rparen c.rest e)) (λ _ q. q))
  | inr e ↦ rw e (ends h (λ _ q. first_error-IsQuiet c.error expected_rparen q))
]

primary_case-Ends :
    (p : Primary) (conditional : Cursor → Run) (c : Cursor) (t : Ptok) (n : ℕ) (ev : Bool)
    → length (tail c.rest) ≤ n
    → ((d : Cursor) → length d.rest ≤ n → Ends (length d.rest) ev d.error (conditional d))
    → Ends n ev c.error (primary_case p conditional c t)
unfolding primary_case
primary_case-Ends open_paren conditional c t n ev h deeper =
    >>=-Ends close (λ e. e) (deeper (advance c) h) λ v d k. close-Ends n ev v d (omega arith)
primary_case-Ends numeric conditional c t n ev h deeper =
    literal-Ends (advance c) n ev (number t.spelling) h
primary_case-Ends character conditional c t n ev h deeper =
    let (r, e) = parse_char_literal_total t.spelling in rw e (literal-Ends (advance c) n ev r h)
primary_case-Ends invalid conditional c t n ev h deeper =
    ends h (λ _ q. first_error-IsQuiet c.error invalid_token q)

pub parse_primary-Ends :
    (conditional : Cursor → Run) (c : Cursor) (ts : List Ptok) (ev : Bool)
    → c.rest ≡ ts
    → ((d : Cursor)
        → suc (length d.rest) ≤ length ts
        → Ends (length d.rest) ev d.error (conditional d))
    → Ends (length ts) ev c.error (parse_primary conditional c ts)
unfolding parse_primary
parse_primary-Ends conditional c [] ev same deeper =
    ends (omega (arith, ap length same)) (λ _ q. first_error-IsQuiet c.error expected_value q)
parse_primary-Ends conditional c (t ∷ ts) ev same deeper = Ends-mono (omega arith) (
    primary_case-Ends (primary_of t) conditional c t (length ts) ev (rw same (omega arith))
      (λ d h. deeper d (omega arith)))

pub Ends-start :
    {n : ℕ} {ev : Bool} {o o' : Option EvalError} {r : Run}
    → (ev ≡ false → IsQuiet o → IsQuiet o')
    → Ends n ev o' r
    → Ends n ev o r
Ends-start p (ends h q) = ends h (λ e z. q e (p e z))

pub note-rest : (e : Option EvalError) (c : Cursor) → (note e c).rest ≡ c.rest
unfolding eval_error
note-rest none c = refl
note-rest (some e) c = refl

-- An operator applied on a dead side leaves the errors alone.
pub combine_dead :
    (op : Punct) (v w : Cval) (ev : Bool) (d : Cursor)
    → ev ≡ false
    → IsQuiet d.error
    → IsQuiet (combine op v ev (w, d)).1.error
combine_dead op v w true d e q = cc
combine_dead op v w false d e q = rw (apply_binop_dead op v w) q
