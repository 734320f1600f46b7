-- ===== src/CondEval/Dead.antt =====
-- A dead side is parsed to consume its tokens: which tokens a run consumes depends neither on the
-- flag `eval` nor on the values and errors met on the way.
use mathlib.Core.Path.{subst}
use quicks_qcc.Prelude.{
  ℕ, zero, suc, ◌≡◌, ap, sym, ◌∙◌, Bool, true, false, not, ◌||◌, ◌&&◌, List, [], ◌∷◌, none, some,
  Option-cases, Bool-cases, inl, inr,
}
use quicks_qcc.Token.{Punct}
use quicks_qcc.CondEval.Base.{
  Cval, Ptok, SyntaxError, Cursor, eval_error, advance, tail, syntax, truth, expected_colon,
}
use quicks_qcc.CondEval.Chars.{parse_char_literal_total}
use quicks_qcc.CondEval.Literal.{Reading, number}
use quicks_qcc.CondEval.Ends.{note-rest}
use quicks_qcc.CondEval.Operator.{apply_binop}
use quicks_qcc.CondEval.Parser.{
  Run, ◌>>=◌, literal, close, Primary, primary_of, open_paren, numeric, character, invalid,
  primary_case, parse_primary, prefix_of, apply_prefix, next_operator, combine, is_next, of_bool,
  parse_unary, parse_binary, binary_loop, parse_logical_and, and_loop, parse_logical_or, or_loop,
  parse_conditional, conditional_tail,
}

-- Two runs that both run out of fuel, or both return in front of the same tokens
pub data Same : Run → Run → Type 0 where
  both_out : Same none none
  both : {v w : Cval} {c d : Cursor} → c.rest ≡ d.rest → Same (some (v, c)) (some (w, d))

>>=-Same :
    {m n : Run} (g k : Cval × Cursor → Run)
    → Same m n
    → ((v w : Cval) (c d : Cursor) → c.rest ≡ d.rest → Same (g (v, c)) (k (w, d)))
    → Same (m >>= g) (n >>= k)
>>=-Same g k both_out next = both_out
>>=-Same g k (both {v} {w} {c} {d} h) next = next v w c d h

literal-Same :
    (c d : Cursor) (r : Reading) → c.rest ≡ d.rest → Same (literal c (some r)) (literal d (some r))
unfolding eval_error
literal-Same c d (v, none) h = both h
literal-Same c d (v, some e) h = both h

eval_error-Same :
    {v w : Cval} (c d : Cursor) (e : SyntaxError)
    → c.rest ≡ d.rest
    → Same (some (v, eval_error c (syntax e))) (some (w, eval_error d (syntax e)))
unfolding eval_error
eval_error-Same c d e h = both h

close-Same : (v w : Cval) (c d : Cursor) → c.rest ≡ d.rest → Same (close (v, c)) (close (w, d))
unfolding close
close-Same v w c d h =
    let look = ap (is_next Punct.rparen) (sym h) in
    elim (Bool-cases (is_next Punct.rparen c.rest)) [
      | inl e ↦ rw (e, look ∙ e) (both (ap tail h))
      | inr e ↦ rw (e, look ∙ e) (both h)
    ]

primary_case-Same :
    (p : Primary) (g k : Cursor → Run) (c d : Cursor) (t : Ptok)
    → c.rest ≡ d.rest
    → ((x y : Cursor) → x.rest ≡ y.rest → Same (g x) (k y))
    → Same (primary_case p g c t) (primary_case p k d t)
unfolding primary_case
primary_case-Same open_paren g k c d t h inner =
    >>=-Same close close (inner (advance c) (advance d) (ap tail h)) close-Same
primary_case-Same numeric g k c d t h inner =
    literal-Same (advance c) (advance d) (number t.spelling) (ap tail h)
primary_case-Same character g k c d t h inner =
    let (r, e) = parse_char_literal_total t.spelling in
    rw e (literal-Same (advance c) (advance d) r (ap tail h))
primary_case-Same invalid g k c d t h inner = both (ap tail h)

parse_primary-Same :
    (g k : Cursor → Run) (c d : Cursor) (ts : List Ptok)
    → c.rest ≡ d.rest
    → ((x y : Cursor) → x.rest ≡ y.rest → Same (g x) (k y))
    → Same (parse_primary g c ts) (parse_primary k d ts)
unfolding parse_primary
parse_primary-Same g k c d [] h inner = both h
parse_primary-Same g k c d (t ∷ ts) h inner = primary_case-Same (primary_of t) g k c d t h inner

combine_rest :
    (op : Punct) (v w x y : Cval) (ev ev' : Bool) (c d : Cursor)
    → c.rest ≡ d.rest
    → (combine op v ev (x, c)).1.rest ≡ (combine op w ev' (y, d)).1.rest
combine_rest op v w x y ev ev' c d h =
    note-rest (apply_binop op v x ev).1 c ∙ h ∙ sym (note-rest (apply_binop op w y ev').1 d)

mutual
  unfolding parse_unary

  parse_unary-Same :
      (f : ℕ) (ev ev' : Bool) (c d : Cursor)
      → c.rest ≡ d.rest
      → Same (parse_unary f ev c) (parse_unary f ev' d)
  parse_unary-Same zero ev ev' c d h = both_out
  parse_unary-Same (suc f) ev ev' c d h =
      let look = ap prefix_of (sym h) in
      elim (Option-cases (prefix_of c.rest)) [
        | inl e ↦
            rw (e, look ∙ e, parse_unary)
              (subst
                (λ ts.
                  Same (parse_primary (parse_conditional f ev) c c.rest)
                    (parse_primary (parse_conditional f ev') d ts))
                h
                (parse_primary-Same (parse_conditional f ev) (parse_conditional f ev') c d c.rest h
                  (λ x y k. parse_conditional-Same f ev ev' x y k)))
        | inr (g, e) ↦
            rw (e, look ∙ e, parse_unary)
              (>>=-Same (apply_prefix g) (apply_prefix g)
                (parse_unary-Same f ev ev' (advance c) (advance d) (ap tail h))
                (λ v w x y k. both k))
      ]

  parse_binary-Same :
      (f m : ℕ) (ev ev' : Bool) (c d : Cursor)
      → c.rest ≡ d.rest
      → Same (parse_binary f m ev c) (parse_binary f m ev' d)
  parse_binary-Same zero m ev ev' c d h = both_out
  parse_binary-Same (suc f) m ev ev' c d h =
      >>=-Same _ _ (parse_unary-Same f ev ev' c d h)
        λ v w x y k. binary_loop-Same f m ev ev' v w x y k

  binary_loop-Same :
      (f m : ℕ) (ev ev' : Bool) (v w : Cval) (c d : Cursor)
      → c.rest ≡ d.rest
      → Same (binary_loop f m ev (v, c)) (binary_loop f m ev' (w, d))
  binary_loop-Same zero m ev ev' v w c d h = both_out
  binary_loop-Same (suc f) m ev ev' v w c d h =
      let look = ap (next_operator m) (sym h) in
      elim (Option-cases (next_operator m c.rest)) [
        | inl e ↦ rw (e, look ∙ e, binary_loop) (both h)
        | inr ((op, prec), e) ↦
            rw (e, look ∙ e, binary_loop)
              (>>=-Same _ _ (parse_binary-Same f prec ev ev' (advance c) (advance d) (ap tail h))
                (λ x y c' d' k.
                  let a = combine op v ev (x, c') in
                  let b = combine op w ev' (y, d') in
                  binary_loop-Same f m ev ev' a.0 b.0 a.1 b.1
                    (combine_rest op v w x y ev ev' c' d' k)))
      ]

  parse_logical_and-Same :
      (f : ℕ) (ev ev' : Bool) (c d : Cursor)
      → c.rest ≡ d.rest
      → Same (parse_logical_and f ev c) (parse_logical_and f ev' d)
  parse_logical_and-Same zero ev ev' c d h = both_out
  parse_logical_and-Same (suc f) ev ev' c d h =
      >>=-Same _ _ (parse_binary-Same f 3 ev ev' c d h)
        λ v w c' d' k. and_loop-Same f ev ev' v w c' d' k

  and_loop-Same :
      (f : ℕ) (ev ev' : Bool) (v w : Cval) (c d : Cursor)
      → c.rest ≡ d.rest
      → Same (and_loop f ev (v, c)) (and_loop f ev' (w, d))
  and_loop-Same zero ev ev' v w c d h = both_out
  and_loop-Same (suc f) ev ev' v w c d h =
      let look = ap (is_next Punct.amp_amp) (sym h) in
      elim (Bool-cases (is_next Punct.amp_amp c.rest)) [
        | inr e ↦ rw (e, look ∙ e, and_loop) (both h)
        | inl e ↦
            rw (e, look ∙ e, and_loop)
              (>>=-Same _ _
                (parse_binary-Same f 3 (ev && truth v) (ev' && truth w) (advance c) (advance d)
                  (ap tail h))
                (λ x y c' d' k.
                  and_loop-Same f ev ev' (of_bool (truth v && truth x))
                    (of_bool (truth w && truth y)) c' d' k))
      ]

  parse_logical_or-Same :
      (f : ℕ) (ev ev' : Bool) (c d : Cursor)
      → c.rest ≡ d.rest
      → Same (parse_logical_or f ev c) (parse_logical_or f ev' d)
  parse_logical_or-Same zero ev ev' c d h = both_out
  parse_logical_or-Same (suc f) ev ev' c d h =
      >>=-Same _ _ (parse_logical_and-Same f ev ev' c d h)
        λ v w c' d' k. or_loop-Same f ev ev' v w c' d' k

  or_loop-Same :
      (f : ℕ) (ev ev' : Bool) (v w : Cval) (c d : Cursor)
      → c.rest ≡ d.rest
      → Same (or_loop f ev (v, c)) (or_loop f ev' (w, d))
  or_loop-Same zero ev ev' v w c d h = both_out
  or_loop-Same (suc f) ev ev' v w c d h =
      let look = ap (is_next Punct.pipe_pipe) (sym h) in
      elim (Bool-cases (is_next Punct.pipe_pipe c.rest)) [
        | inr e ↦ rw (e, look ∙ e, or_loop) (both h)
        | inl e ↦
            rw (e, look ∙ e, or_loop)
              (>>=-Same _ _
                (parse_logical_and-Same f (ev && not (truth v)) (ev' && not (truth w)) (advance c)
                  (advance d) (ap tail h))
                (λ x y c' d' k.
                  or_loop-Same f ev ev' (of_bool (truth v || truth x))
                    (of_bool (truth w || truth y)) c' d' k))
      ]

  parse_conditional-Same :
      (f : ℕ) (ev ev' : Bool) (c d : Cursor)
      → c.rest ≡ d.rest
      → Same (parse_conditional f ev c) (parse_conditional f ev' d)
  parse_conditional-Same zero ev ev' c d h = both_out
  parse_conditional-Same (suc f) ev ev' c d h =
      >>=-Same _ _ (parse_logical_or-Same f ev ev' c d h)
        λ v w c' d' k. conditional_tail-Same f ev ev' v w c' d' k

  conditional_tail-Same :
      (f : ℕ) (ev ev' : Bool) (v w : Cval) (c d : Cursor)
      → c.rest ≡ d.rest
      → Same (conditional_tail f ev (v, c)) (conditional_tail f ev' (w, d))
  conditional_tail-Same zero ev ev' v w c d h = both_out
  conditional_tail-Same (suc f) ev ev' v w c d h =
      let look = ap (is_next Punct.question) (sym h) in
      elim (Bool-cases (is_next Punct.question c.rest)) [
        | inr e ↦ rw (e, look ∙ e, conditional_tail) (both h)
        | inl e ↦
            rw (e, look ∙ e, conditional_tail)
              (>>=-Same _ _
                (parse_conditional-Same f (ev && truth v) (ev' && truth w) (advance c) (advance d)
                  (ap tail h))
                (λ a b x y k.
                  let look' = ap (is_next Punct.colon) (sym k) in
                  elim (Bool-cases (is_next Punct.colon x.rest)) [
                    | inr e' ↦ rw (e', look' ∙ e') (eval_error-Same x y expected_colon k)
                    | inl e' ↦
                        rw (e', look' ∙ e')
                          (>>=-Same _ _
                            (parse_conditional-Same f (ev && not (truth v)) (ev' && not (truth w))
                              (advance x) (advance y) (ap tail k))
                            (λ p q x' y' l. both l))
                  ]))
      ]

-- With any fuel, the run of an expression on a dead side and its run on a live side, or from a
-- cursor with other errors, end alike and in front of the same tokens.
pub dead_side_consumes :
    (f : ℕ) (c d : Cursor)
    → c.rest ≡ d.rest
    → Same (parse_conditional f false c) (parse_conditional f true d)
dead_side_consumes f c d h = parse_conditional-Same f false true c d h
