-- ===== src/CondEval/Chars.antt =====
-- The loops of `parse_char_literal` end: each round takes a byte.
use quicks_qcc.Prelude.{
  ℕ, zero, suc, ◌+◌, ◌*◌, ◌-◌, ◌%◌, ◌^◌, ◌≤◌, ◌<◌, ◌≡◌, refl, Bool, true, false, List, [], ◌∷◌,
  Option, none, some, arith, length, ◌==◌, Option-cases, inl, inr, Bool-cases,
}
use quicks_qcc.CondEval.Base.{make_int, SyntaxError, invalid_character}
use quicks_qcc.CondEval.Literal.{
  chars, next_char, escape, hex_run, octal_run, digit, simple_char, pack_char, keep_first,
  finish_char, Reading, parse_char_literal, after_quote,
}

-- The runs of digits in an escape leave no more bytes than they were given.
hex_run-length : (hv : ℕ) (got : Bool) (cs : List ℕ) → length (hex_run hv got cs).2 ≤ length cs
unfolding hex_run
hex_run-length hv got [] = omega arith
hex_run-length hv got (c ∷ cs) = elim (Option-cases (digit 16 c)) [
  | inl e ↦ rw (e, hex_run) (omega arith)
  | inr (d, e) ↦ rw (e, hex_run) (omega (arith, hex_run-length ((hv * 16 + d) % 2 ^ 32) true cs))
]

octal_run-length : (n ov : ℕ) (cs : List ℕ) → length (octal_run n ov cs).1 ≤ length cs
unfolding octal_run
octal_run-length zero ov cs = omega arith
octal_run-length (suc n) ov [] = omega arith
octal_run-length (suc n) ov (c ∷ cs) = ground (arith, octal_run-length n (ov * 8 + (c - 48)) cs)

escape-length : (e : ℕ) (cs : List ℕ) → length (escape e cs).1 ≤ length cs
unfolding escape
escape-length e cs = elim (Option-cases (simple_char e)) [
  | inr (ch, s) ↦ rw (s, escape) (omega arith)
  | inl s ↦
      rw (s, escape) (ground (arith, hex_run-length 0 false cs, octal_run-length 2 (e - 48) cs))
]

next_char-length : (c : ℕ) (cs : List ℕ) → length (next_char c cs).1 ≤ length cs
unfolding next_char
next_char-length c [] = omega arith
next_char-length c (e ∷ cs) = ground (arith, escape-length e cs)

-- One unit of fuel for each byte and one more are enough for the character loop.
chars_total :
    (f value : ℕ) (any : Bool) (error : Option SyntaxError) (cs : List ℕ)
    → length cs < f
    → (r : ℕ × Bool × Option SyntaxError) × (chars f value any error cs ≡ some r)
unfolding chars
chars_total zero value any error cs h = absurd (omega arith)
chars_total (suc f) value any error [] h = (_, refl)
chars_total (suc f) value any error (c ∷ cs) h =
    let (ch, rest, e) = next_char c cs in
    let more =
      chars_total f (pack_char value ch) true (keep_first error e) rest
        (omega (arith, next_char-length c cs)) in
    elim (Bool-cases (c == 39)) [
      | inl q ↦ ((value, any, error), rw q)
      | inr q ↦ (more.0, rw q more.1)
    ]

-- Reading a character constant always ends.
pub parse_char_literal_total : (s : List ℕ) → (r : Reading) × (parse_char_literal s ≡ some r)
unfolding parse_char_literal
parse_char_literal_total s = elim (Option-cases (after_quote s)) [
  | inl e ↦ ((make_int 0 false, some invalid_character), rw (e, parse_char_literal))
  | inr (cs, e) ↦
      let run = chars_total (suc (length cs)) 0 false none cs (omega arith) in
      (finish_char run.0, rw (e, parse_char_literal, run.1))
]
