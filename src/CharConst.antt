-- ===== src/CharConst.antt =====
-- src/convert/internal/charconst.c: the values of character constants (ISO C 6.4.4.4), over the bytes
-- of the lexeme. `room n` tells whether the sink can take one more diagnostic behind `n` others from
-- here. The loops run on fuel, one step for a byte of the body.
pub mod Steps
pub mod Range
pub mod Roundtrip
use quicks_qcc.Prelude.{
  ℕ, zero, suc, ◌+◌, ◌-◌, ◌*◌, ◌%◌, ◌^◌, bit_and, bit_or, Bool, true, false, ◌&&◌, List, [], ◌∷◌,
  Option, none, some, ltb, leb, ◌==◌, if◌then◌else◌, length, drop,
}
use quicks_qcc.Prelude.Word.{u64, shl64}
use quicks_qcc.Status.{Status, Outcome, ok, err, undefined, ◌>>=◌}
use quicks_qcc.Token.{CharEncoding}
use quicks_qcc.Encoding.{unit_max, utf8_decode, utf8_encode}
use quicks_qcc.Escape.{Escaped, EscapeKind, Message, decode_escape}

-- `char_prefix`: the encoding, and what stands behind the opening quote
unfoldable pub char_prefix : List ℕ → CharEncoding × List ℕ
char_prefix [] = (CharEncoding.plain, [])
char_prefix (c ∷ []) = (CharEncoding.plain, [])
char_prefix (c ∷ d ∷ cs) =
    if (d == 39) && (c == b'L')
    then (CharEncoding.wide, cs)
    else if (d == 39) && (c == b'u')
    then (CharEncoding.char16, cs)
    else if (d == 39) && (c == b'U')
    then (CharEncoding.char32, cs)
    else (CharEncoding.plain, d ∷ cs)

-- The body without the closing quote, if there is one
unfoldable pub without_quote : List ℕ → List ℕ
without_quote [] = []
without_quote (c ∷ []) = if c == 39 then [] else c ∷ []
without_quote (c ∷ d ∷ cs) = c ∷ without_quote (d ∷ cs)

-- How many diagnostics an escape sequence has reported
abbrev pub reported : Option Message → ℕ
reported none = 0
reported (some m) = 1

-- Units read so far: their value, how many there are, what is left, and the diagnostics
pub record Units : Type 0 where
  pub value : ℕ
  pub count : ℕ
  pub rest : List ℕ
  pub emitted : ℕ

-- `acc = (acc << 8) | b` for each byte
unfoldable pub push_bytes : List ℕ → Units → Units
push_bytes [] u = u
push_bytes (b ∷ bs) u =
    push_bytes bs (record u { value = bit_or (shl64 u.value 8) b; count = u.count + 1 })

-- `(uint64_t)(int64_t)(int32_t)w` and `(uint64_t)(int64_t)(int8_t)w`
abbrev pub sign_extend : ℕ → ℕ → ℕ
sign_extend bits w = if leb (2 ^ (bits - 1)) w then w + (2 ^ 64 - 2 ^ bits) else w

module _ (room : ℕ → Bool) where
  -- `qcc_diag_emit`
  unfoldable pub emit : Units → Outcome Units
  emit u =
      if room u.emitted then ok (record u { emitted = u.emitted + 1 }) else err Status.out_of_memory

  -- A diagnostic where a condition holds
  abbrev pub emit_if : Bool → Units → Outcome Units
  emit_if true u = emit u
  emit_if false u = ok u

  -- A step of the loop of `eval_plain`: the escape sequence behind a backslash, or a byte
  unfoldable pub plain_escape : Units → Escaped → Outcome Units
  unfolding emit push_bytes
  plain_escape u e =
      let v : Units = record u { rest = e.rest; emitted = u.emitted + reported e.diag } in
      elim e.kind [
        | EscapeKind.ucn ↦ ok (push_bytes (utf8_encode e.value) v)
        | EscapeKind.raw ↦
            emit_if (ltb 0xFF e.value) v >>= λ v. ok (push_bytes (bit_and e.value 0xFF ∷ []) v)
      ]

  unfoldable pub plain_step : Units → ℕ → List ℕ → Outcome Units
  unfolding plain_escape push_bytes
  plain_step u c cs =
      if c == 92
      then (decode_escape (room u.emitted) cs >>= plain_escape u)
      else ok (push_bytes (c ∷ []) (record u { rest = cs }))

  -- A step of the loop of `eval_wide`; a unit that does not fit is cut down.
  unfoldable pub fitted : ℕ → ℕ → Units → Outcome Units
  unfolding emit
  fitted umax value u = emit_if (ltb umax value) u >>= λ v. ok (record v {
    value = if ltb umax value then bit_and value umax else value;
    count = v.count + 1;
  })

  unfoldable pub wide_step : ℕ → Units → ℕ → List ℕ → Outcome Units
  unfolding fitted
  wide_step umax u c cs =
      if c == 92
      then (decode_escape (room u.emitted) cs >>= λ e.
          fitted umax e.value (record u { rest = e.rest; emitted = u.emitted + reported e.diag }))
      else if ltb c 0x80
      then ok (record u { value = c; count = u.count + 1; rest = cs })
      else (let d = utf8_decode c cs in
          fitted umax d.cp (record u { rest = drop (d.consumed - 1) cs }))

  -- The loops, on fuel
  unfoldable pub units : (Units → ℕ → List ℕ → Outcome Units) → ℕ → Units → List ℕ → Outcome Units
  units step fuel u [] = ok u
  units step zero u (c ∷ cs) = undefined
  units step (suc fuel) u (c ∷ cs) = step u c cs >>= λ v. units step fuel v v.rest

  -- Where the body is empty
  unfoldable pub empty_constant : Units → Outcome ℕ
  unfolding emit
  empty_constant u = emit u >>= λ v. ok 0

  -- The end of `eval_plain`
  unfoldable pub plain_value : Units → Outcome ℕ
  unfolding empty_constant
  plain_value u =
      if u.count == 0
      then empty_constant u
      else if u.count == 1
      then ok (sign_extend 8 (u.value % 2 ^ 8))
      else (emit u >>= λ v.
          emit_if (ltb 4 v.count) v >>= λ v. ok (sign_extend 32 (v.value % 2 ^ 32)))

  -- The end of `eval_wide`
  unfoldable pub wide_value : CharEncoding → Units → Outcome ℕ
  unfolding empty_constant
  wide_value enc u =
      if u.count == 0
      then empty_constant u
      else (emit_if (ltb 1 u.count) u >>= λ v.
          ok (elim enc [ CharEncoding.wide ↦ sign_extend 32 v.value | _ ↦ v.value ]))

  abbrev pub no_units : Units
  no_units = record { value = 0; count = 0; rest = []; emitted = 0 }

  -- `eval_plain`
  unfoldable pub eval_plain : List ℕ → Outcome ℕ
  unfolding units plain_step plain_value
  eval_plain body = units plain_step (length body) no_units body >>= plain_value

  -- `eval_wide`
  unfoldable pub eval_wide : CharEncoding → List ℕ → Outcome ℕ
  unfolding units wide_step wide_value
  eval_wide enc body =
      units (wide_step (unit_max enc)) (length body) no_units body >>= wide_value enc

  -- `qcc_eval_char`: the value and the encoding
  unfoldable pub eval_char : List ℕ → Outcome (ℕ × CharEncoding)
  unfolding char_prefix without_quote eval_plain eval_wide
  eval_char s =
      let found = char_prefix s in
      let body = without_quote found.1 in
      elim found.0 [
        | CharEncoding.plain ↦ eval_plain body >>= λ v. ok (v, CharEncoding.plain)
        | _ ↦ eval_wide found.0 body >>= λ v. ok (v, found.0)
      ]
