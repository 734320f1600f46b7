-- ===== src/CharConst/Range.antt =====
-- Character constants have a value in the range of their type.
use quicks_qcc.Prelude.{
  ℕ, ◌-◌, ◌%◌, ◌^◌, ◌≤◌, ◌<◌, ◌⊎◌, Bool, true, false, List, ltb, ◌==◌, if◌then◌else◌, length, arith,
  inl,
}
use native.Mathlib.Nat.{mod-lt}
use quicks_qcc.Status.{Outcome, ok, ◌>>=◌}
use quicks_qcc.Token.{CharEncoding}
use quicks_qcc.Encoding.{unit_max}
use quicks_qcc.CharConst.{
  char_prefix, without_quote, Units, sign_extend, emit, emit_if, plain_step, wide_step,
  empty_constant, plain_value, wide_value, no_units, eval_plain, eval_wide, eval_char,
}
use quicks_qcc.CharConst.Steps.{
  Gives, gives, >>=-Gives, emit-Gives, emit_if-Gives, units-Gives, plain_step-Gives,
  wide_step-Gives,
}

-- The values of a type, as words: `int` and `wchar_t` sign-extended, `char16_t`, `char32_t`
abbrev pub InType : CharEncoding → ℕ → Type 0
InType CharEncoding.char16 v = v < 2 ^ 16
InType CharEncoding.char32 v = v < 2 ^ 32
InType _ v = (v < 2 ^ 31) ⊎ ((2 ^ 64 - 2 ^ 31 ≤ v) × (v < 2 ^ 64))

sign_extend32 :
    (w : ℕ)
    → w < 2 ^ 32
    → (sign_extend 32 w < 2 ^ 31)
      ⊎ ((2 ^ 64 - 2 ^ 31 ≤ sign_extend 32 w) × (sign_extend 32 w < 2 ^ 64))
sign_extend32 w h = ground arith

sign_extend8 :
    (w : ℕ)
    → w < 2 ^ 8
    → (sign_extend 8 w < 2 ^ 31)
      ⊎ ((2 ^ 64 - 2 ^ 31 ≤ sign_extend 8 w) × (sign_extend 8 w < 2 ^ 64))
sign_extend8 w h = ground arith

module _ (room : ℕ → Bool) where
  emit_value : {P : ℕ → Type 0} (u : Units) (v : ℕ) → P v → Gives P (emit room u >>= λ w. ok v)
  emit_value u v p = >>=-Gives (emit-Gives room {P = λ w. Unit} u (λ n. tt)) (λ w q. gives p)

  plain_value-Gives : (u : Units) → Gives (InType CharEncoding.plain) (plain_value room u)
  unfolding plain_value empty_constant
  plain_value-Gives u = go (u.count == 0) (u.count == 1)
    where
      go :
          (b c : Bool)
          → Gives (InType CharEncoding.plain) (
              if b
              then (emit room u >>= λ v. ok 0)
              else if c
              then ok (sign_extend 8 (u.value % 2 ^ 8))
              else (emit room u >>= λ v.
                  emit_if room (ltb 4 v.count) v >>= λ v. ok (sign_extend 32 (v.value % 2 ^ 32))))
      go true c = emit_value u 0 (inl (omega arith))
      go false true = gives (sign_extend8 (u.value % 2 ^ 8) (mod-lt u.value (omega arith)))
      go false false = >>=-Gives (emit-Gives room {P = λ w. Unit} u (λ n. tt)) (λ w q.
          >>=-Gives (emit_if-Gives room {P = λ w. Unit} (ltb 4 w.count) w (λ n. tt))
            (λ x r. gives (sign_extend32 (x.value % 2 ^ 32) (mod-lt x.value (omega arith)))))

  wide_value-Gives :
      (enc : CharEncoding) (u : Units)
      → u.value ≤ unit_max enc
      → Gives (InType enc) (wide_value room enc u)
  unfolding wide_value empty_constant unit_max
  wide_value-Gives enc u h = go (u.count == 0)
    where
      zero_fits : (enc : CharEncoding) → InType enc 0
      zero_fits CharEncoding.plain = inl (omega arith)
      zero_fits CharEncoding.utf8 = inl (omega arith)
      zero_fits CharEncoding.wide = inl (omega arith)
      zero_fits CharEncoding.char16 = omega arith
      zero_fits CharEncoding.char32 = omega arith

      unit :
          (enc : CharEncoding) (v : ℕ)
          → v ≤ unit_max enc
          → InType enc (elim enc as (λ x. ℕ) [ CharEncoding.wide ↦ sign_extend 32 v | _ ↦ v ])
      unit CharEncoding.plain v k = inl (omega (arith, k))
      unit CharEncoding.utf8 v k = inl (omega (arith, k))
      unit CharEncoding.wide v k = sign_extend32 v (omega (arith, k))
      unit CharEncoding.char16 v k = omega (arith, k)
      unit CharEncoding.char32 v k = omega (arith, k)

      go :
          (b : Bool)
          → Gives (InType enc) (
              if b
              then (emit room u >>= λ v. ok 0)
              else (emit_if room (ltb 1 u.count) u >>= λ v. ok (elim enc as (λ x. ℕ) [
                | CharEncoding.wide ↦ sign_extend 32 v.value
                | _ ↦ v.value
              ])))
      go true = emit_value u 0 (zero_fits enc)
      go false =
          >>=-Gives
            (emit_if-Gives room {P = λ w. w.value ≤ unit_max enc} (ltb 1 u.count) u (λ n. h))
            (λ w q. gives (unit enc w.value q))

  eval_plain-Gives : (body : List ℕ) → Gives (InType CharEncoding.plain) (eval_plain room body)
  unfolding eval_plain
  eval_plain-Gives body =
      >>=-Gives
        (units-Gives room {P = λ v. Unit} (plain_step room) (plain_step-Gives room) (length body)
          (no_units room) body tt (omega arith))
        (λ u q. plain_value-Gives u)

  eval_wide-Gives :
      (enc : CharEncoding) (body : List ℕ) → Gives (InType enc) (eval_wide room enc body)
  unfolding eval_wide
  eval_wide-Gives enc body =
      >>=-Gives
        (units-Gives room {P = λ v. v.value ≤ unit_max enc} (wide_step room (unit_max enc))
          (wide_step-Gives room enc) (length body) (no_units room) body (omega arith) (omega arith))
        (λ u q. wide_value-Gives enc u q)

  -- Every lexeme has a value: unless a diagnostic finds no memory, `qcc_eval_char` comes to an end,
  -- and the value is one of the type that goes with the encoding, `int` and `wchar_t` sign-extended
  -- to 64 bits, `char16_t` and `char32_t` below 2 ^ 16 and 2 ^ 32.
  pub eval_char-InType :
      (s : List ℕ) → Gives (λ (r : ℕ × CharEncoding). InType r.1 r.0) (eval_char room s)
  unfolding eval_char
  eval_char-InType s = go (char_prefix s).0 (without_quote (char_prefix s).1)
    where
      go :
          (enc : CharEncoding) (body : List ℕ)
          → Gives
              (λ (r : ℕ × CharEncoding). InType r.1 r.0)
              (elim enc as (λ x. Outcome (ℕ × CharEncoding)) [
                | CharEncoding.plain ↦ eval_plain room body >>= λ v. ok (v, CharEncoding.plain)
                | _ ↦ eval_wide room enc body >>= λ v. ok (v, enc)
              ])
      go CharEncoding.plain body = >>=-Gives (eval_plain-Gives body) (λ v q. gives q)
      go CharEncoding.utf8 body =
          >>=-Gives (eval_wide-Gives CharEncoding.utf8 body) (λ v q. gives q)
      go CharEncoding.wide body =
          >>=-Gives (eval_wide-Gives CharEncoding.wide body) (λ v q. gives q)
      go CharEncoding.char16 body =
          >>=-Gives (eval_wide-Gives CharEncoding.char16 body) (λ v q. gives q)
      go CharEncoding.char32 body =
          >>=-Gives (eval_wide-Gives CharEncoding.char32 body) (λ v q. gives q)
