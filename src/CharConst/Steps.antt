-- ===== src/CharConst/Steps.antt =====
-- The loops of the two evaluations: every step consumes a byte and reads a unit of the encoding.
use quicks_qcc.Prelude.{
  ℕ, zero, suc, ◌+◌, ◌-◌, ◌%◌, ◌^◌, ◌≤◌, ◌<◌, ◌≡◌, refl, bit_and, Bool, true, false, List, [], ◌∷◌,
  Option, none, some, ltb, ltb→lt, ◌==◌, if◌then◌else◌, length, drop, length-drop, arith,
  Bool-cases, inl, inr,
}
use native.Mathlib.Nat.{mod-lt, one-le-pow}
use quicks_qcc.Prelude.Bits.{bit_and_mask}
use quicks_qcc.Status.{Status, Outcome, ok, err, ◌>>=◌}
use quicks_qcc.Token.{CharEncoding}
use quicks_qcc.Encoding.{unit_max, utf8_decode, utf8_encode}
use quicks_qcc.Escape.{Escaped, EscapeKind, Message, decode_escape, decode, recorded}
use quicks_qcc.Escape.Laws.{decode-IsEscaped}
use quicks_qcc.CharConst.{
  reported, Units, push_bytes, emit, emit_if, plain_escape, plain_step, fitted, wide_step, units,
}

-- A result that satisfies a predicate, or a failure; nothing that C leaves undefined
pub data Gives {ℓ} {A : Type ℓ} (P : A → Type ℓ) : Outcome A → Type ℓ where
  gives : {a : A} → P a → Gives P (ok a)
  fails : Gives P (err Status.out_of_memory)

pub >>=-Gives :
    {A B : Type 0} {P : A → Type 0} {Q : B → Type 0} {m : Outcome A} {k : A → Outcome B}
    → Gives P m
    → ((a : A) → P a → Gives Q (k a))
    → Gives Q (m >>= k)
>>=-Gives (gives {a} p) h = h a p
>>=-Gives fails h = fails

module _ (room : ℕ → Bool) where
  pub emit-Gives :
      {P : Units → Type 0} (u : Units)
      → ((n : ℕ) → P (record u { emitted = n }))
      → Gives P (emit room u)
  unfolding emit
  emit-Gives {P} u h = go (room u.emitted)
    where
      go :
          (c : Bool)
          → Gives P
              (if c then ok (record u { emitted = u.emitted + 1 }) else err Status.out_of_memory)
      go true = gives (h (u.emitted + 1))
      go false = fails

  pub emit_if-Gives :
      {P : Units → Type 0} (c : Bool) (u : Units)
      → ((n : ℕ) → P (record u { emitted = n }))
      → Gives P (emit_if room c u)
  emit_if-Gives true u h = emit-Gives u h
  emit_if-Gives false u h = gives (h u.emitted)

  -- A loop whose steps shorten what is left and keep a property ends within the fuel.
  pub units-Gives :
      {P : Units → Type 0} (step : Units → ℕ → List ℕ → Outcome Units)
      → ((u : Units) (c : ℕ) (cs : List ℕ)
          → Gives (λ v. (length v.rest ≤ length cs) × P v) (step u c cs))
      → (fuel : ℕ) (u : Units) (bs : List ℕ) → P u
      → length bs ≤ fuel
      → Gives P (units room step fuel u bs)
  unfolding units
  units-Gives step h fuel u [] p k = gives p
  units-Gives step h zero u (c ∷ cs) p k = absurd (omega (arith, k))
  units-Gives step h (suc fuel) u (c ∷ cs) p k =
      >>=-Gives (h u c cs) (λ v q. units-Gives step h fuel v v.rest q.1 (omega (arith, q.0, k)))

recorded-Gives :
    {n : ℕ} (c : Bool) (r : Escaped) (m : Option Message)
    → length r.rest ≤ n
    → Gives (λ (e : Escaped). length e.rest ≤ n) (recorded c r m)
recorded-Gives c r none h = gives h
recorded-Gives true r (some m) h = gives h
recorded-Gives false r (some m) h = fails

decode-shorter : (cs : List ℕ) → length (decode cs).rest ≤ length cs
unfolding decode
decode-shorter [] = omega arith
decode-shorter (c ∷ cs) = omega (arith, (decode-IsEscaped c cs).moves_on)

escape-Gives :
    (c : Bool) (cs : List ℕ)
    → Gives (λ (e : Escaped). length e.rest ≤ length cs) (decode_escape c cs)
unfolding decode_escape
escape-Gives c cs = recorded-Gives c (decode cs) (decode cs).diag (decode-shorter cs)

push_bytes-rest : (bs : List ℕ) (u : Units) → (push_bytes bs u).rest ≡ u.rest
unfolding push_bytes
push_bytes-rest [] u = refl
push_bytes-rest (b ∷ bs) u = push_bytes-rest bs _

unit_max-mask : (enc : CharEncoding) → (k : ℕ) × (unit_max enc ≡ 2 ^ k - 1) × (0xFF ≤ unit_max enc)
unfolding unit_max
unit_max-mask CharEncoding.plain = (8, refl, omega arith)
unit_max-mask CharEncoding.utf8 = (8, refl, omega arith)
unit_max-mask CharEncoding.char16 = (16, refl, omega arith)
unit_max-mask CharEncoding.wide = (32, refl, omega arith)
unit_max-mask CharEncoding.char32 = (32, refl, omega arith)

-- A step that leaves no more than `n` bytes, and a unit of the encoding
abbrev IsStep : ℕ → ℕ → Units → Type 0
IsStep n umax v = (length v.rest ≤ n) × (v.value ≤ umax)

cut_down :
    (enc : CharEncoding) (value : ℕ)
    → (if ltb (unit_max enc) value then bit_and value (unit_max enc) else value) ≤ unit_max enc
cut_down enc value =
    let below : value % 2 ^ (unit_max-mask enc).0 < 2 ^ (unit_max-mask enc).0 =
      mod-lt value {m = 2 ^ (unit_max-mask enc).0}
        (one-le-pow (unit_max-mask enc).0 2 (omega arith)) in
    elim (Bool-cases (ltb (unit_max enc) value)) [
      | inl e ↦
          rw (e, (unit_max-mask enc).1, bit_and_mask (unit_max-mask enc).0 value)
            (omega (arith, below))
      | inr e ↦ ground arith
    ]

module _ (room : ℕ → Bool) where
  pub plain_step-Gives :
      (u : Units) (c : ℕ) (cs : List ℕ)
      → Gives (λ (v : Units). (length v.rest ≤ length cs) × Unit) (plain_step room u c cs)
  unfolding plain_step plain_escape
  plain_step-Gives u c cs = go (c == 92)
    where
      escape :
          (e : Escaped)
          → length e.rest ≤ length cs
          → Gives (λ (v : Units). (length v.rest ≤ length cs) × Unit) (plain_escape room u e)
      escape e h = kinds e.kind
        where
          v : Units
          v = record u { rest = e.rest; emitted = u.emitted + reported e.diag }

          kinds :
              (k : EscapeKind)
              → Gives
                  (λ (v : Units). (length v.rest ≤ length cs) × Unit)
                  (elim k as (λ x. Outcome Units) [
                    | EscapeKind.ucn ↦ ok (push_bytes (utf8_encode e.value) v)
                    | EscapeKind.raw ↦ emit_if room (ltb 0xFF e.value) v >>= λ v.
                        ok (push_bytes (bit_and e.value 0xFF ∷ []) v)
                  ])
          kinds EscapeKind.ucn = gives (rw (push_bytes-rest (utf8_encode e.value) v) h, tt)
          kinds EscapeKind.raw =
              >>=-Gives
                (emit_if-Gives room {P = λ v. length v.rest ≤ length cs} (ltb 0xFF e.value) v
                  (λ n. h))
                (λ w q. gives (rw (push_bytes-rest (bit_and e.value 0xFF ∷ []) w) q, tt))

      go :
          (b : Bool)
          → Gives
              (λ (v : Units). (length v.rest ≤ length cs) × Unit)
              (if b
                then (decode_escape (room u.emitted) cs >>= plain_escape room u)
                else ok (push_bytes (c ∷ []) (record u { rest = cs })))
      go true = >>=-Gives (escape-Gives (room u.emitted) cs) escape
      go false = gives (rw (push_bytes-rest (c ∷ []) (record u { rest = cs })) (omega arith), tt)

  fitted-Gives :
      (enc : CharEncoding) (n value : ℕ) (u : Units)
      → length u.rest ≤ n
      → Gives (IsStep n (unit_max enc)) (fitted room (unit_max enc) value u)
  unfolding fitted
  fitted-Gives enc n value u h =
      >>=-Gives
        (emit_if-Gives room {P = λ v. length v.rest ≤ n} (ltb (unit_max enc) value) u (λ k. h))
        (λ v q. gives (q, cut_down enc value))

  pub wide_step-Gives :
      (enc : CharEncoding) (u : Units) (c : ℕ) (cs : List ℕ)
      → Gives (IsStep (length cs) (unit_max enc)) (wide_step room (unit_max enc) u c cs)
  unfolding wide_step
  wide_step-Gives enc u c cs = go (c == 92) (ltb c 0x80) refl
    where
      decoded : length (drop ((utf8_decode c cs).consumed - 1) cs) ≤ length cs
      decoded = omega (arith, length-drop ((utf8_decode c cs).consumed - 1) cs)

      go :
          (b d : Bool)
          → ltb c 0x80 ≡ d
          → Gives (IsStep (length cs) (unit_max enc)) (
              if b
              then (decode_escape (room u.emitted) cs >>= λ e.
                  fitted room
                    (unit_max enc)
                    e.value
                    (record u { rest = e.rest; emitted = u.emitted + reported e.diag }))
              else if d
              then ok (record u { value = c; count = u.count + 1; rest = cs })
              else fitted room
                  (unit_max enc)
                  (utf8_decode c cs).cp
                  (record u { rest = drop ((utf8_decode c cs).consumed - 1) cs }))
      go true d e =
          >>=-Gives (escape-Gives (room u.emitted) cs)
            (λ r h. fitted-Gives enc (length cs) r.value _ h)
      go false true e = gives (omega arith, omega (arith, ltb→lt c 0x80 e, (unit_max-mask enc).2))
      go false false e = fitted-Gives enc (length cs) (utf8_decode c cs).cp _ decoded
