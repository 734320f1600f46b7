-- ===== src/IntConst/Numeral.antt =====
-- The digit loop against the numeral that it reads, and its overflow flag.
use quicks_qcc.Prelude.{
  ℕ, ◌+◌, ◌-◌, ◌*◌, ◌/◌, ◌%◌, ◌^◌, ◌<◌, ◌≤◌, ◌≡◌, inl, inr, ◌↔◌, refl, Bool, true, false, not,
  if◌then◌else◌, length, ◌==◌, List, [], ◌∷◌, Option, none, some, ltb, leb, arith, Bool-cases,
  Option-cases,
}
use quicks_qcc.Prelude.Word.{u64}
use quicks_qcc.IntConst.{digit_value, hex_value, accumulate, below_base}

-- The number that the leading digits of `s` stand for in a base, behind digits worth `value`
unfoldable pub numeral : ℕ → ℕ → List ℕ → ℕ
numeral base value [] = value
numeral base value (c ∷ cs) = elim (digit_value c base) [
  | none ↦ value
  | some d ↦ numeral base (value * base + d) cs
]

-- The bases of C's integer constants
pub data IsBase : ℕ → Type 0 where
  base_8 : IsBase 8
  base_10 : IsBase 10
  base_16 : IsBase 16

times : {b : ℕ} → IsBase b → (v : ℕ) → v ≤ v * b
times base_8 v = omega arith
times base_10 v = omega arith
times base_16 v = omega arith

step_overflows :
    (base value d : ℕ)
    → IsBase base
    → d < base
    → (ltb ((2 ^ 64 - 1 - d) / base) value ≡ true) ↔ (2 ^ 64 ≤ value * base + d)
step_overflows base value d base_8 h = ground arith
step_overflows base value d base_10 h = ground arith
step_overflows base value d base_16 h = ground arith

digit_below : (c base d : ℕ) → digit_value c base ≡ some d → d < base
unfolding digit_value
digit_below c base d h = go (hex_value c) h
  where
    go : (o : Option ℕ) → below_base base o ≡ some d → d < base
    go none e = ground arith
    go (some v) e = ground arith

numeral_grows : (base value : ℕ) (s : List ℕ) → IsBase base → value ≤ numeral base value s
unfolding numeral
numeral_grows base value [] h = omega arith
numeral_grows base value (c ∷ cs) h = elim (Option-cases (digit_value c base)) [
  | inl e ↦ rw (e, numeral) (omega arith)
  | inr (d, e) ↦
      rw (e, numeral) (omega (arith, numeral_grows base (value * base + d) cs h, times h value))
]

stays_set : (base value : ℕ) (s : List ℕ) → (accumulate base value true s).overflow ≡ true
unfolding accumulate
stays_set base value [] = refl
stays_set base value (c ∷ cs) = elim (Option-cases (digit_value c base)) [
  | inl e ↦ rw (e, accumulate) refl
  | inr (d, e) ↦ elim (Bool-cases (ltb ((2 ^ 64 - 1 - d) / base) value)) [
    | inl o ↦ rw (e, accumulate, o) (stays_set base (u64 (u64 (value * base) + d)) cs)
    | inr o ↦ rw (e, accumulate, o) (stays_set base (u64 (u64 (value * base) + d)) cs)
  ]
]

-- The digit loop on a `uint64_t`, from `value` and with the flag clear, reads the numeral: where
-- the numeral is below 2 ^ 64, the value is exact and the flag stays clear; elsewhere it is set.
pub accumulate-numeral :
    (base value : ℕ) (s : List ℕ)
    → IsBase base
    → value < 2 ^ 64
    → (numeral base value s < 2 ^ 64 → (accumulate base value false s).value ≡ numeral base value s)
      × ((accumulate base value false s).overflow ≡ leb (2 ^ 64) (numeral base value s))
unfolding accumulate numeral
accumulate-numeral base value [] h v = (λ q. refl, ground arith)
accumulate-numeral base value (c ∷ cs) h v = elim (Option-cases (digit_value c base)) [
  | inl e ↦ rw (e, accumulate, numeral) (λ q. refl, ground arith)
  | inr (d, e) ↦
      let small = digit_below c base d e in
      let grows = numeral_grows base (value * base + d) cs h in
      elim (Bool-cases (ltb ((2 ^ 64 - 1 - d) / base) value)) [
        | inl o ↦
            let over : 2 ^ 64 ≤ numeral base (value * base + d) cs =
              omega (arith, (step_overflows base value d h small).0 o, grows) in
            rw (e, accumulate, numeral, o, stays_set base (u64 (u64 (value * base) + d)) cs)
              (λ q. absurd (omega arith), ground arith)
        | inr o ↦
            let next : value * base + d < 2 ^ 64 =
              ground (arith, (step_overflows base value d h small).1) in
            let same : u64 (u64 (value * base) + d) ≡ value * base + d = exact value base d next in
            rw (e, accumulate, numeral, o, same)
              (accumulate-numeral base (value * base + d) cs h next)
      ]
]
  where
    exact : (v b d : ℕ) → v * b + d < 2 ^ 64 → u64 (u64 (v * b) + d) ≡ v * b + d
    exact v b d h = omega arith

wraps :
    (base value exact d : ℕ)
    → IsBase base
    → value ≡ exact % 2 ^ 64
    → u64 (u64 (value * base) + d) ≡ (exact * base + d) % 2 ^ 64
wraps base value exact d base_8 h = omega arith
wraps base value exact d base_10 h = omega arith
wraps base value exact d base_16 h = omega arith

-- Where the numeral does not fit, the value is what is left of it modulo 2 ^ 64.
pub accumulate-mod :
    (base value exact : ℕ) (o : Bool) (s : List ℕ)
    → IsBase base
    → value ≡ exact % 2 ^ 64
    → (accumulate base value o s).value ≡ numeral base exact s % 2 ^ 64
unfolding accumulate numeral
accumulate-mod base value exact o [] b h = h
accumulate-mod base value exact o (c ∷ cs) b h = elim (Option-cases (digit_value c base)) [
  | inl e ↦ rw (e, accumulate, numeral) h
  | inr (d, e) ↦
      rw (e, accumulate, numeral)
        (accumulate-mod base (u64 (u64 (value * base) + d)) (exact * base + d)
          (if ltb ((2 ^ 64 - 1 - d) / base) value then true else o) cs b
          (wraps base value exact d b h))
]

-- The bytes behind the leading digits
unfoldable pub behind_digits : ℕ → List ℕ → List ℕ
behind_digits base [] = []
behind_digits base (c ∷ cs) = elim (digit_value c base) [
  | none ↦ c ∷ cs
  | some d ↦ behind_digits base cs
]

pub accumulate-behind :
    (base value : ℕ) (o : Bool) (s : List ℕ)
    → (accumulate base value o s).behind ≡ behind_digits base s
unfolding accumulate behind_digits
accumulate-behind base value o [] = refl
accumulate-behind base value o (c ∷ cs) = elim (Option-cases (digit_value c base)) [
  | inl e ↦ rw (e, accumulate, behind_digits) refl
  | inr (d, e) ↦
      rw (e, accumulate, behind_digits)
        (accumulate-behind base (u64 (u64 (value * base) + d))
          (if ltb ((2 ^ 64 - 1 - d) / base) value then true else o) cs)
]

-- Whether the first byte is a digit in a base
unfoldable pub begins_with_digit : ℕ → List ℕ → Bool
begins_with_digit base [] = false
begins_with_digit base (c ∷ cs) = elim (digit_value c base) [ none ↦ false | some d ↦ true ]

length-behind_digits : (base : ℕ) (s : List ℕ) → length (behind_digits base s) ≤ length s
unfolding behind_digits
length-behind_digits base [] = omega arith
length-behind_digits base (c ∷ cs) = elim (Option-cases (digit_value c base)) [
  | inl e ↦ rw (e, behind_digits) (omega arith)
  | inr (d, e) ↦ rw (e, behind_digits) (omega (arith, length-behind_digits base cs))
]

-- All bytes stand behind the digits just if there are none.
pub behind_digits-all :
    (base : ℕ) (s : List ℕ)
    → (length (behind_digits base s) == length s) ≡ not (begins_with_digit base s)
unfolding behind_digits begins_with_digit
behind_digits-all base [] = refl
behind_digits-all base (c ∷ cs) = elim (Option-cases (digit_value c base)) [
  | inl e ↦ rw (e, behind_digits, begins_with_digit) (ground arith)
  | inr (d, e) ↦
      rw (e, behind_digits, begins_with_digit) (ground (arith, length-behind_digits base cs))
]
