-- ===== src/ConstEval/CommonType.antt =====
-- The common type of two operands, and what they are converted to it.
use quicks_qcc.Prelude.{
  ℕ, ◌+◌, ◌-◌, ◌%◌, ◌^◌, ◌≤◌, ◌<◌, ◌≡◌, refl, Bool, true, false, arith, ltb, lt→ltb, if◌then◌else◌,
  ◌==◌, inl, inr, ◌⊎◌,
}
use native.Mathlib.Nat.{mod-lt, pow-le-pow_right}
use quicks_qcc.ConstEval.{Ival, usual_arith}
use quicks_qcc.ConstEval.Canonical.{IsWidth, IsCanonical}
use quicks_qcc.ConstEval.Arith.{
  read, value, IsCanonical-InRange, IsCanonical-lt, bits-Congruent, Congruent, InRange,
}
use quicks_qcc.Prelude.Int.{ℤ, pos}

-- The value of a type of a width and a signedness that an integer is converted to
abbrev pub IsConverted : ℕ → Bool → ℤ → ℤ → Type 0
IsConverted w u z x = InRange w u x × Congruent (2 ^ w) x z

-- The common type is at least as wide as each operand, and signed beside an unsigned operand only
-- where it is wider.
pub usual_arith_wide :
    (a b : Ival)
    → let w = (usual_arith a b).0 in
      let u = (usual_arith a b).1 in
      ((a.width ≤ w) × (u ≡ false → a.uns ≡ true → a.width < w))
      × ((b.width ≤ w) × (u ≡ false → b.uns ≡ true → b.width < w))
unfolding usual_arith
usual_arith_wide a b = ground arith

-- The value of an operand that `/` and `%` take
abbrev pub operand : ℕ → Bool → Ival → ℤ
operand w true v = pos (v.bits % 2 ^ w)
operand w false v = read v.bits false

reduced-Congruent :
    (n w : ℕ) (z : ℤ)
    → IsWidth w
    → Congruent (2 ^ 64) (pos n) z
    → Congruent (2 ^ w) (pos (n % 2 ^ w)) z
reduced-Congruent n w z (inl e) c = rw e (omega (arith, c))
reduced-Congruent n w z (inr (inl e)) c = rw e (omega (arith, c))
reduced-Congruent n w z (inr (inr (inl e))) c = rw e (omega (arith, c))
reduced-Congruent n w z (inr (inr (inr e))) c = rw e (omega (arith, c))

power_pos : (w : ℕ) → IsWidth w → 0 < 2 ^ w
power_pos w (inl e) = rw e (omega arith)
power_pos w (inr (inl e)) = rw e (omega arith)
power_pos w (inr (inr (inl e))) = rw e (omega arith)
power_pos w (inr (inr (inr e))) = rw e (omega arith)

-- Ranges of signed types and of narrower types
widened_signed : (v w : ℕ) (z : ℤ) → v ≤ w → InRange v false z → InRange w false z
widened_signed v w z h (lo, hi) =
    let grows = pow-le-pow_right {n = 2} (omega arith) {i = v - 1} {j = w - 1} (omega arith) in
    (omega (arith, grows), omega (arith, grows))

widened_unsigned :
    (n v w : ℕ)
    → IsWidth w
    → v < w
    → n < 2 ^ v
    → InRange w false (read n false) × (read n false ≡ pos n)
widened_unsigned n v w k h below =
    let grows = pow-le-pow_right {n = 2} (omega arith) {i = v} {j = w - 1} (omega arith) in
    let top = pow-le-pow_right {n = 2} (omega arith) {i = w - 1} {j = 63} (ground (arith, k)) in
    let low : ltb n (2 ^ 63) ≡ true = lt→ltb n (2 ^ 63) (omega (arith, grows, top)) in
    rw low ((omega arith, omega (arith, grows)), refl)

pub operand-IsConverted :
    (v : Ival) (w : ℕ) (u : Bool)
    → IsCanonical v
    → IsWidth w
    → v.width ≤ w
    → (u ≡ false → v.uns ≡ true → v.width < w)
    → IsConverted w u (value v) (operand w u v)
unfolding value
operand-IsConverted v w true h k wide stays =
    let c = bits-Congruent v (IsCanonical-lt v h) in
    ((refl, mod-lt v.bits (power_pos w k)), reduced-Congruent v.bits w (value v) k c)
operand-IsConverted v w false h k wide stays = go v.uns refl
  where
    go : (c : Bool) → v.uns ≡ c → IsConverted w false (read v.bits v.uns) (read v.bits false)
    go false e = rw e (
      widened_signed v.width w (read v.bits false) wide (rw e at (IsCanonical-InRange v h)),
      refl,
    )
    go true e =
        let r =
          widened_unsigned v.bits v.width w k (stays refl e)
            (rw e at (IsCanonical-InRange v h)).1 in
        rw (e, r.1) (rw r.1 at r.0, refl)

pub operand_zero :
    (v : Ival) (w : ℕ)
    → IsCanonical v
    → IsWidth w
    → v.width ≤ w
    → (v.bits == 0) ≡ false
    → 0 < v.bits % 2 ^ w
operand_zero v w h k wide e = ground (arith, k, h.is_width, h.reduced)

-- The place of a promoted type in the order of the usual arithmetic conversions (ISO C 6.3.1.8):
-- int, unsigned int, long, unsigned long
abbrev pub conversion_rank : ℕ → Bool → ℕ
conversion_rank w u = w + (if u then 1 else 0)

-- On promoted operands, of 32 or 64 bits, the common type is that of one operand, and neither
-- operand's type comes behind it in the order int, unsigned int, long, unsigned long.
pub usual_arith-conversion_rank :
    (a b : Ival)
    → (a.width ≡ 32) ⊎ (a.width ≡ 64)
    → (b.width ≡ 32) ⊎ (b.width ≡ 64)
    → let (w, u) = usual_arith a b in
      (((w ≡ a.width) × (u ≡ a.uns)) ⊎ ((w ≡ b.width) × (u ≡ b.uns)))
      × (conversion_rank a.width a.uns ≤ conversion_rank w u)
      × (conversion_rank b.width b.uns ≤ conversion_rank w u)
unfolding usual_arith
usual_arith-conversion_rank a b ha hb = ground arith
