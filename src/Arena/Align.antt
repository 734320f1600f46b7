-- ===== src/Arena/Align.antt =====
-- Rounding an address up to an alignment.
use quicks_qcc.Prelude.{
  ℕ, ◌+◌, ◌-◌, ◌*◌, ◌/◌, ◌%◌, ◌^◌, ◌<◌, ◌≤◌, ◌≡◌, ap, Option, none, some, ltb, bit_and, arith,
  Bool-cases, inl, inr, ◌∙◌,
}
use quicks_qcc.Prelude.Word.{u64, not64}
use quicks_qcc.Prelude.Bits.{bit_and_high, bit_and_mask, high_mask, pow_add}
use native.Mathlib.Nat.{
  div-add-mod', mod-lt, pow-le-pow_right, mul-mod_left, one-le-pow, mod-eq_of_lt, div-lt_iff_lt-mul,
}
use quicks_qcc.Arena.{align_up_uintptr}

-- Masking with `~(2 ^ k - 1)` clears the low `k` bits.
mask_high :
    (k j a : ℕ) → k + j ≡ 64 → a < 2 ^ 64 → bit_and a (not64 (2 ^ k - 1)) ≡ a / 2 ^ k * 2 ^ k
mask_high k j a h u =
    ap (λ (t : ℕ). bit_and t (not64 (2 ^ k - 1))) split
    ∙ ap (λ (t : ℕ). bit_and (a / 2 ^ k * 2 ^ k + a % 2 ^ k) t) mask
    ∙ bit_and_high k (a / 2 ^ k) (2 ^ j - 1) (a % 2 ^ k) (ground (arith, one-le-pow k 2))
    ∙ ap (λ (t : ℕ). t * 2 ^ k) (bit_and_mask j (a / 2 ^ k) ∙ small)
  where
    whole : 2 ^ (k + j) ≡ 2 ^ 64
    whole = ap (λ (t : ℕ). 2 ^ t) h

    split : a ≡ a / 2 ^ k * 2 ^ k + a % 2 ^ k
    split = ground (arith, one-le-pow k 2)

    mask : not64 (2 ^ k - 1) ≡ (2 ^ j - 1) * 2 ^ k
    mask = omega (arith, whole, high_mask k j)

    small : a / 2 ^ k % 2 ^ j ≡ a / 2 ^ k
    small =
        mod-eq_of_lt (
          (div-lt_iff_lt-mul (omega (arith, one-le-pow k 2))).1 (omega (arith, whole, pow_add k j)))

-- The least multiple of `align` from `value` on, unless it lies beyond the addresses
pub data AlignedUp (value align : ℕ) : Option ℕ → Type 0 where
  aligned : {r : ℕ} → value ≤ r → r < value + align → r % align ≡ 0 → AlignedUp value align (some r)
  beyond : 2 ^ 64 < value + align → AlignedUp value align none

pub align_up-AlignedUp :
    (k value : ℕ)
    → k < 64
    → value < 2 ^ 64
    → AlignedUp value (2 ^ k) (align_up_uintptr value (2 ^ k))
unfolding align_up_uintptr
align_up-AlignedUp k value h v = elim (Bool-cases (ltb (2 ^ 64 - 1 - (2 ^ k - 1)) value)) [
  | inl e ↦ rw e (beyond (ground (arith, one-le-pow k 2, small)))
  | inr e ↦
      let fits : value + (2 ^ k - 1) < 2 ^ 64 = ground (arith, one-le-pow k 2, small) in
      let same : u64 (value + (2 ^ k - 1)) ≡ value + (2 ^ k - 1) = omega arith in
      let masked = mask_high k (64 - k) (value + (2 ^ k - 1)) (omega arith) fits in
      let split = div-add-mod' (value + (2 ^ k - 1)) (2 ^ k) in
      let left = mod-lt (value + (2 ^ k - 1)) (positive k) in
      rw (e, same, masked)
        (aligned (omega arith) (omega arith) (mul-mod_left ((value + (2 ^ k - 1)) / 2 ^ k) (2 ^ k)))
]
  where
    positive : (k : ℕ) → 0 < 2 ^ k
    positive k = omega (arith, one-le-pow k 2)

    small : 2 ^ k ≤ 2 ^ 64
    small = pow-le-pow_right (omega arith) {j = 64} (omega arith)
