-- ===== src/Arena/Power.antt =====
-- The alignment test of the arena.
use quicks_qcc.Prelude.{
  ℕ, suc, ◌+◌, ◌-◌, ◌*◌, ◌/◌, ◌%◌, ◌^◌, ◌≤◌, ◌≡◌, ap, true, bit_and, ◌==◌, arith, ==_iff,
  Bool-cases, inl, inr,
}
use quicks_qcc.Prelude.Bits.{halving, bit_and_even, bit_and_odd}
use native.Mathlib.Nat.{pow-suc}
use quicks_qcc.Arena.{is_power_of_two}

-- What passes the alignment test is a power of two.
power_of_two : (a : ℕ) → 1 ≤ a → bit_and a (a - 1) ≡ 0 → (k : ℕ) × (a ≡ 2 ^ k)
power_of_two =
    halving (λ a. 1 ≤ a → bit_and a (a - 1) ≡ 0 → (k : ℕ) × (a ≡ 2 ^ k))
      (λ h e. absurd (omega arith)) step
  where
    step :
        (n : ℕ)
        → (1 ≤ suc n / 2 → bit_and (suc n / 2) (suc n / 2 - 1) ≡ 0 → (k : ℕ) × (suc n / 2 ≡ 2 ^ k))
        → 1 ≤ suc n
        → bit_and (suc n) (suc n - 1) ≡ 0
        → (k : ℕ) × (suc n ≡ 2 ^ k)
    step n ih h e = elim (Bool-cases (suc n % 2 == 0)) [
      | inl even ↦
          let whole : suc n ≡ 2 * (suc n / 2) = omega (arith, (==_iff (suc n % 2) 0).0 even) in
          let halved = ap (λ (t : ℕ). bit_and t (t - 1)) whole in
          let (k, p) =
            ih (omega arith) (omega (arith, halved, bit_and_even (suc n / 2) (omega arith))) in
          (suc k, omega (arith, pow-suc 2 k, p))
      | inr odd ↦
          let whole : suc n ≡ 2 * (suc n / 2) + 1 = ground arith in
          let halved = ap (λ (t : ℕ). bit_and t (t - 1)) whole in
          (0, omega (arith, halved, bit_and_odd (suc n / 2)))
    ]

pub is_power_of_two_lem : (a : ℕ) → is_power_of_two a ≡ true → (k : ℕ) × (a ≡ 2 ^ k)
unfolding is_power_of_two
is_power_of_two_lem a h = power_of_two a (ground arith) (ground arith)
