-- ===== src/Prelude/Bits/Digits.antt =====
-- One equation for the lowest binary digit of each bit operation. The native operations mean
-- `bitwise`, a recursion over binary digits on fuel; here the fuel is gone.
use Prim.Native.Nat.{
  ℕ, zero, suc, ◌+◌, ◌*◌, ◌/◌, ◌%◌, ◌≤◌, min, max, digits, bitwise, bit_and, bit_or,
  bit_and-bitwise, bit_or-bitwise,
}
use mathlib.Core.Path.{◌≡◌, refl}
use native.Mathlib.Nat.{le_refl}
use native.Mathlib.Omega.{arith}

module _ (z : ℕ → ℕ) (f : ℕ → ℕ → ℕ) where
  any_fuel : (n m a b : ℕ) → a ≤ n → a ≤ m → digits z f n a b ≡ digits z f m a b
  any_fuel zero zero a b p q = refl
  any_fuel zero (suc m) zero b p q = refl
  any_fuel zero (suc m) (suc a) b p q = absurd (omega arith)
  any_fuel (suc n) zero zero b p q = refl
  any_fuel (suc n) zero (suc a) b p q = absurd (omega arith)
  any_fuel (suc n) (suc m) zero b p q = refl
  any_fuel (suc n) (suc m) (suc a) b p q =
      rw (any_fuel n m (suc a / 2) (b / 2) (omega arith) (omega arith))

  lowest :
      (a b : ℕ)
      → bitwise z f (suc a) b ≡ bitwise z f (suc a / 2) (b / 2) * 2 + f (suc a % 2) (b % 2)
  lowest a b = omega (arith, any_fuel a (suc a / 2) (suc a / 2) (b / 2) (omega arith) (le_refl _))

pub bit_or_digit : (a b : ℕ) → bit_or a b ≡ bit_or (a / 2) (b / 2) * 2 + max (a % 2) (b % 2)
bit_or_digit zero b = simp bit_or-bitwise (omega arith)
bit_or_digit (suc a) b = simp bit_or-bitwise (lowest (λ y. y) max a b)

pub bit_and_digit : (a b : ℕ) → bit_and a b ≡ bit_and (a / 2) (b / 2) * 2 + min (a % 2) (b % 2)
bit_and_digit zero b = simp bit_and-bitwise (omega arith)
bit_and_digit (suc a) b = simp bit_and-bitwise (lowest (λ y. 0) min a b)
