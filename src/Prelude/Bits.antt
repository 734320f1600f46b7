-- ===== src/Prelude/Bits.antt =====
-- `&` with a mask of low bits and `|` of disjoint fields, as arithmetic, at every width.
mod Digits
use Digits.{bit_and_digit, bit_or_digit}
use Prim.Native.Nat.{ℕ, zero, suc, ◌+◌, ◌-◌, ◌*◌, ◌/◌, ◌%◌, ◌^◌, ◌<◌, ◌≤◌, bit_and, bit_or}
use mathlib.Core.Path.{◌≡◌, refl, ap}
use mathlib.Core.WellFounded
use native.Mathlib.Nat.{pow-suc, one-le-pow, suc-mul}
use native.Mathlib.Omega.{arith}
use quicks_qcc.Prelude.Order.{lt_wf}

-- Strong induction on a number, as the bit laws go from `n / 2` to `n`.
pub halving {κ} : (P : ℕ → Type κ) → P 0 → ((n : ℕ) → P (suc n / 2) → P (suc n)) → (n : ℕ) → P n
halving P base step n = WellFounded.induction lt_wf {C = P} n go
  where
    go : (k : ℕ) → ((m : ℕ) → m < k → P m) → P k
    go zero ih = base
    go (suc k) ih = step k (ih (suc k / 2) (omega arith))

pub bit_or-zero : (a : ℕ) → bit_or a 0 ≡ a
bit_or-zero = halving (λ a. bit_or a 0 ≡ a) refl (λ n ih. omega (arith, bit_or_digit (suc n) 0))

zero-bit_or : (b : ℕ) → bit_or 0 b ≡ b
zero-bit_or = halving (λ b. bit_or 0 b ≡ b) refl (λ n ih. omega (arith, bit_or_digit 0 (suc n)))

zero-bit_and : (b : ℕ) → bit_and 0 b ≡ 0
zero-bit_and = halving (λ b. bit_and 0 b ≡ 0) refl (λ n ih. omega (arith, bit_and_digit 0 (suc n)))

pub bit_and-zero : (a : ℕ) → bit_and a 0 ≡ 0
bit_and-zero = halving (λ a. bit_and a 0 ≡ 0) refl (λ n ih. omega (arith, bit_and_digit (suc n) 0))

double_pow : (q k : ℕ) → q * 2 ^ suc k ≡ 2 * (q * 2 ^ k)
double_pow q k = omega (arith, ap (λ (t : ℕ). q * t) (pow-suc 2 k))

-- A field above bit `k` and a value below it do not meet: their `|` is a sum.
pub bit_or_sum : (k q r : ℕ) → r < 2 ^ k → bit_or (q * 2 ^ k) r ≡ q * 2 ^ k + r
bit_or_sum zero q r h = ground (arith, bit_or-zero q)
bit_or_sum (suc k) q r h =
    ground
      (arith, bit_or_digit (q * 2 ^ suc k) r, double_pow q k, bit_or_sum k q (r / 2) (omega arith))

low_part : (k q r : ℕ) → r < 2 ^ k → bit_and (q * 2 ^ k + r) (2 ^ k - 1) ≡ r
low_part zero q r h = omega (arith, bit_and-zero (q * 2 ^ 0 + r))
low_part (suc k) q r h = ground (
  arith,
  bit_and_digit (q * 2 ^ suc k + r) (2 ^ suc k - 1),
  double_pow q k,
  pow-suc 2 k,
  low_part k q (r / 2) (omega arith),
)

-- `a & (2 ^ k - 1)` keeps the low `k` bits.
pub bit_and_mask : (k a : ℕ) → bit_and a (2 ^ k - 1) ≡ a % 2 ^ k
bit_and_mask k a = ground (arith, one-le-pow k 2, low_part k (a / 2 ^ k) (a % 2 ^ k))

-- The same with the sides exchanged.
pub bit_or_sum_right : (k q r : ℕ) → r < 2 ^ k → bit_or r (q * 2 ^ k) ≡ q * 2 ^ k + r
bit_or_sum_right zero q r h =
    let nothing : r ≡ 0 = omega arith in rw nothing (ground (arith, zero-bit_or (q * 2 ^ 0)))
bit_or_sum_right (suc k) q r h = ground (
  arith,
  bit_or_digit r (q * 2 ^ suc k),
  double_pow q k,
  bit_or_sum_right k q (r / 2) (omega arith),
)

-- A single bit of a number.
pub bit_and_bit : (k q r : ℕ) → r < 2 ^ k → bit_and (q * 2 ^ k + r) (2 ^ k) ≡ q % 2 * 2 ^ k
bit_and_bit zero q r h =
    omega (arith, bit_and_digit (q * 2 ^ 0 + r) (2 ^ 0), bit_and-zero ((q * 2 ^ 0 + r) / 2))
bit_and_bit (suc k) q r h = ground (
  arith,
  bit_and_digit (q * 2 ^ suc k + r) (2 ^ suc k),
  double_pow q k,
  double_pow (q % 2) k,
  pow-suc 2 k,
  bit_and_bit k q (r / 2) (omega arith),
)

-- `&` with a mask above bit `k` ignores the bits below it.
pub bit_and_high :
    (k q m r : ℕ) → r < 2 ^ k → bit_and (q * 2 ^ k + r) (m * 2 ^ k) ≡ bit_and q m * 2 ^ k
bit_and_high zero q m r h = let nothing : r ≡ 0 = omega arith in rw nothing (ground arith)
bit_and_high (suc k) q m r h = ground (
  arith,
  bit_and_digit (q * 2 ^ suc k + r) (m * 2 ^ suc k),
  double_pow q k,
  double_pow m k,
  double_pow (bit_and q m) k,
  pow-suc 2 k,
  bit_and_high k q m (r / 2) (omega arith),
)

-- `&` and `|` of two `k`-bit numbers have `k` bits.
pub bit_and-lt : (k a b : ℕ) → a < 2 ^ k → bit_and a b < 2 ^ k
bit_and-lt zero a b h =
    let nothing : a ≡ 0 = omega arith in
    omega (
      arith,
      bit_and_digit a b,
      bit_and_digit (a / 2) (b / 2),
      zero-bit_and b,
      ap (λ (t : ℕ). bit_and t b) nothing,
    )
bit_and-lt (suc k) a b h = omega (
  arith,
  pow-suc 2 k,
  bit_and_digit a b,
  bit_and-lt k (a / 2) (b / 2) (let e = pow-suc 2 k in omega arith),
)

pub bit_or-lt : (k a b : ℕ) → a < 2 ^ k → b < 2 ^ k → bit_or a b < 2 ^ k
bit_or-lt zero a b h g =
    let nothing : a ≡ 0 = omega arith in
    omega (arith, zero-bit_or b, ap (λ (t : ℕ). bit_or t b) nothing)
bit_or-lt (suc k) a b h g =
    let e = pow-suc 2 k in
    omega (arith, bit_or_digit a b, bit_or-lt k (a / 2) (b / 2) (omega arith) (omega arith))

pub bit_and_self : (a : ℕ) → bit_and a a ≡ a
bit_and_self =
    halving (λ a. bit_and a a ≡ a) refl (λ n ih. ground (arith, bit_and_digit (suc n) (suc n)))

-- A number and the one before it, by the last digit of the first.
pub bit_and_even : (m : ℕ) → 1 ≤ m → bit_and (2 * m) (2 * m - 1) ≡ 2 * bit_and m (m - 1)
bit_and_even m h =
    let half : (2 * m - 1) / 2 ≡ m - 1 = omega arith in
    ground (arith, bit_and_digit (2 * m) (2 * m - 1), ap (λ (t : ℕ). bit_and m t) half)

pub bit_and_odd : (m : ℕ) → bit_and (2 * m + 1) (2 * m + 1 - 1) ≡ 2 * m
bit_and_odd m = ground (arith, bit_and_digit (2 * m + 1) (2 * m + 1 - 1), bit_and_self m)

pub pow_add : (k j : ℕ) → 2 ^ (k + j) ≡ 2 ^ j * 2 ^ k
pow_add zero j = let same : 0 + j ≡ j = omega arith in omega (arith, ap (λ (t : ℕ). 2 ^ t) same)
pow_add (suc k) j =
    let same : suc k + j ≡ suc (k + j) = omega arith in
    omega (arith, ap (λ (t : ℕ). 2 ^ t) same, pow-suc 2 (k + j), pow_add k j, double_pow (2 ^ j) k)

-- `~(2 ^ k - 1)` is a mask of the `j` high bits.
pub high_mask : (k j : ℕ) → 2 ^ (k + j) - 1 - (2 ^ k - 1) ≡ (2 ^ j - 1) * 2 ^ k
high_mask k j = lessen (2 ^ j) (one-le-pow j 2 (omega arith)) (pow_add k j)
  where
    lessen :
        (u : ℕ) → 1 ≤ u → 2 ^ (k + j) ≡ u * 2 ^ k → 2 ^ (k + j) - 1 - (2 ^ k - 1) ≡ (u - 1) * 2 ^ k
    lessen zero h e = absurd (omega arith)
    lessen (suc u) h e =
        let same : suc u - 1 ≡ u = omega arith in
        omega (arith, e, ap (λ (t : ℕ). t * 2 ^ k) same, one-le-pow k 2, suc-mul u (2 ^ k))
