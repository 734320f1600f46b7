-- ===== src/ConstEval/DivideWords.antt =====
-- The division of two words as `int64_t`.
use quicks_qcc.Prelude.{
  ℕ, ◌+◌, ◌-◌, ◌*◌, ◌/◌, ◌%◌, ◌^◌, ◌≤◌, ◌<◌, ◌≡◌, Bool, true, false, arith, Bool-cases, ◌==◌, inl,
  inr, ◌⊎◌, ◌&&◌, zero, suc,
}
use mathlib.Core.Path.{subst}
use native.Mathlib.Nat.{div-add-mod', mod-lt, mul-le-mul}
use quicks_qcc.Prelude.Word.{is_negative, magnitude, signed_word}
use quicks_qcc.ConstEval.Arith.{read, Congruent}
use quicks_qcc.Prelude.Int.{pos, pos_part}
use quicks_qcc.ConstEval.Quotient.{
  IsQuotient, signed, signed_parts, differ, absolute, signed-IsQuotient,
}

-- The integer that a word stands for as an `int64_t`, by its sign and its magnitude
read-signed : (n : ℕ) → n < 2 ^ 64 → read n false ≡ signed (is_negative n) (magnitude n)
unfolding signed
read-signed n h = elim (Bool-cases (is_negative n)) [
  | inl e ↦ rw e (ground arith)
  | inr e ↦ rw e (ground arith)
]

pub signed_word-Congruent :
    (s : Bool) (m : ℕ) → m < 2 ^ 64 → Congruent (2 ^ 64) (pos (signed_word s m)) (signed s m)
signed_word-Congruent true m h = omega (arith, signed_parts true m)
signed_word-Congruent false m h = omega (arith, signed_parts false m)

pub magnitude_pos : (b : ℕ) → b < 2 ^ 64 → (b == 0) ≡ false → 0 < magnitude b
magnitude_pos b h e = ground arith

pub magnitude_lt : (b : ℕ) → b < 2 ^ 64 → magnitude b < 2 ^ 64
magnitude_lt b h = ground arith

-- The division of two words as `int64_t`
pub words-IsQuotient :
    (a b : ℕ)
    → a < 2 ^ 64
    → b < 2 ^ 64
    → (b == 0) ≡ false
    → IsQuotient
        (read a false)
        (read b false)
        (signed (differ (is_negative a) (is_negative b)) (magnitude a / magnitude b))
        (signed (is_negative a) (magnitude a % magnitude b))
words-IsQuotient a b ha hb e =
    let m = magnitude a in
    let n = magnitude b in
    let whole : m / n * n + m % n ≡ m = div-add-mod' m n in
    let small : m % n < n = mod-lt m (magnitude_pos b hb e) in
    rw (read-signed a ha, read-signed b hb)
      (subst
        (λ (k : ℕ).
          IsQuotient (signed (is_negative a) k) (signed (is_negative b) n)
            (signed (differ (is_negative a) (is_negative b)) (m / n))
            (signed (is_negative a) (m % n)))
        whole (signed-IsQuotient (is_negative a) (is_negative b) (m / n) (m % n) n small))

-- The one quotient that an `int64_t` cannot hold
overflowing :
    (k n l m : ℕ) → k * n + l ≡ m → m ≤ 2 ^ 63 → 0 < n → (k < 2 ^ 63) ⊎ ((m ≡ 2 ^ 63) × (n ≡ 1))
overflowing k zero l m e h p = absurd (omega arith)
overflowing k (suc zero) l m e h p = omega arith
overflowing k (suc (suc n)) l m e h p =
    let twice : k * 2 ≤ k * suc (suc n) =
      mul-le-mul {n₁ = k} {m₁ = 2} {n₂ = k} (omega arith) (omega arith) in
    inl (omega arith)

below_zero : (s t : Bool) (k : ℕ) → s ≡ true → t ≡ false → pos_part (signed (differ s t) k) ≡ 0
below_zero s t k e f = rw (e, f) (signed_parts true k).0

absurd_top :
    (a b : ℕ)
    → a < 2 ^ 64
    → b < 2 ^ 64
    → ((a == 2 ^ 63) && (b == 2 ^ 64 - 1)) ≡ false
    → magnitude a ≡ 2 ^ 63
    → magnitude b ≡ 1
    → (k : ℕ) → pos_part (signed (differ (is_negative a) (is_negative b)) k) < 2 ^ 63
absurd_top a b ha hb o top one k =
    let negative : is_negative a ≡ true = ground arith in
    let positive : is_negative b ≡ false = ground arith in
    omega (arith, below_zero (is_negative a) (is_negative b) k negative positive)

pub words-pos_part :
    (a b : ℕ)
    → a < 2 ^ 64
    → b < 2 ^ 64
    → (b == 0) ≡ false
    → ((a == 2 ^ 63) && (b == 2 ^ 64 - 1)) ≡ false
    → pos_part (signed (differ (is_negative a) (is_negative b)) (magnitude a / magnitude b))
      < 2 ^ 63
words-pos_part a b ha hb e o =
    let m = magnitude a in
    let n = magnitude b in
    let whole : m / n * n + m % n ≡ m = div-add-mod' m n in
    let parts = signed_parts (differ (is_negative a) (is_negative b)) (m / n) in
    elim (overflowing (m / n) n (m % n) m whole (ground arith) (magnitude_pos b hb e)) [
      | inl small ↦ omega (arith, small, absolute (differ (is_negative a) (is_negative b)) (m / n))
      | inr (top, one) ↦ absurd_top a b ha hb o top one (m / n)
    ]
