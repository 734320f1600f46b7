-- ===== src/ConstEval/Quotient.antt =====
-- Division of integers that truncates towards zero (ISO C 6.5.5).
use quicks_qcc.Prelude.{
  ℕ, ◌+◌, ◌*◌, ◌/◌, ◌%◌, ◌≤◌, ◌<◌, ◌≡◌, refl, ap, ◌∙◌, Bool, true, false, not, arith, if◌then◌else◌,
}
use mathlib.Core.Path.{subst}
use native.Mathlib.Nat.{div-add-mod', mod-lt}
use quicks_qcc.Prelude.Int.{ℤ, pos, pos_part, neg_part, sub_ℕ, ◌+ℤ◌, ◌*ℤ◌}

-- `q` and `r` are the quotient and the remainder of `x` by `y`: the quotient times the divisor and
-- the remainder is the dividend, the remainder is smaller than the divisor, and it has the sign of
-- the dividend, if any.
pub record IsQuotient (x y q r : ℤ) : Type 0 where
  pub exact : q *ℤ y +ℤ r ≡ x
  pub small : pos_part r + neg_part r < pos_part y + neg_part y
  pub not_below : neg_part x ≡ 0 → neg_part r ≡ 0
  pub not_above : pos_part x ≡ 0 → pos_part r ≡ 0

-- An integer by its sign and its magnitude
unfoldable pub signed : Bool → ℕ → ℤ
signed true m = sub_ℕ 0 m
signed false m = pos m

pub signed_parts :
    (s : Bool) (m : ℕ)
    → (pos_part (signed s m) ≡ (if s then 0 else m))
      × (neg_part (signed s m) ≡ (if s then m else 0))
unfolding signed
signed_parts true m = ground arith
signed_parts false m = (refl, refl)

abbrev pub differ : Bool → Bool → Bool
differ s t = if s then not t else t

*ℤ_signed : (s t : Bool) (k n : ℕ) → signed s k *ℤ signed t n ≡ signed (differ s t) (k * n)
unfolding ◌*ℤ◌ signed
*ℤ_signed true true k n = ground arith
*ℤ_signed true false k n = ground arith
*ℤ_signed false true k n = ground arith
*ℤ_signed false false k n = ground arith

+ℤ_signed : (s : Bool) (m l : ℕ) → signed s m +ℤ signed s l ≡ signed s (m + l)
unfolding ◌+ℤ◌ signed
+ℤ_signed true m l = ground arith
+ℤ_signed false m l = ground arith

differ_twice : (s t : Bool) → differ (differ s t) t ≡ s
differ_twice true true = refl
differ_twice true false = refl
differ_twice false true = refl
differ_twice false false = refl

smaller :
    (s : Bool) (m l : ℕ)
    → l ≤ m
    → (neg_part (signed s m) ≡ 0 → neg_part (signed s l) ≡ 0)
      × (pos_part (signed s m) ≡ 0 → pos_part (signed s l) ≡ 0)
smaller true m l h = ground (arith, signed_parts true m, signed_parts true l)
smaller false m l h = ground (arith, signed_parts false m, signed_parts false l)

pub absolute : (s : Bool) (m : ℕ) → pos_part (signed s m) + neg_part (signed s m) ≡ m
absolute true m = ground (arith, signed_parts true m)
absolute false m = ground (arith, signed_parts false m)

pub signed-IsQuotient :
    (s t : Bool) (k l n : ℕ)
    → l < n
    → IsQuotient (signed s (k * n + l)) (signed t n) (signed (differ s t) k) (signed s l)
signed-IsQuotient s t k l n h =
    let same_sign = smaller s (k * n + l) l (omega arith) in
    record {
      exact =
          ap (λ (z : ℤ). z +ℤ signed s l)
            (*ℤ_signed (differ s t) t k n ∙ ap (λ (b : Bool). signed b (k * n)) (differ_twice s t))
          ∙ +ℤ_signed s (k * n) l;
      small = omega (arith, absolute s l, absolute t n);
      not_below = same_sign.0;
      not_above = same_sign.1;
    }

pub pos-IsQuotient : (m n : ℕ) → 0 < n → IsQuotient (pos m) (pos n) (pos (m / n)) (pos (m % n))
unfolding signed
pos-IsQuotient m n h =
    subst (λ (k : ℕ). IsQuotient (pos k) (pos n) (pos (m / n)) (pos (m % n))) (div-add-mod' m n)
      (signed-IsQuotient false false (m / n) (m % n) n (mod-lt m h))
