-- ===== src/ConstEval/Divide.antt =====
-- `/` and `%` of the evaluator against the division of C (6.5.5), which truncates towards zero.
use quicks_qcc.Prelude.{
  ℕ, ◌-◌, ◌/◌, ◌%◌, ◌^◌, ◌≤◌, ◌<◌, ◌≡◌, refl, sym, ap, Bool, true, false, arith, Bool-cases, ◌==◌,
  inl, inr, ◌&&◌,
}
use Prim.Native.Nat.{bit_and}
use mathlib.Core.Bool.{false≢true}
use quicks_qcc.Prelude.Bits.{bit_and_mask}
use native.Mathlib.Nat.{div-le_self, zero-mod, mod-lt}
use quicks_qcc.Prelude.Word.{is_negative, magnitude}
use quicks_qcc.Status.{Status, Outcome, ok, err, undefined}
use quicks_qcc.Token.{Punct}
use quicks_qcc.ConstEval.{Ival, mask_for, usual_arith, divide, eval_arith_binary}
use quicks_qcc.ConstEval.Errors.{usual_arith-IsWidth}
use quicks_qcc.ConstEval.Canonical.{IsWidth, IsCanonical}
use quicks_qcc.ConstEval.Arith.{value, IsCanonical-lt, make-Converts, make-Converts_word, Converts}
use quicks_qcc.Prelude.Int.{ℤ, pos, pos_part}
use quicks_qcc.ConstEval.Quotient.{IsQuotient, signed, signed_parts, differ, pos-IsQuotient}
use quicks_qcc.ConstEval.DivideWords.{
  signed_word-Congruent, magnitude_pos, magnitude_lt, words-IsQuotient, words-pos_part,
}
use quicks_qcc.ConstEval.CommonType.{
  IsConverted, operand, usual_arith_wide, operand-IsConverted, operand_zero,
}

-- What `/` and `%` come to where the operands convert to `x` and `y` of a type: an error for the
-- divisor 0, the operation that C leaves undefined where an `int64_t` cannot hold the quotient, and
-- else the quotient and the remainder, converted to that type.
pub data Divides (w : ℕ) (u : Bool) (x y : ℤ) : Outcome Ival → Outcome Ival → Type 0 where
  no_divisor : y ≡ pos 0 → Divides w u x y (err Status.type) (err Status.type)
  overflows :
      {q r : ℤ}
      → u ≡ false
      → IsQuotient x y q r
      → 2 ^ 63 ≤ pos_part q
      → Divides w u x y undefined undefined
  divided :
      {q r : ℤ} {a b : Ival}
      → IsQuotient x y q r
      → (u ≡ false → pos_part q < 2 ^ 63)
      → Converts w u q a
      → Converts w u r b
      → Divides w u x y (ok a) (ok b)

top_quotient :
    (a b : ℕ)
    → a ≡ 2 ^ 63
    → b ≡ 2 ^ 64 - 1
    → 2 ^ 63
      ≤ pos_part (signed (differ (is_negative a) (is_negative b)) (magnitude a / magnitude b))
top_quotient a b e f = rw (e, f) (omega (arith, signed_parts false (2 ^ 63)))

quotient_lt : (a b : ℕ) → a < 2 ^ 64 → magnitude a / magnitude b < 2 ^ 64
quotient_lt a b h = omega (arith, div-le_self (magnitude a) (magnitude b), magnitude_lt a h)

remainder_lt : (a b : ℕ) → b < 2 ^ 64 → (b == 0) ≡ false → magnitude a % magnitude b < 2 ^ 64
remainder_lt a b h e = omega (arith, mod-lt (magnitude a) (magnitude_pos b h e), magnitude_lt b h)

masked : (n w : ℕ) → IsWidth w → bit_and n (mask_for w) ≡ n % 2 ^ w
unfolding mask_for
masked n w (inl e) = rw e (bit_and_mask 8 n)
masked n w (inr (inl e)) = rw e (bit_and_mask 16 n)
masked n w (inr (inr (inl e))) = rw e (bit_and_mask 32 n)
masked n w (inr (inr (inr e))) = rw e (bit_and_mask 64 n)

divide-unsigned :
    (a b : Ival) (w : ℕ)
    → IsCanonical b
    → IsWidth w
    → b.width ≤ w
    → Divides w true
        (operand w true a)
        (operand w true b)
        (divide true a.bits b.bits w true)
        (divide false a.bits b.bits w true)
unfolding divide
divide-unsigned a b w hb k wide = elim (Bool-cases (b.bits == 0)) [
  | inl e ↦
      let none : b.bits ≡ 0 = ground arith in rw (e, none) (no_divisor (ap pos (zero-mod (2 ^ w))))
  | inr e ↦
      rw (e, masked a.bits w k, masked b.bits w k)
        (divided (pos-IsQuotient (a.bits % 2 ^ w) (b.bits % 2 ^ w) (operand_zero b w hb k wide e))
          (λ f. absurd (false≢true (sym f))) (make-Converts _ w true k) (make-Converts _ w true k))
]

divide-signed :
    (a b : Ival) (w : ℕ)
    → a.bits < 2 ^ 64
    → b.bits < 2 ^ 64
    → IsWidth w
    → Divides w false
        (operand w false a)
        (operand w false b)
        (divide true a.bits b.bits w false)
        (divide false a.bits b.bits w false)
unfolding divide
divide-signed a b w la lb k = elim (Bool-cases (b.bits == 0)) [
  | inl e ↦ let none : b.bits ≡ 0 = ground arith in rw (e, none) (no_divisor refl)
  | inr e ↦
      let q = words-IsQuotient a.bits b.bits la lb e in
      elim (Bool-cases ((a.bits == 2 ^ 63) && (b.bits == 2 ^ 64 - 1))) [
        | inl o ↦
            rw (e, o) (overflows refl q (top_quotient a.bits b.bits (ground arith) (ground arith)))
        | inr o ↦
            rw (e, o)
              (divided q (λ _. words-pos_part a.bits b.bits la lb e o)
                (make-Converts_word _ w false _ k
                  (signed_word-Congruent _ _ (quotient_lt a.bits b.bits la)))
                (make-Converts_word _ w false _ k
                  (signed_word-Congruent _ _ (remainder_lt a.bits b.bits lb e))))
      ]
]

-- On canonical operands `/` and `%` divide as C does, in the type of the usual arithmetic
-- conversions, to which the operands are converted first: the quotient is truncated towards zero,
-- and the quotient times the divisor and the remainder is the dividend. Both fail with
-- `QCC_ERR_TYPE` for the divisor 0, and come to an operation that C leaves undefined just where the
-- type is signed and the quotient is above the greatest `int64_t`.
pub division-Divides :
    (a b : Ival)
    → IsCanonical a
    → IsCanonical b
    → let w = (usual_arith a b).0 in
      let u = (usual_arith a b).1 in
      (x y : ℤ) × IsConverted w u (value a) x
      × IsConverted w u (value b) y
      × Divides w u x y (eval_arith_binary Punct.slash a b) (eval_arith_binary Punct.percent a b)
unfolding eval_arith_binary
division-Divides a b ha hb =
    let w = (usual_arith a b).0 in
    let u = (usual_arith a b).1 in
    let k = usual_arith-IsWidth a b ha hb in
    let (wide_a, wide_b) = usual_arith_wide a b in
    (
      operand w u a,
      operand w u b,
      operand-IsConverted a w u ha k wide_a.0 wide_a.1,
      operand-IsConverted b w u hb k wide_b.0 wide_b.1,
      go u,
    )
  where
    go :
        (u : Bool)
        → Divides
            (usual_arith a b).0
            u
            (operand (usual_arith a b).0 u a)
            (operand (usual_arith a b).0 u b)
            (divide true a.bits b.bits (usual_arith a b).0 u)
            (divide false a.bits b.bits (usual_arith a b).0 u)
    go true =
        divide-unsigned a b (usual_arith a b).0 hb (usual_arith-IsWidth a b ha hb)
          (usual_arith_wide a b).1.0
    go false =
        divide-signed a b (usual_arith a b).0 (IsCanonical-lt a ha) (IsCanonical-lt b hb)
          (usual_arith-IsWidth a b ha hb)
