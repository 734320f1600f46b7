-- ===== src/CondEval/Agree.antt =====
-- `apply_binop` of the preprocessor against `eval_arith_binary` of the constant evaluator: on
-- 64-bit operands the two units compute the same operators.
use native.Mathlib.Nat.{div-le_self, mod-le}
use quicks_qcc.Prelude.Word.{sdiv64, srem64, sub64}
use quicks_qcc.Prelude.{
  ◌/◌, ==_iff, ℕ, ◌-◌, ◌^◌, ◌%◌, ◌<◌, ◌≡◌, refl, ap, ◌∙◌, Bool, true, false, ◌||◌, none, arith,
  ◌==◌, ◌≢◌, if◌then◌else◌, Bool-cases, inl, inr, bit_and,
}
use quicks_qcc.Prelude.Bits.{bit_and_mask, bit_and-lt, bit_or-lt}
use quicks_qcc.Status.{ok}
use quicks_qcc.Token.{Punct}
use quicks_qcc.ConstEval.{Ival, make, reduce, arith_case, eval_arith_binary, usual_arith, divide}
use quicks_qcc.ConstEval.Canonical.{reduce-wrap}
use quicks_qcc.CondEval.Base.{Cval, make_int}
use quicks_qcc.CondEval.Operator.{apply_binop, quotient}

-- The `ival` of a `cval`: `long` or `unsigned long`
abbrev pub long : Cval → Ival
long v = record { bits = v.u; width = 64; uns = v.is_unsigned }

make_64 :
    (raw : ℕ) (u : Bool) → raw < 2 ^ 64 → make raw 64 u ≡ record { bits = raw; width = 64; uns = u }
unfolding make
make_64 raw u h = ap (λ bits. record { bits = bits; width = 64; uns = u }) (kept u)
  where
    kept : (u : Bool) → reduce raw 64 u ≡ raw
    kept true = reduce-wrap raw 64 true (omega arith) ∙ omega arith
    kept false = reduce-wrap raw 64 false (omega arith) ∙ ground arith

usual_arith-long :
    (a b : Cval) → usual_arith (long a) (long b) ≡ (64, a.is_unsigned || b.is_unsigned)
unfolding usual_arith
usual_arith-long a b = ground arith

masked : (n : ℕ) → n < 2 ^ 64 → bit_and n (2 ^ 64 - 1) ≡ n
masked n h = bit_and_mask 64 n ∙ omega arith

ok_64 : (raw : ℕ) (u : Bool) → raw < 2 ^ 64 → ok (make raw 64 u) ≡ ok (long (make_int raw u))
ok_64 raw u h = ap ok (make_64 raw u h)

quotient-lt :
    (is_slash : Bool) (x y : ℕ) → x < 2 ^ 64 → (if is_slash then x / y else x % y) < 2 ^ 64
quotient-lt true x y h = let e = div-le_self x y in omega (arith, e)
quotient-lt false x y h = let e = mod-le x y in omega (arith, e)

signed-lt : (is_slash : Bool) (x y : ℕ) → (if is_slash then sdiv64 x y else srem64 x y) < 2 ^ 64
signed-lt true x y = ground arith
signed-lt false x y = ground arith

by_minus_one :
    (is_slash : Bool) (x : ℕ)
    → x < 2 ^ 64
    → x ≢ 2 ^ 63
    → (if is_slash then sdiv64 x (2 ^ 64 - 1) else srem64 x (2 ^ 64 - 1))
      ≡ (if is_slash then sub64 0 x else 0)
by_minus_one true x h n = ground arith
by_minus_one false x h n = ground arith

-- Both units divide alike: the preprocessor takes the divisor -1 apart, the evaluator does not.
quotient-divide :
    (is_slash : Bool) (a b : Cval)
    → a.u < 2 ^ 64
    → b.u < 2 ^ 64
    → b.u ≢ 0
    → ((a.is_unsigned || b.is_unsigned) ≡ false → b.u ≡ 2 ^ 64 - 1 → a.u ≢ 2 ^ 63)
    → ((quotient is_slash a b true).1 ≡ none)
      × (divide is_slash a.u b.u 64 (a.is_unsigned || b.is_unsigned)
          ≡ ok (long (quotient is_slash a b true).0))
unfolding quotient divide
quotient-divide is_slash a b ha hb nz fits = elim (Bool-cases (b.u == 0)) [
  | inl z ↦ absurd (nz ((==_iff b.u 0).0 z))
  | inr z ↦ elim (Bool-cases (a.is_unsigned || b.is_unsigned)) [
    | inl u ↦
        rw (z, u)
          (refl, rw (masked a.u ha, masked b.u hb) (ok_64 _ true (quotient-lt is_slash a.u b.u ha)))
    | inr u ↦ elim (Bool-cases (b.u == 2 ^ 64 - 1)) [
      | inl m ↦
          let q = (==_iff b.u (2 ^ 64 - 1)).0 m in
          let odd = fits u q in
          let p : (a.u == 2 ^ 63) ≡ false = ground arith in
          let same = by_minus_one is_slash a.u ha odd in
          rw (z, u, m, p)
            (
              refl,
              ok_64 _ false (signed-lt is_slash a.u b.u)
                  ∙ ap (λ (n : ℕ). ok (long (make_int n false))) (rw q same),
            )
      | inr m ↦ elim (Bool-cases (a.u == 2 ^ 63)) [
        | inl p ↦ rw (z, u, m, p) (refl, ok_64 _ false (signed-lt is_slash a.u b.u))
        | inr p ↦ rw (z, u, m, p) (refl, ok_64 _ false (signed-lt is_slash a.u b.u))
      ]
    ]
  ]
]

-- The operators on which both units return a value of the common type
pub data IsArithmetic : Punct → Type 0 where
  plus : IsArithmetic Punct.plus
  minus : IsArithmetic Punct.minus
  star : IsArithmetic Punct.star
  slash : IsArithmetic Punct.slash
  percent : IsArithmetic Punct.percent
  amp : IsArithmetic Punct.amp
  pipe : IsArithmetic Punct.pipe

agree_64 :
    {op : Punct} (a b : Cval)
    → IsArithmetic op
    → a.u < 2 ^ 64
    → b.u < 2 ^ 64
    → b.u ≢ 0
    → ((a.is_unsigned || b.is_unsigned) ≡ false → b.u ≡ 2 ^ 64 - 1 → a.u ≢ 2 ^ 63)
    → ((apply_binop op a b true).1 ≡ none)
      × (arith_case op a.u b.u 64 (a.is_unsigned || b.is_unsigned)
          ≡ ok (long (apply_binop op a b true).0))
unfolding apply_binop arith_case
agree_64 a b plus ha hb nz fits = (refl, ok_64 _ _ (omega arith))
agree_64 a b minus ha hb nz fits = (refl, ok_64 _ _ (omega arith))
agree_64 a b star ha hb nz fits = (refl, ok_64 _ _ (omega arith))
agree_64 a b slash ha hb nz fits = quotient-divide true a b ha hb nz fits
agree_64 a b percent ha hb nz fits = quotient-divide false a b ha hb nz fits
agree_64 a b amp ha hb nz fits = (refl, ok_64 _ _ (bit_and-lt 64 a.u b.u ha))
agree_64 a b pipe ha hb nz fits = (refl, ok_64 _ _ (bit_or-lt 64 a.u b.u ha hb))

-- On two words, the right one not zero, and but for the least integer divided by -1, the operators
-- + - * / % & | of a live preprocessor expression report no error and give the value and the
-- signedness that the constant evaluator gives to the same operands as `long` or `unsigned long`.
pub apply_binop-eval_arith_binary :
    {op : Punct} (a b : Cval)
    → IsArithmetic op
    → a.u < 2 ^ 64
    → b.u < 2 ^ 64
    → b.u ≢ 0
    → ((a.is_unsigned || b.is_unsigned) ≡ false → b.u ≡ 2 ^ 64 - 1 → a.u ≢ 2 ^ 63)
    → ((apply_binop op a b true).1 ≡ none)
      × (eval_arith_binary op (long a) (long b) ≡ ok (long (apply_binop op a b true).0))
unfolding eval_arith_binary
apply_binop-eval_arith_binary {op} a b is_arith ha hb nz fits =
    let (quiet, same) = agree_64 a b is_arith ha hb nz fits in
    (quiet, ap (λ (wu : ℕ × Bool). arith_case op a.u b.u wu.0 wu.1) (usual_arith-long a b) ∙ same)
