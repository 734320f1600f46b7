-- ===== src/ConstEval/Arith.antt =====
-- The operators of `eval` against integers: the value that an `ival` stands for, and what each
-- operator does to it.
use mathlib.Core.Path.{subst}
use quicks_qcc.Prelude.{
  ℕ, ◌+◌, ◌-◌, ◌*◌, ◌%◌, ◌^◌, ◌≤◌, ◌<◌, ◌≡◌, refl, sym, ap, inl, inr, Bool, true, false, ◌||◌,
  arith, ltb, if◌then◌else◌, Bool-cases,
}
use quicks_qcc.Prelude.Int.{
  ℤ, pos, negsuc, pos_part, neg_part, ◌+ℤ◌, ◌-ℤ◌, ◌*ℤ◌, +ℤ_parts, -ℤ_parts, *ℤ_parts,
}
use quicks_qcc.Prelude.Word.{sub64, u64}
use quicks_qcc.Status.{ok}
use quicks_qcc.Token.{Punct}
use quicks_qcc.ConstEval.{Ival, make, usual_arith, eval_arith_binary}
use quicks_qcc.ConstEval.Errors.{usual_arith-IsWidth}
use quicks_qcc.ConstEval.Canonical.{IsWidth, IsCanonical, wrap, reduce-wrap}

-- The integer that the bits of a type stand for: themselves, or their reading as an `int64_t`.
abbrev pub read : ℕ → Bool → ℤ
read bits uns =
    if uns then pos bits else if ltb bits (2 ^ 63) then pos bits else negsuc (2 ^ 64 - bits - 1)

unfoldable pub value : Ival → ℤ
value v = read v.bits v.uns

-- Two integers that differ by a multiple of `m`
abbrev pub Congruent : ℕ → ℤ → ℤ → Type 0
Congruent m x y = (pos_part x + neg_part y) % m ≡ (pos_part y + neg_part x) % m

-- The range of the integer type of a width and a signedness
abbrev pub InRange : ℕ → Bool → ℤ → Type 0
InRange w true z = (neg_part z ≡ 0) × (pos_part z < 2 ^ w)
InRange w false z = (neg_part z ≤ 2 ^ (w - 1)) × (pos_part z < 2 ^ (w - 1))

-- `r` has the type of a width and a signedness, and its value is `z` converted to that type:
-- the integer in the type's range that is congruent to `z`.
pub record Converts (w : ℕ) (uns : Bool) (z : ℤ) (r : Ival) : Type 0 where
  pub width : r.width ≡ w
  pub signedness : r.uns ≡ uns
  pub in_range : InRange w uns (value r)
  pub congruent : Congruent (2 ^ w) (value r) z

read-wrap_8 :
    (raw : ℕ) (uns : Bool)
    → InRange 8 uns (read (wrap raw 8 uns) uns)
      × Congruent (2 ^ 8) (read (wrap raw 8 uns) uns) (pos raw)
read-wrap_8 raw true = ground arith
read-wrap_8 raw false = ground arith

read-wrap_16 :
    (raw : ℕ) (uns : Bool)
    → InRange 16 uns (read (wrap raw 16 uns) uns)
      × Congruent (2 ^ 16) (read (wrap raw 16 uns) uns) (pos raw)
read-wrap_16 raw true = ground arith
read-wrap_16 raw false = ground arith

read-wrap_32 :
    (raw : ℕ) (uns : Bool)
    → InRange 32 uns (read (wrap raw 32 uns) uns)
      × Congruent (2 ^ 32) (read (wrap raw 32 uns) uns) (pos raw)
read-wrap_32 raw true = ground arith
read-wrap_32 raw false = ground arith

read-wrap_64 :
    (raw : ℕ) (uns : Bool)
    → InRange 64 uns (read (wrap raw 64 uns) uns)
      × Congruent (2 ^ 64) (read (wrap raw 64 uns) uns) (pos raw)
read-wrap_64 raw true = ground arith
read-wrap_64 raw false = ground arith

read-wrap :
    (raw w : ℕ) (uns : Bool)
    → IsWidth w
    → InRange w uns (read (wrap raw w uns) uns)
      × Congruent (2 ^ w) (read (wrap raw w uns) uns) (pos raw)
read-wrap raw w uns (inl e) = rw e (read-wrap_8 raw uns)
read-wrap raw w uns (inr (inl e)) = rw e (read-wrap_16 raw uns)
read-wrap raw w uns (inr (inr (inl e))) = rw e (read-wrap_32 raw uns)
read-wrap raw w uns (inr (inr (inr e))) = rw e (read-wrap_64 raw uns)

-- `make` converts the word that it is given.
pub make-Converts : (raw w : ℕ) (uns : Bool) → IsWidth w → Converts w uns (pos raw) (make raw w uns)
unfolding value make
make-Converts raw w uns h = record {
  width = refl;
  signedness = refl;
  in_range = rw (reduce-wrap raw w uns h) (read-wrap raw w uns h).0;
  congruent = rw (reduce-wrap raw w uns h) (read-wrap raw w uns h).1;
}

-- The integer of a canonical value lies in the range of its type.
pub IsCanonical-InRange : (v : Ival) → IsCanonical v → InRange v.width v.uns (read v.bits v.uns)
IsCanonical-InRange v h =
    subst (λ (n : ℕ). InRange v.width v.uns (read n v.uns)) (sym h.reduced)
      (read-wrap v.bits v.width v.uns h.is_width).0

pub weaken : (w : ℕ) (x y : ℤ) → IsWidth w → Congruent (2 ^ 64) x y → Congruent (2 ^ w) x y
weaken w x y (inl e) h = rw e (omega arith)
weaken w x y (inr (inl e)) h = rw e (omega arith)
weaken w x y (inr (inr (inl e))) h = rw e (omega arith)
weaken w x y (inr (inr (inr e))) h = rw e h

pub Congruent-trans :
    (w : ℕ) (x y z : ℤ)
    → IsWidth w
    → Congruent (2 ^ w) x y
    → Congruent (2 ^ w) y z
    → Congruent (2 ^ w) x z
Congruent-trans w x y z (inl e) p q = rw e (let p' = rw e at p in let q' = rw e at q in omega arith)
Congruent-trans w x y z (inr (inl e)) p q =
    rw e (let p' = rw e at p in let q' = rw e at q in omega arith)
Congruent-trans w x y z (inr (inr (inl e))) p q =
    rw e (let p' = rw e at p in let q' = rw e at q in omega arith)
Congruent-trans w x y z (inr (inr (inr e))) p q =
    rw e (let p' = rw e at p in let q' = rw e at q in omega arith)

-- A word that is congruent to an integer modulo 2 ^ 64 converts to what the integer converts to.
pub make-Converts_word :
    (raw w : ℕ) (uns : Bool) (z : ℤ)
    → IsWidth w
    → Congruent (2 ^ 64) (pos raw) z
    → Converts w uns z (make raw w uns)
make-Converts_word raw w uns z h c =
    let m = make-Converts raw w uns h in
    record {
      width = m.width;
      signedness = m.signedness;
      in_range = m.in_range;
      congruent =
          Congruent-trans w (value (make raw w uns)) (pos raw) z h m.congruent
            (weaken w (pos raw) z h c);
    }

pub wrap-lt : (raw w : ℕ) (uns : Bool) → IsWidth w → wrap raw w uns < 2 ^ 64
wrap-lt raw w uns (inl e) = rw e (ground arith)
wrap-lt raw w uns (inr (inl e)) = rw e (ground arith)
wrap-lt raw w uns (inr (inr (inl e))) = rw e (ground arith)
wrap-lt raw w uns (inr (inr (inr e))) = rw e (ground arith)

pub IsCanonical-lt : (v : Ival) → IsCanonical v → v.bits < 2 ^ 64
IsCanonical-lt v h = omega (arith, h.reduced, wrap-lt v.bits v.width v.uns h.is_width)

-- The bits of a canonical value are its integer modulo 2 ^ 64.
pub bits-Congruent : (v : Ival) → v.bits < 2 ^ 64 → Congruent (2 ^ 64) (pos v.bits) (value v)
unfolding value
bits-Congruent v h = ground arith

plus_word :
    (a b : Ival)
    → a.bits < 2 ^ 64
    → b.bits < 2 ^ 64
    → Congruent (2 ^ 64) (pos (u64 (a.bits + b.bits))) (value a +ℤ value b)
plus_word a b ha hb =
    omega (arith, +ℤ_parts (value a) (value b), bits-Congruent a ha, bits-Congruent b hb)

minus_word :
    (a b : Ival)
    → a.bits < 2 ^ 64
    → b.bits < 2 ^ 64
    → Congruent (2 ^ 64) (pos (sub64 a.bits b.bits)) (value a -ℤ value b)
minus_word a b ha hb =
    omega (arith, -ℤ_parts (value a) (value b), bits-Congruent a ha, bits-Congruent b hb)

-- A product of words, from what the two words stand for modulo 2 ^ 64
product_word :
    (x y : ℕ) (v w : ℤ) (j k : ℕ)
    → x + neg_part v ≡ pos_part v + 2 ^ 64 * j
    → y + neg_part w ≡ pos_part w + 2 ^ 64 * k
    → Congruent (2 ^ 64) (pos (u64 (x * y))) (v *ℤ w)
product_word x y v w j k ex ey = omega (
  arith,
  *ℤ_parts v w,
  ap (λ (t : ℕ). t * y) ex,
  ap (λ (t : ℕ). t * pos_part v) ey,
  ap (λ (t : ℕ). t * neg_part v) ey,
)

-- A word exceeds the integer that it stands for by 2 ^ 64 or by nothing.
excess :
    (v : Ival)
    → v.bits < 2 ^ 64
    → (k : ℕ) × (v.bits + neg_part (value v) ≡ pos_part (value v) + 2 ^ 64 * k)
unfolding value
excess v h = elim (Bool-cases (v.uns || ltb v.bits (2 ^ 63))) [
  | inl e ↦ (0, ground arith)
  | inr e ↦ (1, ground arith)
]

star_word :
    (a b : Ival)
    → a.bits < 2 ^ 64
    → b.bits < 2 ^ 64
    → Congruent (2 ^ 64) (pos (u64 (a.bits * b.bits))) (value a *ℤ value b)
star_word a b ha hb =
    let (j, ea) = excess a ha in
    let (k, eb) = excess b hb in product_word a.bits b.bits (value a) (value b) j k ea eb

-- On canonical operands `+`, `-` and `*` succeed, in the type of the usual arithmetic conversions,
-- and give the integer sum, difference and product converted to that type.
pub additive_Converts :
    (a b : Ival)
    → IsCanonical a
    → IsCanonical b
    → let w = (usual_arith a b).0 in
      let u = (usual_arith a b).1 in
      ((r : Ival) × (eval_arith_binary Punct.plus a b ≡ ok r) × Converts w u (value a +ℤ value b) r)
      × ((r : Ival) × (eval_arith_binary Punct.minus a b ≡ ok r)
          × Converts w u (value a -ℤ value b) r)
      × ((r : Ival) × (eval_arith_binary Punct.star a b ≡ ok r)
          × Converts w u (value a *ℤ value b) r)
unfolding eval_arith_binary
additive_Converts a b ha hb =
    let w = (usual_arith a b).0 in
    let u = (usual_arith a b).1 in
    let la = IsCanonical-lt a ha in
    let lb = IsCanonical-lt b hb in
    let is_width = usual_arith-IsWidth a b ha hb in
    (
      (_, refl, make-Converts_word _ w u _ is_width (plus_word a b la lb)),
      (_, refl, make-Converts_word _ w u _ is_width (minus_word a b la lb)),
      (_, refl, make-Converts_word _ w u _ is_width (star_word a b la lb)),
    )
