-- ===== src/ConstEval/Canonical.antt =====
-- `reduce` in arithmetic, and the invariant of `ival`: `bits` is the value reduced to the width
-- and the signedness beside it.
use quicks_qcc.Prelude.{
  ℕ, ◌+◌, ◌-◌, ◌/◌, ◌%◌, ◌^◌, ◌≡◌, sym, ◌⊎◌, inl, inr, Bool, true, false, arith, ltb, if◌then◌else◌,
  Bool-cases,
}
use quicks_qcc.Prelude.Bits.{bit_and_mask, bit_or_sum_right, bit_and_bit}
use quicks_qcc.ConstEval.{Ival, reduce, make, promote}

-- The widths of the integer types
abbrev pub IsWidth : ℕ → Type 0
IsWidth w = (w ≡ 8) ⊎ (w ≡ 16) ⊎ (w ≡ 32) ⊎ (w ≡ 64)

-- The low `w` bits, with the sign bit copied into the bits above for a signed type.
abbrev pub wrap : ℕ → ℕ → Bool → ℕ
wrap raw w uns =
    if uns
    then raw % 2 ^ w
    else if ltb (raw % 2 ^ w) (2 ^ (w - 1))
    then raw % 2 ^ w
    else raw % 2 ^ w + (2 ^ 64 - 2 ^ w)

reduce_8 : (raw : ℕ) (uns : Bool) → reduce raw 8 uns ≡ wrap raw 8 uns
unfolding reduce
reduce_8 raw true = ground (arith, bit_and_mask 8 raw)
reduce_8 raw false =
    let low = raw % 2 ^ 8 in
    ground (
      arith,
      bit_and_mask 8 raw,
      bit_and_bit 7 (low / 2 ^ 7) (low % 2 ^ 7),
      bit_or_sum_right 8 (2 ^ 56 - 1) low,
    )

reduce_16 : (raw : ℕ) (uns : Bool) → reduce raw 16 uns ≡ wrap raw 16 uns
unfolding reduce
reduce_16 raw true = ground (arith, bit_and_mask 16 raw)
reduce_16 raw false =
    let low = raw % 2 ^ 16 in
    ground (
      arith,
      bit_and_mask 16 raw,
      bit_and_bit 15 (low / 2 ^ 15) (low % 2 ^ 15),
      bit_or_sum_right 16 (2 ^ 48 - 1) low,
    )

reduce_32 : (raw : ℕ) (uns : Bool) → reduce raw 32 uns ≡ wrap raw 32 uns
unfolding reduce
reduce_32 raw true = ground (arith, bit_and_mask 32 raw)
reduce_32 raw false =
    let low = raw % 2 ^ 32 in
    ground (
      arith,
      bit_and_mask 32 raw,
      bit_and_bit 31 (low / 2 ^ 31) (low % 2 ^ 31),
      bit_or_sum_right 32 (2 ^ 32 - 1) low,
    )

reduce_64 : (raw : ℕ) (uns : Bool) → reduce raw 64 uns ≡ wrap raw 64 uns
unfolding reduce
reduce_64 raw true = ground (arith, bit_and_mask 64 raw)
reduce_64 raw false = ground (arith, bit_and_mask 64 raw)

-- `reduce` is `wrap` at every width of an integer type.
pub reduce-wrap : (raw w : ℕ) (uns : Bool) → IsWidth w → reduce raw w uns ≡ wrap raw w uns
reduce-wrap raw w uns (inl e) = rw e (reduce_8 raw uns)
reduce-wrap raw w uns (inr (inl e)) = rw e (reduce_16 raw uns)
reduce-wrap raw w uns (inr (inr (inl e))) = rw e (reduce_32 raw uns)
reduce-wrap raw w uns (inr (inr (inr e))) = rw e (reduce_64 raw uns)

wrap-wrap : (raw w : ℕ) (uns : Bool) → IsWidth w → wrap (wrap raw w uns) w uns ≡ wrap raw w uns
wrap-wrap raw w uns (inl e) = rw e (ground arith)
wrap-wrap raw w uns (inr (inl e)) = rw e (ground arith)
wrap-wrap raw w uns (inr (inr (inl e))) = rw e (ground arith)
wrap-wrap raw w uns (inr (inr (inr e))) = rw e (ground arith)

-- A value that `reduce` leaves as it is, at the width of an integer type.
pub record IsCanonical (v : Ival) : Type 0 where
  pub is_width : IsWidth v.width
  pub reduced : v.bits ≡ wrap v.bits v.width v.uns

pub make-IsCanonical : (raw w : ℕ) (uns : Bool) → IsWidth w → IsCanonical (make raw w uns)
unfolding make
make-IsCanonical raw w uns h = record {
  is_width = h;
  reduced = rw (reduce-wrap raw w uns h) (sym (wrap-wrap raw w uns h));
}

pub promote-IsCanonical : {v : Ival} → IsCanonical v → IsCanonical (promote v)
unfolding promote
promote-IsCanonical {v} h = elim (Bool-cases (ltb v.width 32)) [
  | inl small ↦ rw small (make-IsCanonical v.bits 32 false (omega arith))
  | inr large ↦ rw large h
]
