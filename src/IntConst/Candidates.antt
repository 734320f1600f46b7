-- ===== src/IntConst/Candidates.antt =====
-- The types that an integer constant can have, and the first that holds its value.
use quicks_qcc.Prelude.{
  ℕ, zero, suc, ◌^◌, ◌<◌, ◌≤◌, ◌≡◌, inl, inr, refl, Bool, true, false, not, ◌&&◌, List, [], ◌∷◌,
  Option, none, some, leb, if◌then◌else◌, arith, Bool-cases,
}
use quicks_qcc.Token.{IntType}
use quicks_qcc.IntConst.{type_max, fits, suffix, candidates, first_fit}

-- The first type of a list whose range holds the value, or `unsigned long long` where none does
pub data Chosen (value : ℕ) : List IntType → IntType → Type 0 where
  none_left : Chosen value [] IntType.ullong
  here : {t : IntType} {ts : List IntType} → value ≤ type_max t → Chosen value (t ∷ ts) t
  later :
      {t u : IntType} {ts : List IntType}
      → type_max u < value
      → Chosen value ts t
      → Chosen value (u ∷ ts) t

fits_lem : (value : ℕ) (t : IntType) → value < 2 ^ 64 → fits value t ≡ leb value (type_max t)
unfolding fits type_max
fits_lem value IntType.int h = refl
fits_lem value IntType.uint h = refl
fits_lem value IntType.long h = refl
fits_lem value IntType.llong h = refl
fits_lem value IntType.ulong h = ground arith
fits_lem value IntType.ullong h = ground arith

-- The type that the search comes to
abbrev pub found : Option IntType → IntType
found none = IntType.ullong
found (some t) = t

pub first_fit-Chosen :
    (value : ℕ) (ts : List IntType) → value < 2 ^ 64 → Chosen value ts (found (first_fit value ts))
unfolding first_fit
first_fit-Chosen value [] h = none_left
first_fit-Chosen value (t ∷ ts) h = elim (Bool-cases (fits value t)) [
  | inl e ↦ rw e (here (ground (arith, fits_lem value t h)))
  | inr e ↦ rw e (later (ground (arith, fits_lem value t h)) (first_fit-Chosen value ts h))
]

pub Chosen-holds :
    {value : ℕ} {ts : List IntType} {t : IntType}
    → value < 2 ^ 64
    → Chosen value ts t
    → value ≤ type_max t
unfolding type_max
Chosen-holds h none_left = omega arith
Chosen-holds h (here k) = k
Chosen-holds h (later k r) = Chosen-holds h r

-- The rank of a type, and whether it is unsigned
abbrev pub rank : IntType → ℕ
rank IntType.int = 0
rank IntType.uint = 0
rank IntType.long = 1
rank IntType.ulong = 1
rank IntType.llong = 2
rank IntType.ullong = 2

abbrev pub is_unsigned_type : IntType → Bool
is_unsigned_type IntType.int = false
is_unsigned_type IntType.uint = true
is_unsigned_type IntType.long = false
is_unsigned_type IntType.ulong = true
is_unsigned_type IntType.llong = false
is_unsigned_type IntType.ullong = true

-- Whether a constant can have a type (ISO C 6.4.4.1): with the rank of its `l` suffix at least,
-- unsigned where it has a `u`, and signed where it is decimal and has none
abbrev pub admits : Bool → ℕ → Bool → IntType → Bool
admits u l is_decimal t =
    leb l (rank t)
    && (if u then is_unsigned_type t else if is_decimal then not (is_unsigned_type t) else true)

abbrev pub filter : (IntType → Bool) → List IntType → List IntType
filter p [] = []
filter p (t ∷ ts) = if p t then t ∷ filter p ts else filter p ts

-- The types that a constant can have, in the order of the standard
unfoldable pub permitted : Bool → ℕ → Bool → List IntType
permitted u l is_decimal = filter (admits u l is_decimal) (
    IntType.int ∷ IntType.uint ∷ IntType.long ∷ IntType.ulong ∷ IntType.llong ∷ IntType.ullong ∷ [])

pub candidates-permitted :
    (u : Bool) (l : ℕ) (is_decimal : Bool)
    → l ≤ 2
    → candidates u l is_decimal ≡ permitted u l is_decimal
unfolding candidates permitted
candidates-permitted true zero d h = refl
candidates-permitted true (suc zero) d h = refl
candidates-permitted true (suc (suc zero)) d h = refl
candidates-permitted false zero true h = refl
candidates-permitted false zero false h = refl
candidates-permitted false (suc zero) true h = refl
candidates-permitted false (suc zero) false h = refl
candidates-permitted false (suc (suc zero)) true h = refl
candidates-permitted false (suc (suc zero)) false h = refl
candidates-permitted u (suc (suc (suc l))) d h = absurd (omega arith)

pub suffix-rank : (u : Bool) (l : ℕ) (s : List ℕ) → l ≤ 2 → (suffix u l s).l_rank ≤ 2
unfolding suffix
suffix-rank u l [] h = h
suffix-rank u l (c ∷ []) h = ground arith
suffix-rank u l (c ∷ d ∷ cs) h =
    let after_u = suffix-rank true l (d ∷ cs) h in
    let after_l = suffix-rank u 1 (d ∷ cs) (omega arith) in
    let after_ll = suffix-rank u 2 cs (omega arith) in ground arith
