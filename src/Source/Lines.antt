-- ===== src/Source/Lines.antt =====
-- The index of line starts and the binary search in it.
use quicks_qcc.Prelude.{
  ℕ, zero, suc, ◌+◌, ◌-◌, ◌/◌, ◌≤◌, ◌<◌, ◌≡◌, refl, ap, Bool, true, false, List, [], ◌∷◌, arith,
  length, get_or, ltb, leb, ◌==◌, if◌then◌else◌, Bool-cases, inl, inr,
}
use quicks_qcc.Source.{newline_count, fill_starts, search}

-- The offsets behind the newlines, for as many of them as there are
unfoldable pub starts_after : ℕ → List ℕ → List ℕ
starts_after i [] = []
starts_after i (b ∷ bs) =
    let more = starts_after (i + 1) bs in if b == 10 then (i + 1) ∷ more else more

-- The second loop fills every entry that the first one counted.
pub fill_starts-starts_after :
    (left i : ℕ) (bs : List ℕ) → newline_count bs ≤ left → fill_starts left i bs ≡ starts_after i bs
unfolding newline_count fill_starts starts_after
fill_starts-starts_after zero i [] h = refl
fill_starts-starts_after (suc left) i [] h = refl
fill_starts-starts_after zero i (b ∷ bs) h =
    go (b == 10) h (λ k. fill_starts-starts_after zero (i + 1) bs k)
  where
    go :
        (c : Bool)
        → (if c then suc (newline_count bs) else newline_count bs) ≤ 0
        → (newline_count bs ≤ 0 → [] ≡ starts_after (i + 1) bs)
        → [] ≡ (if c then (i + 1) ∷ starts_after (i + 1) bs else starts_after (i + 1) bs)
    go true k ih = absurd (omega arith)
    go false k ih = ih k
fill_starts-starts_after (suc left) i (b ∷ bs) h =
    go (b == 10) h (λ n. fill_starts-starts_after n (i + 1) bs)
  where
    go :
        (c : Bool)
        → (if c then suc (newline_count bs) else newline_count bs) ≤ suc left
        → ((n : ℕ) → newline_count bs ≤ n → fill_starts n (i + 1) bs ≡ starts_after (i + 1) bs)
        → (elim c as (λ x. List ℕ) [
          | true ↦ (i + 1) ∷ fill_starts left (i + 1) bs
          | false ↦ fill_starts (suc left) (i + 1) bs
        ])
          ≡ (if c then (i + 1) ∷ starts_after (i + 1) bs else starts_after (i + 1) bs)
    go true k ih = ap (λ (t : List ℕ). (i + 1) ∷ t) (ih left (omega (arith, k)))
    go false k ih = ih (suc left) k

pub length-starts_after : (i : ℕ) (bs : List ℕ) → length (starts_after i bs) ≡ newline_count bs
unfolding newline_count starts_after
length-starts_after i [] = refl
length-starts_after i (b ∷ bs) = elim (Bool-cases (b == 10)) [
  | inl e ↦ rw (e, length-starts_after (i + 1) bs)
  | inr e ↦ rw (e, length-starts_after (i + 1) bs)
]

-- Numbers from a bound on, each greater than the one before
unfoldable pub IsAscending : ℕ → List ℕ → Type 0
IsAscending from [] = Unit
IsAscending from (z ∷ zs) = (from ≤ z) × IsAscending (z + 1) zs

pub IsAscending-lower :
    {from to : ℕ} (zs : List ℕ) → to ≤ from → IsAscending from zs → IsAscending to zs
unfolding IsAscending
IsAscending-lower [] k h = tt
IsAscending-lower (z ∷ zs) k (lo, h) = (omega arith, h)

pub starts_after-IsAscending : (i : ℕ) (bs : List ℕ) → IsAscending (i + 1) (starts_after i bs)
unfolding IsAscending starts_after
starts_after-IsAscending i [] = tt
starts_after-IsAscending i (b ∷ bs) = elim (Bool-cases (b == 10)) [
  | inl e ↦ rw e ((omega arith, starts_after-IsAscending (i + 1) bs))
  | inr e ↦ rw e (
      IsAscending-lower (starts_after (i + 1) bs) (omega arith)
        (starts_after-IsAscending (i + 1) bs))
]

-- How many of the numbers, from the first on, are at most `x`
unfoldable pub count_le : ℕ → List ℕ → ℕ
count_le x [] = 0
count_le x (z ∷ zs) = let more = count_le x zs in if leb z x then suc more else 0

pub count_le-small :
    {from : ℕ} (x : ℕ) (zs : List ℕ) → x < from → IsAscending from zs → count_le x zs ≡ 0
unfolding count_le IsAscending
count_le-small x [] k h = refl
count_le-small x (z ∷ zs) k (lo, h) = ground arith

pub count_le-le : (x : ℕ) (zs : List ℕ) → count_le x zs ≤ length zs
unfolding count_le
count_le-le x [] = omega arith
count_le-le x (z ∷ zs) = let h = count_le-le x zs in ground arith

-- In an ascending list the numbers that are at most `x` are those before the count.
leb-get_or :
    (from x : ℕ) (zs : List ℕ) (j : ℕ)
    → IsAscending from zs
    → j < length zs
    → leb (get_or zs j 0) x ≡ ltb j (count_le x zs)
unfolding count_le IsAscending
leb-get_or from x [] j h k = elim k [ ]
leb-get_or from x (z ∷ zs) zero (lo, h) k = ground arith
leb-get_or from x (z ∷ zs) (suc j) (lo, h) k =
    go (leb-get_or (z + 1) x zs j h (omega (arith, k))) (leb z x) refl
  where
    go :
        leb (get_or zs j 0) x ≡ ltb j (count_le x zs)
        → (c : Bool) → leb z x ≡ c
        → leb (get_or zs j 0) x ≡ ltb (suc j) (if c then suc (count_le x zs) else 0)
    go ih true e = let same : leb (get_or zs j 0) x ≡ ltb j (count_le x zs) = ih in ground arith
    go ih false e =
        let none_le : count_le x zs ≡ 0 = count_le-small x zs (ground arith) h in ground arith

-- The binary search finds the count, whatever bounds around it it starts from, with as much fuel as
-- they are apart.
pub search-count_le :
    (from x : ℕ) (zs : List ℕ) (fuel lo hi : ℕ)
    → IsAscending from zs
    → hi ≤ length zs
    → lo ≤ count_le x zs
    → count_le x zs ≤ hi
    → hi ≤ fuel + lo
    → search fuel zs x lo hi ≡ count_le x zs
unfolding search
search-count_le from x zs zero lo hi a n l h f = omega arith
search-count_le from x zs (suc fuel) lo hi a n l h f =
    go (λ lo' hi'. search-count_le from x zs fuel lo' hi' a) (ltb lo hi) refl
  where
    Found : Type 0
    Found =
        (lo' hi' : ℕ)
        → hi' ≤ length zs
        → lo' ≤ count_le x zs
        → count_le x zs ≤ hi'
        → hi' ≤ fuel + lo'
        → search fuel zs x lo' hi' ≡ count_le x zs

    inner :
        (mid : ℕ)
        → Found
        → lo ≤ mid
        → mid < hi
        → (c : Bool) → ltb mid (count_le x zs) ≡ c
        → (elim c as (λ y. ℕ) [
          | true ↦ search fuel zs x (mid + 1) hi
          | false ↦ search fuel zs x lo mid
        ])
          ≡ count_le x zs
    inner mid ih b m true e = ih (mid + 1) hi n (ground arith) h (omega arith)
    inner mid ih b m false e = ih lo mid (omega arith) l (ground arith) (omega arith)

    half : (d : ℕ) → 0 < d → d / 2 < d
    half d k = omega arith

    go :
        Found
        → (c : Bool) → ltb lo hi ≡ c
        → (elim c as (λ y. ℕ) [
          | false ↦ lo
          | true ↦ elim (leb (get_or zs (lo + (hi - lo) / 2) 0) x) [
            | true ↦ search fuel zs x (lo + (hi - lo) / 2 + 1) hi
            | false ↦ search fuel zs x lo (lo + (hi - lo) / 2)
          ]
        ])
          ≡ count_le x zs
    go ih false e = ground arith
    go ih true e =
        let k : lo < hi = ground arith in
        let m : lo + (hi - lo) / 2 < hi = omega (arith, half (hi - lo) (omega arith)) in
        rw (leb-get_or from x zs (lo + (hi - lo) / 2) a (omega arith)) (
          inner (lo + (hi - lo) / 2) ih (omega arith) m (ltb (lo + (hi - lo) / 2) (count_le x zs))
            refl)
