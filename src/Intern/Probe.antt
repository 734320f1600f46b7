-- ===== src/Intern/Probe.antt =====
-- Linear probing: where a probe ends, and that it does.
use quicks_qcc.Prelude.{
  ℕ, zero, suc, ◌+◌, ◌%◌, ◌^◌, ◌≤◌, ◌<◌, ◌≡◌, ◌≢◌, ◌⊎◌, ltb→lt, refl, sym, ap, ◌∙◌, Bool, true,
  false, List, [], ◌∷◌, Option, none, some, arith, ltb, ◌==◌, if◌then◌else◌, length, get_or, set,
  Bool-cases, inl, inr, ==_iff,
}
use native.Mathlib.Nat.{mod-eq_of_lt, mod_self, mod-lt, one-le-pow}
use mathlib.Core.Option.{some-injective}
use mathlib.Core.Bool.{true≢false, false≢true}
use quicks_qcc.Prelude.Bits.{bit_and_mask}
use quicks_qcc.Intern.{Entry, Slots, is_match, wrapped, probe_from, probe}

abbrev pub slot : Slots → ℕ → Option Entry
slot slots i = get_or slots i none

pub slot-set_self :
    (slots : Slots) (i : ℕ) (v : Option Entry) → i < length slots → slot (set slots i v) i ≡ v
slot-set_self [] i v h = elim h [ ]
slot-set_self (x ∷ xs) zero v h = refl
slot-set_self (x ∷ xs) (suc i) v h = slot-set_self xs i v (omega arith)

pub slot-set_ne :
    (slots : Slots) (i j : ℕ) (v : Option Entry) → i ≢ j → slot (set slots i v) j ≡ slot slots j
slot-set_ne [] i j v h = refl
slot-set_ne (x ∷ xs) zero zero v h = absurd (h refl)
slot-set_ne (x ∷ xs) zero (suc j) v h = refl
slot-set_ne (x ∷ xs) (suc i) zero v h = refl
slot-set_ne (x ∷ xs) (suc i) (suc j) v h = slot-set_ne xs i j v (λ e. h (ap suc e))

-- A probe for a string from an index, in slots that wrap after so many, ends at an index: at an empty
-- slot or a match, behind slots in use that are no match.
pub data Ends (m : ℕ) (slots : Slots) (bytes : List ℕ) (hash : ℕ) : ℕ → ℕ → Type 0 where
  at_empty : {i : ℕ} → slot slots i ≡ none → Ends m slots bytes hash i i
  at_match :
      {i : ℕ} (e : Entry)
      → slot slots i ≡ some e
      → is_match bytes hash e ≡ true
      → Ends m slots bytes hash i i
  onward :
      {i j : ℕ} (e : Entry)
      → slot slots i ≡ some e
      → is_match bytes hash e ≡ false
      → Ends m slots bytes hash (wrapped m (i + 1)) j
      → Ends m slots bytes hash i j

abbrev pub is_used : Option Entry → Bool
is_used none = false
is_used (some e) = true

pub apart :
    (slots : Slots) {e : Entry} (i j : ℕ) → slot slots i ≡ none → slot slots j ≡ some e → i ≢ j
apart slots i j p q same = absurd (false≢true (ap is_used (sym p ∙ ap (slot slots) same ∙ q)))

matches :
    (bytes : List ℕ) (hash : ℕ) {s s' : Entry}
    → some s ≡ some s'
    → is_match bytes hash s ≡ is_match bytes hash s'
matches bytes hash {s} {s'} p = ap (is_match bytes hash) (some-injective s s' p)

-- A probe that ends at a slot in use ends there also when an empty slot is filled.
pub Ends-set :
    {m : ℕ} {slots : Slots} {bytes : List ℕ} {hash i j : ℕ} {s : Entry} (e : ℕ) (x : Entry)
    → slot slots e ≡ none
    → slot slots j ≡ some s
    → Ends m slots bytes hash i j
    → Ends m (set slots e (some x)) bytes hash i j
Ends-set {slots} {i} e x free used (at_empty f) = absurd (apart slots i i f used refl)
Ends-set {slots} {i} e x free used (at_match s f g) =
    at_match s (slot-set_ne slots e i (some x) (apart slots e i free f) ∙ f) g
Ends-set {slots} {i} e x free used (onward s f g h) =
    onward s (slot-set_ne slots e i (some x) (apart slots e i free f) ∙ f) g
      (Ends-set e x free used h)

-- A probe that ends at an empty slot ends there as a match when the slot is filled with what is
-- looked for.
pub Ends-fill :
    {m : ℕ} {slots : Slots} {bytes : List ℕ} {hash i j : ℕ} (x : Entry)
    → slot slots j ≡ none
    → j < length slots
    → is_match bytes hash x ≡ true
    → Ends m slots bytes hash i j
    → Ends m (set slots j (some x)) bytes hash i j
Ends-fill {slots} {i} x free k g (at_empty f) = at_match x (slot-set_self slots i (some x) k) g
Ends-fill {slots} {i} x free k g (at_match s f _) = absurd (apart slots i i free f refl)
Ends-fill {slots} {i} {j} x free k g (onward s f f' h) =
    onward s (slot-set_ne slots j i (some x) (apart slots j i free f) ∙ f) f'
      (Ends-fill x free k g h)

-- A probe ends at one index only.
pub Ends-unique :
    {m : ℕ} {slots : Slots} {bytes : List ℕ} {hash i j j' : ℕ}
    → Ends m slots bytes hash i j
    → Ends m slots bytes hash i j'
    → j ≡ j'
Ends-unique (at_empty f) (at_empty g) = refl
Ends-unique (at_empty f) (at_match s g _) = refl
Ends-unique {slots} {i} (at_empty f) (onward s g _ h) = absurd (apart slots i i f g refl)
Ends-unique (at_match s f _) (at_empty g) = refl
Ends-unique (at_match s f _) (at_match s' g _) = refl
Ends-unique {bytes} {hash} (at_match s f f') (onward s' g g' h) =
    absurd (true≢false (sym f' ∙ matches bytes hash (sym f ∙ g) ∙ g'))
Ends-unique {slots} {i} (onward s f _ h) (at_empty g) = absurd (apart slots i i g f refl)
Ends-unique {bytes} {hash} (onward s f f' h) (at_match s' g g') =
    absurd (true≢false (sym g' ∙ matches bytes hash (sym g ∙ f) ∙ f'))
Ends-unique (onward s f _ h) (onward s' g _ h') = Ends-unique h h'

-- An end at which a slot is in use is a match.
pub Ends-match :
    {m : ℕ} {slots : Slots} {bytes : List ℕ} {hash i j : ℕ} {s : Entry}
    → slot slots j ≡ some s
    → Ends m slots bytes hash i j
    → is_match bytes hash s ≡ true
Ends-match {slots} {i} f (at_empty g) = absurd (apart slots i i g f refl)
Ends-match {bytes} {hash} f (at_match s' g g') = matches bytes hash (sym f ∙ g) ∙ g'
Ends-match f (onward s' g _ h) = Ends-match f h

-- How the index goes on
abbrev pub IsNext : ℕ → ℕ → ℕ → Type 0
IsNext m i next = ((i + 1 < m) × (next ≡ i + 1)) ⊎ ((i + 1 ≡ m) × (next ≡ 0))

-- In as many slots as a power of two it goes to the one behind, and from the last to the first.
pub wrapped-IsNext : (k i : ℕ) → i < 2 ^ k → IsNext (2 ^ k) i (wrapped (2 ^ k) (i + 1))
unfolding wrapped
wrapped-IsNext k i h = elim (Bool-cases (ltb (i + 1) (2 ^ k))) [
  | inl e ↦
      inl
        (ltb→lt (i + 1) (2 ^ k) e, bit_and_mask k (i + 1) ∙ mod-eq_of_lt (ltb→lt (i + 1) (2 ^ k) e))
  | inr e ↦
      let last : i + 1 ≡ 2 ^ k = ground arith in
      inr (last, bit_and_mask k (i + 1) ∙ ap (λ (n : ℕ). n % 2 ^ k) last ∙ mod_self (2 ^ k))
]

pub wrapped-lt : (k i : ℕ) → wrapped (2 ^ k) i < 2 ^ k
unfolding wrapped
wrapped-lt k i = rw (bit_and_mask k i) (mod-lt i {m = 2 ^ k} (one-le-pow k 2 (omega arith)))

-- The indices that so many steps from an index go to
abbrev IsCovered : ℕ → ℕ → ℕ → ℕ → Type 0
IsCovered m i fuel j = ((i ≤ j) × (j < i + fuel)) ⊎ (j + m < i + fuel)

IsCovered-next :
    (m i fuel j next : ℕ)
    → IsNext m i next
    → j < m
    → i ≢ j
    → IsCovered m i (suc fuel) j
    → IsCovered m next fuel j
IsCovered-next m i fuel j next n l d c = ground arith

-- What a probe returns: where it ends, or nothing, if every slot on its way is in use
pub data Probed (m : ℕ) (slots : Slots) (bytes : List ℕ) (hash fuel i : ℕ) : Option ℕ → Type 0 where
  found : {j : ℕ} → j < m → Ends m slots bytes hash i j → Probed m slots bytes hash fuel i (some j)
  lost :
      ((j : ℕ) → j < m → IsCovered m i fuel j → is_used (slot slots j) ≡ true)
      → Probed m slots bytes hash fuel i none

pub probe_from-Probed :
    (k : ℕ) (slots : Slots) (bytes : List ℕ) (hash fuel i : ℕ)
    → length slots ≡ 2 ^ k
    → i < length slots
    → Probed (length slots) slots bytes hash fuel i (probe_from fuel slots bytes hash i)
unfolding probe_from
probe_from-Probed k slots bytes hash zero i e h = lost (λ j l c. absurd (ground arith))
probe_from-Probed k slots bytes hash (suc fuel) i e h =
    go (slot slots i) refl (probe_from-Probed k slots bytes hash fuel next e below)
  where
    next : ℕ
    next = wrapped (length slots) (i + 1)

    below : next < length slots
    below = rw e (wrapped-lt k (i + 1))

    goes_on : IsNext (length slots) i next
    goes_on = rw e (wrapped-IsNext k i (rw e at h))

    behind :
        (s : Entry) (r : Option ℕ)
        → slot slots i ≡ some s
        → is_match bytes hash s ≡ false
        → Probed (length slots) slots bytes hash fuel next r
        → Probed (length slots) slots bytes hash (suc fuel) i r
    behind s _ f g (found l x) = found l (onward s f g x)
    behind s _ f g (lost all_used) = lost (λ j l c. elim (Bool-cases (i == j)) [
      | inl same ↦ ap is_used (ap (slot slots) (sym ((==_iff i j).0 same)) ∙ f)
      | inr other ↦
          all_used j l (IsCovered-next (length slots) i fuel j next goes_on l (differ j other) c)
    ])
      where
        differ : (j : ℕ) → (i == j) ≡ false → i ≢ j
        differ j other same = absurd (true≢false (sym ((==_iff i j).1 same) ∙ other))

    go :
        (o : Option Entry)
        → slot slots i ≡ o
        → Probed (length slots) slots bytes hash fuel next (probe_from fuel slots bytes hash next)
        → Probed (length slots) slots bytes hash (suc fuel) i (elim o as (λ x. Option ℕ) [
          | none ↦ some i
          | some s ↦ if is_match bytes hash s then some i else probe_from fuel slots bytes hash next
        ])
    go none f ih = found h (at_empty f)
    go (some s) f ih = test (is_match bytes hash s) refl
      where
        test :
            (c : Bool)
            → is_match bytes hash s ≡ c
            → Probed
                (length slots)
                slots
                bytes
                hash
                (suc fuel)
                i
                (if c then some i else probe_from fuel slots bytes hash next)
        test true g = found h (at_match s f g)
        test false g = behind s (probe_from fuel slots bytes hash next) f g ih

-- How many slots are in use
unfoldable pub used : Slots → ℕ
used [] = 0
used (none ∷ slots) = used slots
used (some e ∷ slots) = suc (used slots)

all_used :
    (slots : Slots)
    → ((j : ℕ) → j < length slots → is_used (slot slots j) ≡ true)
    → used slots ≡ length slots
unfolding used
all_used [] h = refl
all_used (none ∷ slots) h = absurd (false≢true (h 0 (omega arith)))
all_used (some e ∷ slots) h = ap suc (all_used slots (λ j l. h (suc j) (omega arith)))

-- With an empty slot every probe ends.
pub probe-Ends :
    (k : ℕ) (slots : Slots) (bytes : List ℕ) (hash : ℕ)
    → length slots ≡ 2 ^ k
    → used slots < length slots
    → (j : ℕ) × (j < length slots)
      × (probe slots bytes hash ≡ some j)
      × Ends (length slots) slots bytes hash (wrapped (length slots) hash) j
unfolding probe
probe-Ends k slots bytes hash e room =
    from (probe_from (length slots) slots bytes hash start) refl
      (probe_from-Probed k slots bytes hash (length slots) start e below)
  where
    start : ℕ
    start = wrapped (length slots) hash

    below : start < length slots
    below = rw e (wrapped-lt k hash)

    Result : Type 0
    Result =
        (j : ℕ) × (j < length slots)
        × (probe_from (length slots) slots bytes hash start ≡ some j)
        × Ends (length slots) slots bytes hash start j

    from :
        (r : Option ℕ)
        → probe_from (length slots) slots bytes hash start ≡ r
        → Probed (length slots) slots bytes hash (length slots) start r
        → Result
    from _ q (found {j} l x) = (j, l, q, x)
    from _ q (lost h) = absurd (omega (arith, room, all_used slots (λ j l. h j l (covered j l))))
      where
        covered : (j : ℕ) → j < length slots → IsCovered (length slots) start (length slots) j
        covered j l = ground arith
