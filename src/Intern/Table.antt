-- ===== src/Intern/Table.antt =====
-- Tables in which every string is where a probe for it ends: insertion and growth.
use quicks_qcc.Prelude.{
  ℕ, zero, suc, ◌^◌, ◌<◌, ◌≡◌, ◌≢◌, ◌⊎◌, refl, sym, ap, ◌∙◌, Bool, true, false, ◌&&◌, List, [], ◌∷◌,
  none, some, arith, ◌==◌, length, set, replicate, length-set, length-replicate, Bool-cases, inl,
  inr, ==_iff,
}
use mathlib.Core.Bool.{true≢false, false≢true}
use mathlib.Core.Option.{some-injective}
use quicks_qcc.Intern.{Entry, Slots, same_bytes, is_match, wrapped, fnv1a}
use quicks_qcc.Intern.Probe.{
  slot, slot-set_self, slot-set_ne, Ends, Ends-set, Ends-fill, Ends-unique, apart, is_used, used,
}

pub same_bytes→eq : (a b : List ℕ) → same_bytes a b ≡ true → a ≡ b
same_bytes→eq [] [] e = refl
same_bytes→eq [] (d ∷ ds) e = absurd (false≢true e)
same_bytes→eq (c ∷ cs) [] e = absurd (false≢true e)
same_bytes→eq (c ∷ cs) (d ∷ ds) e = go (c == d) refl (same_bytes→eq cs ds) e
  where
    go :
        (x : Bool)
        → (c == d) ≡ x
        → (same_bytes cs ds ≡ true → cs ≡ ds)
        → (x && same_bytes cs ds) ≡ true
        → c ∷ cs ≡ d ∷ ds
    go true p ih h = rw ((==_iff c d).0 p, ih h) refl
    go false p ih h = absurd (false≢true h)

same_bytes_refl : (a : List ℕ) → same_bytes a a ≡ true
same_bytes_refl [] = refl
same_bytes_refl (c ∷ cs) =
    let same : (c == c) ≡ true = ground arith in rw (same, same_bytes_refl cs) refl

pub is_match→eq :
    (bytes : List ℕ) (hash : ℕ) (e : Entry)
    → is_match bytes hash e ≡ true
    → (e.hash ≡ hash) × (e.bytes ≡ bytes)
is_match→eq bytes hash e h = go (e.hash == hash) refl h
  where
    go :
        (x : Bool)
        → (e.hash == hash) ≡ x
        → (x && same_bytes e.bytes bytes) ≡ true
        → (e.hash ≡ hash) × (e.bytes ≡ bytes)
    go true p k = ((==_iff e.hash hash).0 p, same_bytes→eq e.bytes bytes k)
    go false p k = absurd (false≢true k)

pub is_match_self : (e : Entry) → is_match e.bytes e.hash e ≡ true
is_match_self e =
    let same : (e.hash == e.hash) ≡ true = ground arith in rw (same, same_bytes_refl e.bytes) refl

-- Where the probe for a string ends
abbrev pub EndsAt : Slots → List ℕ → ℕ → ℕ → Type 0
EndsAt slots bytes hash j = Ends (length slots) slots bytes hash (wrapped (length slots) hash) j

-- As many slots as a power of two, and every string where a probe for it ends
pub record IsTable (slots : Slots) : Type 0 where
  pub power : (k : ℕ) × (length slots ≡ 2 ^ k)
  pub hashed : (j : ℕ) (e : Entry) → slot slots j ≡ some e → e.hash ≡ fnv1a e.bytes
  pub probed : (j : ℕ) (e : Entry) → slot slots j ≡ some e → EndsAt slots e.bytes e.hash j

-- Entries with the same string are in the same slot.
pub IsTable-one :
    {slots : Slots} (t : IsTable slots) (i j : ℕ) (e e' : Entry)
    → slot slots i ≡ some e
    → slot slots j ≡ some e'
    → e.bytes ≡ e'.bytes
    → i ≡ j
IsTable-one {slots} t i j e e' f g same = Ends-unique (t.probed i e f) there
  where
    hashes : e.hash ≡ e'.hash
    hashes = t.hashed i e f ∙ ap fnv1a same ∙ sym (t.hashed j e' g)

    there : EndsAt slots e.bytes e.hash j
    there = rw (hashes, same) (t.probed j e' g)

pub used-set :
    (slots : Slots) (j : ℕ) (e : Entry)
    → j < length slots
    → slot slots j ≡ none
    → used (set slots j (some e)) ≡ suc (used slots)
unfolding used
used-set [] j e h f = elim h [ ]
used-set (none ∷ slots) zero e h f = refl
used-set (some x ∷ slots) zero e h f = absurd (true≢false (ap is_used f))
used-set (none ∷ slots) (suc j) e h f = used-set slots j e (omega arith) f
used-set (some x ∷ slots) (suc j) e h f = ap suc (used-set slots j e (omega arith) f)

-- What a filled slot adds, and what stays
pub slot-filled :
    (slots : Slots) (j : ℕ) (e : Entry) (i : ℕ) (e' : Entry)
    → j < length slots
    → slot (set slots j (some e)) i ≡ some e'
    → ((i ≡ j) × (e' ≡ e)) ⊎ (slot slots i ≡ some e')
slot-filled slots j e i e' l f = elim (Bool-cases (j == i)) [
  | inl same ↦
      let here : j ≡ i = (==_iff j i).0 same in
      inl (
        sym here,
        some-injective e' e (
            sym f ∙ ap (slot (set slots j (some e))) (sym here) ∙ slot-set_self slots j (some e) l),
      )
  | inr other ↦ inr (sym (slot-set_ne slots j i (some e) (differ other)) ∙ f)
]
  where
    differ : (j == i) ≡ false → j ≢ i
    differ other same = absurd (true≢false (sym ((==_iff j i).1 same) ∙ other))

pub slot-kept :
    (slots : Slots) (j : ℕ) (e : Entry) (i : ℕ) (e' : Entry)
    → slot slots j ≡ none
    → slot slots i ≡ some e'
    → slot (set slots j (some e)) i ≡ some e'
slot-kept slots j e i e' free f = slot-set_ne slots j i (some e) (apart slots j i free f) ∙ f

-- Filling the empty slot where the probe for a string ends with it
pub set-IsTable :
    {slots : Slots} (j : ℕ) (e : Entry)
    → IsTable slots
    → j < length slots
    → slot slots j ≡ none
    → e.hash ≡ fnv1a e.bytes
    → EndsAt slots e.bytes e.hash j
    → IsTable (set slots j (some e))
set-IsTable {slots} j e t l free h x = record {
  power = (t.power.0, length-set slots j (some e) ∙ t.power.1);
  hashed = λ i e' f. elim (slot-filled slots j e i e' l f) [
    | inl (same, entry) ↦ rw entry h
    | inr old ↦ t.hashed i e' old
  ];
  probed = λ i e' f. elim (slot-filled slots j e i e' l f) [
    | inl (same, entry) ↦
        rw (entry, same, length-set slots j (some e)) (Ends-fill e free l (is_match_self e) x)
    | inr old ↦ rw (length-set slots j (some e)) (Ends-set j e free old (t.probed i e' old))
  ];
}

pub slot-replicate : (n j : ℕ) → slot (replicate n none) j ≡ none
slot-replicate zero j = refl
slot-replicate (suc n) zero = refl
slot-replicate (suc n) (suc j) = slot-replicate n j

pub used-replicate : (n : ℕ) → used (replicate n none) ≡ 0
unfolding used
used-replicate zero = refl
used-replicate (suc n) = used-replicate n

pub replicate-IsTable : (k : ℕ) → IsTable (replicate (2 ^ k) none)
replicate-IsTable k = record {
  power = (k, length-replicate (2 ^ k) none);
  hashed = λ j e f. absurd (false≢true (ap is_used (sym (slot-replicate (2 ^ k) j) ∙ f)));
  probed = λ j e f. absurd (false≢true (ap is_used (sym (slot-replicate (2 ^ k) j) ∙ f)));
}
