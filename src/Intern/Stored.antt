-- ===== src/Intern/Stored.antt =====
-- The invariant of the interner, and that storing a string keeps it.
use quicks_qcc.Prelude.{
  ℕ, ◌+◌, ◌*◌, ◌^◌, ◌<◌, ◌≡◌, ◌≢◌, ◌⊎◌, refl, sym, ap, ◌∙◌, Bool, true, false, List, Option, none,
  some, arith, length, set, length-set, Option-cases, inl, inr,
}
use mathlib.Core.Bool.{false≢true}
use mathlib.Core.Option.{some-injective}
use quicks_qcc.Intern.{Entry, Slots, Intern, probe, put, fnv1a, stored}
use quicks_qcc.Intern.Probe.{slot, slot-set_self, Ends-match, Ends-unique, apart, used, probe-Ends}
use quicks_qcc.Intern.Table.{
  EndsAt, IsTable, is_match→eq, slot-filled, slot-kept, set-IsTable, used-set,
}

-- An interner between calls: the count is right, a slot is empty, and an address has one string.
pub record IsIntern (t : Intern) : Type 0 where
  pub table : IsTable t.slots
  pub counted : t.count ≡ used t.slots
  pub room : used t.slots < length t.slots
  pub small : length t.slots * 24 < 2 ^ 64
  pub fresh : (j : ℕ) (e : Entry) → slot t.slots j ≡ some e → e.str < t.made
  pub one_string :
      (i j : ℕ) (e e' : Entry)
      → slot t.slots i ≡ some e
      → slot t.slots j ≡ some e'
      → e.str ≡ e'.str
      → e.bytes ≡ e'.bytes

-- A string with its address in the slots
pub record Holds (slots : Slots) (bytes : List ℕ) (str : ℕ) : Type 0 where
  pub place : ℕ
  pub entry : Entry
  pub there : slot slots place ≡ some entry
  pub same_bytes : entry.bytes ≡ bytes
  pub same_str : entry.str ≡ str

-- What a call returns
pub record IsCall (t : Intern) (bytes : List ℕ) (r : Option ℕ × Intern) : Type 0 where
  pub intern : IsIntern r.1
  pub kept : (j : ℕ) (e : Entry) → slot t.slots j ≡ some e → (j' : ℕ) × (slot r.1.slots j' ≡ some e)
  pub result : (str : ℕ) → r.0 ≡ some str → Holds r.1.slots bytes str

unfoldable pub Absent : Slots → List ℕ → Type 0
Absent slots bytes = (i : ℕ) (e : Entry) → slot slots i ≡ some e → e.bytes ≢ bytes

-- A string is absent where the probe for it ends at an empty slot.
pub Absent-of :
    {slots : Slots} {bytes : List ℕ} (j : ℕ)
    → IsTable slots
    → EndsAt slots bytes (fnv1a bytes) j
    → slot slots j ≡ none
    → Absent slots bytes
unfolding Absent
Absent-of {slots} {bytes} j t x free i e f same = apart slots j i free f (Ends-unique x there)
  where
    hash : e.hash ≡ fnv1a bytes
    hash = t.hashed i e f ∙ ap fnv1a same

    there : EndsAt slots bytes (fnv1a bytes) i
    there = rw (← same, ← t.hashed i e f) (t.probed i e f)

pub stored-IsCall :
    (t : Intern) (bytes : List ℕ)
    → IsIntern t
    → used t.slots + 1 < length t.slots
    → Absent t.slots bytes
    → IsCall t bytes (some t.made, stored t bytes)
unfolding stored Absent
stored-IsCall t bytes h room absent = go (Option-cases (slot t.slots there.0))
  where
    Place : Type 0
    Place =
        (j : ℕ) × (j < length t.slots)
        × (probe t.slots bytes (fnv1a bytes) ≡ some j)
        × EndsAt t.slots bytes (fnv1a bytes) j

    there : Place
    there = probe-Ends h.table.power.0 t.slots bytes (fnv1a bytes) h.table.power.1 h.room

    fresh : Entry
    fresh = record { str = t.made; bytes = bytes; hash = fnv1a bytes }

    after : Slots
    after = set t.slots there.0 (some fresh)

    same : put (probe t.slots bytes (fnv1a bytes)) t.slots fresh ≡ after
    same = ap (λ (o : Option ℕ). put o t.slots fresh) there.2

    filled :
        (i : ℕ) (e : Entry)
        → slot after i ≡ some e
        → ((i ≡ there.0) × (e ≡ fresh)) ⊎ (slot t.slots i ≡ some e)
    filled i e f = slot-filled t.slots there.0 fresh i e there.1 f

    Filled : ℕ → Entry → Type 0
    Filled i e = ((i ≡ there.0) × (e ≡ fresh)) ⊎ (slot t.slots i ≡ some e)

    made_now : (e : Entry) → e ≡ fresh → e.str ≡ t.made
    made_now e p = ap (λ (x : Entry). x.str) p

    older : (i : ℕ) (e : Entry) → Filled i e → e.str < t.made + 1
    older i e (inl (p, q)) = omega (arith, made_now e q)
    older i e (inr f) = omega (arith, h.fresh i e f)

    one : (i j : ℕ) (e e' : Entry) → Filled i e → Filled j e' → e.str ≡ e'.str → e.bytes ≡ e'.bytes
    one i j e e' (inl (p, q)) (inl (p', q')) k = ap (λ (x : Entry). x.bytes) (q ∙ sym q')
    one i j e e' (inl (p, q)) (inr g) k = absurd (omega (arith, made_now e q, h.fresh j e' g, k))
    one i j e e' (inr f) (inl (p', q')) k = absurd (omega (arith, made_now e' q', h.fresh i e f, k))
    one i j e e' (inr f) (inr g) k = h.one_string i j e e' f g k

    go :
        (slot t.slots there.0 ≡ none) ⊎ ((s : Entry) × (slot t.slots there.0 ≡ some s))
        → IsCall t bytes (some t.made, stored t bytes)
    go (inr (s, g)) =
        absurd (absent there.0 s g (is_match→eq bytes (fnv1a bytes) s (Ends-match g there.3)).1)
    go (inl free) = rw same record {
      intern = record {
        table = set-IsTable there.0 fresh h.table there.1 free refl there.3;
        counted = omega (arith, h.counted, used-set t.slots there.0 fresh there.1 free);
        room = omega (
          arith,
          room,
          used-set t.slots there.0 fresh there.1 free,
          length-set t.slots there.0 (some fresh),
        );
        small = omega (arith, h.small, length-set t.slots there.0 (some fresh));
        fresh = λ i e f. older i e (filled i e f);
        one_string = λ i j e e' f g k. one i j e e' (filled i e f) (filled j e' g) k;
      };
      kept = λ j e f. (j, slot-kept t.slots there.0 fresh j e free f);
      result = λ str e. record {
        place = there.0;
        entry = fresh;
        there = slot-set_self t.slots there.0 (some fresh) there.1;
        same_bytes = refl;
        same_str = some-injective t.made str e;
      };
    }

is_some {ℓ} : {A : Type ℓ} → Option A → Bool
is_some none = false
is_some (some a) = true

pub not_some {ℓ} : {A : Type ℓ} {a : A} → none ≢ some a
unfolding is_some
not_some e = false≢true (ap is_some e)
