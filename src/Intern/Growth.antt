-- ===== src/Intern/Growth.antt =====
-- The growth of a table: the new slots hold the same entries.
use quicks_qcc.Prelude.{
  ℕ, suc, ◌+◌, ◌-◌, ◌<◌, ◌≡◌, ◌≢◌, ◌⊎◌, ltb→lt, refl, sym, ap, ◌∙◌, false, [], ◌∷◌, Option, none,
  some, arith, ltb, ◌==◌, length, set, length-set, Bool-cases, Option-cases, inl, inr, ==_iff,
}
use mathlib.Core.Bool.{false≢true}
use quicks_qcc.Intern.{Entry, Slots, probe, put, reinsert}
use quicks_qcc.Intern.Probe.{slot, slot-set_self, Ends-match, is_used, used, probe-Ends}
use quicks_qcc.Intern.Table.{
  EndsAt, IsTable, IsTable-one, is_match→eq, slot-filled, slot-kept, set-IsTable, used-set,
}

-- The new slots hold the entries of the first `n` old ones, and no others.
pub record IsCopy (old : Slots) (n : ℕ) (new : Slots) : Type 0 where
  pub from : (j : ℕ) (e : Entry) → slot new j ≡ some e → (i : ℕ) × (i < n) × (slot old i ≡ some e)
  pub to : (i : ℕ) (e : Entry) → i < n → slot old i ≡ some e → (j : ℕ) × (slot new j ≡ some e)

-- The new slots behind the loop
pub record IsGrown (old new grown : Slots) (n : ℕ) : Type 0 where
  pub table : IsTable grown
  pub from : (j : ℕ) (e : Entry) → slot grown j ≡ some e → (i : ℕ) × (slot old i ≡ some e)
  pub to : (i : ℕ) (e : Entry) → slot old i ≡ some e → (j : ℕ) × (slot grown j ≡ some e)
  pub extent : length grown ≡ length new
  pub number : used grown ≡ n

-- The next old entry is not in the new slots yet.
not_yet :
    (old new : Slots) (n j : ℕ) (e s : Entry)
    → IsTable old
    → IsCopy old n new
    → slot old n ≡ some e
    → slot new j ≡ some s
    → s.bytes ≢ e.bytes
not_yet old new n j e s t c f g same =
    let there : (i : ℕ) × (i < n) × (slot old i ≡ some s) = c.from j s g in
    absurd (omega (arith, there.1, IsTable-one t there.0 n s e there.2 f same))

-- One step of the loop: the entry goes into an empty slot.
step-IsCopy :
    (old new : Slots) (n j : ℕ) (e : Entry)
    → IsTable old
    → IsTable new
    → IsCopy old n new
    → slot old n ≡ some e
    → j < length new
    → EndsAt new e.bytes e.hash j
    → IsTable (set new j (some e))
      × IsCopy old (suc n) (set new j (some e))
      × (used (set new j (some e)) ≡ suc (used new))
step-IsCopy old new n j e t u c f l x = go (Option-cases (slot new j))
  where
    go :
        (slot new j ≡ none) ⊎ ((s : Entry) × (slot new j ≡ some s))
        → IsTable (set new j (some e))
          × IsCopy old (suc n) (set new j (some e))
          × (used (set new j (some e)) ≡ suc (used new))
    go (inr (s, g)) =
        absurd (not_yet old new n j e s t c f g (is_match→eq e.bytes e.hash s (Ends-match g x)).1)
    go (inl free) = (
      set-IsTable j e u l free (t.hashed n e f) x,
      record {
        from = λ i e' g. elim (slot-filled new j e i e' l g) [
          | inl (same, entry) ↦ (n, omega arith, f ∙ ap some (sym entry))
          | inr kept ↦
              (let there : (i : ℕ) × (i < n) × (slot old i ≡ some e') = c.from i e' kept in
                (there.0, omega (arith, there.1), there.2))
        ];
        to = λ i e' k g. elim (Bool-cases (n == i)) [
          | inl same ↦
              (j, slot-set_self new j (some e) l ∙ sym f ∙ ap (slot old) ((==_iff n i).0 same) ∙ g)
          | inr other ↦
              (let there : (j' : ℕ) × (slot new j' ≡ some e') = c.to i e' (earlier i k other) g in
                (there.0, slot-kept new j e there.0 e' free there.1))
        ];
      },
      used-set new j e l free,
    )
      where
        earlier : (i : ℕ) → i < suc n → (n == i) ≡ false → i < n
        earlier i k other = ground arith

pub reinsert-IsGrown :
    (old new rest : Slots) (n : ℕ)
    → IsTable old
    → IsTable new
    → IsCopy old n new
    → ((i : ℕ) → slot rest i ≡ slot old (n + i))
    → used new + used rest < length new
    → IsGrown old new (reinsert new rest) (used new + used rest)
unfolding reinsert used
reinsert-IsGrown old new [] n t u c same room = record {
  table = u;
  from = λ j e f.
      (let there : (i : ℕ) × (i < n) × (slot old i ≡ some e) = c.from j e f in (there.0, there.2));
  to = λ i e f. c.to i e (within i e f) f;
  extent = refl;
  number = omega arith;
}
  where
    within : (i : ℕ) (e : Entry) → slot old i ≡ some e → i < n
    within i e f = elim (Bool-cases (ltb i n)) [
      | inl less ↦ ltb→lt i n less
      | inr more ↦
          let behind : n + (i - n) ≡ i = ground arith in
          absurd (false≢true (ap is_used (same (i - n) ∙ ap (slot old) behind ∙ f)))
    ]
reinsert-IsGrown old new (none ∷ rest) n t u c same room =
    reinsert-IsGrown old new rest (suc n) t u
      record {
        from = λ j e f.
            (let there : (i : ℕ) × (i < n) × (slot old i ≡ some e) = c.from j e f in
              (there.0, omega (arith, there.1), there.2));
        to = λ i e k f. c.to i e (earlier i e k f) f;
      }
      (λ i. same (suc i) ∙ ap (slot old) (omega arith)) room
  where
    earlier : (i : ℕ) (e : Entry) → i < suc n → slot old i ≡ some e → i < n
    earlier i e k f = elim (Bool-cases (n == i)) [
      | inl here ↦
          let at_n : n + 0 ≡ i = omega (arith, (==_iff n i).0 here) in
          absurd (false≢true (ap is_used (same 0 ∙ ap (slot old) at_n ∙ f)))
      | inr other ↦ ground arith
    ]
reinsert-IsGrown old new (some e ∷ rest) n t u c same room =
    let there : Place = probe-Ends u.power.0 new e.bytes e.hash u.power.1 (omega (arith, room)) in
    let next : Slots = set new there.0 (some e) in
    let put_there : put (probe new e.bytes e.hash) new e ≡ next =
      ap (λ (o : Option ℕ). put o new e) there.2 in
    let step : IsTable next × IsCopy old (suc n) next × (used next ≡ suc (used new)) =
      step-IsCopy old new n there.0 e t u c (sym (same 0 ∙ ap (slot old) at_n)) there.1 there.3 in
    let extent : length next ≡ length new = length-set new there.0 (some e) in
    let others : IsGrown old next (reinsert next rest) (used next + used rest) =
      reinsert-IsGrown old next rest (suc n) t step.0 step.1
        (λ i. same (suc i) ∙ ap (slot old) (omega arith)) (omega (arith, room, step.2, extent)) in
    rw put_there record {
      table = others.table;
      from = others.from;
      to = others.to;
      extent = others.extent ∙ extent;
      number = omega (arith, others.number, step.2);
    }
  where
    at_n : n + 0 ≡ n
    at_n = omega arith

    Place : Type 0
    Place =
        (j : ℕ) × (j < length new)
        × (probe new e.bytes e.hash ≡ some j)
        × EndsAt new e.bytes e.hash j
