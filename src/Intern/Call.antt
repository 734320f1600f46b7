-- ===== src/Intern/Call.antt =====
-- A call of `qcc_intern_bytes`: what it keeps and returns.
use quicks_qcc.Prelude.{
  ℕ, suc, ◌+◌, ◌*◌, ◌^◌, ◌<◌, ◌≡◌, refl, sym, ap, ◌∙◌, Bool, true, false, List, Option, none, some,
  arith, ltb, leb, if◌then◌else◌, length, replicate, length-replicate,
}
use native.Mathlib.Nat.{mod-eq_of_lt, pow-suc}
use mathlib.Core.Path.{subst}
use mathlib.Core.Option.{some-injective}
use quicks_qcc.Prelude.Word.{u64}
use quicks_qcc.Intern.{
  Entry, Slots, Intern, probe, reinsert, grow, fnv1a, is_full, stored, copied, grown, intern_bytes,
}
use quicks_qcc.Intern.Probe.{slot, Ends-match, used, probe-Ends}
use quicks_qcc.Intern.Table.{
  EndsAt, IsTable, is_match→eq, replicate-IsTable, slot-replicate, used-replicate,
}
use quicks_qcc.Intern.Growth.{IsCopy, IsGrown, reinsert-IsGrown}
use quicks_qcc.Intern.Stored.{IsIntern, IsCall, Absent, Absent-of, stored-IsCall, not_some}

doubled : (slots : Slots) → IsTable slots → IsTable (replicate (length slots * 2) none)
doubled slots t = rw power (replicate-IsTable (suc t.power.0))
  where
    power : length slots * 2 ≡ 2 ^ suc t.power.0
    power = omega (arith, t.power.1, pow-suc 2 t.power.0)

-- A call that changes nothing and returns the null pointer
nothing-IsCall : (t : Intern) (bytes : List ℕ) → IsIntern t → IsCall t bytes (none, t)
nothing-IsCall t bytes h = record {
  intern = h;
  kept = λ j e f. (j, f);
  result = λ str e. absurd (not_some e);
}

not_full : (t : Intern) → IsIntern t → is_full t ≡ false → used t.slots + 1 < length t.slots
unfolding is_full
not_full t h e =
    let load : u64 (length t.slots * 3) ≡ length t.slots * 3 =
      mod-eq_of_lt (omega (arith, h.small)) in
    let more : u64 ((t.count + 1) * 4) ≡ (t.count + 1) * 4 =
      mod-eq_of_lt (omega (arith, h.small, h.room, h.counted)) in
    let less : leb (length t.slots * 3) ((t.count + 1) * 4) ≡ false = rw (load, more) at e in
    let fewer : (t.count + 1) * 4 < length t.slots * 3 = ground arith in
    omega (arith, fewer, h.counted)

module _ (calloc arena : ℕ → Bool) (documented : (n : ℕ) → calloc n ≡ true → n * 24 < 2 ^ 64) where
  copied-IsCall :
      (t : Intern) (bytes : List ℕ)
      → IsIntern t
      → used t.slots + 1 < length t.slots
      → Absent t.slots bytes
      → IsCall t bytes (copied calloc arena t bytes)
  unfolding copied
  copied-IsCall t bytes h room absent = go (arena (length bytes + 1))
    where
      go : (c : Bool) → IsCall t bytes (if c then (some t.made, stored t bytes) else (none, t))
      go true = stored-IsCall t bytes h room absent
      go false = nothing-IsCall t bytes h

  -- The slots after the growth
  grow-IsGrown :
      (slots bigger : Slots)
      → IsTable slots
      → used slots < length slots
      → length slots * 24 < 2 ^ 64
      → grow calloc slots ≡ some bigger
      → IsGrown slots (replicate (length slots * 2) none) bigger (used slots)
        × (length slots * 2 * 24 < 2 ^ 64)
  unfolding grow
  grow-IsGrown slots bigger t room small e =
      go (ltb (length slots * 2) (length slots)) (calloc (length slots * 2)) refl (rw exact at e)
    where
      exact : u64 (length slots * 2) ≡ length slots * 2
      exact = mod-eq_of_lt (omega (arith, small))

      new : Slots
      new = replicate (length slots * 2) none

      nothing_yet : IsCopy slots 0 new
      nothing_yet = record {
        from = λ j s f. absurd (not_some (sym (slot-replicate (length slots * 2) j) ∙ f));
        to = λ i s k f. absurd (omega (arith, k));
      }

      copy : IsGrown slots new (reinsert new slots) (used slots)
      copy =
          let empty : used new ≡ 0 = used-replicate (length slots * 2) in
          let wider : length new ≡ length slots * 2 = length-replicate (length slots * 2) none in
          let raw : IsGrown slots new (reinsert new slots) (used new + used slots) =
            reinsert-IsGrown slots new slots 0 t (doubled slots t) nothing_yet
              (λ i. ap (slot slots) (omega arith)) (omega (arith, empty, wider, room)) in
          record {
            table = raw.table;
            from = raw.from;
            to = raw.to;
            extent = raw.extent;
            number = omega (arith, raw.number, empty);
          }

      go :
          (c d : Bool)
          → calloc (length slots * 2) ≡ d
          → (if c then none else if d then some (reinsert new slots) else none) ≡ some bigger
          → IsGrown slots new bigger (used slots) × (length slots * 2 * 24 < 2 ^ 64)
      go true d f k = absurd (not_some k)
      go false false f k = absurd (not_some k)
      go false true f k = (
        subst (λ (g : Slots). IsGrown slots new g (used slots))
            (some-injective (reinsert new slots) bigger k) copy,
        documented (length slots * 2) f,
      )

  grown-IsCall :
      (t : Intern) (bytes : List ℕ)
      → IsIntern t
      → Absent t.slots bytes
      → IsCall t bytes (grown calloc arena t bytes (grow calloc t.slots))
  unfolding grown Absent
  grown-IsCall t bytes h absent = go (grow calloc t.slots) refl
    where
      go :
          (o : Option Slots)
          → grow calloc t.slots ≡ o
          → IsCall t bytes (grown calloc arena t bytes o)
      go none e = nothing-IsCall t bytes h
      go (some slots) e =
          let g : IsGrown t.slots (replicate (length t.slots * 2) none) slots (used t.slots)
              × (length t.slots * 2 * 24 < 2 ^ 64) =
            grow-IsGrown t.slots slots h.table h.room h.small e in
          let wider : length slots ≡ length t.slots * 2 =
            g.0.extent ∙ length-replicate (length t.slots * 2) none in
          let big : IsIntern (record t { slots = slots }) = record {
            table = g.0.table;
            counted = h.counted ∙ sym g.0.number;
            room = omega (arith, g.0.number, h.room, wider);
            small = omega (arith, g.1, wider);
            fresh = λ j s f. h.fresh (g.0.from j s f).0 s (g.0.from j s f).1;
            one_string = λ i j s s' f f' k.
                h.one_string (g.0.from i s f).0 (g.0.from j s' f').0 s s' (g.0.from i s f).1
                  (g.0.from j s' f').1 k;
          } in
          let call : IsCall (record t { slots = slots }) bytes
              (copied calloc arena (record t { slots = slots }) bytes) =
            copied-IsCall (record t { slots = slots }) bytes big
              (omega (arith, g.0.number, h.room, wider))
              (λ i s f. absent (g.0.from i s f).0 s (g.0.from i s f).1) in
          record {
            intern = call.intern;
            kept = λ j s f. call.kept (g.0.to j s f).0 s (g.0.to j s f).1;
            result = call.result;
          }

  -- A call keeps the interner, what it holds, and returns the address of the string.
  pub intern_bytes-IsCall :
      (t : Intern) (bytes : List ℕ)
      → IsIntern t
      → IsCall t bytes (intern_bytes calloc arena t bytes)
  unfolding intern_bytes
  intern_bytes-IsCall t bytes h =
      rw (intern_bytes, there.2) (go (slot t.slots there.0) refl (is_full t) refl)
    where
      Place : Type 0
      Place =
          (j : ℕ) × (j < length t.slots)
          × (probe t.slots bytes (fnv1a bytes) ≡ some j)
          × EndsAt t.slots bytes (fnv1a bytes) j

      there : Place
      there = probe-Ends h.table.power.0 t.slots bytes (fnv1a bytes) h.table.power.1 h.room

      go :
          (o : Option Entry)
          → slot t.slots there.0 ≡ o
          → (full : Bool) → is_full t ≡ full
          → IsCall t bytes
              (elim (elim o as (λ x. Option ℕ) [ none ↦ none | some e ↦ some e.str ])
                as (λ x. Option ℕ × Intern) [
                  | some str ↦ (some str, t)
                  | none ↦
                      if full
                      then grown calloc arena t bytes (grow calloc t.slots)
                      else copied calloc arena t bytes
                ])
      go (some e) f full b = record {
        intern = h;
        kept = λ j s g. (j, g);
        result = λ str g. record {
          place = there.0;
          entry = e;
          there = f;
          same_bytes = (is_match→eq bytes (fnv1a bytes) e (Ends-match f there.3)).1;
          same_str = some-injective e.str str g;
        };
      }
      go none f true b = grown-IsCall t bytes h (Absent-of there.0 h.table there.3 f)
      go none f false b =
          copied-IsCall t bytes h (not_full t h b) (Absent-of there.0 h.table there.3 f)
