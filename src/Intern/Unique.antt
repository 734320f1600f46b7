-- ===== src/Intern/Unique.antt =====
-- Interned strings: equal addresses are equal strings.
use quicks_qcc.Prelude.{ℕ, ◌*◌, ◌^◌, ◌<◌, ◌≡◌, ◌↔◌, sym, ap, ◌∙◌, Bool, true, List, some, arith}
use mathlib.Core.Option.{some-injective}
use quicks_qcc.Intern.{Entry, Intern, init, initial_buckets, intern_bytes}
use quicks_qcc.Intern.Probe.{slot}
use quicks_qcc.Intern.Table.{IsTable-one, replicate-IsTable, slot-replicate, used-replicate}
use quicks_qcc.Intern.Stored.{IsIntern, Holds, IsCall, not_some}
use quicks_qcc.Intern.Call.{intern_bytes-IsCall}

-- In one interner equal addresses are equal strings.
Holds-same :
    {t : Intern}
    → IsIntern t
    → (a b : List ℕ) (p q : ℕ) → Holds t.slots a p
    → Holds t.slots b q
    → (p ≡ q) ↔ (a ≡ b)
Holds-same {t} h a b p q x y = (to, from)
  where
    to : p ≡ q → a ≡ b
    to same =
        sym x.same_bytes
        ∙ h.one_string x.place y.place x.entry y.entry x.there y.there
            (x.same_str ∙ same ∙ sym y.same_str)
        ∙ y.same_bytes

    from : a ≡ b → p ≡ q
    from same =
        let place : x.place ≡ y.place =
          IsTable-one h.table x.place y.place x.entry y.entry x.there y.there
            (x.same_bytes ∙ same ∙ sym y.same_bytes) in
        let entry : x.entry ≡ y.entry =
          some-injective x.entry y.entry (sym x.there ∙ ap (slot t.slots) place ∙ y.there) in
        sym x.same_str ∙ ap (λ (e : Entry). e.str) entry ∙ y.same_str

init-IsIntern : IsIntern init
unfolding init
init-IsIntern = record {
  table = replicate-IsTable 6;
  counted = sym (used-replicate initial_buckets);
  room = omega (arith, used-replicate initial_buckets);
  small = omega arith;
  fresh = λ j e f. absurd (not_some (sym (slot-replicate initial_buckets j) ∙ f));
  one_string = λ i j e e' f g k. absurd (not_some (sym (slot-replicate initial_buckets i) ∙ f));
}

module _ (calloc arena : ℕ → Bool) (documented : (n : ℕ) → calloc n ≡ true → n * 24 < 2 ^ 64) where
  -- Calls, one after the other
  pub data Calls : Intern → Intern → Type 0 where
    done : {t : Intern} → Calls t t
    call :
        {t t' : Intern} (bytes : List ℕ)
        → Calls (intern_bytes calloc arena t bytes).1 t'
        → Calls t t'

  Calls-IsIntern :
      {t t' : Intern}
      → IsIntern t
      → Calls t t'
      → IsIntern t'
        × ((j : ℕ) (e : Entry) → slot t.slots j ≡ some e → (j' : ℕ) × (slot t'.slots j' ≡ some e))
  Calls-IsIntern h done = (h, λ j e f. (j, f))
  Calls-IsIntern {t} h (call bytes c) =
      let first : IsCall t bytes (intern_bytes calloc arena t bytes) =
        intern_bytes-IsCall calloc arena documented t bytes h in
      let rest : _ = Calls-IsIntern first.intern c in
      (rest.0, λ j e f. rest.1 (first.kept j e f).0 e (first.kept j e f).1)

  -- Two strings interned by any two calls, with any calls before and between them, have the same
  -- address just if they are the same string, where calloc gives no more than 2 ^ 64 bytes.
  pub Calls-same :
      {t t' : Intern} (a b : List ℕ) (p q : ℕ)
      → Calls init t
      → (intern_bytes calloc arena t a).0 ≡ some p
      → Calls (intern_bytes calloc arena t a).1 t'
      → (intern_bytes calloc arena t' b).0 ≡ some q
      → (p ≡ q) ↔ (a ≡ b)
  Calls-same {t} {t'} a b p q before e between f =
      let first : IsCall t a (intern_bytes calloc arena t a) =
        intern_bytes-IsCall calloc arena documented t a (Calls-IsIntern init-IsIntern before).0 in
      let meanwhile : _ = Calls-IsIntern first.intern between in
      let second : IsCall t' b (intern_bytes calloc arena t' b) =
        intern_bytes-IsCall calloc arena documented t' b meanwhile.0 in
      let of_a : Holds (intern_bytes calloc arena t a).1.slots a p = first.result p e in
      let later : _ = meanwhile.1 of_a.place of_a.entry of_a.there in
      let last : _ = second.kept later.0 of_a.entry later.1 in
      Holds-same second.intern a b p q
        record {
          place = last.0;
          entry = of_a.entry;
          there = last.1;
          same_bytes = of_a.same_bytes;
          same_str = of_a.same_str;
        }
        (second.result q f)
