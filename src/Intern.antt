-- ===== src/Intern.antt =====
-- src/intern/intern.c: interned names. A string is an address with the bytes there; `made` counts the
-- copies in the arena, whose addresses differ. `calloc` tells whether so many slots can be had,
-- `arena` whether so many bytes can. The capacity `bucket_count` is the length of the slots.
pub mod Probe
pub mod Table
pub mod Growth
pub mod Stored
pub mod Call
pub mod Unique
use quicks_qcc.Prelude.{
  ℕ, zero, suc, ◌+◌, ◌-◌, ◌*◌, ◌%◌, ◌^◌, bit_and, bit_xor, Bool, true, false, ◌&&◌, List, [], ◌∷◌,
  Option, none, some, ltb, leb, ◌==◌, if◌then◌else◌, length, get_or, set, replicate,
}
use quicks_qcc.Prelude.Word.{u64}

-- `qcc_intern_slot`, in use: `str`, the bytes there, whose number is `length`, and their hash
pub record Entry : Type 0 where
  pub str : ℕ
  pub bytes : List ℕ
  pub hash : ℕ

-- A slot, empty where `str` is null
abbrev pub Slots : Type 0
Slots = List (Option Entry)

-- `qcc_intern`
pub record Intern : Type 0 where
  pub slots : Slots
  pub count : ℕ
  pub made : ℕ

-- The loop of `fnv1a`
unfoldable pub fnv1a_from : ℕ → List ℕ → ℕ
fnv1a_from hash [] = hash
fnv1a_from hash (b ∷ bs) = fnv1a_from (u64 (bit_xor hash b * 1099511628211)) bs

-- `fnv1a`
unfoldable pub fnv1a : List ℕ → ℕ
unfolding fnv1a_from
fnv1a bytes = fnv1a_from 1469598103934665603 bytes

-- Equal lengths, and `memcmp`
abbrev pub same_bytes : List ℕ → List ℕ → Bool
same_bytes [] [] = true
same_bytes [] (d ∷ ds) = false
same_bytes (c ∷ cs) [] = false
same_bytes (c ∷ cs) (d ∷ ds) = (c == d) && same_bytes cs ds

-- Whether a slot in use has the bytes looked for
abbrev pub is_match : List ℕ → ℕ → Entry → Bool
is_match bytes hash e = (e.hash == hash) && same_bytes e.bytes bytes

-- `& mask`
unfoldable pub wrapped : ℕ → ℕ → ℕ
wrapped buckets i = bit_and i (buckets - 1)

-- The loop of `probe` from index `i` on, on fuel
unfoldable pub probe_from : ℕ → Slots → List ℕ → ℕ → ℕ → Option ℕ
unfolding wrapped
probe_from zero slots bytes hash i = none
probe_from (suc fuel) slots bytes hash i =
    let next = probe_from fuel slots bytes hash (wrapped (length slots) (i + 1)) in
    elim (get_or slots i none) [
      | none ↦ some i
      | some e ↦ if is_match bytes hash e then some i else next
    ]

-- `probe`: as many steps as there are slots are enough where one of them is empty.
unfoldable pub probe : Slots → List ℕ → ℕ → Option ℕ
unfolding probe_from
probe slots bytes hash = probe_from (length slots) slots bytes hash (wrapped (length slots) hash)

-- What is written to the slot that a probe returned
abbrev pub put : Option ℕ → Slots → Entry → Slots
put none slots e = slots
put (some j) slots e = set slots j (some e)

-- The loop of `grow` over the old slots
unfoldable pub reinsert : Slots → Slots → Slots
unfolding probe
reinsert new [] = new
reinsert new (none ∷ old) = reinsert new old
reinsert new (some e ∷ old) = reinsert (put (probe new e.bytes e.hash) new e) old

-- `grow`
unfoldable pub grow : (ℕ → Bool) → Slots → Option Slots
unfolding reinsert
grow calloc slots =
    let buckets = u64 (length slots * 2) in
    if ltb buckets (length slots)
    then none
    else if calloc buckets
    then some (reinsert (replicate buckets none) slots)
    else none

-- `QCC_INTERN_INITIAL_BUCKETS`
abbrev pub initial_buckets : ℕ
initial_buckets = 64

-- `qcc_intern_init`, where the memory could be had
unfoldable pub init : Intern
init = record { slots = replicate initial_buckets none; count = 0; made = 0 }

-- The test in front of an insertion: whether it would exceed the load factor
unfoldable pub is_full : Intern → Bool
is_full t = leb (u64 (length t.slots * 3)) (u64 ((t.count + 1) * 4))

-- The string at an index, null where the slot is empty
abbrev pub str_at : Slots → Option ℕ → Option ℕ
str_at slots none = none
str_at slots (some i) = elim (get_or slots i none) [ none ↦ none | some e ↦ some e.str ]

-- The table with a string in the slot found for it
unfoldable pub stored : Intern → List ℕ → Intern
unfolding probe fnv1a
stored t bytes =
    let e : Entry = record { str = t.made; bytes = bytes; hash = fnv1a bytes } in
    record {
      slots = put (probe t.slots bytes (fnv1a bytes)) t.slots e;
      count = t.count + 1;
      made = t.made + 1;
    }

module _ (calloc arena : ℕ → Bool) where
  -- The end of `qcc_intern_bytes`: the copy of the string, if the arena has room
  unfoldable pub copied : Intern → List ℕ → Option ℕ × Intern
  unfolding stored
  copied t bytes = if arena (length bytes + 1) then (some t.made, stored t bytes) else (none, t)

  -- The end of `qcc_intern_bytes` behind the growth, where memory for that could be had
  unfoldable pub grown : Intern → List ℕ → Option Slots → Option ℕ × Intern
  unfolding copied
  grown t bytes none = (none, t)
  grown t bytes (some slots) = copied (record t { slots = slots }) bytes

  -- `qcc_intern_bytes`: the address, or none for the null pointer
  unfoldable pub intern_bytes : Intern → List ℕ → Option ℕ × Intern
  unfolding grown is_full grow
  intern_bytes t bytes = elim (str_at t.slots (probe t.slots bytes (fnv1a bytes))) [
    | some str ↦ (some str, t)
    | none ↦ if is_full t then grown t bytes (grow calloc t.slots) else copied t bytes
  ]

-- `qcc_intern_count`
unfoldable pub intern_count : Intern → ℕ
intern_count t = t.count
