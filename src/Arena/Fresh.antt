-- ===== src/Arena/Fresh.antt =====
-- The allocator as a whole: an attempt at the head block, and growth.
use quicks_qcc.Prelude.{
  ℕ, ◌+◌, ◌-◌, ◌^◌, ◌<◌, ◌≤◌, ◌≡◌, refl, sym, ap, Bool, true, false, Option, none, some, List, [],
  ◌∷◌, ltb, arith, if◌then◌else◌, Bool-cases, inl, inr, ◌∙◌, ◌==◌, length,
}
use native.Mathlib.Nat.{pow-le-pow_right}
use quicks_qcc.Arena.{
  Block, Arena, is_power_of_two, block_capacity, pushed, grow, grow_to, retry, alloc_from, alloc,
}
use quicks_qcc.Arena.Power.{is_power_of_two_lem}
use quicks_qcc.Arena.Alloc.{
  IsBlock, AllBlocks, Allocated, null, from_head, from_fresh, HeadTried, no_block, head_full,
  head_placed, try_head-HeadTried,
}

-- What C promises of `malloc`: the object that it returns ends within the addresses.
abbrev pub MallocFits : (List Block → ℕ → Option ℕ) → Type 0
MallocFits malloc = (bs : List Block) (n p : ℕ) → malloc bs n ≡ some p → p + n < 2 ^ 64

-- A capacity that `grow` computes has room for the request at every padding.
data Roomy (bump align : ℕ) : Option ℕ → Type 0 where
  roomy : {c : ℕ} → bump + (align - 1) ≤ c → Roomy bump align (some c)
  overflow : Roomy bump align none

block_capacity-Roomy :
    (header size bump align : ℕ) → Roomy bump align (block_capacity header size bump align)
unfolding block_capacity
block_capacity-Roomy header size bump align = elim (Bool-cases (ltb size (bump + (align - 1)))) [
  | inl e ↦ rw e (choose _ (omega arith))
  | inr e ↦ rw e (choose _ (ground arith))
]
  where
    choose :
        {c : ℕ} (t : Bool) → bump + (align - 1) ≤ c → Roomy bump align (if t then none else some c)
    choose true h = overflow
    choose false h = roomy h

abbrev head_capacity : List Block → ℕ
head_capacity [] = 0
head_capacity (b ∷ bs) = b.capacity

abbrev head_used : List Block → ℕ
head_used [] = 0
head_used (b ∷ bs) = b.used

abbrev behind : List Block → List Block
behind [] = []
behind (b ∷ bs) = bs

module _ (header default_align : ℕ) (malloc : List Block → ℕ → Option ℕ)
    (fits : MallocFits malloc) where
  retry-Allocated :
      (k : ℕ) (a : Arena) (bump : ℕ) {o : Option ℕ}
      → k < 64
      → AllBlocks a.blocks
      → 1 ≤ bump
      → Roomy bump (2 ^ k) o
      → Allocated a bump (2 ^ k) (
          retry header default_align malloc a
            (grow_to header default_align malloc a o)
            bump
            (2 ^ k))
  unfolding retry grow_to pushed
  retry-Allocated k a bump hk h hb overflow = null
  retry-Allocated k a bump hk h hb (roomy {c} room) = go (malloc a.blocks (header + c)) refl
    where
      fresh : ℕ → Arena
      fresh p = pushed header default_align malloc a c p

      fresh-IsBlock :
          (p : ℕ)
          → malloc a.blocks (header + c) ≡ some p
          → IsBlock (record { data_of = p + header; capacity = c; used = 0 })
      fresh-IsBlock p e = record {
        used_le = omega arith;
        ends = omega (arith, fits a.blocks (header + c) p e);
      }

      result :
          (p : ℕ) {o : Option (ℕ × Arena)}
          → HeadTried (fresh p) bump (2 ^ k) o
          → Allocated a bump (2 ^ k) (elim o as (λ x. Option ℕ × Arena) [
            | none ↦ (none, fresh p)
            | some (q, next) ↦ (some q, next)
          ])
      result p (no_block q) = absurd (omega (arith, ap length q))
      result p (head_full {b} q less) =
          let capacity_is : c ≡ b.capacity = ap head_capacity q in
          let used_is : 0 ≡ b.used = ap head_used q in absurd (omega arith)
      result p (head_placed {b' = b'} q r s u w) =
          from_fresh (sym (ap head_used q)) r
            (s ∙ ap (λ (t : List Block). b' ∷ t) (sym (ap behind q))) u w

      go :
          (m : Option ℕ)
          → malloc a.blocks (header + c) ≡ m
          → Allocated a bump (2 ^ k) (
              retry header default_align malloc a
                (elim m as (λ x. Option Arena) [ none ↦ none | some p ↦ some (fresh p) ])
                bump
                (2 ^ k))
      go none e = null
      go (some p) e = result p (try_head-HeadTried k (fresh p) bump hk (fresh-IsBlock p e, h) hb)

  alloc_from-Allocated :
      (k : ℕ) (a : Arena) (bump : ℕ) {o : Option (ℕ × Arena)}
      → k < 64
      → AllBlocks a.blocks
      → 1 ≤ bump
      → HeadTried a bump (2 ^ k) o
      → Allocated a bump (2 ^ k) (alloc_from header default_align malloc a o bump (2 ^ k))
  unfolding alloc_from grow
  alloc_from-Allocated k a bump hk h hb (no_block q) =
      retry-Allocated k a bump hk h hb (block_capacity-Roomy header a.block_size bump (2 ^ k))
  alloc_from-Allocated k a bump hk h hb (head_full q less) =
      retry-Allocated k a bump hk h hb (block_capacity-Roomy header a.block_size bump (2 ^ k))
  alloc_from-Allocated k a bump hk h hb (head_placed q r s u w) = from_head q r s u w

  -- Where the blocks are well-formed and `malloc` keeps its promise, `qcc_arena_alloc` either
  -- returns the null pointer and leaves the arena as it was, or returns an address that is a
  -- multiple of the alignment (the default one for 0) whose bytes, at least one of them, lie in
  -- the head block's payload and behind all that was allocated from it before; a block is pushed
  -- at most, the others stay as they were, and all are well-formed again.
  pub alloc-Allocated :
      (a : Arena) (size align : ℕ)
      → AllBlocks a.blocks
      → align < 2 ^ 64
      → default_align < 2 ^ 64
      → Allocated a
          (if size == 0 then 1 else size)
          (if align == 0 then default_align else align)
          (alloc header default_align malloc a size align)
  unfolding alloc
  alloc-Allocated a size align h ha hd =
      let align' = if align == 0 then default_align else align in
      let bump = if size == 0 then 1 else size in
      elim (Bool-cases (is_power_of_two align')) [
        | inr e ↦ rw e null
        | inl e ↦
            let (k, q) = is_power_of_two_lem align' e in
            let small : 2 ^ k < 2 ^ 64 = ground arith in
            let hk : k < 64 = exponent k small in
            rw (e, q)
              (alloc_from-Allocated k a bump hk h (ground arith)
                (try_head-HeadTried k a bump hk h (ground arith)))
      ]
    where
      exponent : (k : ℕ) → 2 ^ k < 2 ^ 64 → k < 64
      exponent k h = elim (Bool-cases (ltb k 64)) [
        | inl e ↦ ground arith
        | inr e ↦
            let far : 64 ≤ k = ground arith in
            absurd (omega (arith, pow-le-pow_right {n = 2} (omega arith) {i = 64} {j = k} far))
      ]
