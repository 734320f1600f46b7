-- ===== src/Arena/Alloc.antt =====
-- What the arena promises of an allocation.
use quicks_qcc.Prelude.{
  ℕ, ◌+◌, ◌-◌, ◌%◌, ◌^◌, ◌<◌, ◌≤◌, ◌≡◌, refl, ◌||◌, Option, none, some, List, [], ◌∷◌, ltb, arith,
  Bool-cases, inl, inr,
}
use quicks_qcc.Prelude.Word.{u64}
use quicks_qcc.Arena.{Block, Arena, place, block_try_alloc, advance, try_blocks, try_head}
use quicks_qcc.Arena.Align.{AlignedUp, aligned, beyond, align_up-AlignedUp}

-- A block whose cursor lies within its capacity and whose payload ends below 2 ^ 64
pub record IsBlock (b : Block) : Type 0 where
  pub used_le : b.used ≤ b.capacity
  pub ends : b.data_of + b.capacity < 2 ^ 64

-- An allocation of `bump` bytes at `p` from the block `b`, which becomes `b'`: it is aligned and
-- lies in the payload, between the old cursor and the new one.
pub record IsPlaced (b : Block) (bump align p : ℕ) (b' : Block) (taken : ℕ) : Type 0 where
  pub aligned_at : p % align ≡ 0
  pub behind_cursor : b.data_of + b.used ≤ p
  pub up_to_cursor : p + bump ≡ b'.data_of + b'.used
  pub same_data : b'.data_of ≡ b.data_of
  pub same_capacity : b'.capacity ≡ b.capacity
  pub within : b'.used ≤ b'.capacity
  pub account : b'.used ≡ b.used + taken

pub data Tried (b : Block) (bump align : ℕ) : Option (ℕ × Block × ℕ) → Type 0 where
  placed :
      {p taken : ℕ} {b' : Block}
      → IsPlaced b bump align p b' taken
      → Tried b bump align (some (p, b', taken))
  full : b.capacity < b.used + bump + (align - 1) → Tried b bump align none

place-Tried :
    (b : Block) (bump align r : ℕ)
    → IsBlock b
    → b.data_of + b.used ≤ r
    → r < b.data_of + b.used + align
    → r % align ≡ 0
    → Tried b bump align (place b bump (b.data_of + b.used) r)
unfolding place
place-Tried b bump align r h lo hi m =
    let used_le = h.used_le in
    elim (Bool-cases (
      ltb (b.capacity - b.used) (r - (b.data_of + b.used))
      || ltb (b.capacity - b.used - (r - (b.data_of + b.used))) bump)) [
        | inl e ↦ rw e (full (ground arith))
        | inr e ↦ rw e (
            placed (record {
              aligned_at = m;
              behind_cursor = lo;
              up_to_cursor = omega arith;
              same_data = refl;
              same_capacity = refl;
              within = ground arith;
              account = refl;
            }))
      ]

block_try_alloc-Tried :
    (k : ℕ) (b : Block) (bump : ℕ)
    → k < 64
    → IsBlock b
    → 1 ≤ bump
    → Tried b bump (2 ^ k) (block_try_alloc b bump (2 ^ k))
unfolding block_try_alloc
block_try_alloc-Tried k b bump hk h hb =
    go (align_up-AlignedUp k (b.data_of + b.used) hk (omega (arith, h.used_le, h.ends)))
  where
    go :
        {o : Option ℕ}
        → AlignedUp (b.data_of + b.used) (2 ^ k) o
        → Tried b bump (2 ^ k) (elim o as (λ x. Option (ℕ × Block × ℕ)) [
          | none ↦ none
          | some r ↦ place b bump (b.data_of + b.used) r
        ])
    go (aligned {r} lo hi m) = place-Tried b bump (2 ^ k) r h lo hi m
    go (beyond far) = full (omega (arith, h.ends))

-- Every block of the chain
abbrev pub AllBlocks : List Block → Type 0
AllBlocks [] = Unit
AllBlocks (b ∷ bs) = IsBlock b × AllBlocks bs

-- What an allocation of `bump` bytes returns: the null pointer, with the arena as it was; or an
-- address in the head block, which is the old head or one that was pushed in front of the old
-- blocks. The other blocks are as they were.
pub data Allocated (a : Arena) (bump align : ℕ) : Option ℕ × Arena → Type 0 where
  null : Allocated a bump align (none, a)
  from_head :
      {p taken : ℕ} {b b' : Block} {older : List Block} {next : Arena}
      → a.blocks ≡ b ∷ older
      → IsPlaced b bump align p b' taken
      → next.blocks ≡ b' ∷ older
      → next.bytes_used ≡ u64 (a.bytes_used + taken)
      → AllBlocks next.blocks
      → Allocated a bump align (some p, next)
  from_fresh :
      {p taken : ℕ} {b b' : Block} {next : Arena}
      → b.used ≡ 0
      → IsPlaced b bump align p b' taken
      → next.blocks ≡ b' ∷ a.blocks
      → next.bytes_used ≡ u64 (a.bytes_used + taken)
      → AllBlocks next.blocks
      → Allocated a bump align (some p, next)

placed-IsBlock :
    {b b' : Block} {bump align p taken : ℕ}
    → IsBlock b
    → IsPlaced b bump align p b' taken
    → IsBlock b'
placed-IsBlock h q = record {
  used_le = q.within;
  ends = omega (arith, h.ends, q.same_data, q.same_capacity);
}

-- The outcome of trying the head block
pub data HeadTried (a : Arena) (bump align : ℕ) : Option (ℕ × Arena) → Type 0 where
  no_block : a.blocks ≡ [] → HeadTried a bump align none
  head_full :
      {b : Block} {older : List Block}
      → a.blocks ≡ b ∷ older
      → b.capacity < b.used + bump + (align - 1)
      → HeadTried a bump align none
  head_placed :
      {p taken : ℕ} {b b' : Block} {older : List Block} {next : Arena}
      → a.blocks ≡ b ∷ older
      → IsPlaced b bump align p b' taken
      → next.blocks ≡ b' ∷ older
      → next.bytes_used ≡ u64 (a.bytes_used + taken)
      → AllBlocks next.blocks
      → HeadTried a bump align (some (p, next))

pub try_head-HeadTried :
    (k : ℕ) (a : Arena) (bump : ℕ)
    → k < 64
    → AllBlocks a.blocks
    → 1 ≤ bump
    → HeadTried a bump (2 ^ k) (try_head a bump (2 ^ k))
unfolding try_head try_blocks advance
try_head-HeadTried k a bump hk h hb = go a.blocks refl h
  where
    attempt :
        (b : Block) (older : List Block) {o : Option (ℕ × Block × ℕ)}
        → a.blocks ≡ b ∷ older
        → AllBlocks (b ∷ older)
        → Tried b bump (2 ^ k) o
        → HeadTried a bump (2 ^ k) (advance a older o)
    attempt b older q (hb, hs) (placed r) = head_placed q r refl refl (placed-IsBlock hb r, hs)
    attempt b older q (hb, hs) (full r) = head_full q r

    go :
        (bs : List Block)
        → a.blocks ≡ bs
        → AllBlocks bs
        → HeadTried a bump (2 ^ k) (try_blocks a bs bump (2 ^ k))
    go [] q h = no_block q
    go (b ∷ older) q h = attempt b older q h (block_try_alloc-Tried k b bump hk (h.0) hb)
