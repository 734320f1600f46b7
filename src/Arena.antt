-- ===== src/Arena.antt =====
-- src/arena/arena.c: the region allocator. An address is a number; a block is its payload's
-- address, its capacity and its cursor. The contents of the memory are not modelled.
pub mod Power
pub mod Align
pub mod Alloc
pub mod Fresh
use quicks_qcc.Prelude.{
  ℕ, ◌+◌, ◌-◌, ◌*◌, ◌/◌, ◌%◌, ◌^◌, Bool, true, false, not, ◌&&◌, ◌||◌, List, [], ◌∷◌, Option, none,
  some, bit_and, ltb, ◌==◌, if◌then◌else◌, max,
}
use quicks_qcc.Prelude.Word.{u64, not64}

-- `struct qcc_arena_block`; the block's `next` is the rest of the list that it stands in.
pub record Block : Type 0 where
  pub data_of : ℕ
  pub capacity : ℕ
  pub used : ℕ

-- `qcc_arena`; `blocks` is the chain from `head`.
pub record Arena : Type 0 where
  pub blocks : List Block
  pub block_size : ℕ
  pub bytes_used : ℕ
  pub bytes_reserved : ℕ
  pub block_count : ℕ

-- `is_power_of_two`
unfoldable pub is_power_of_two : ℕ → Bool
is_power_of_two value = not (value == 0) && (bit_and value (value - 1) == 0)

-- `align_up_uintptr`
unfoldable pub align_up_uintptr : ℕ → ℕ → Option ℕ
align_up_uintptr value align =
    let mask = align - 1 in
    if ltb (2 ^ 64 - 1 - mask) value then none else some (bit_and (u64 (value + mask)) (not64 mask))

-- `block_try_alloc`, once the address is aligned: the address, the block, and the bytes taken
unfoldable pub place : Block → ℕ → ℕ → ℕ → Option (ℕ × Block × ℕ)
place block bump base aligned =
    let pad = aligned - base in
    let avail = block.capacity - block.used in
    if ltb avail pad || ltb (avail - pad) bump
    then none
    else some (aligned, record block { used = block.used + (pad + bump) }, pad + bump)

-- `block_try_alloc`
unfoldable pub block_try_alloc : Block → ℕ → ℕ → Option (ℕ × Block × ℕ)
unfolding place align_up_uintptr
block_try_alloc block bump align =
    let base = block.data_of + block.used in
    elim (align_up_uintptr base align) [
      | none ↦ none
      | some aligned ↦ place block bump base aligned
    ]

-- `QCC_ARENA_DEFAULT_BLOCK_SIZE`
abbrev pub default_block_size : ℕ
default_block_size = 65536

-- The capacity of a new block in `grow`, unless it overflows; `header` is the size of the block's
-- header.
unfoldable pub block_capacity : ℕ → ℕ → ℕ → ℕ → Option ℕ
block_capacity header block_size bump align =
    let worst_pad = align - 1 in
    let needed = bump + worst_pad in
    let capacity = if ltb block_size needed then needed else block_size in
    if ltb (2 ^ 64 - 1 - worst_pad) bump || ltb (2 ^ 64 - 1 - header) capacity
    then none
    else some capacity

-- `qcc_arena_init` on an arena
unfoldable pub init : ℕ → Arena
init block_size = record {
  blocks = [];
  block_size = if block_size == 0 then default_block_size else block_size;
  bytes_used = 0;
  bytes_reserved = 0;
  block_count = 0;
}

-- `qcc_arena_reset`: every block is freed.
unfoldable pub reset : Arena → Arena
reset arena = record arena { blocks = []; bytes_used = 0; bytes_reserved = 0; block_count = 0 }

-- `qcc_arena_dispose`
unfoldable pub dispose : Arena → Arena
unfolding reset
dispose arena = record (reset arena) { block_size = 0 }

-- What is left of an arena after an attempt at its head block, the blocks behind it being `older`
unfoldable pub advance : Arena → List Block → Option (ℕ × Block × ℕ) → Option (ℕ × Arena)
advance arena older none = none
advance arena older (some (p, advanced, taken)) =
    some
      (p, record arena { blocks = advanced ∷ older; bytes_used = u64 (arena.bytes_used + taken) })

-- The attempt at the blocks of an arena
unfoldable pub try_blocks : Arena → List Block → ℕ → ℕ → Option (ℕ × Arena)
unfolding advance
try_blocks arena [] bump align = none
try_blocks arena (block ∷ older) bump align = advance arena older (block_try_alloc block bump align)

-- An allocation from the head block, and the arena with that block's cursor advanced
unfoldable pub try_head : Arena → ℕ → ℕ → Option (ℕ × Arena)
unfolding try_blocks
try_head arena bump align = try_blocks arena arena.blocks bump align

-- `header` is `sizeof(qcc_arena_block)`, `default_align` is `QCC_ARENA_DEFAULT_ALIGN`, and
-- `malloc blocks n` is the address that `malloc` returns for `n` bytes while the arena holds
-- `blocks`, if it returns one.
module _ (header default_align : ℕ) (malloc : List Block → ℕ → Option ℕ) where
  -- The end of `grow`: the block that `malloc` gave becomes the head.
  unfoldable pub pushed : Arena → ℕ → ℕ → Arena
  pushed arena capacity p = record arena {
    blocks = record { data_of = p + header; capacity = capacity; used = 0 } ∷ arena.blocks;
    bytes_reserved = u64 (arena.bytes_reserved + capacity);
    block_count = u64 (arena.block_count + 1);
  }

  -- `grow` once the capacity is computed
  unfoldable pub grow_to : Arena → Option ℕ → Option Arena
  unfolding pushed
  grow_to arena none = none
  grow_to arena (some capacity) = elim (malloc arena.blocks (header + capacity)) [
    | none ↦ none
    | some p ↦ some (pushed arena capacity p)
  ]

  -- `grow`
  unfoldable pub grow : Arena → ℕ → ℕ → Option Arena
  unfolding grow_to
  grow arena bump align = grow_to arena (block_capacity header arena.block_size bump align)

  -- The second half of `qcc_arena_alloc`: the attempt at what `grow` returned
  unfoldable pub retry : Arena → Option Arena → ℕ → ℕ → Option ℕ × Arena
  unfolding try_head
  retry arena none bump align = (none, arena)
  retry arena (some grown) bump align = elim (try_head grown bump align) [
    | none ↦ (none, grown)
    | some (p, next) ↦ (some p, next)
  ]

  -- `qcc_arena_alloc` from the attempt at the head on
  unfoldable pub alloc_from : Arena → Option (ℕ × Arena) → ℕ → ℕ → Option ℕ × Arena
  unfolding retry grow
  alloc_from arena (some (p, next)) bump align = (some p, next)
  alloc_from arena none bump align = retry arena (grow arena bump align) bump align

  -- `qcc_arena_alloc`: the address, or nothing for the null pointer, and the arena
  unfoldable pub alloc : Arena → ℕ → ℕ → Option ℕ × Arena
  unfolding alloc_from is_power_of_two
  alloc arena size align =
      let align' = if align == 0 then default_align else align in
      let bump = if size == 0 then 1 else size in
      if is_power_of_two align'
      then alloc_from arena (try_head arena bump align') bump align'
      else (none, arena)

  -- `qcc_arena_calloc`, whose bytes are set to 0
  unfoldable pub calloc : Arena → ℕ → ℕ → ℕ → Option ℕ × Arena
  unfolding alloc
  calloc arena count size align =
      if (count == 0) || (size == 0)
      then alloc arena 0 align
      else if ltb ((2 ^ 64 - 1) / count) size
      then (none, arena)
      else alloc arena (u64 (count * size)) align
