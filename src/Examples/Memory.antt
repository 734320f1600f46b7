-- ===== src/Examples/Memory.antt =====
-- The arena at concrete inputs.
use quicks_qcc.Prelude.{ℕ, ◌^◌, List, [], ◌∷◌, Option, none, some, ltb, if◌then◌else◌, ◌==◌, arith}
use quicks_qcc.Arena.{Block, Arena, alloc}
use quicks_qcc.Arena.Alloc.{Allocated}
use quicks_qcc.Arena.Fresh.{MallocFits, alloc-Allocated}

-- An allocator with one region of 2 ^ 40 bytes, from which it gives once
abbrev one_region : List Block → ℕ → Option ℕ
one_region [] n = if ltb n (2 ^ 40) then some 4096 else none
one_region (b ∷ bs) n = none

one_region_fits : MallocFits one_region
one_region_fits [] n p h = ground arith
one_region_fits (b ∷ bs) n p h = ground arith

abbrev empty_arena : Arena
empty_arena = record {
  blocks = [];
  block_size = 65536;
  bytes_used = 0;
  bytes_reserved = 0;
  block_count = 0;
}

alloc-Allocated_example :
    Allocated empty_arena
      (if 24 == 0 then 1 else 24)
      (if 8 == 0 then 16 else 8)
      (alloc 24 16 one_region empty_arena 24 8)
alloc-Allocated_example =
    alloc-Allocated 24 16 one_region one_region_fits empty_arena 24 8 tt (omega arith) (omega arith)
