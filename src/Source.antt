-- ===== src/Source.antt =====
-- src/source/source.c: source buffers, the index of line starts, and locations. `malloc` tells
-- whether memory for a buffer of so many bytes can be had. The name is not part of the model; only
-- its length is, since the name is copied.
pub mod Lines
pub mod Walk
use quicks_qcc.Prelude.{
  ℕ, zero, suc, ◌+◌, ◌-◌, ◌*◌, ◌/◌, ◌%◌, ◌^◌, Bool, true, false, ◌&&◌, ◌||◌, List, [], ◌∷◌, Option,
  none, some, ltb, leb, ◌==◌, if◌then◌else◌, length, get_or, take,
}
use quicks_qcc.Status.{Status, Outcome, ok, err, ◌>>=◌}

-- `qcc_source` without its name; `size` is `length data`, and behind the data stands a 0.
pub record Source : Type 0 where
  pub bytes : List ℕ
  pub line_starts : List ℕ
  pub line_count : ℕ

-- The buffers that a source owns
pub data Buffer : Type 0 where
  name content line_index : Buffer

-- The first loop of `build_line_starts`
unfoldable pub newline_count : List ℕ → ℕ
newline_count [] = 0
newline_count (b ∷ bs) = let more = newline_count bs in if b == 10 then suc more else more

-- The second loop of `build_line_starts`, from offset `i` on, with so many entries left to fill
unfoldable pub fill_starts : ℕ → ℕ → List ℕ → List ℕ
fill_starts zero i bs = []
fill_starts (suc left) i [] = []
fill_starts (suc left) i (b ∷ bs) = elim (b == 10) [
  | true ↦ (i + 1) ∷ fill_starts left (i + 1) bs
  | false ↦ fill_starts (suc left) (i + 1) bs
]

module _ (malloc : Buffer → ℕ → Bool) where
  -- `build_line_starts`
  unfoldable pub build_line_starts : List ℕ → Outcome Source
  unfolding newline_count fill_starts
  build_line_starts bs =
      let count = newline_count bs + 1 in
      if malloc Buffer.line_index (count * 8)
      then ok
          record { bytes = bs; line_starts = 0 ∷ fill_starts (count - 1) 0 bs; line_count = count }
      else err Status.out_of_memory

  -- The copies that `qcc_source_from_memory` makes of the name and the content
  unfoldable pub copied : ℕ → List ℕ → Outcome Source
  unfolding build_line_starts
  copied name_length bs =
      if malloc Buffer.name (name_length + 1)
      then (if malloc Buffer.content (length bs + 1)
          then build_line_starts bs
          else err Status.out_of_memory)
      else err Status.out_of_memory

  -- `qcc_source_from_memory`: the length of the name that is copied, the bytes that the pointer
  -- leads to, or none for a null pointer, and how many of them are the content
  unfoldable pub from_memory : ℕ → Option (List ℕ) → ℕ → Outcome Source
  unfolding copied
  from_memory name_length none size =
      if size == 0 then copied name_length [] else err Status.invalid_argument
  from_memory name_length (some bs) size = copied name_length (take size bs)

-- The loop of `qcc_source_location`, on fuel: the first index in [lo, hi) whose line starts behind
-- the offset, or hi
unfoldable pub search : ℕ → List ℕ → ℕ → ℕ → ℕ → ℕ
search zero starts offset lo hi = lo
search (suc fuel) starts offset lo hi = elim (ltb lo hi) [
  | false ↦ lo
  | true ↦
      let mid = lo + (hi - lo) / 2 in
      elim (leb (get_or starts mid 0) offset) [
        | true ↦ search fuel starts offset (mid + 1) hi
        | false ↦ search fuel starts offset lo mid
      ]
]

-- `(uint32_t)n`
abbrev pub u32 : ℕ → ℕ
u32 n = n % 2 ^ 32

-- An offset past the end is the end.
unfoldable pub clamp : ℕ → ℕ → ℕ
clamp size offset = if ltb size offset then size else offset

-- `qcc_source_location`: the line and the column
unfoldable pub location : Source → ℕ → ℕ × ℕ
unfolding search clamp
location src offset =
    let off = clamp (length src.bytes) offset in
    let lo = search src.line_count src.line_starts off 0 src.line_count in
    (u32 lo, u32 (off - get_or src.line_starts (lo - 1) 0 + 1))

-- The loop of `qcc_source_line_text` that leaves out line terminators
unfoldable pub trim : List ℕ → ℕ → ℕ → ℕ
trim bs start zero = 0
trim bs start (suc n) =
    let last = get_or bs (start + n) 0 in
    let rest = trim bs start n in if (last == 10) || (last == 13) then rest else suc n

-- `qcc_source_line_text`: the offset of the line and its length
unfoldable pub line_text : Source → ℕ → Option (ℕ × ℕ)
unfolding trim
line_text src line =
    if ltb line 1 || ltb src.line_count line
    then none
    else (let start = get_or src.line_starts (line - 1) 0 in
        let end =
          if ltb line src.line_count then get_or src.line_starts line 0 else length src.bytes in
        some (start, trim src.bytes start (end - start)))
