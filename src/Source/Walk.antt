-- ===== src/Source/Walk.antt =====
-- Locations against a walk over the bytes that counts lines and columns.
use quicks_qcc.Prelude.{
  ℕ, zero, suc, ◌+◌, ◌-◌, ◌*◌, ◌≤◌, ◌≡◌, refl, sym, ap, ◌∙◌, Bool, true, false, List, [], ◌∷◌,
  arith, length, get_or, leb, ◌==◌, if◌then◌else◌, some, take,
}
use quicks_qcc.Status.{Status, ok, err, After, After-imp, after, failed}
use quicks_qcc.Source.{
  Source, u32, clamp, location, search, newline_count, fill_starts, Buffer, build_line_starts,
  copied, from_memory,
}
use quicks_qcc.Source.Lines.{
  starts_after, fill_starts-starts_after, length-starts_after, starts_after-IsAscending,
  IsAscending, count_le, count_le-small, count_le-le, search-count_le,
}

-- The line and the column of the byte `n` bytes ahead
unfoldable pub walk : ℕ → ℕ → ℕ → List ℕ → ℕ × ℕ
walk line column zero bs = (line, column)
walk line column (suc n) [] = (line, column)
walk line column (suc n) (b ∷ bs) = elim (b == 10) [
  | true ↦ walk (line + 1) 1 n bs
  | false ↦ walk line (column + 1) n bs
]

pair : {a b c d : ℕ} → a ≡ b → c ≡ d → ◌≡◌ {A = ℕ × ℕ} (a, c) (b, d)
pair p q = rw (p, q) refl

-- From a line that starts at `s`, the walk counts the lines that start up to where it goes, and the
-- column is the distance to the last of them.
walk-count_le :
    (line s i n : ℕ) (bs : List ℕ)
    → s ≤ i
    → n ≤ length bs
    → walk line (i - s + 1) n bs ≡ (
      line + count_le (i + n) (starts_after i bs),
      i + n - get_or (s ∷ starts_after i bs) (count_le (i + n) (starts_after i bs)) 0 + 1,
    )
unfolding walk starts_after count_le
walk-count_le line s i zero bs lo h =
    let none_le : count_le (i + 0) (starts_after i bs) ≡ 0 =
      count_le-small (i + 0) (starts_after i bs) (omega arith) (starts_after-IsAscending i bs) in
    rw none_le (pair (omega arith) (omega arith))
walk-count_le line s i (suc n) [] lo h = absurd (omega arith)
walk-count_le line s i (suc n) (b ∷ bs) lo h =
    go (walk-count_le (line + 1) (i + 1) (i + 1) n bs (omega arith) (omega arith))
      (walk-count_le line s (i + 1) n bs (omega arith) (omega arith)) (b == 10)
  where
    At : ℕ → ℕ → ℕ × ℕ → Type 0
    At line' s' r = r ≡ (
      line' + count_le (i + 1 + n) (starts_after (i + 1) bs),
      i
          + 1
          + n
          - get_or (s' ∷ starts_after (i + 1) bs) (count_le (i + 1 + n) (starts_after (i + 1) bs)) 0
          + 1,
    )

    There : ℕ → Bool → ℕ × ℕ
    There e c =
        let zs = if c then (i + 1) ∷ starts_after (i + 1) bs else starts_after (i + 1) bs in
        (line + count_le e zs, e - get_or (s ∷ zs) (count_le e zs) 0 + 1)

    step : i + suc n ≡ i + 1 + n
    step = omega arith

    reached : leb (i + 1) (i + 1 + n) ≡ true
    reached = ground arith

    fresh : i + 1 - (i + 1) + 1 ≡ 1
    fresh = omega arith

    further : i + 1 - s + 1 ≡ i - s + 1 + 1
    further = omega arith

    go :
        At (line + 1) (i + 1) (walk (line + 1) (i + 1 - (i + 1) + 1) n bs)
        → At line s (walk line (i + 1 - s + 1) n bs)
        → (c : Bool)
        → (elim c as (λ x. ℕ × ℕ) [
          | true ↦ walk (line + 1) 1 n bs
          | false ↦ walk line (i - s + 1 + 1) n bs
        ])
          ≡ There (i + suc n) c
    go new same true =
        let there : walk (line + 1) (i + 1 - (i + 1) + 1) n bs ≡ There (i + 1 + n) true =
          rw reached (new ∙ pair (omega arith) refl) in
        ap (λ (k : ℕ). walk (line + 1) k n bs) (sym fresh)
        ∙ there
        ∙ ap (λ (e : ℕ). There e true) (sym step)
    go new same false =
        ap (λ (k : ℕ). walk line k n bs) (sym further)
        ∙ same
        ∙ ap (λ (e : ℕ). There e false) (sym step)

-- A source as `build_line_starts` leaves it
abbrev pub IsIndexed : Source → Type 0
IsIndexed src =
    (src.line_starts ≡ 0 ∷ starts_after 0 src.bytes)
    × (src.line_count ≡ newline_count src.bytes + 1)

-- Where it returns a source, `build_line_starts` has indexed it.
build_line_starts-IsIndexed :
    (malloc : Buffer → ℕ → Bool) (bs : List ℕ)
    → After (λ (src : Source). (src.bytes ≡ bs) × IsIndexed src) (build_line_starts malloc bs)
unfolding build_line_starts
build_line_starts-IsIndexed malloc bs = go (malloc Buffer.line_index ((newline_count bs + 1) * 8))
  where
    filled : fill_starts (newline_count bs + 1 - 1) 0 bs ≡ starts_after 0 bs
    filled = fill_starts-starts_after (newline_count bs + 1 - 1) 0 bs (omega arith)

    go :
        (c : Bool)
        → After
            (λ (src : Source). (src.bytes ≡ bs) × IsIndexed src)
            (if c
              then ok record {
                bytes = bs;
                line_starts = 0 ∷ fill_starts (newline_count bs + 1 - 1) 0 bs;
                line_count = newline_count bs + 1;
              }
              else err Status.out_of_memory)
    go true = after (refl, (ap (λ (t : List ℕ). 0 ∷ t) filled, refl))
    go false = failed

clamp-le : (size offset : ℕ) → clamp size offset ≤ size
unfolding clamp
clamp-le size offset = ground arith

-- The line that the search finds, and the start of it
pub search-walk :
    (bs : List ℕ) (offset : ℕ)
    → offset ≤ length bs
    → let lo =
        search (newline_count bs + 1) (0 ∷ starts_after 0 bs) offset 0 (newline_count bs + 1) in
      walk 1 1 offset bs ≡ (lo, offset - get_or (0 ∷ starts_after 0 bs) (lo - 1) 0 + 1)
unfolding count_le IsAscending
search-walk bs offset h = rw found (
    walk-count_le 1 0 0 offset bs (omega arith) h
    ∙ ap There same
    ∙ pair (omega arith) (ap column last))
  where
    There : ℕ → ℕ × ℕ
    There e = (
      1 + count_le e (starts_after 0 bs),
      e - get_or (0 ∷ starts_after 0 bs) (count_le e (starts_after 0 bs)) 0 + 1,
    )

    column : ℕ → ℕ
    column k = offset - get_or (0 ∷ starts_after 0 bs) k 0 + 1

    same : 0 + offset ≡ offset
    same = omega arith

    last : count_le offset (starts_after 0 bs) ≡ suc (count_le offset (starts_after 0 bs)) - 1
    last = omega arith

    first : count_le offset (0 ∷ starts_after 0 bs) ≡ suc (count_le offset (starts_after 0 bs))
    first = ground arith

    found :
        search (newline_count bs + 1) (0 ∷ starts_after 0 bs) offset 0 (newline_count bs + 1)
        ≡ suc (count_le offset (starts_after 0 bs))
    found =
        let counted : count_le offset (starts_after 0 bs) ≤ length (starts_after 0 bs) =
          count_le-le offset (starts_after 0 bs) in
        let indexed : length (starts_after 0 bs) ≡ newline_count bs = length-starts_after 0 bs in
        search-count_le 0 offset (0 ∷ starts_after 0 bs) (newline_count bs + 1) 0
          (newline_count bs + 1) (omega arith, starts_after-IsAscending 0 bs) (omega arith)
          (omega arith) (omega (arith, first)) (omega arith)
        ∙ first

-- Where the walk goes, for an offset past the end as for the end, as two `uint32_t`
abbrev pub walked : List ℕ → ℕ → ℕ × ℕ
walked bs offset = let there = walk 1 1 (clamp (length bs) offset) bs in (u32 there.0, u32 there.1)

location-walk :
    (src : Source) (offset : ℕ) → IsIndexed src → location src offset ≡ walked src.bytes offset
unfolding location
location-walk src offset (starts, count) =
    rw
      (
        starts,
        count,
        search-walk src.bytes (clamp (length src.bytes) offset)
            (clamp-le (length src.bytes) offset),
      )
      refl

copied-walked :
    (malloc : Buffer → ℕ → Bool) (name_length : ℕ) (bs : List ℕ)
    → After
        (λ (src : Source).
          (src.bytes ≡ bs) × ((offset : ℕ) → location src offset ≡ walked bs offset))
        (copied malloc name_length bs)
unfolding copied
copied-walked malloc name_length bs =
    go (malloc Buffer.name (name_length + 1)) (malloc Buffer.content (length bs + 1))
  where
    go :
        (c d : Bool)
        → After
            (λ (src : Source).
              (src.bytes ≡ bs) × ((offset : ℕ) → location src offset ≡ walked bs offset))
            (if c
              then (if d then build_line_starts malloc bs else err Status.out_of_memory)
              else err Status.out_of_memory)
    go false d = failed
    go true false = failed
    go true true = After-imp (build_line_starts-IsIndexed malloc bs) (λ src (same, indexed). (
      same,
      λ offset. location-walk src offset indexed ∙ ap (λ (t : List ℕ). walked t offset) same,
    ))

-- A source that `qcc_source_from_memory` makes holds the bytes given, and its locations are those of
-- a walk over the bytes that counts the newlines and restarts the column behind each: for every
-- offset, one past the end being the end, up to the conversion to `uint32_t`.
pub from_memory-location :
    (malloc : Buffer → ℕ → Bool) (name_length : ℕ) (bs : List ℕ) (size : ℕ)
    → After
        (λ (src : Source).
          (src.bytes ≡ take size bs)
          × ((offset : ℕ) → location src offset ≡ walked (take size bs) offset))
        (from_memory malloc name_length (some bs) size)
unfolding from_memory
from_memory-location malloc name_length bs size = copied-walked malloc name_length (take size bs)
