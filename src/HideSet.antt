-- ===== src/HideSet.antt =====
-- src/pp/internal/hideset.c: hide sets (ISO C 6.10.3.4), the immutable lists of interned names that
-- keep a macro from being expanded again. A name is the address of its interned spelling, 0 the
-- null pointer. `alloc` stands for the arena: whether a cell can be had when the set that is built
-- has a given size.
pub mod Laws
use quicks_qcc.Prelude.{ℕ, ◌+◌, Bool, true, false, ◌||◌, List, [], ◌∷◌, ◌==◌, if◌then◌else◌}
use quicks_qcc.Status.{Status, Outcome, ok, err, ◌>>=◌}

-- `qcc_hideset_contains`
unfoldable pub contains : List ℕ → ℕ → Bool
contains [] name = false
contains (x ∷ set) name = (x == name) || contains set name

-- `qcc_hideset_size`, the counting loop
unfoldable pub size : List ℕ → ℕ
size [] = 0
size (x ∷ set) = size set + 1

module _ (alloc : List ℕ → Bool) where
  -- `qcc_hideset_add`; `alloc set` tells whether the arena has a cell in front of `set`.
  unfoldable pub add : List ℕ → ℕ → Outcome (List ℕ)
  unfolding contains
  add set name =
      if name == 0
      then err Status.invalid_argument
      else if contains set name
      then ok set
      else if alloc set
      then ok (name ∷ set)
      else err Status.out_of_memory

  -- `qcc_hideset_union`: the loop over `b`, from the result so far
  unfoldable pub union : List ℕ → List ℕ → Outcome (List ℕ)
  unfolding add
  union result [] = ok result
  union result (x ∷ b) = add result x >>= λ next. union next b

  -- The loop of `qcc_hideset_intersect` over `a`, from the result so far
  unfoldable pub intersect_from : List ℕ → List ℕ → List ℕ → Outcome (List ℕ)
  unfolding add
  intersect_from result [] b = ok result
  intersect_from result (x ∷ a) b =
      (if contains b x then add result x else ok result) >>= λ next. intersect_from next a b

  -- `qcc_hideset_intersect`
  unfoldable pub intersect : List ℕ → List ℕ → Outcome (List ℕ)
  unfolding intersect_from
  intersect a b = intersect_from [] a b
