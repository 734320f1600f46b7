-- ===== src/HideSet/Laws.antt =====
-- Hide sets as sets: membership after each operation, no duplicates, and the error paths.
use quicks_qcc.Prelude.{
  ◌∙◌, ==_iff, ℕ, ◌≡◌, refl, ◌≢◌, Bool, true, false, ◌||◌, ◌&&◌, List, [], ◌∷◌, ◌==◌, arith,
  Bool-cases, inl, inr,
}
use quicks_qcc.Status.{Status, Outcome, ok, err, ◌>>=◌}
use quicks_qcc.HideSet.{contains, add, union, intersect_from, intersect}

-- No name occurs twice, and none is null.
abbrev pub IsHideSet : List ℕ → Type 0
IsHideSet [] = Unit
IsHideSet (x ∷ s) = (x ≢ 0) × (contains s x ≡ false) × IsHideSet s

-- What a computation of a set may return: a hide set with the members `mem`, or, if the arena
-- runs out, `QCC_ERR_OUT_OF_MEMORY`.
pub data Builds (mem : ℕ → Bool) : Outcome (List ℕ) → Type 0 where
  builds : {s : List ℕ} → IsHideSet s → ((n : ℕ) → contains s n ≡ mem n) → Builds mem (ok s)
  exhausted : Builds mem (err Status.out_of_memory)

Builds-congr :
    {mem mem' : ℕ → Bool} {r : Outcome (List ℕ)}
    → ((n : ℕ) → mem n ≡ mem' n)
    → Builds mem r
    → Builds mem' r
Builds-congr e (builds h m) = builds h (λ n. m n ∙ e n)
Builds-congr e exhausted = exhausted

>>=-Builds :
    {mem mem' : ℕ → Bool} {r : Outcome (List ℕ)} (next : List ℕ → Outcome (List ℕ))
    → Builds mem r
    → ((s : List ℕ) → IsHideSet s → ((n : ℕ) → contains s n ≡ mem n) → Builds mem' (next s))
    → Builds mem' (r >>= next)
>>=-Builds next (builds {s} h m) step = step s h m
>>=-Builds next exhausted step = exhausted

absorbed :
    (s : List ℕ) (name : ℕ)
    → contains s name ≡ true
    → (n : ℕ) → contains s n ≡ ((name == n) || contains s n)
absorbed s name h n = elim (Bool-cases (name == n)) [
  | inl e ↦ rw (e, ← (==_iff name n).0 e, h)
  | inr e ↦ rw e
]

module _ (alloc : List ℕ → Bool) where
  -- Adding a name that is not null gives a hide set with that member more.
  pub add-Builds :
      (s : List ℕ) (name : ℕ)
      → IsHideSet s
      → name ≢ 0
      → Builds (λ n. (name == n) || contains s n) (add alloc s name)
  unfolding add
  add-Builds s name h nz = elim (Bool-cases (name == 0)) [
    | inl z ↦ absurd (nz ((==_iff name 0).0 z))
    | inr z ↦ elim (Bool-cases (contains s name)) [
      | inl e ↦ rw (z, e) (builds h (absorbed s name e))
      | inr e ↦ elim (Bool-cases (alloc s)) [
        | inl room ↦ rw (z, e, room) (builds (nz, e, h) (λ n. refl))
        | inr full ↦ rw (z, e, full) exhausted
      ]
    ]
  ]

  union-Builds :
      (a b : List ℕ)
      → IsHideSet a
      → IsHideSet b
      → Builds (λ n. contains a n || contains b n) (union alloc a b)
  unfolding union
  union-Builds a [] ha hb = builds ha (λ n. ground arith)
  union-Builds a (x ∷ b) ha hb =
      >>=-Builds (λ next. union alloc next b) (add-Builds a x ha hb.0)
        λ s hs ms. Builds-congr (λ n. rw (ms n) (ground arith)) (union-Builds s b hs hb.2)

  intersect_from-Builds :
      (r a b : List ℕ)
      → IsHideSet r
      → IsHideSet a
      → Builds (λ n. contains r n || (contains a n && contains b n)) (intersect_from alloc r a b)
  unfolding intersect_from
  intersect_from-Builds r [] b hr ha = builds hr (λ n. ground arith)
  intersect_from-Builds r (x ∷ a) b hr ha = elim (Bool-cases (contains b x)) [
    | inl e ↦ rw e (
        >>=-Builds (λ next. intersect_from alloc next a b) (add-Builds r x hr ha.0)
          λ s hs ms.
            Builds-congr (λ n. rw (ms n) (ground (arith, member x n e)))
              (intersect_from-Builds s a b hs ha.2))
    | inr e ↦
        rw e
          (Builds-congr (λ n. ground (arith, member x n e)) (intersect_from-Builds r a b hr ha.2))
  ]
    where
      member : {v : Bool} (x n : ℕ) → contains b x ≡ v → (x == n) ≡ true → contains b n ≡ v
      member x n e h = rw (← (==_iff x n).0 h) e

  -- From hide sets, `qcc_hideset_union` builds the hide set of the names in either, and
  -- `qcc_hideset_intersect` that of the names in both; the only failure is the arena's.
  pub union-intersect-Builds :
      (a b : List ℕ)
      → IsHideSet a
      → IsHideSet b
      → Builds (λ n. contains a n || contains b n) (union alloc a b)
        × Builds (λ n. contains a n && contains b n) (intersect alloc a b)
  unfolding intersect
  union-intersect-Builds a b ha hb = (union-Builds a b ha hb, intersect_from-Builds [] a b tt ha)
