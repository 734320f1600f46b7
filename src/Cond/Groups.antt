-- ===== src/Cond/Groups.antt =====
-- Which groups of a conditional are emitted, and what a skipped group leaves alone.
use quicks_qcc.Prelude.{
  ℕ, ◌≡◌, refl, inl, inr, Bool, true, false, not, ◌&&◌, List, ◌∷◌, Option, none, some,
  if◌then◌else◌, Bool-cases, ap,
}
use mathlib.Core.Bool.{false≢true, true≢false}
use quicks_qcc.Status.{Status, Outcome, ok, err, ◌>>=◌}
use quicks_qcc.CondEval.Base.{Ptok}
use quicks_qcc.Cond.Stack.{Frame, Stack, emitting, open_frame, push, top, split, grown}
use quicks_qcc.Cond.Line.{Diagnostic, Stream, next, is_line_end, skip_to_line_end, expect_line_end}
use quicks_qcc.Cond.Directive.{
  State, is_identifier, enter_else, do_if, do_ifdef, elif_frame, do_elif, else_frame, do_else,
  Directive, elif, else_, run,
}
use quicks_qcc.Status.{After, after, failed, >>=-After, After-then}

-- The innermost conditional, above `fs`, has had its group, and is not in it.
pub data IsSpent (fs : List Frame) (s : State) : Type 0 where
  spent : {g : Frame} → s.conds.frames ≡ g ∷ fs → g.taken ≡ true → g.active ≡ false → IsSpent fs s

-- `#elif` or `#else`
pub data StartsGroup : Directive → Type 0 where
  at_elif : StartsGroup elif
  at_else : StartsGroup else_

push-frames :
    (realloc : ℕ → Bool) (s : Stack) (outer cond : Bool)
    → After (λ (t : Stack). t.frames ≡ open_frame outer cond ∷ s.frames) (push realloc s outer cond)
unfolding push
push-frames realloc s outer cond =
    elim (grown realloc s)
      as (λ (g : Option ℕ).
        After (λ (t : Stack). t.frames ≡ open_frame outer cond ∷ s.frames)
          (elim g [
            | none ↦ err Status.out_of_memory
            | some capacity ↦
                ok (record { frames = open_frame outer cond ∷ s.frames; capacity = capacity })
          ])) [ none ↦ failed | some capacity ↦ after refl ]

taken_closes : (o b : Bool) → b ≡ true → o && not b ≡ false
taken_closes true b h = rw h refl
taken_closes false b h = refl

module _ (realloc room : ℕ → Bool) (defined : List ℕ → Bool)
    (condition : List Ptok → Outcome Bool) where
  elif_frame-IsSpent :
      (s : State) (f : Frame) (fs : List Frame)
      → f.taken ≡ true
      → After (IsSpent fs) (elif_frame realloc room defined condition s f fs)
  unfolding elif_frame
  elif_frame-IsSpent s f fs t = elim (Bool-cases f.seen_else) [
    | inl e ↦ rw e (>>=-After (skip_to_line_end s.stream) λ rest. after (spent refl t refl))
    | inr e ↦
        let closed = taken_closes f.outer_active f.taken t in
        rw (e, closed) (>>=-After (skip_to_line_end s.stream) λ rest. after (spent refl t refl))
  ]

  else_frame-IsSpent :
      (s : State) (f : Frame) (fs : List Frame)
      → s.conds.frames ≡ f ∷ fs
      → f.taken ≡ true
      → f.seen_else && f.active ≡ false
      → After (IsSpent fs) (else_frame realloc room defined condition s f fs)
  unfolding else_frame enter_else
  else_frame-IsSpent s f fs q t h = elim (Bool-cases f.seen_else) [
    | inl e ↦ rw e (
        >>=-After (skip_to_line_end s.stream)
          λ rest. after (spent q t (off f.seen_else f.active e h)))
    | inr e ↦ rw e (
        >>=-After (expect_line_end f.outer_active s.stream s.diags) λ r.
          after
            (spent refl (stays f.outer_active f.taken t) (taken_closes f.outer_active f.taken t)))
  ]
    where
      stays : (o b : Bool) → b ≡ true → (if o && not b then true else b) ≡ true
      stays true b h = rw h refl
      stays false b h = h

      off : (e a : Bool) → e ≡ true → e && a ≡ false → a ≡ false
      off true a h k = k
      off false a h k = absurd (false≢true h)

  -- Once a group of the innermost conditional has been taken, and unless its `#else` group is the
  -- active one, `#elif` and `#else` leave it inactive, whatever their conditions: no later group
  -- is emitted, and the conditionals around are as they were.
  pub IsSpent-by :
      (d : Directive) (s : State) (f : Frame) (fs : List Frame)
      → StartsGroup d
      → s.conds.frames ≡ f ∷ fs
      → f.taken ≡ true
      → f.seen_else && f.active ≡ false
      → After (IsSpent fs) (run realloc room defined condition d s)
  unfolding run do_elif do_else top
  IsSpent-by d s f fs at_elif q t h = rw (ap split q) (elif_frame-IsSpent s f fs t)
  IsSpent-by d s f fs at_else q t h = rw (ap split q) (else_frame-IsSpent s f fs q t h)

  opens_inactive :
      (s : State) (outer cond : Bool) (rest : Stream) (diags : List Diagnostic)
      → outer ≡ false
      → After
          (λ (t : State). emitting t.conds ≡ false)
          (push realloc s.conds outer cond >>= λ conds.
            ok (record { conds = conds; stream = rest; diags = diags }))
  unfolding emitting open_frame
  opens_inactive s outer cond rest diags h =
      After-then (push-frames realloc s.conds outer cond) λ conds q. after (rw q (inactive outer h))
    where
      inactive : (o : Bool) → o ≡ false → o && cond ≡ false
      inactive true k = absurd (true≢false k)
      inactive false k = refl

  -- In a group that is not emitted, `#if` does not depend on its condition: with another
  -- evaluator and other macros the outcome is the same. A frame that `#if` or `#ifdef` opens there
  -- is inactive.
  pub skipped_conditional :
      (defined' : List ℕ → Bool) (condition' : List Ptok → Outcome Bool) (s : State)
      → emitting s.conds ≡ false
      → (do_if realloc room defined condition s ≡ do_if realloc room defined' condition' s)
        × After (λ (t : State). emitting t.conds ≡ false) (do_if realloc room defined condition s)
        × ((negate : Bool)
            → After
                (λ (t : State). emitting t.conds ≡ false)
                (do_ifdef realloc room defined condition negate s))
  unfolding do_if do_ifdef
  skipped_conditional defined' condition' s h = (
    rw h refl,
    rw h (
        >>=-After (skip_to_line_end s.stream)
          λ rest. opens_inactive s false false rest s.diags refl),
    λ negate. >>=-After (next s.stream) λ r. elim (Bool-cases (is_identifier r.0)) [
      | inl e ↦ rw e (
          >>=-After (expect_line_end (emitting s.conds) r.1 s.diags)
            λ x. opens_inactive s _ _ x.0 x.1 h)
      | inr e ↦ rw e (
          >>=-After (if is_line_end r.0 then ok r.1 else skip_to_line_end r.1)
            λ rest. opens_inactive s _ false rest _ h)
    ],
  )
