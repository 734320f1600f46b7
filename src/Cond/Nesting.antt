-- ===== src/Cond/Nesting.antt =====
-- The stack of open conditionals: what the directives keep of it.
use quicks_qcc.Prelude.{
  ℕ, ◌≡◌, refl, inl, inr, Bool, true, false, not, ◌&&◌, List, [], ◌∷◌, Option, none, some,
  if◌then◌else◌, Bool-cases, ◌∙◌,
}
use quicks_qcc.Status.{Status, Outcome, ok, err, ◌>>=◌, After, after, failed, >>=-After, After-then}
use quicks_qcc.CondEval.Base.{Ptok}
use quicks_qcc.Cond.Stack.{
  Frame, Stack, top_active, emitting, open_frame, push, top, split, pop, grown, below,
}
use quicks_qcc.Cond.Line.{
  Diagnostic, macro_name_expected, Stream, next, is_line_end, skip_to_line_end, expect_line_end,
  collect_replacement,
}
use quicks_qcc.Cond.Directive.{
  State, is_identifier, skip_line, select, enter_else, open_conditional, do_if, do_ifdef,
  elif_frame, elif_top, do_elif, else_frame, else_top, do_else, do_endif, Directive, if_, elif,
  else_, endif, ifdef, run,
}

-- Each frame knows whether the region around it is emitted, and a group is emitted only within
-- such a region and as the one chosen.
pub data IsNested : List Frame → Type 0 where
  top_level : IsNested []
  within :
      {f : Frame} {fs : List Frame}
      → IsNested fs
      → f.outer_active ≡ top_active fs
      → f.active && not (f.outer_active && f.taken) ≡ false
      → IsNested (f ∷ fs)

frame_is_kept : (o c : Bool) → (o && c) && not (o && (o && c)) ≡ false
frame_is_kept true true = refl
frame_is_kept true false = refl
frame_is_kept false c = refl

-- The frames on the stack of a state are nested.
abbrev pub Nested : State → Type 0
Nested s = IsNested s.conds.frames

push-IsNested :
    (realloc : ℕ → Bool) (s : Stack) (cond : Bool)
    → IsNested s.frames
    → After (λ (t : Stack). IsNested t.frames) (push realloc s (emitting s) cond)
unfolding push open_frame emitting
push-IsNested realloc s cond h =
    elim (grown realloc s)
      as (λ (g : Option ℕ).
        After (λ (t : Stack). IsNested t.frames)
          (elim g [
            | none ↦ err Status.out_of_memory
            | some capacity ↦ ok (record {
              frames = open_frame (top_active s.frames) cond ∷ s.frames;
              capacity = capacity;
            })
          ])) [
            | none ↦ failed
            | some capacity ↦ after (within h refl (frame_is_kept (top_active s.frames) cond))
          ]

skip_line-Nested :
    (conds : Stack) (diags : List Diagnostic) (stream : Stream)
    → IsNested conds.frames
    → After Nested (skip_line conds diags stream)
skip_line-Nested conds diags stream h = >>=-After (skip_to_line_end stream) λ rest. after h

select_is_kept :
    (cond : Bool) (f : Frame)
    → f.outer_active ≡ true
    → (select cond f).active && not ((select cond f).outer_active && (select cond f).taken) ≡ false
unfolding select
select_is_kept true f h = rw h refl
select_is_kept false f h = refl

enter_else_is_kept :
    (f : Frame)
    → (enter_else f).active && not ((enter_else f).outer_active && (enter_else f).taken) ≡ false
unfolding enter_else
enter_else_is_kept f =
    elim f.outer_active
      as (λ (o : Bool).
        (o && not f.taken) && not (o && (if o && not f.taken then true else f.taken)) ≡ false) [
          | true ↦
              elim f.taken as (λ (t : Bool). not t && not (if not t then true else t) ≡ false) [
                | true ↦ refl
                | false ↦ refl
              ]
          | false ↦ refl
        ]

select_outer : (cond : Bool) (f : Frame) → (select cond f).outer_active ≡ f.outer_active
unfolding select
select_outer cond f = refl

enter_else_outer : (f : Frame) → (enter_else f).outer_active ≡ f.outer_active
unfolding enter_else
enter_else_outer f = refl

&&-left : (a b : Bool) → a && b ≡ true → a ≡ true
&&-left true b h = refl
&&-left false b h = h

module _ (realloc room : ℕ → Bool) (defined : List ℕ → Bool)
    (condition : List Ptok → Outcome Bool) where
  open_conditional-Nested :
      (s : State) (cond : Bool) (rest : Stream) (diags : List Diagnostic)
      → Nested s
      → After Nested (open_conditional realloc room defined condition s cond rest diags)
  open_conditional-Nested s cond rest diags h =
      After-then (push-IsNested realloc s.conds cond h) λ conds k. after k

  do_if-Nested : (s : State) → Nested s → After Nested (do_if realloc room defined condition s)
  unfolding do_if
  do_if-Nested s h =
      elim (emitting s.conds)
        as (λ (e : Bool). After Nested (
          if e
          then (collect_replacement room 0 s.stream >>= λ r. condition r.0 >>= λ cond.
              open_conditional realloc room defined condition s cond r.1 s.diags)
          else skip_to_line_end s.stream >>= λ rest.
              open_conditional realloc room defined condition s false rest s.diags)) [
                | true ↦ >>=-After (collect_replacement room 0 s.stream) λ r.
                    >>=-After (condition r.0) λ cond. open_conditional-Nested s cond r.1 s.diags h
                | false ↦
                    >>=-After (skip_to_line_end s.stream)
                      λ rest. open_conditional-Nested s false rest s.diags h
              ]

  do_ifdef-Nested :
      (negate : Bool) (s : State)
      → Nested s
      → After Nested (do_ifdef realloc room defined condition negate s)
  unfolding do_ifdef
  do_ifdef-Nested negate s h = >>=-After (next s.stream) λ r.
      elim (is_identifier r.0)
        as (λ (i : Bool). After Nested (
          if i
          then (expect_line_end (emitting s.conds) r.1 s.diags >>= λ e.
              open_conditional realloc room defined condition s
                (if negate then not (defined r.0.spelling) else defined r.0.spelling) e.0 e.1)
          else (if is_line_end r.0 then ok r.1 else skip_to_line_end r.1) >>= λ rest.
              open_conditional realloc room defined condition s false rest
                (if emitting s.conds then macro_name_expected ∷ s.diags else s.diags))) [
                  | true ↦
                      >>=-After (expect_line_end (emitting s.conds) r.1 s.diags)
                        λ e. open_conditional-Nested s _ e.0 e.1 h
                  | false ↦
                      >>=-After (if is_line_end r.0 then ok r.1 else skip_to_line_end r.1)
                        λ rest. open_conditional-Nested s false rest _ h
                ]

  elif_frame-Nested :
      (s : State) (f : Frame) (fs : List Frame)
      → IsNested (f ∷ fs)
      → After Nested (elif_frame realloc room defined condition s f fs)
  unfolding elif_frame
  elif_frame-Nested s f fs (within h outer kept) = elim (Bool-cases f.seen_else) [
    | inl e ↦ rw e (skip_line-Nested _ _ s.stream (within h outer refl))
    | inr e ↦ rw e (elim (Bool-cases (f.outer_active && not f.taken)) [
      | inl c ↦ rw c (
          >>=-After (collect_replacement room 0 s.stream) λ r. >>=-After (condition r.0) λ cond.
            after (
              within h (select_outer cond f ∙ outer)
                (select_is_kept cond f (&&-left f.outer_active _ c))))
      | inr c ↦ rw c (skip_line-Nested _ _ s.stream (within h outer refl))
    ])
  ]

  do_elif-Nested : (s : State) → Nested s → After Nested (do_elif realloc room defined condition s)
  unfolding do_elif top
  do_elif-Nested s h = go s.conds.frames refl h
    where
      go :
          (fs : List Frame)
          → s.conds.frames ≡ fs
          → IsNested fs
          → After Nested (elif_top realloc room defined condition s (split fs))
      go [] q k = skip_line-Nested s.conds _ s.stream h
      go (f ∷ fs) q k = elif_frame-Nested s f fs k

  else_frame-Nested :
      (s : State) (f : Frame) (fs : List Frame)
      → s.conds.frames ≡ f ∷ fs
      → IsNested (f ∷ fs)
      → After Nested (else_frame realloc room defined condition s f fs)
  unfolding else_frame
  else_frame-Nested s f fs e (within h outer kept) = elim (Bool-cases f.seen_else) [
    | inl q ↦ rw q (skip_line-Nested s.conds _ s.stream (rw e (within h outer kept)))
    | inr q ↦ rw q (
        >>=-After (expect_line_end f.outer_active s.stream s.diags)
          λ r. after (within h (enter_else_outer f ∙ outer) (enter_else_is_kept f)))
  ]

  do_else-Nested : (s : State) → Nested s → After Nested (do_else realloc room defined condition s)
  unfolding do_else top
  do_else-Nested s h = go s.conds.frames refl h
    where
      go :
          (fs : List Frame)
          → s.conds.frames ≡ fs
          → IsNested fs
          → After Nested (else_top realloc room defined condition s (split fs))
      go [] q k = skip_line-Nested s.conds _ s.stream h
      go (f ∷ fs) q k = else_frame-Nested s f fs q k

  do_endif-Nested :
      (s : State) → Nested s → After Nested (do_endif realloc room defined condition s)
  unfolding do_endif pop
  do_endif-Nested s h = >>=-After (expect_line_end _ s.stream _) λ e. after (below-IsNested h)
    where
      below-IsNested : {fs : List Frame} → IsNested fs → IsNested (below fs)
      below-IsNested top_level = top_level
      below-IsNested (within k outer kept) = k

-- Every conditional directive, in a group that is emitted or skipped, keeps the frames nested.
pub run-Nested :
    (realloc room : ℕ → Bool) (defined : List ℕ → Bool) (condition : List Ptok → Outcome Bool)
    (d : Directive) (s : State)
    → Nested s
    → After Nested (run realloc room defined condition d s)
unfolding run
run-Nested realloc room defined condition if_ s h = do_if-Nested realloc room defined condition s h
run-Nested realloc room defined condition elif s h =
    do_elif-Nested realloc room defined condition s h
run-Nested realloc room defined condition else_ s h =
    do_else-Nested realloc room defined condition s h
run-Nested realloc room defined condition endif s h =
    do_endif-Nested realloc room defined condition s h
run-Nested realloc room defined condition (ifdef negate) s h =
    do_ifdef-Nested realloc room defined condition negate s h
