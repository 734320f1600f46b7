-- ===== src/Cond/Emitting.antt =====
-- `qcc_cond_emitting` against all the frames of the stack.
use mathlib.Core.Bool.{true≢false}
use quicks_qcc.Prelude.{◌≡◌, refl, ◌∙◌, Bool, true, false, not, ◌&&◌, List, [], ◌∷◌}
use quicks_qcc.Cond.Stack.{Frame, Stack, top_active, emitting}
use quicks_qcc.Cond.Nesting.{IsNested, top_level, within}

implied : (a o t r : Bool) → a && not (o && t) ≡ false → o ≡ r → a ≡ a && r
implied false o t r h q = refl
implied true true t r h q = q
implied true false t r h q = absurd (true≢false h)

-- Every enclosing group is active
unfoldable pub all_active : List Frame → Bool
all_active [] = true
all_active (f ∷ fs) = f.active && all_active fs

-- Where the frames are nested, `qcc_cond_emitting`, which reads the innermost frame only, tells
-- whether all the groups around are active.
pub emitting_lem : (s : Stack) → IsNested s.frames → emitting s ≡ all_active s.frames
unfolding emitting all_active
emitting_lem s h = go h
  where
    go : {fs : List Frame} → IsNested fs → top_active fs ≡ all_active fs
    go top_level = refl
    go (within {f} {fs} h outer kept) =
        implied f.active f.outer_active f.taken (all_active fs) kept (outer ∙ go h)
