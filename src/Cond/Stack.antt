-- ===== src/Cond/Stack.antt =====
-- src/pp/internal/cond.c: the growable stack of frames. The frames stand in a list, the innermost
-- first; `count` is its length.
use quicks_qcc.Prelude.{
  ℕ, ◌*◌, Bool, true, false, ◌&&◌, List, [], ◌∷◌, Option, none, some, ◌==◌, if◌then◌else◌, length,
}
use quicks_qcc.Status.{Status, Outcome, ok, err}

-- `struct qcc_cond`
pub record Frame : Type 0 where
  pub outer_active : Bool
  pub taken : Bool
  pub active : Bool
  pub seen_else : Bool

-- `struct qcc_cond_stack`
pub record Stack : Type 0 where
  pub frames : List Frame
  pub capacity : ℕ

-- `qcc_cond_stack_init`
abbrev pub init : Stack
init = record { frames = []; capacity = 0 }

-- `qcc_cond_stack_clear`
unfoldable pub clear : Stack → Stack
clear s = record s { frames = [] }

-- The `active` flag of the innermost frame, or true at the top level
abbrev pub top_active : List Frame → Bool
top_active [] = true
top_active (f ∷ fs) = f.active

-- `qcc_cond_emitting`
unfoldable pub emitting : Stack → Bool
emitting s = top_active s.frames

-- `qcc_cond_depth`
unfoldable pub depth : Stack → ℕ
depth s = length s.frames

-- The frame that `qcc_cond_push` stores
unfoldable pub open_frame : Bool → Bool → Frame
open_frame outer condition = record {
  outer_active = outer;
  taken = outer && condition;
  active = outer && condition;
  seen_else = false;
}

-- The growth of the array: `realloc` tells whether an array of a given capacity can be had.
unfoldable pub grown : (ℕ → Bool) → Stack → Option ℕ
grown realloc s =
    let cap = if s.capacity == 0 then 8 else s.capacity * 2 in
    if length s.frames == s.capacity
    then (if realloc cap then some cap else none)
    else some s.capacity

-- `qcc_cond_push`
unfoldable pub push : (ℕ → Bool) → Stack → Bool → Bool → Outcome Stack
unfolding open_frame grown
push realloc s outer condition = elim (grown realloc s) [
  | none ↦ err Status.out_of_memory
  | some cap ↦ ok (record { frames = open_frame outer condition ∷ s.frames; capacity = cap })
]

abbrev pub split : List Frame → Option (Frame × List Frame)
split [] = none
split (f ∷ fs) = some (f, fs)

-- `qcc_cond_top`, with the frames below it
unfoldable pub top : Stack → Option (Frame × List Frame)
top s = split s.frames

-- A write through the pointer that `qcc_cond_top` returned
abbrev pub set_top : Stack → Frame → List Frame → Stack
set_top s f fs = record s { frames = f ∷ fs }

abbrev pub below : List Frame → List Frame
below [] = []
below (f ∷ fs) = fs

abbrev pub is_open : List Frame → Bool
is_open [] = false
is_open (f ∷ fs) = true

-- `qcc_cond_pop`: the stack and whether a frame was popped
unfoldable pub pop : Stack → Stack × Bool
pop s = (record s { frames = below s.frames }, is_open s.frames)
