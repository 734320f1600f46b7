-- ===== src/Examples/Preprocessor.antt =====
-- The preprocessor's evaluator, conditionals and hide sets at concrete inputs.
use quicks_qcc.Prelude.{
  ℕ, ◌-◌, ◌^◌, ◌≡◌, refl, Bool, true, false, ◌||◌, ◌&&◌, List, [], ◌∷◌, none, leb, arith, length,
}
use quicks_qcc.Status.{Outcome, ok, After}
use quicks_qcc.Token.{PpTokenKind, Punct}
use quicks_qcc.ConstEval.{eval_arith_binary}
use quicks_qcc.CondEval.Base.{Cval, Ptok, Cursor}
use quicks_qcc.CondEval.Operator.{apply_binop}
use quicks_qcc.CondEval.Parser.{parse_conditional, enough}
use quicks_qcc.CondEval.Ends.{Ends}
use quicks_qcc.CondEval.Total.{parse_conditional_total}
use quicks_qcc.CondEval.Prepare.{is_defined, plain, substitute_from}
use quicks_qcc.CondEval.Defined.{
  Item, token, bare, parenthesised, symbol, render, resolve, substitute_from-render,
}
use quicks_qcc.CondEval.Dead.{Same, dead_side_consumes}
use quicks_qcc.CondEval.Agree.{long, slash, apply_binop-eval_arith_binary}
use quicks_qcc.Cond.Stack.{Frame, emitting}
use quicks_qcc.Cond.Directive.{State, do_if, do_ifdef, else_, run}
use quicks_qcc.Cond.Nesting.{IsNested, top_level, within, Nested, run-Nested}
use quicks_qcc.Cond.Emitting.{all_active, emitting_lem}
use quicks_qcc.Cond.Groups.{IsSpent, at_else, IsSpent-by, skipped_conditional}
use quicks_qcc.HideSet.{contains, union, intersect}
use quicks_qcc.HideSet.Laws.{Builds, IsHideSet, union-intersect-Builds}

abbrev minus_seven : Cval
minus_seven = record { u = 2 ^ 64 - 7; is_unsigned = false }

abbrev two : Cval
two = record { u = 2; is_unsigned = false }

apply_binop-eval_arith_binary_example :
    ((apply_binop Punct.slash minus_seven two true).1 ≡ none)
    × (eval_arith_binary Punct.slash (long minus_seven) (long two)
        ≡ ok (long (apply_binop Punct.slash minus_seven two true).0))
apply_binop-eval_arith_binary_example =
    apply_binop-eval_arith_binary minus_seven two slash (omega arith) (omega arith) (omega arith)
      (λ s e. absurd (omega arith))

abbrev number : List ℕ → Ptok
number s = record { kind = PpTokenKind.pp_number; punct = Punct.lbracket; spelling = s }

-- `1 / 0`
abbrev one_over_zero : List Ptok
one_over_zero = number (b'1' ∷ []) ∷ symbol Punct.slash (b'/' ∷ []) ∷ number (b'0' ∷ []) ∷ []

abbrev start : Cursor
start = record { rest = one_over_zero; error = none }

dead_side_consumes_example :
    Same (parse_conditional 40 false start) (parse_conditional 40 true start)
dead_side_consumes_example = dead_side_consumes 40 start start refl

parse_conditional_total_example :
    Ends
      (length start.rest)
      false
      start.error
      (parse_conditional (enough (length start.rest)) false start)
parse_conditional_total_example = parse_conditional_total false start

-- A group that was taken, in an emitted file
abbrev taken_frame : Frame
taken_frame = record { outer_active = true; taken = true; active = true; seen_else = false }

abbrev inactive_frame : Frame
inactive_frame = record { outer_active = true; taken = false; active = false; seen_else = false }

abbrev in_group : Frame → State
in_group f = record {
  conds = record { frames = f ∷ []; capacity = 8 };
  stream = ok (symbol Punct.semi (b';' ∷ [])) ∷ [];
  diags = [];
}

abbrev ten : ℕ → Bool
ten n = leb n 9

abbrev no_macro : List ℕ → Bool
no_macro name = false

abbrev condition_true : List Ptok → Outcome Bool
condition_true line = ok true

abbrev macro_x : List ℕ → Bool
macro_x name = true

abbrev condition_false : List Ptok → Outcome Bool
condition_false line = ok false

taken-IsNested : IsNested (taken_frame ∷ [])
taken-IsNested = within top_level refl refl

run-Nested_example : After Nested (run ten ten no_macro condition_true else_ (in_group taken_frame))
run-Nested_example =
    run-Nested ten ten no_macro condition_true else_ (in_group taken_frame) taken-IsNested

emitting_lem_example :
    emitting (in_group taken_frame).conds ≡ all_active (in_group taken_frame).conds.frames
emitting_lem_example = emitting_lem (in_group taken_frame).conds taken-IsNested

IsSpent-by_example :
    After (IsSpent []) (run ten ten no_macro condition_true else_ (in_group taken_frame))
IsSpent-by_example =
    IsSpent-by ten ten no_macro condition_true else_ (in_group taken_frame) taken_frame [] at_else
      refl refl refl

not_emitting : emitting (in_group inactive_frame).conds ≡ false
unfolding emitting
not_emitting = refl

skipped_conditional_example :
    (do_if ten ten no_macro condition_true (in_group inactive_frame)
      ≡ do_if ten ten macro_x condition_false (in_group inactive_frame))
    × After
        (λ (t : State). emitting t.conds ≡ false)
        (do_if ten ten no_macro condition_true (in_group inactive_frame))
    × ((negate : Bool)
        → After
            (λ (t : State). emitting t.conds ≡ false)
            (do_ifdef ten ten no_macro condition_true negate (in_group inactive_frame)))
skipped_conditional_example =
    skipped_conditional ten ten no_macro condition_true macro_x condition_false
      (in_group inactive_frame) not_emitting

-- An arena with room for sets of up to ten names
abbrev room_for_ten : List ℕ → Bool
room_for_ten s = leb (length s) 9

one_two : IsHideSet (1 ∷ 2 ∷ [])
unfolding contains
one_two = (omega arith, refl, (omega arith, refl, tt))

two_three : IsHideSet (2 ∷ 3 ∷ [])
unfolding contains
two_three = (omega arith, refl, (omega arith, refl, tt))

union-intersect-Builds_example :
    Builds
      (λ n. contains (1 ∷ 2 ∷ []) n || contains (2 ∷ 3 ∷ []) n)
      (union room_for_ten (1 ∷ 2 ∷ []) (2 ∷ 3 ∷ []))
    × Builds
        (λ n. contains (1 ∷ 2 ∷ []) n && contains (2 ∷ 3 ∷ []) n)
        (intersect room_for_ten (1 ∷ 2 ∷ []) (2 ∷ 3 ∷ []))
union-intersect-Builds_example =
    union-intersect-Builds room_for_ten (1 ∷ 2 ∷ []) (2 ∷ 3 ∷ []) one_two two_three

amp_amp-is_defined : is_defined (symbol Punct.amp_amp (b'&' ∷ b'&' ∷ [])) ≡ false
unfolding is_defined
amp_amp-is_defined = refl

-- `defined X && defined ( Y )`
abbrev two_macros : List Item
two_macros =
    bare (b'X' ∷ [])
    ∷ token (symbol Punct.amp_amp (b'&' ∷ b'&' ∷ [])) amp_amp-is_defined
    ∷ parenthesised (b'Y' ∷ [])
    ∷ []

substitute_from-render_example :
    substitute_from macro_x plain (render two_macros)
    ≡ record { tokens = resolve macro_x two_macros; errors = [] }
substitute_from-render_example = substitute_from-render macro_x two_macros
