-- ===== src/CondEval/Base.antt =====
-- ceval.c: the evaluated value, the cursor over the prepared tokens, and the diagnostics.
use quicks_qcc.Prelude.{ℕ, Bool, not, List, [], ◌∷◌, Option, none, some, ◌==◌}
use quicks_qcc.Token.{PpTokenKind, Punct}

-- `struct cval`: the bits of a `uintmax_t`, below 2 ^ 64
pub record Cval : Type 0 where
  pub u : ℕ
  pub is_unsigned : Bool

-- `truth`
abbrev pub truth : Cval → Bool
truth v = not (v.u == 0)

-- `make_int`
abbrev pub make_int : ℕ → Bool → Cval
make_int u is_unsigned = record { u = u; is_unsigned = is_unsigned }

-- The fields of `qcc_ptok` that the evaluator reads
pub record Ptok : Type 0 where
  pub kind : PpTokenKind
  pub punct : Punct
  pub spelling : List ℕ

-- The messages of `eval_error` on the tokens and their spelling
pub data SyntaxError : Type 0 where
  invalid_hexadecimal invalid_octal_digit invalid_integer invalid_suffix too_large : SyntaxError
  invalid_character no_hex_digits empty_character : SyntaxError
  expected_value expected_rparen floating_constant invalid_token : SyntaxError
  expected_colon extra_tokens : SyntaxError

-- All its messages: those, and the two on the values
pub data EvalError : Type 0 where
  syntax : SyntaxError → EvalError
  division_by_zero shift_out_of_range : EvalError

-- `struct eval_ctx`: the tokens from `pos` on, and the first error that was reported
pub record Cursor : Type 0 where
  pub rest : List Ptok
  pub error : Option EvalError

-- `eval_error`: only the first error of an expression is reported.
unfoldable pub first_error : Option EvalError → EvalError → Option EvalError
first_error none e = some e
first_error (some d) e = some d

unfoldable pub eval_error : Cursor → EvalError → Cursor
unfolding first_error
eval_error c e = record c { error = first_error c.error e }

abbrev pub tail : List Ptok → List Ptok
tail [] = []
tail (t ∷ ts) = ts

-- `advance`
abbrev pub advance : Cursor → Cursor
advance c = record c { rest = tail c.rest }

-- `t->kind == QCC_PP_TOKEN_PUNCT ? t->punct : none`
abbrev pub punct_of : Ptok → Option Punct
punct_of t = elim t.kind [ PpTokenKind.punct ↦ some t.punct | _ ↦ none ]

-- `peek`, then the punctuator of the token
abbrev pub peek_punct : List Ptok → Option Punct
peek_punct [] = none
peek_punct (t ∷ ts) = punct_of t
