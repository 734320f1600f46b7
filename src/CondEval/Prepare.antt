-- ===== src/CondEval/Prepare.antt =====
-- ceval.c: `substitute_defined` and `identifiers_to_zero`, which prepare the tokens of a
-- condition before and after their expansion.
use quicks_qcc.Prelude.{ℕ, Bool, true, false, ◌&&◌, List, [], ◌∷◌, some, if◌then◌else◌, length}
use quicks_qcc.Status.{Status, Outcome, ok, err}
use quicks_qcc.Token.{PpTokenKind, Punct}
use quicks_qcc.CType.{same_bytes}
use quicks_qcc.CondEval.Base.{Ptok, punct_of}

-- The diagnostics of `substitute_defined`
pub data PrepareError : Type 0 where
  missing_rparen identifier_required : PrepareError

-- `defined`
abbrev pub defined_bytes : List ℕ
defined_bytes = b'd' ∷ b'e' ∷ b'f' ∷ b'i' ∷ b'n' ∷ b'e' ∷ b'd' ∷ []

abbrev pub is_identifier : Ptok → Bool
is_identifier t = elim t.kind [ PpTokenKind.identifier ↦ true | _ ↦ false ]

abbrev pub is_lparen : Ptok → Bool
is_lparen t = elim (punct_of t) [ some Punct.lparen ↦ true | _ ↦ false ]

abbrev pub is_rparen : Ptok → Bool
is_rparen t = elim (punct_of t) [ some Punct.rparen ↦ true | _ ↦ false ]

-- Whether a token is the operator `defined`
unfoldable pub is_defined : Ptok → Bool
is_defined t = is_identifier t && same_bytes t.spelling defined_bytes

-- The number that stands for `defined X`
abbrev pub number_token : Bool → Ptok
number_token d = record {
  kind = PpTokenKind.pp_number;
  punct = Punct.lbracket;
  spelling = (if d then b'1' else b'0') ∷ [];
}

-- Where the loop of `substitute_defined` stands in front of a token: between operators, behind
-- `defined`, behind `defined (`, or behind `defined ( X` with what the lookup of X said.
pub data Mode : Type 0 where
  plain after_defined after_paren : Mode
  need_rparen : Bool → Mode

-- The tokens pushed for a token, the diagnostics, and where the loop stands behind it
pub record Step : Type 0 where
  pub out : List Ptok
  pub errors : List PrepareError
  pub mode : Mode

abbrev pub plain_step : Ptok → Step
plain_step t =
    if is_defined t
    then record { out = []; errors = []; mode = after_defined }
    else record { out = t ∷ []; errors = []; mode = plain }

-- An operator that ends in front of `t` with a diagnostic
abbrev pub ends_before : Bool → PrepareError → Ptok → Step
ends_before d e t =
    let s = plain_step t in
    record { out = number_token d ∷ s.out; errors = e ∷ s.errors; mode = s.mode }

-- One round of the loop at a token; `lookup` tells whether a macro has a name.
unfoldable pub step : (List ℕ → Bool) → Mode → Ptok → Step
unfolding is_defined
step lookup plain t = plain_step t
step lookup after_defined t =
    if is_lparen t
    then record { out = []; errors = []; mode = after_paren }
    else if is_identifier t
    then record { out = number_token (lookup t.spelling) ∷ []; errors = []; mode = plain }
    else ends_before false identifier_required t
step lookup after_paren t =
    if is_identifier t
    then record { out = []; errors = []; mode = need_rparen (lookup t.spelling) }
    else ends_before false identifier_required t
step lookup (need_rparen d) t =
    if is_rparen t
    then record { out = number_token d ∷ []; errors = []; mode = plain }
    else ends_before d missing_rparen t

-- The end of the tokens
unfoldable pub at_end : Mode → Step
at_end plain = record { out = []; errors = []; mode = plain }
at_end after_defined = record {
  out = number_token false ∷ [];
  errors = identifier_required ∷ [];
  mode = plain;
}
at_end after_paren = record {
  out = number_token false ∷ [];
  errors = identifier_required ∷ [];
  mode = plain;
}
at_end (need_rparen d) = record {
  out = number_token d ∷ [];
  errors = missing_rparen ∷ [];
  mode = plain;
}

-- The tokens and the diagnostics of `substitute_defined`
pub record Prepared : Type 0 where
  pub tokens : List Ptok
  pub errors : List PrepareError

abbrev pub join {ℓ} : {A : Type ℓ} → List A → List A → List A
join [] ys = ys
join (x ∷ xs) ys = x ∷ join xs ys

abbrev pub prepend : Step → Prepared → Prepared
prepend s p = record { tokens = join s.out p.tokens; errors = join s.errors p.errors }

-- The loop of `substitute_defined`, where every token can be pushed
unfoldable pub substitute_from : (List ℕ → Bool) → Mode → List Ptok → Prepared
unfolding step at_end
substitute_from lookup m [] = prepend (at_end m) (record { tokens = []; errors = [] })
substitute_from lookup m (t ∷ ts) =
    prepend (step lookup m t) (substitute_from lookup (step lookup m t).mode ts)

-- `substitute_defined`; `room n` tells whether a list can take `n` tokens.
unfoldable pub substitute_defined : (ℕ → Bool) → (List ℕ → Bool) → List Ptok → Outcome Prepared
unfolding substitute_from
substitute_defined room lookup ts =
    let p = substitute_from lookup plain ts in
    if room (length p.tokens) then ok p else err Status.out_of_memory

-- `identifiers_to_zero` on a token
unfoldable pub to_zero : Ptok → Ptok
to_zero t = if is_identifier t then number_token false else t

-- `identifiers_to_zero`
unfoldable pub identifiers_to_zero : List Ptok → List Ptok
unfolding to_zero
identifiers_to_zero [] = []
identifiers_to_zero (t ∷ ts) = to_zero t ∷ identifiers_to_zero ts
