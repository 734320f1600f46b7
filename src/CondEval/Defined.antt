-- ===== src/CondEval/Defined.antt =====
-- What `substitute_defined` does to the tokens of a condition.
use quicks_qcc.Prelude.{ℕ, ◌≡◌, refl, ap, Bool, false, List, [], ◌∷◌}
use quicks_qcc.Token.{PpTokenKind, Punct}
use quicks_qcc.CondEval.Base.{Ptok}
use quicks_qcc.CondEval.Prepare.{
  is_defined, defined_bytes, number_token, plain, step, prepend, substitute_from,
}

-- The parts of a well-formed condition: a token that is not `defined`, `defined X`, or
-- `defined ( X )`, with the spelling of X
pub data Item : Type 0 where
  token : (t : Ptok) → is_defined t ≡ false → Item
  bare parenthesised : List ℕ → Item

abbrev pub identifier : List ℕ → Ptok
identifier s = record { kind = PpTokenKind.identifier; punct = Punct.lbracket; spelling = s }

abbrev pub symbol : Punct → List ℕ → Ptok
symbol p s = record { kind = PpTokenKind.punct; punct = p; spelling = s }

-- `(` and `)`, each of which has that spelling only
abbrev pub lparen_token : Ptok
lparen_token = symbol Punct.lparen (b'(' ∷ [])

abbrev pub rparen_token : Ptok
rparen_token = symbol Punct.rparen (b')' ∷ [])

-- The tokens of a condition
unfoldable pub render : List Item → List Ptok
render [] = []
render (token t h ∷ is) = t ∷ render is
render (bare x ∷ is) = identifier defined_bytes ∷ identifier x ∷ render is
render (parenthesised x ∷ is) =
    identifier defined_bytes ∷ lparen_token ∷ identifier x ∷ rparen_token ∷ render is

-- The same with each `defined` by its value
unfoldable pub resolve : (List ℕ → Bool) → List Item → List Ptok
resolve lookup [] = []
resolve lookup (token t h ∷ is) = t ∷ resolve lookup is
resolve lookup (bare x ∷ is) = number_token (lookup x) ∷ resolve lookup is
resolve lookup (parenthesised x ∷ is) = number_token (lookup x) ∷ resolve lookup is

-- In a well-formed condition the loop replaces each `defined X` and `defined ( X )` by 1 or 0, as
-- X names a macro or not, leaves every other token as it is, and reports nothing.
pub substitute_from-render :
    (lookup : List ℕ → Bool) (is : List Item)
    → substitute_from lookup plain (render is) ≡ record { tokens = resolve lookup is; errors = [] }
unfolding substitute_from render resolve step is_defined
substitute_from-render lookup [] = refl
substitute_from-render lookup (token t h ∷ is) = rw h (
    ap (prepend (record { out = t ∷ []; errors = []; mode = plain }))
      (substitute_from-render lookup is))
substitute_from-render lookup (bare x ∷ is) =
    ap (prepend (record { out = number_token (lookup x) ∷ []; errors = []; mode = plain }))
      (substitute_from-render lookup is)
substitute_from-render lookup (parenthesised x ∷ is) =
    ap (prepend (record { out = number_token (lookup x) ∷ []; errors = []; mode = plain }))
      (substitute_from-render lookup is)
