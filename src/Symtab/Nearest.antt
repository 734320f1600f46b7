-- ===== src/Symtab/Nearest.antt =====
-- The declaration that a name refers to (ISO C 6.2.1, 6.2.3), described without the tests of the
-- lookup's code.
use quicks_qcc.Prelude.{
  ℕ, ◌≡◌, refl, sym, ◌∙◌, Bool, true, false, ◌&&◌, List, [], ◌∷◌, Option, some, none, arith, ◌==◌,
  if◌then◌else◌,
}
use mathlib.Core.Bool.{true≢false, false≢true}
use quicks_qcc.Symtab.{Namespace, Symbol, ScopeFrame, same_name, same_namespace, is_match, find}
use quicks_qcc.Symtab.Lookup.{nearest, same_name→eq}

-- A symbol declares a name in a name space.
abbrev pub Declares : List ℕ → Namespace → Symbol → Type 0
Declares name ns s = (s.ns ≡ ns) × (s.name ≡ name)

-- The newest of the symbols of a scope that declares the name, if any
pub data IsNewest (name : List ℕ) (ns : Namespace) : List Symbol → Option Symbol → Type 0 where
  no_symbols : IsNewest name ns [] none
  newest : {s : Symbol} {ss : List Symbol} → Declares name ns s → IsNewest name ns (s ∷ ss) (some s)
  older :
      {s : Symbol} {ss : List Symbol} {o : Option Symbol}
      → ¬ Declares name ns s
      → IsNewest name ns ss o
      → IsNewest name ns (s ∷ ss) o

-- The declaration in the innermost of the scopes that has one, if any
pub data IsVisible (name : List ℕ) (ns : Namespace) : List ScopeFrame → Option Symbol → Type 0 where
  no_scopes : IsVisible name ns [] none
  inner :
      {frame : ScopeFrame} {scopes : List ScopeFrame} {s : Symbol}
      → IsNewest name ns frame.symbols (some s)
      → IsVisible name ns (frame ∷ scopes) (some s)
  outer :
      {frame : ScopeFrame} {scopes : List ScopeFrame} {o : Option Symbol}
      → IsNewest name ns frame.symbols none
      → IsVisible name ns scopes o
      → IsVisible name ns (frame ∷ scopes) o

same_namespace→eq : (a b : Namespace) → same_namespace a b ≡ true → a ≡ b
same_namespace→eq Namespace.ordinary Namespace.ordinary e = refl
same_namespace→eq Namespace.ordinary Namespace.tag e = absurd (false≢true e)
same_namespace→eq Namespace.tag Namespace.ordinary e = absurd (false≢true e)
same_namespace→eq Namespace.tag Namespace.tag e = refl

same_namespace_self : (a : Namespace) → same_namespace a a ≡ true
same_namespace_self Namespace.ordinary = refl
same_namespace_self Namespace.tag = refl

same_name_self : (a : List ℕ) → same_name a a ≡ true
same_name_self [] = refl
same_name_self (c ∷ cs) =
    let itself : (c == c) ≡ true = ground arith in rw (itself, same_name_self cs) refl

is_match→Declares :
    (name : List ℕ) (ns : Namespace) (s : Symbol) → is_match name ns s ≡ true → Declares name ns s
is_match→Declares name ns s e = go (same_namespace s.ns ns) refl (same_name s.name name) refl e
  where
    go :
        (x : Bool)
        → same_namespace s.ns ns ≡ x
        → (y : Bool) → same_name s.name name ≡ y
        → (x && y) ≡ true
        → Declares name ns s
    go true p true q h = (same_namespace→eq s.ns ns p, same_name→eq s.name name q)
    go true p false q h = absurd (false≢true h)
    go false p y q h = absurd (false≢true h)

Declares→is_match :
    (name : List ℕ) (ns : Namespace) (s : Symbol) → Declares name ns s → is_match name ns s ≡ true
Declares→is_match name ns s (p, q) = rw (p, q, same_namespace_self ns, same_name_self name) refl

find-IsNewest :
    (name : List ℕ) (ns : Namespace) (ss : List Symbol) → IsNewest name ns ss (find name ns ss)
unfolding find
find-IsNewest name ns [] = no_symbols
find-IsNewest name ns (s ∷ ss) = go (is_match name ns s) refl (find-IsNewest name ns ss)
  where
    go :
        (c : Bool)
        → is_match name ns s ≡ c
        → IsNewest name ns ss (find name ns ss)
        → IsNewest name ns (s ∷ ss) (if c then some s else find name ns ss)
    go true e ih = newest (is_match→Declares name ns s e)
    go false e ih = older (λ d. absurd (true≢false (sym (Declares→is_match name ns s d) ∙ e))) ih

-- The search by the code's test finds the visible declaration.
pub nearest-IsVisible :
    (name : List ℕ) (ns : Namespace) (scopes : List ScopeFrame)
    → IsVisible name ns scopes (nearest name ns scopes)
unfolding nearest
nearest-IsVisible name ns [] = no_scopes
nearest-IsVisible name ns (frame ∷ scopes) =
    go (find name ns frame.symbols) (find-IsNewest name ns frame.symbols)
      (nearest-IsVisible name ns scopes)
  where
    go :
        (o : Option Symbol)
        → IsNewest name ns frame.symbols o
        → IsVisible name ns scopes (nearest name ns scopes)
        → IsVisible name ns
            (frame ∷ scopes)
            (elim o as (λ x. Option Symbol) [ none ↦ nearest name ns scopes | some s ↦ some s ])
    go none h ih = outer h ih
    go (some s) h ih = inner h
