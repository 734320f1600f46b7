-- ===== src/Symtab/Lookup.antt =====
-- A lookup finds the most closely nested declaration (ISO C 6.2.1).
use quicks_qcc.Prelude.{
  ℕ, ◌≡◌, refl, sym, ap, ◌∙◌, Bool, true, false, ◌&&◌, List, [], ◌∷◌, ◌++◌, Option, some, none,
  arith, ◌==◌, if◌then◌else◌, ==_iff,
}
use mathlib.Core.Bool.{true≢false, false≢true}
use quicks_qcc.Symtab.{
  Namespace, Symbol, ScopeFrame, Symtab, hash_name, bucket_index, same_name, same_namespace,
  is_match, find, lookup,
}
use quicks_qcc.Symtab.Index.{live, chain_of, AreHashed, IsSymtab}

-- The declaration in the innermost scope that has one, the newest there
unfoldable pub nearest : List ℕ → Namespace → List ScopeFrame → Option Symbol
unfolding find
nearest name ns [] = none
nearest name ns (frame ∷ scopes) =
    let outer = nearest name ns scopes in
    elim (find name ns frame.symbols) [ none ↦ outer | some s ↦ some s ]

pub same_name→eq : (a b : List ℕ) → same_name a b ≡ true → a ≡ b
same_name→eq [] [] e = refl
same_name→eq [] (d ∷ ds) e = absurd (false≢true e)
same_name→eq (c ∷ cs) [] e = absurd (false≢true e)
same_name→eq (c ∷ cs) (d ∷ ds) e = go (same_name→eq cs ds) (c == d) refl (same_name cs ds) refl e
  where
    go :
        (same_name cs ds ≡ true → cs ≡ ds)
        → (x : Bool) → (c == d) ≡ x
        → (y : Bool) → same_name cs ds ≡ y
        → (x && y) ≡ true
        → c ∷ cs ≡ d ∷ ds
    go ih true p true q h = rw ((==_iff c d).0 p, ih q) refl
    go ih true p false q h = absurd (false≢true h)
    go ih false p y q h = absurd (false≢true h)

is_match→name :
    (name : List ℕ) (ns : Namespace) (s : Symbol) → is_match name ns s ≡ true → s.name ≡ name
is_match→name name ns s e = go (same_namespace s.ns ns) e
  where
    go : (b : Bool) → (b && same_name s.name name) ≡ true → s.name ≡ name
    go true h = same_name→eq s.name name h
    go false h = absurd (false≢true h)

-- The chain of a name's bucket has all symbols of that name.
find-chain_of :
    (name : List ℕ) (ns : Namespace) (symbols : List Symbol)
    → AreHashed symbols
    → find name ns (chain_of (bucket_index (hash_name name)) symbols) ≡ find name ns symbols
unfolding find chain_of
find-chain_of name ns [] h = refl
find-chain_of name ns (s ∷ symbols) h =
    go (find-chain_of name ns symbols h.1) (is_match name ns s) refl
      (bucket_index (hash_name name) == bucket_index s.hash) refl
  where
    there : ℕ
    there = bucket_index (hash_name name)

    itself : (n : ℕ) → (n == n) ≡ true
    itself n = ground arith

    go :
        find name ns (chain_of there symbols) ≡ find name ns symbols
        → (m : Bool) → is_match name ns s ≡ m
        → (c : Bool) → (there == bucket_index s.hash) ≡ c
        → find name ns (if c then s ∷ chain_of there symbols else chain_of there symbols)
          ≡ (if m then some s else find name ns symbols)
    go ih true e true f = rw e refl
    go ih true e false f =
        let same : bucket_index s.hash ≡ there =
          ap bucket_index (h.0 ∙ ap hash_name (is_match→name name ns s e)) in
        absurd (true≢false (sym (itself there) ∙ ap (λ (n : ℕ). there == n) (sym same) ∙ f))
    go ih false e true f = rw e ih
    go ih false e false f = ih

find-++ :
    (name : List ℕ) (ns : Namespace) (xs ys : List Symbol)
    → find name ns (xs ++ ys) ≡ elim (find name ns xs) [ none ↦ find name ns ys | some s ↦ some s ]
unfolding find
find-++ name ns [] ys = refl
find-++ name ns (x ∷ xs) ys = go (is_match name ns x) (find-++ name ns xs ys)
  where
    go :
        (c : Bool)
        → find name ns (xs ++ ys)
          ≡ elim (find name ns xs) [ none ↦ find name ns ys | some s ↦ some s ]
        → (if c then some x else find name ns (xs ++ ys))
          ≡ elim (if c then some x else find name ns xs) [
            | none ↦ find name ns ys
            | some s ↦ some s
          ]
    go true ih = refl
    go false ih = ih

find-live :
    (name : List ℕ) (ns : Namespace) (scopes : List ScopeFrame)
    → find name ns (live scopes) ≡ nearest name ns scopes
unfolding find live nearest
find-live name ns [] = refl
find-live name ns (frame ∷ scopes) =
    find-++ name ns frame.symbols (live scopes)
    ∙ ap (λ (o : Option Symbol). elim (find name ns frame.symbols) [ none ↦ o | some s ↦ some s ])
        (find-live name ns scopes)

pub lookup-nearest :
    (tab : Symtab) (name : List ℕ) (ns : Namespace)
    → IsSymtab tab
    → lookup tab name ns ≡ nearest name ns tab.scopes
unfolding lookup
lookup-nearest tab name ns h =
    ap (find name ns) (h.chains (bucket_index (hash_name name)))
    ∙ find-chain_of name ns (live tab.scopes) h.hashed
    ∙ find-live name ns tab.scopes
