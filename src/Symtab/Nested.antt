-- ===== src/Symtab/Nested.antt =====
-- Scopes in the order in which they are opened and closed: what a lookup finds, and that a block
-- leaves no trace.
use quicks_qcc.Prelude.{
  ℕ, ◌*◌, ◌≤◌, ◌≡◌, refl, sym, ap, ◌∙◌, Bool, true, false, ◌&&◌, ◌||◌, List, [], ◌∷◌, arith, ◌==◌,
  if◌then◌else◌, length,
}
use quicks_qcc.Status.{Status, Outcome, ok, err, After, after, failed}
use quicks_qcc.Symtab.{
  Namespace, Symbol, ScopeFrame, ScopeKind, Symtab, Declared, Request, init, push_scope, popped,
  pop_scope, new_symbol, linked, inserted, insert_symbol, lookup,
}
use quicks_qcc.Symtab.Index.{
  IsSymtab, init-IsSymtab, push_scope-IsSymtab, insert_symbol-IsSymtab, pop_scope-IsSymtab,
}
use quicks_qcc.Symtab.Nearest.{IsVisible, nearest-IsVisible}
use quicks_qcc.Symtab.Lookup.{nearest, lookup-nearest}

outer_scopes : List ScopeFrame → List ScopeFrame
outer_scopes [] = []
outer_scopes (frame ∷ scopes) = scopes

push_scope-scopes :
    (realloc : ℕ → Bool) (tab : Symtab) (kind : ScopeKind)
    → After (λ (tab' : Symtab). outer_scopes tab'.scopes ≡ tab.scopes) (push_scope realloc tab kind)
unfolding push_scope outer_scopes
push_scope-scopes realloc tab kind =
    go (length tab.scopes == tab.scope_cap) (realloc (tab.scope_cap * 2 * 16))
  where
    scopes : List ScopeFrame
    scopes = record { kind = kind; symbols = [] } ∷ tab.scopes

    go :
        (c d : Bool)
        → After
            (λ (tab' : Symtab). outer_scopes tab'.scopes ≡ tab.scopes)
            (if c
              then (if d
                  then ok (record tab { scopes = scopes; scope_cap = tab.scope_cap * 2 })
                  else err Status.out_of_memory)
              else ok (record tab { scopes = scopes }))
    go true true = after refl
    go true false = failed
    go false d = after refl

insert_symbol-scopes :
    (arena : Request → Bool) (tab : Symtab) (d : Declared)
    → After
        (λ (r : Symbol × Symtab). outer_scopes r.1.scopes ≡ outer_scopes tab.scopes)
        (insert_symbol arena tab d)
unfolding insert_symbol inserted linked outer_scopes
insert_symbol-scopes arena tab d = go tab.scopes
  where
    go :
        (scopes : List ScopeFrame)
        → After
            (λ (r : Symbol × Symtab). outer_scopes r.1.scopes ≡ outer_scopes scopes)
            (inserted arena tab d scopes)
    go [] = failed
    go (frame ∷ outer) =
        room
          (arena Request.symbol && (arena (Request.copy (length d.name)) || (length d.name == 0)))
      where
        room :
            (c : Bool)
            → After
                (λ (r : Symbol × Symtab). outer_scopes r.1.scopes ≡ outer)
                (if c
                  then ok (new_symbol tab d, linked tab (new_symbol tab d) frame outer)
                  else err Status.out_of_memory)
        room true = after refl
        room false = failed

pop_scope-scopes :
    (tab : Symtab) (scopes : List ScopeFrame)
    → 1 ≤ length scopes
    → outer_scopes tab.scopes ≡ scopes
    → (pop_scope tab).scopes ≡ scopes
unfolding pop_scope popped outer_scopes
pop_scope-scopes tab scopes k e = go tab.scopes e
  where
    go :
        (stack : List ScopeFrame) → outer_scopes stack ≡ scopes → (popped tab stack).scopes ≡ scopes
    go [] e = absurd (omega (arith, k, ap length e))
    go (frame ∷ []) e = absurd (omega (arith, k, ap length e))
    go (frame ∷ outer ∷ more) e = e

module _ (arena : Request → Bool) (realloc : ℕ → Bool) where
  -- Tables that the operations lead to
  pub data Reached : Symtab → Type 0 where
    started : Reached init
    pushed :
        {tab tab' : Symtab} (kind : ScopeKind)
        → Reached tab
        → push_scope realloc tab kind ≡ ok tab'
        → Reached tab'
    declared :
        {tab tab' : Symtab} (d : Declared) {s : Symbol}
        → Reached tab
        → insert_symbol arena tab d ≡ ok (s, tab')
        → Reached tab'
    closed : {tab : Symtab} → Reached tab → Reached (pop_scope tab)

  -- What happens between the braces of a block: declarations, and blocks within it
  pub data IsBlock : Symtab → Symtab → Type 0 where
    empty : {tab : Symtab} → IsBlock tab tab
    declares :
        {tab tab' last : Symtab} (d : Declared) {s : Symbol}
        → insert_symbol arena tab d ≡ ok (s, tab')
        → IsBlock tab' last
        → IsBlock tab last
    nests :
        {tab opened closing last : Symtab} (kind : ScopeKind)
        → push_scope realloc tab kind ≡ ok opened
        → IsBlock opened closing
        → IsBlock (pop_scope closing) last
        → IsBlock tab last

  After-ok : {A : Type 0} {P : A → Type 0} {m : Outcome A} {a : A} → m ≡ ok a → After P m → P a
  After-ok {P} {a} e h = from (rw e at h)
    where
      from : After P (ok a) → P a
      from (after p) = p

  Reached-IsSymtab : {tab : Symtab} → Reached tab → IsSymtab tab
  Reached-IsSymtab started = init-IsSymtab
  Reached-IsSymtab (pushed {tab} kind r e) =
      After-ok e (push_scope-IsSymtab realloc tab kind (Reached-IsSymtab r))
  Reached-IsSymtab (declared {tab} d r e) =
      After-ok e (insert_symbol-IsSymtab arena tab d (Reached-IsSymtab r))
  Reached-IsSymtab (closed {tab} r) = pop_scope-IsSymtab tab (Reached-IsSymtab r)

  IsBlock-scopes :
      {tab last : Symtab}
      → IsSymtab tab
      → IsBlock tab last
      → IsSymtab last × (outer_scopes last.scopes ≡ outer_scopes tab.scopes)
  IsBlock-scopes h empty = (h, refl)
  IsBlock-scopes {tab} h (declares {tab'} d {s} e b) =
      let ih : _ = IsBlock-scopes (After-ok e (insert_symbol-IsSymtab arena tab d h)) b in
      (ih.0, ih.1 ∙ After-ok e (insert_symbol-scopes arena tab d))
  IsBlock-scopes {tab} h (nests {opened} {closing} kind e b c) =
      let inner : _ = IsBlock-scopes (After-ok e (push_scope-IsSymtab realloc tab kind h)) b in
      let restored : (pop_scope closing).scopes ≡ tab.scopes =
        pop_scope-scopes closing tab.scopes h.opened
          (inner.1 ∙ After-ok e (push_scope-scopes realloc tab kind)) in
      let ih : _ = IsBlock-scopes (pop_scope-IsSymtab closing inner.0) c in
      (ih.0, ih.1 ∙ ap outer_scopes restored)

  -- A block leaves no trace: where a scope is opened in a table that the operations lead to, whatever
  -- is declared in it and in blocks within it, closing it gives back the open scopes, and every
  -- lookup finds what it found before.
  pub IsBlock-lookup :
      {tab opened closing : Symtab} (kind : ScopeKind) (name : List ℕ) (ns : Namespace)
      → Reached tab
      → push_scope realloc tab kind ≡ ok opened
      → IsBlock opened closing
      → ((pop_scope closing).scopes ≡ tab.scopes)
        × (lookup (pop_scope closing) name ns ≡ lookup tab name ns)
  IsBlock-lookup {tab} {opened} {closing} kind name ns r e b =
      let h : IsSymtab tab = Reached-IsSymtab r in
      let inner : _ = IsBlock-scopes (After-ok e (push_scope-IsSymtab realloc tab kind h)) b in
      let restored : (pop_scope closing).scopes ≡ tab.scopes =
        pop_scope-scopes closing tab.scopes h.opened
          (inner.1 ∙ After-ok e (push_scope-scopes realloc tab kind)) in
      (
        restored,
        lookup-nearest (pop_scope closing) name ns (pop_scope-IsSymtab closing inner.0)
            ∙ ap (nearest name ns) restored
            ∙ sym (lookup-nearest tab name ns h),
      )

  -- In every table that declarations and scopes, opened and closed in any order, lead to, a lookup
  -- finds the newest declaration of the name in the innermost open scope that has one in that name
  -- space, and finds none where no open scope has one.
  pub Reached-lookup :
      {tab : Symtab} (name : List ℕ) (ns : Namespace)
      → Reached tab
      → (lookup tab name ns ≡ nearest name ns tab.scopes)
        × IsVisible name ns tab.scopes (lookup tab name ns)
  Reached-lookup {tab} name ns r =
      let found = lookup-nearest tab name ns (Reached-IsSymtab r) in
      (found, rw found (nearest-IsVisible name ns tab.scopes))
