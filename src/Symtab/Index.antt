-- ===== src/Symtab/Index.antt =====
-- The hash table of a symbol table: its chains hold the symbols of the open scopes, innermost first.
use quicks_qcc.Prelude.{
  ℕ, suc, ◌-◌, ◌*◌, ◌≤◌, ◌≡◌, ◌≢◌, refl, sym, ap, ◌∙◌, Bool, true, false, ◌&&◌, ◌||◌, List, [], ◌∷◌,
  ◌++◌, arith, ◌==◌, if◌then◌else◌, length, ==_iff,
}
use mathlib.Core.Bool.{true≢false}
use quicks_qcc.Status.{Status, ok, err, After, after, failed}
use quicks_qcc.Symtab.{
  Symbol, ScopeFrame, ScopeKind, Symtab, Declared, Request, hash_name, bucket_index, init,
  push_scope, without, with_chain, unlink_from_bucket, unlink_all, popped, pop_scope, new_symbol,
  linked, inserted, insert_symbol,
}

-- The symbols of the open scopes, innermost and newest first
unfoldable pub live : List ScopeFrame → List Symbol
live [] = []
live (frame ∷ scopes) = frame.symbols ++ live scopes

-- Those of a bucket
unfoldable pub chain_of : ℕ → List Symbol → List Symbol
chain_of i [] = []
chain_of i (s ∷ symbols) =
    let rest = chain_of i symbols in if i == bucket_index s.hash then s ∷ rest else rest

-- Symbols whose hashes are those of their names
abbrev pub AreHashed : List Symbol → Type 0
AreHashed [] = Unit
AreHashed (s ∷ symbols) = (s.hash ≡ hash_name s.name) × AreHashed symbols

-- Every chain is made of the live symbols of its bucket, in their order.
abbrev pub AreChains : (ℕ → List Symbol) → List Symbol → Type 0
AreChains buckets symbols = (i : ℕ) → buckets i ≡ chain_of i symbols

pub record IsSymtab (tab : Symtab) : Type 0 where
  pub chains : AreChains tab.buckets (live tab.scopes)
  pub hashed : AreHashed (live tab.scopes)
  pub counted : tab.symbol_count ≡ length (live tab.scopes)
  pub opened : 1 ≤ length tab.scopes
  pub fits : length tab.scopes ≤ tab.scope_cap

pub init-IsSymtab : IsSymtab init
unfolding init live chain_of
init-IsSymtab = record {
  chains = λ i. refl;
  hashed = tt;
  counted = refl;
  opened = omega arith;
  fits = omega arith;
}

pub push_scope-IsSymtab :
    (realloc : ℕ → Bool) (tab : Symtab) (kind : ScopeKind)
    → IsSymtab tab
    → After IsSymtab (push_scope realloc tab kind)
unfolding push_scope live
push_scope-IsSymtab realloc tab kind h =
    go (length tab.scopes == tab.scope_cap) refl (realloc (tab.scope_cap * 2 * 16))
  where
    scopes : List ScopeFrame
    scopes = record { kind = kind; symbols = [] } ∷ tab.scopes

    differ : (length tab.scopes == tab.scope_cap) ≡ false → length tab.scopes ≢ tab.scope_cap
    differ e same =
        absurd (true≢false (sym ((==_iff (length tab.scopes) tab.scope_cap).1 same) ∙ e))

    go :
        (c : Bool)
        → (length tab.scopes == tab.scope_cap) ≡ c
        → (d : Bool)
        → After IsSymtab (
            if c
            then (if d
                then ok (record tab { scopes = scopes; scope_cap = tab.scope_cap * 2 })
                else err Status.out_of_memory)
            else ok (record tab { scopes = scopes }))
    go true e true = after record {
      chains = h.chains;
      hashed = h.hashed;
      counted = h.counted;
      opened = omega arith;
      fits = omega (arith, h.fits, h.opened);
    }
    go true e false = failed
    go false e d = after record {
      chains = h.chains;
      hashed = h.hashed;
      counted = h.counted;
      opened = omega arith;
      fits = omega (arith, h.fits, differ e);
    }

-- A new symbol at the head of its chain is the newest of the live ones.
with_chain-AreChains :
    (buckets : ℕ → List Symbol) (s : Symbol) (symbols : List Symbol)
    → AreChains buckets symbols
    → AreChains
        (with_chain buckets (bucket_index s.hash) (s ∷ buckets (bucket_index s.hash)))
        (s ∷ symbols)
unfolding chain_of
with_chain-AreChains buckets s symbols h i = go (i == bucket_index s.hash) refl
  where
    here : ℕ
    here = bucket_index s.hash

    go :
        (c : Bool)
        → (i == bucket_index s.hash) ≡ c
        → (if c then s ∷ buckets here else buckets i)
          ≡ (if c then s ∷ chain_of i symbols else chain_of i symbols)
    go true e =
        ap (λ (t : List Symbol). s ∷ t)
          (ap buckets (sym ((==_iff i (bucket_index s.hash)).0 e)) ∙ h i)
    go false e = h i

pub insert_symbol-IsSymtab :
    (arena : Request → Bool) (tab : Symtab) (d : Declared)
    → IsSymtab tab
    → After (λ (r : Symbol × Symtab). IsSymtab r.1) (insert_symbol arena tab d)
unfolding insert_symbol inserted linked new_symbol live
insert_symbol-IsSymtab arena tab d h = go tab.scopes refl
  where
    fresh : Symbol
    fresh = new_symbol tab d

    link :
        (frame : ScopeFrame) (outer : List ScopeFrame)
        → tab.scopes ≡ frame ∷ outer
        → IsSymtab (linked tab fresh frame outer)
    link frame outer e = record {
      chains =
          with_chain-AreChains tab.buckets fresh (frame.symbols ++ live outer) (rw e at h.chains);
      hashed = (refl, rw e at h.hashed);
      counted =
          let n : tab.symbol_count ≡ length (frame.symbols ++ live outer) = rw e at h.counted in
          omega (arith, n);
      opened = omega arith;
      fits = let n : suc (length outer) ≤ tab.scope_cap = rw e at h.fits in n;
    }

    go :
        (scopes : List ScopeFrame)
        → tab.scopes ≡ scopes
        → After (λ (r : Symbol × Symtab). IsSymtab r.1) (inserted arena tab d scopes)
    go [] e = failed
    go (frame ∷ outer) e =
        room
          (arena Request.symbol && (arena (Request.copy (length d.name)) || (length d.name == 0)))
      where
        room :
            (c : Bool)
            → After
                (λ (r : Symbol × Symtab). IsSymtab r.1)
                (if c then ok (fresh, linked tab fresh frame outer) else err Status.out_of_memory)
        room true = after (link frame outer e)
        room false = failed

-- Taking the newest live symbol out of its chain leaves the others.
unlink-AreChains :
    (buckets : ℕ → List Symbol) (s : Symbol) (symbols : List Symbol)
    → AreChains buckets (s ∷ symbols)
    → AreChains (unlink_from_bucket buckets s) symbols
unfolding unlink_from_bucket without chain_of
unlink-AreChains buckets s symbols h i = go (i == bucket_index s.hash) refl
  where
    here : ℕ
    here = bucket_index s.hash

    itself : (n : ℕ) → (n == n) ≡ true
    itself n = ground arith

    head : buckets here ≡ s ∷ chain_of here symbols
    head = h here ∙ rw (itself here) refl

    go :
        (c : Bool)
        → (i == bucket_index s.hash) ≡ c
        → (if c then without (buckets here) s.id else buckets i) ≡ chain_of i symbols
    go true e =
        rw (head, itself s.id)
          (ap (λ (j : ℕ). chain_of j symbols) (sym ((==_iff i (bucket_index s.hash)).0 e)))
    go false e = h i ∙ rw e refl

-- What closing a scope leaves of the table, and of its capacity nothing else
pub record IsUnlinked (tab tab' : Symtab) (symbols : List Symbol) : Type 0 where
  pub chains : AreChains tab'.buckets symbols
  pub hashed : AreHashed symbols
  pub counted : tab'.symbol_count ≡ length symbols
  pub capacity : tab'.scope_cap ≡ tab.scope_cap

unlink_all-IsUnlinked :
    (tab : Symtab) (symbols rest : List Symbol)
    → AreChains tab.buckets (symbols ++ rest)
    → AreHashed (symbols ++ rest)
    → tab.symbol_count ≡ length (symbols ++ rest)
    → IsUnlinked tab (unlink_all tab symbols) rest
unfolding unlink_all
unlink_all-IsUnlinked tab [] rest c h n = record {
  chains = c;
  hashed = h;
  counted = n;
  capacity = refl;
}
unlink_all-IsUnlinked tab (s ∷ symbols) rest c h n =
    let next : Symtab = record tab {
      buckets = unlink_from_bucket tab.buckets s;
      symbol_count = tab.symbol_count - 1;
    } in
    let others : IsUnlinked next (unlink_all next symbols) rest =
      unlink_all-IsUnlinked next symbols rest (unlink-AreChains tab.buckets s (symbols ++ rest) c)
        h.1 (omega (arith, n)) in
    record {
      chains = others.chains;
      hashed = others.hashed;
      counted = others.counted;
      capacity = others.capacity;
    }

pub pop_scope-IsSymtab : (tab : Symtab) → IsSymtab tab → IsSymtab (pop_scope tab)
unfolding pop_scope popped live
pop_scope-IsSymtab tab h = go tab.scopes refl
  where
    go : (scopes : List ScopeFrame) → tab.scopes ≡ scopes → IsSymtab (popped tab scopes)
    go [] e = h
    go (frame ∷ []) e = h
    go (frame ∷ outer ∷ scopes) e =
        let rest : IsUnlinked tab (unlink_all tab frame.symbols) (live (outer ∷ scopes)) =
          unlink_all-IsUnlinked tab frame.symbols (live (outer ∷ scopes)) (rw e at h.chains)
            (rw e at h.hashed) (rw e at h.counted) in
        let fewer : suc (suc (length scopes)) ≤ tab.scope_cap = rw e at h.fits in
        record {
          chains = rest.chains;
          hashed = rest.hashed;
          counted = rest.counted;
          opened = omega arith;
          fits = omega (arith, fewer, rest.capacity);
        }
