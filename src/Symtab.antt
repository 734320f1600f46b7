-- ===== src/Symtab.antt =====
-- src/symtab/symtab.c: the symbol table. A symbol stands for the object in the arena; its `id` is
-- the address, by which symbols are compared as pointers. The links `bucket_next` and `scope_next`
-- are the lists that the buckets and the scopes are. Types and sources are addresses too. `arena`
-- and `realloc` tell whether memory of a kind can be had.
pub mod Index
pub mod Lookup
pub mod Nearest
pub mod Nested
use quicks_qcc.Prelude.{
  ℕ, zero, suc, ◌+◌, ◌-◌, ◌*◌, ◌%◌, ◌^◌, bit_and, bit_xor, Bool, true, false, ◌&&◌, ◌||◌, List, [],
  ◌∷◌, Option, none, some, leb, ◌==◌, if◌then◌else◌, length,
}
use quicks_qcc.Prelude.Word.{u64}
use quicks_qcc.Status.{Status, Outcome, ok, err, ◌>>=◌}

-- `qcc_sym_namespace`
pub data Namespace : Type 0 where
  ordinary tag : Namespace

-- `qcc_sym_kind`
pub data SymKind : Type 0 where
  typedef_ object function_ enum_const tag : SymKind

-- `qcc_scope_kind`
pub data ScopeKind : Type 0 where
  file block prototype : ScopeKind

-- `qcc_symbol`; `enum_value` is the two's complement word of an `int64_t`.
pub record Symbol : Type 0 where
  pub id : ℕ
  pub name : List ℕ
  pub ns : Namespace
  pub kind : SymKind
  pub ctype : ℕ
  pub enum_value : ℕ
  pub source : ℕ
  pub offset : ℕ
  pub line : ℕ
  pub column : ℕ
  pub depth : ℕ
  pub hash : ℕ

-- `qcc_scope_frame`
pub record ScopeFrame : Type 0 where
  pub kind : ScopeKind
  pub symbols : List Symbol

-- `qcc_symtab`; the innermost scope comes first, and `made` counts the symbols in the arena.
pub record Symtab : Type 0 where
  pub buckets : ℕ → List Symbol
  pub symbol_count : ℕ
  pub scopes : List ScopeFrame
  pub scope_cap : ℕ
  pub made : ℕ

-- `SYMTAB_INITIAL_BUCKETS`, which is `bucket_count` for good, and `SYMTAB_INITIAL_SCOPES`
abbrev pub bucket_count : ℕ
bucket_count = 256

abbrev pub initial_scopes : ℕ
initial_scopes = 8

-- The loop of `hash_name`
unfoldable pub hash_from : ℕ → List ℕ → ℕ
hash_from h [] = h
hash_from h (c ∷ cs) = hash_from (u64 (bit_xor h c * 1099511628211)) cs

-- `hash_name`
unfoldable pub hash_name : List ℕ → ℕ
unfolding hash_from
hash_name name = hash_from 1469598103934665603 name

-- `(size_t)(hash & (tab->bucket_count - 1))`
unfoldable pub bucket_index : ℕ → ℕ
bucket_index hash = bit_and hash (bucket_count - 1)

-- `qcc_symtab_init`, where the memory could be had
unfoldable pub init : Symtab
init = record {
  buckets = λ i. [];
  symbol_count = 0;
  scopes = record { kind = ScopeKind.file; symbols = [] } ∷ [];
  scope_cap = initial_scopes;
  made = 0;
}

-- `qcc_symtab_push_scope`; a frame has 16 bytes.
unfoldable pub push_scope : (ℕ → Bool) → Symtab → ScopeKind → Outcome Symtab
push_scope realloc tab kind =
    let scopes = record { kind = kind; symbols = [] } ∷ tab.scopes in
    if length tab.scopes == tab.scope_cap
    then (if realloc (tab.scope_cap * 2 * 16)
        then ok (record tab { scopes = scopes; scope_cap = tab.scope_cap * 2 })
        else err Status.out_of_memory)
    else ok (record tab { scopes = scopes })

-- The chain of `unlink_from_bucket` without a symbol
unfoldable pub without : List Symbol → ℕ → List Symbol
without [] id = []
without (s ∷ chain) id = let rest = without chain id in if s.id == id then chain else s ∷ rest

-- The buckets with another chain at an index
abbrev pub with_chain : (ℕ → List Symbol) → ℕ → List Symbol → ℕ → List Symbol
with_chain buckets i chain j = if j == i then chain else buckets j

-- `unlink_from_bucket`
unfoldable pub unlink_from_bucket : (ℕ → List Symbol) → Symbol → ℕ → List Symbol
unfolding without bucket_index
unlink_from_bucket buckets sym =
    let i = bucket_index sym.hash in with_chain buckets i (without (buckets i) sym.id)

-- The loop of `qcc_symtab_pop_scope`
unfoldable pub unlink_all : Symtab → List Symbol → Symtab
unfolding unlink_from_bucket
unlink_all tab [] = tab
unlink_all tab (s ∷ symbols) =
    unlink_all
      (record tab {
        buckets = unlink_from_bucket tab.buckets s;
        symbol_count = tab.symbol_count - 1;
      })
      symbols

-- `qcc_symtab_pop_scope` on a stack of scopes
unfoldable pub popped : Symtab → List ScopeFrame → Symtab
unfolding unlink_all
popped tab [] = tab
popped tab (frame ∷ []) = tab
popped tab (frame ∷ outer ∷ scopes) = record (unlink_all tab frame.symbols) {
  scopes = outer ∷ scopes;
}

-- `qcc_symtab_pop_scope`
unfoldable pub pop_scope : Symtab → Symtab
unfolding popped
pop_scope tab = popped tab tab.scopes

-- `qcc_symtab_depth`
unfoldable pub depth : Symtab → ℕ
depth tab = length tab.scopes - 1

-- What the arena is asked for: an object for a symbol, or a copy of a name
pub data Request : Type 0 where
  symbol : Request
  copy : ℕ → Request

-- A declaration, as the arguments of `insert_symbol` describe it
pub record Declared : Type 0 where
  pub name : List ℕ
  pub ns : Namespace
  pub kind : SymKind
  pub ctype : ℕ
  pub enum_value : ℕ
  pub source : ℕ
  pub offset : ℕ
  pub line : ℕ
  pub column : ℕ

-- The symbol that `insert_symbol` fills in
unfoldable pub new_symbol : Symtab → Declared → Symbol
unfolding hash_name
new_symbol tab d = record {
  id = tab.made;
  name = d.name;
  ns = d.ns;
  kind = d.kind;
  ctype = d.ctype;
  enum_value = d.enum_value;
  source = d.source;
  offset = d.offset;
  line = d.line;
  column = d.column;
  depth = length tab.scopes - 1;
  hash = hash_name d.name;
}

-- The links of `insert_symbol`
unfoldable pub linked : Symtab → Symbol → ScopeFrame → List ScopeFrame → Symtab
unfolding bucket_index
linked tab sym frame outer =
    let i = bucket_index sym.hash in
    record {
      buckets = with_chain tab.buckets i (sym ∷ tab.buckets i);
      symbol_count = tab.symbol_count + 1;
      scopes = record frame { symbols = sym ∷ frame.symbols } ∷ outer;
      scope_cap = tab.scope_cap;
      made = tab.made + 1;
    }

module _ (arena : Request → Bool) where
  -- `insert_symbol` on a stack of scopes
  unfoldable pub inserted : Symtab → Declared → List ScopeFrame → Outcome (Symbol × Symtab)
  unfolding new_symbol linked
  inserted tab d [] = err Status.invalid_argument
  inserted tab d (frame ∷ outer) =
      if arena Request.symbol && (arena (Request.copy (length d.name)) || (length d.name == 0))
      then (let sym = new_symbol tab d in ok (sym, linked tab sym frame outer))
      else err Status.out_of_memory

  -- `insert_symbol`
  unfoldable pub insert_symbol : Symtab → Declared → Outcome (Symbol × Symtab)
  unfolding inserted
  insert_symbol tab d = inserted tab d tab.scopes

  -- `qcc_symtab_insert`
  unfoldable pub insert : Symtab → Declared → Outcome (Symbol × Symtab)
  unfolding insert_symbol
  insert tab d = insert_symbol tab (record d { enum_value = 0 })

  -- `qcc_symtab_insert_enum_const`
  unfoldable pub insert_enum_const : Symtab → Declared → Outcome (Symbol × Symtab)
  unfolding insert_symbol
  insert_enum_const tab d =
      insert_symbol tab (record d { ns = Namespace.ordinary; kind = SymKind.enum_const })

abbrev pub same_namespace : Namespace → Namespace → Bool
same_namespace Namespace.ordinary Namespace.ordinary = true
same_namespace Namespace.tag Namespace.tag = true
same_namespace _ _ = false

-- Equal lengths, and equal bytes
abbrev pub same_name : List ℕ → List ℕ → Bool
same_name [] [] = true
same_name [] (d ∷ ds) = false
same_name (c ∷ cs) [] = false
same_name (c ∷ cs) (d ∷ ds) = (c == d) && same_name cs ds

-- The test in the loops of the two lookups
abbrev pub is_match : List ℕ → Namespace → Symbol → Bool
is_match name ns s = same_namespace s.ns ns && same_name s.name name

-- The loops of the two lookups
unfoldable pub find : List ℕ → Namespace → List Symbol → Option Symbol
find name ns [] = none
find name ns (s ∷ chain) =
    let rest = find name ns chain in if is_match name ns s then some s else rest

-- `qcc_symtab_lookup`
unfoldable pub lookup : Symtab → List ℕ → Namespace → Option Symbol
unfolding find hash_name bucket_index
lookup tab name ns = find name ns (tab.buckets (bucket_index (hash_name name)))

-- `qcc_symtab_lookup_current_scope`
unfoldable pub lookup_current_scope : Symtab → List ℕ → Namespace → Option Symbol
unfolding find
lookup_current_scope tab name ns = elim tab.scopes [
  | [] ↦ none
  | frame ∷ outer ↦ find name ns frame.symbols
]

abbrev pub is_typedef : Option Symbol → Bool
is_typedef none = false
is_typedef (some s) = elim s.kind [ SymKind.typedef_ ↦ true | _ ↦ false ]

-- `qcc_symtab_is_typedef_name`
unfoldable pub is_typedef_name : Symtab → List ℕ → Bool
unfolding lookup
is_typedef_name tab name = is_typedef (lookup tab name Namespace.ordinary)
