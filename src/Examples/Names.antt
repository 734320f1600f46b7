-- ===== src/Examples/Names.antt =====
-- The symbol table at concrete inputs.
use quicks_qcc.Prelude.{
  ℕ, ◌≡◌, refl, Bool, true, ◌*◌, ◌^◌, ◌<◌, ◌↔◌, ltb, ltb→lt, some, List, [], ◌∷◌,
}
use quicks_qcc.Status.{ok}
use quicks_qcc.Intern.{
  Intern, init as Intern_init, intern_bytes, copied, stored, probe, probe_from, is_full,
}
use quicks_qcc.Intern.Unique.{done, call, Calls-same}
use quicks_qcc.Symtab.{
  Namespace, SymKind, ScopeKind, Symtab, Declared, Request, init, push_scope, pop_scope, new_symbol,
  linked, inserted, insert_symbol, lookup,
}
use quicks_qcc.Symtab.Lookup.{nearest}
use quicks_qcc.Symtab.Nearest.{IsVisible}
use quicks_qcc.Symtab.Nested.{
  started, pushed, declared, declares, empty, Reached-lookup, IsBlock-lookup,
}

abbrev arena : Request → Bool
arena request = true

abbrev realloc : ℕ → Bool
realloc size = true

-- `typedef ... T` at file scope, and an object `T` in a block
abbrev type_name : Declared
type_name = record {
  name = b'T' ∷ [];
  ns = Namespace.ordinary;
  kind = SymKind.typedef_;
  ctype = 1;
  enum_value = 0;
  source = 0;
  offset = 12;
  line = 1;
  column = 13;
}

abbrev object_name : Declared
object_name = record type_name { kind = SymKind.object; offset = 30; line = 2; column = 9 }

abbrev with_type : Symtab
with_type =
    linked init (new_symbol init type_name) record { kind = ScopeKind.file; symbols = [] } []

abbrev in_block : Symtab
in_block = record with_type {
  scopes = record { kind = ScopeKind.block; symbols = [] } ∷ with_type.scopes;
}

abbrev with_object : Symtab
with_object =
    linked in_block (new_symbol in_block object_name)
      record { kind = ScopeKind.block; symbols = [] } with_type.scopes

declared_type : insert_symbol arena init type_name ≡ ok (new_symbol init type_name, with_type)
unfolding insert_symbol inserted init
declared_type = refl

opened_block : push_scope realloc with_type ScopeKind.block ≡ ok in_block
unfolding push_scope linked init
opened_block = refl

declared_object :
    insert_symbol arena in_block object_name ≡ ok (new_symbol in_block object_name, with_object)
unfolding insert_symbol inserted linked
declared_object = refl

Reached-lookup_example :
    (lookup with_object (b'T' ∷ []) Namespace.ordinary
      ≡ nearest (b'T' ∷ []) Namespace.ordinary with_object.scopes)
    × IsVisible
        (b'T' ∷ [])
        Namespace.ordinary
        with_object.scopes
        (lookup with_object (b'T' ∷ []) Namespace.ordinary)
Reached-lookup_example = Reached-lookup arena realloc (b'T' ∷ []) Namespace.ordinary (
    declared object_name
      (pushed ScopeKind.block (declared type_name started declared_type) opened_block)
      declared_object)

IsBlock-lookup_example :
    ((pop_scope with_object).scopes ≡ with_type.scopes)
    × (lookup (pop_scope with_object) (b'T' ∷ []) Namespace.ordinary
        ≡ lookup with_type (b'T' ∷ []) Namespace.ordinary)
IsBlock-lookup_example =
    IsBlock-lookup arena realloc ScopeKind.block (b'T' ∷ []) Namespace.ordinary
      (declared type_name started declared_type) opened_block
      (declares object_name declared_object empty)

abbrev slots_fit : ℕ → Bool
slots_fit n = ltb (n * 24) (2 ^ 64)

abbrev fits : ℕ → Bool
fits n = true

abbrev keyword : List ℕ
keyword = b'i' ∷ b'f' ∷ []

abbrev other : List ℕ
other = b'x' ∷ []

slots_fit-lt : (n : ℕ) → slots_fit n ≡ true → n * 24 < 2 ^ 64
slots_fit-lt n e = ltb→lt (n * 24) (2 ^ 64) e

abbrev with_keyword : Intern
with_keyword = (intern_bytes slots_fit fits Intern_init keyword).1

abbrev with_both : Intern
with_both = (intern_bytes slots_fit fits with_keyword other).1

first_address : (intern_bytes slots_fit fits Intern_init keyword).0 ≡ some 0
unfolding intern_bytes copied stored Intern_init probe probe_from is_full
first_address = refl

other_address : (intern_bytes slots_fit fits with_both other).0 ≡ some 1
unfolding intern_bytes copied stored Intern_init probe probe_from is_full
other_address = refl

Calls-same_example : ◌≡◌ {A = ℕ} 0 1 ↔ (keyword ≡ other)
Calls-same_example =
    Calls-same slots_fit fits slots_fit-lt keyword other 0 1 done first_address (call other done)
      other_address
