-- ===== src/CType.antt =====
-- src/type/type.h and type.c: C types, their classification, size, alignment and compatibility.
-- A node carries the address at which the arena holds it, since `qcc_type_equal` compares
-- pointers first; `null` is the null pointer, at address 0.
pub mod Size
pub mod Classes
pub mod Equal
use quicks_qcc.Prelude.{
  ℕ, zero, ◌*◌, ◌==◌, Bool, true, false, not, ◌&&◌, ◌||◌, List, [], ◌∷◌, if◌then◌else◌, length,
}
use quicks_qcc.Prelude.Word.{u64}

-- The basic kinds of `qcc_type_kind`, below `QCC_TYPE_BASIC_END`
pub data Basic : Type 0 where
  void bool char schar uchar short ushort int uint long ulong llong ullong : Basic
  float double ldouble : Basic

-- The kinds that carry a tag
pub data TagKind : Type 0 where
  struct union enum : TagKind

-- `struct qcc_type`: a constructor for each kind, with the fields that are valid for it.
-- The first two fields are the node's address and its `qualifiers`.
mutual
  pub data CType : Type 0 where
    null : CType
    basic : ℕ → ℕ → Basic → CType
    -- `pointee`
    pointer : ℕ → ℕ → CType → CType
    -- `element`, `array_len`, `array_complete`
    array : ℕ → ℕ → CType → ℕ → Bool → CType
    -- `ret`, `params`, `variadic`
    function : ℕ → ℕ → CType → Params → Bool → CType
    -- the kind, the bytes of `tag` (none if it is anonymous), `complete`
    tagged : ℕ → ℕ → TagKind → List ℕ → Bool → CType

  pub data Params : Type 0 where
    none : Params
    param : CType → Params → Params

abbrev pub address : CType → ℕ
address null = 0
address (basic p q k) = p
address (pointer p q t) = p
address (array p q t n c) = p
address (function p q r ps v) = p
address (tagged p q k s c) = p

-- `qcc_type_is_integer`
unfoldable pub is_integer : CType → Bool
is_integer (basic p q Basic.void) = false
is_integer (basic p q Basic.float) = false
is_integer (basic p q Basic.double) = false
is_integer (basic p q Basic.ldouble) = false
is_integer (basic p q k) = true
is_integer (tagged p q TagKind.enum s c) = true
is_integer t = false

-- `qcc_type_is_floating`
unfoldable pub is_floating : CType → Bool
is_floating (basic p q Basic.float) = true
is_floating (basic p q Basic.double) = true
is_floating (basic p q Basic.ldouble) = true
is_floating t = false

-- `qcc_type_is_arithmetic`
unfoldable pub is_arithmetic : CType → Bool
unfolding is_integer is_floating
is_arithmetic t = is_integer t || is_floating t

abbrev is_pointer : CType → Bool
is_pointer (pointer p q t) = true
is_pointer t = false

-- `qcc_type_is_scalar`
unfoldable pub is_scalar : CType → Bool
unfolding is_arithmetic
is_scalar t = is_arithmetic t || is_pointer t

-- `qcc_type_is_signed_integer`; plain `char` is signed on the target
unfoldable pub is_signed_integer : CType → Bool
is_signed_integer (basic p q Basic.char) = true
is_signed_integer (basic p q Basic.schar) = true
is_signed_integer (basic p q Basic.short) = true
is_signed_integer (basic p q Basic.int) = true
is_signed_integer (basic p q Basic.long) = true
is_signed_integer (basic p q Basic.llong) = true
is_signed_integer (tagged p q TagKind.enum s c) = true
is_signed_integer t = false

-- `qcc_type_is_unsigned_integer`
unfoldable pub is_unsigned_integer : CType → Bool
is_unsigned_integer (basic p q Basic.bool) = true
is_unsigned_integer (basic p q Basic.uchar) = true
is_unsigned_integer (basic p q Basic.ushort) = true
is_unsigned_integer (basic p q Basic.uint) = true
is_unsigned_integer (basic p q Basic.ulong) = true
is_unsigned_integer (basic p q Basic.ullong) = true
is_unsigned_integer t = false

-- The cases of `qcc_type_size` for a basic kind
abbrev pub basic_size : Basic → ℕ
basic_size Basic.void = 0
basic_size Basic.bool = 1
basic_size Basic.char = 1
basic_size Basic.schar = 1
basic_size Basic.uchar = 1
basic_size Basic.short = 2
basic_size Basic.ushort = 2
basic_size Basic.int = 4
basic_size Basic.uint = 4
basic_size Basic.long = 8
basic_size Basic.ulong = 8
basic_size Basic.llong = 8
basic_size Basic.ullong = 8
basic_size Basic.float = 4
basic_size Basic.double = 8
basic_size Basic.ldouble = 16

-- `qcc_type_size`, in `uint64_t` arithmetic
unfoldable pub size : CType → ℕ
size (basic p q k) = basic_size k
size (pointer p q t) = 8
size (tagged p q TagKind.enum s c) = 4
size (array p q t n c) = let whole = u64 (n * size t) in if c then whole else 0
size t = 0

-- `qcc_type_align`
unfoldable pub align : CType → ℕ
unfolding size
align (array p q t n c) = align t
align t = size t

-- `memcmp(a, b, n) == 0` of two byte strings of one length
abbrev pub same_bytes : List ℕ → List ℕ → Bool
same_bytes [] [] = true
same_bytes (x ∷ xs) (y ∷ ys) = (x == y) && same_bytes xs ys
same_bytes _ _ = false

abbrev pub basic_index : Basic → ℕ
basic_index Basic.void = 0
basic_index Basic.bool = 1
basic_index Basic.char = 2
basic_index Basic.schar = 3
basic_index Basic.uchar = 4
basic_index Basic.short = 5
basic_index Basic.ushort = 6
basic_index Basic.int = 7
basic_index Basic.uint = 8
basic_index Basic.long = 9
basic_index Basic.ulong = 10
basic_index Basic.llong = 11
basic_index Basic.ullong = 12
basic_index Basic.float = 13
basic_index Basic.double = 14
basic_index Basic.ldouble = 15

abbrev pub tag_index : TagKind → ℕ
tag_index TagKind.struct = 19
tag_index TagKind.union = 20
tag_index TagKind.enum = 21

abbrev same_flag : Bool → Bool → Bool
same_flag true b = b
same_flag false b = not b

-- Two known bounds must agree; an unknown bound is compatible with any.
abbrev pub same_bound : ℕ → Bool → ℕ → Bool → Bool
same_bound n c m d = if c && d then n == m else true

-- `qcc_type_equal`: the pointers first, then the kind, the qualifiers and the constituents
unfoldable mutual
  pub equal : CType → CType → Bool
  equal null b = address b == 0
  equal (basic p q k) (basic p' q' k') =
      (p == p') || ((basic_index k == basic_index k') && (q == q'))
  equal (pointer p q t) (pointer p' q' t') = (p == p') || ((q == q') && equal t t')
  equal (array p q t n c) (array p' q' t' n' c') =
      (p == p') || ((q == q') && (equal t t' && same_bound n c n' c'))
  equal (function p q r ps v) (function p' q' r' ps' v') =
      (p == p') || ((q == q') && (equal r r' && (same_flag v v' && equal_params ps ps')))
  equal (tagged p q k s c) (tagged p' q' k' s' c') =
      (p == p')
      || ((tag_index k == tag_index k')
          && ((q == q') && ((length s == length s') && (not (length s == 0) && same_bytes s s'))))
  equal a b = address a == address b

  -- the counts agree, and so does each pair of parameters
  pub equal_params : Params → Params → Bool
  equal_params none none = true
  equal_params (param t ts) (param t' ts') = equal t t' && equal_params ts ts'
  equal_params _ _ = false
