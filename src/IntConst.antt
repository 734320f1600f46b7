-- ===== src/IntConst.antt =====
-- src/convert/internal/intconst.c: the value and the type of an integer constant (ISO C 6.4.4.1),
-- over the bytes of its lexeme. `room n` tells whether the diagnostic sink can take one more
-- behind `n`.
pub mod Numeral
pub mod Candidates
pub mod Typing
use quicks_qcc.Prelude.{
  ℕ, zero, suc, ◌+◌, ◌-◌, ◌*◌, ◌/◌, ◌%◌, ◌^◌, Bool, true, false, not, ◌&&◌, ◌||◌, List, [], ◌∷◌,
  Option, none, some, ltb, leb, ◌==◌, if◌then◌else◌, length,
}
use quicks_qcc.Prelude.Word.{u64}
use quicks_qcc.Status.{Status, Outcome, ok, err, ◌>>=◌}
use quicks_qcc.Token.{IntType}

-- `digit_value`, before the base is looked at
unfoldable pub hex_value : ℕ → Option ℕ
hex_value c =
    if leb b'0' c && leb c b'9'
    then some (c - b'0')
    else if leb b'a' c && leb c b'f'
    then some (c - b'a' + 10)
    else if leb b'A' c && leb c b'F'
    then some (c - b'A' + 10)
    else none

abbrev pub below_base : ℕ → Option ℕ → Option ℕ
below_base base none = none
below_base base (some v) = if ltb v base then some v else none

-- `digit_value`
unfoldable pub digit_value : ℕ → ℕ → Option ℕ
unfolding hex_value
digit_value c base = below_base base (hex_value c)

-- `QCC_INT_MAX_U`, `QCC_UINT_MAX_U`, `QCC_LONG_MAX_U`, and that of `uint64_t`
unfoldable pub type_max : IntType → ℕ
type_max IntType.int = 0x7FFFFFFF
type_max IntType.uint = 0xFFFFFFFF
type_max IntType.long = 0x7FFFFFFFFFFFFFFF
type_max IntType.ulong = 2 ^ 64 - 1
type_max IntType.llong = 0x7FFFFFFFFFFFFFFF
type_max IntType.ullong = 2 ^ 64 - 1

-- `fits`, on a `uint64_t`
unfoldable pub fits : ℕ → IntType → Bool
unfolding type_max
fits value IntType.ulong = true
fits value IntType.ullong = true
fits value t = leb value (type_max t)

-- The base, whether the constant is decimal, and what stands behind the prefix
pub record Prefix : Type 0 where
  pub base : ℕ
  pub is_decimal : Bool
  pub body : List ℕ

abbrev pub decimal : List ℕ → Prefix
decimal s = record { base = 10; is_decimal = true; body = s }

abbrev pub octal : List ℕ → Prefix
octal s = record { base = 8; is_decimal = false; body = s }

abbrev pub hexadecimal : List ℕ → Prefix
hexadecimal s = record { base = 16; is_decimal = false; body = s }

-- The prefix of `qcc_eval_integer`
unfoldable pub prefix : List ℕ → Prefix
prefix [] = decimal []
prefix (z ∷ []) = if z == b'0' then octal [] else decimal (z ∷ [])
prefix (z ∷ x ∷ s) =
    if z == b'0'
    then (if (x == b'x') || (x == b'X') then hexadecimal s else octal (x ∷ s))
    else decimal (z ∷ x ∷ s)

-- The state of the digit loop
pub record Digits : Type 0 where
  pub value : ℕ
  pub overflow : Bool
  pub behind : List ℕ

-- The digit loop
unfoldable pub accumulate : ℕ → ℕ → Bool → List ℕ → Digits
accumulate base value overflow [] = record { value = value; overflow = overflow; behind = [] }
accumulate base value overflow (c ∷ cs) = elim (digit_value c base) [
  | none ↦ record { value = value; overflow = overflow; behind = c ∷ cs }
  | some d ↦
      accumulate base (u64 (u64 (value * base) + d))
        (if ltb ((2 ^ 64 - 1 - d) / base) value then true else overflow) cs
]

-- The state of the suffix loop; `bad` is set where the loop stops in front of `left`.
pub record Suffix : Type 0 where
  pub u_seen : Bool
  pub l_rank : ℕ
  pub bad : Bool
  pub left : List ℕ

-- The suffix loop
unfoldable pub suffix : Bool → ℕ → List ℕ → Suffix
suffix u l [] = record { u_seen = u; l_rank = l; bad = false; left = [] }
suffix u l (c ∷ []) =
    if (c == b'u') || (c == b'U')
    then record { u_seen = true; l_rank = l; bad = u; left = if u then c ∷ [] else [] }
    else if ((c == b'l') || (c == b'L')) && (l == 0)
    then record { u_seen = u; l_rank = 1; bad = false; left = [] }
    else record { u_seen = u; l_rank = l; bad = true; left = c ∷ [] }
suffix u l (c ∷ d ∷ cs) =
    let stop : Suffix = record { u_seen = u; l_rank = l; bad = true; left = c ∷ d ∷ cs } in
    let after_u = suffix true l (d ∷ cs) in
    let after_l = suffix u 1 (d ∷ cs) in
    let after_ll = suffix u 2 cs in
    if (c == b'u') || (c == b'U')
    then (if u then stop else after_u)
    else if ((c == b'l') || (c == b'L')) && (l == 0)
    then (if d == c then after_ll else after_l)
    else stop

-- The candidate types of a constant: `u_seen`, `l_rank`, `is_decimal`
unfoldable pub candidates : Bool → ℕ → Bool → List IntType
candidates true zero dec = IntType.uint ∷ IntType.ulong ∷ IntType.ullong ∷ []
candidates true (suc zero) dec = IntType.ulong ∷ IntType.ullong ∷ []
candidates true (suc (suc l)) dec = IntType.ullong ∷ []
candidates false zero true = IntType.int ∷ IntType.long ∷ IntType.llong ∷ []
candidates false zero false =
    IntType.int ∷ IntType.uint ∷ IntType.long ∷ IntType.ulong ∷ IntType.llong ∷ IntType.ullong ∷ []
candidates false (suc zero) true = IntType.long ∷ IntType.llong ∷ []
candidates false (suc zero) false =
    IntType.long ∷ IntType.ulong ∷ IntType.llong ∷ IntType.ullong ∷ []
candidates false (suc (suc l)) true = IntType.llong ∷ []
candidates false (suc (suc l)) false = IntType.llong ∷ IntType.ullong ∷ []

-- The loop over the candidates
unfoldable pub first_fit : ℕ → List IntType → Option IntType
unfolding fits
first_fit value [] = none
first_fit value (t ∷ ts) = if fits value t then some t else first_fit value ts

-- The messages of `qcc_eval_integer`
pub data Message : Type 0 where
  invalid_hexadecimal invalid_octal_digit invalid_suffix too_large is_unsigned : Message

-- What `qcc_eval_integer` writes; the last diagnostic stands first.
pub record Constant : Type 0 where
  pub value : ℕ
  pub type : IntType
  pub diags : List Message

abbrev pub is_octal_error : ℕ → List ℕ → Bool
is_octal_error base [] = false
is_octal_error base (c ∷ cs) = (base == 8) && ((c == b'8') || (c == b'9'))

abbrev pub is_empty : List ℕ → Bool
is_empty [] = true
is_empty (c ∷ cs) = false

module _ (room : ℕ → Bool) where
  -- `qcc_diag_emit`
  unfoldable pub emit : Message → List Message → Outcome (List Message)
  emit m diags = if room (length diags) then ok (m ∷ diags) else err Status.out_of_memory

  -- The end of `qcc_eval_integer`, from the search for the type on
  unfoldable pub typed : ℕ → List Message → Option IntType → Outcome Constant
  unfolding emit
  typed value diags none = emit is_unsigned diags >>= λ d.
      ok (record { value = value; type = IntType.ullong; diags = d })
  typed value diags (some t) = ok (record { value = value; type = t; diags = diags })

  -- The check of what stands behind the digits and the suffix
  unfoldable pub check_end : ℕ → Suffix → Outcome (List Message)
  unfolding emit
  check_end base x =
      if x.bad || not (is_empty x.left)
      then emit (if is_octal_error base x.left then invalid_octal_digit else invalid_suffix) []
      else ok []

  -- The check of the overflow flag
  unfoldable pub check_overflow : Bool → List Message → Outcome (List Message)
  unfolding emit
  check_overflow overflow diags = if overflow then emit too_large diags else ok diags

  -- `qcc_eval_integer`
  unfoldable pub eval_integer : List ℕ → Outcome Constant
  unfolding prefix accumulate suffix candidates first_fit typed check_end check_overflow
  eval_integer s =
      let p = prefix s in
      let n = accumulate p.base 0 false p.body in
      let x = suffix false 0 n.behind in
      if (p.base == 16) && (length n.behind == length p.body)
      then (emit invalid_hexadecimal [] >>= λ d.
          ok (record { value = 0; type = IntType.int; diags = d }))
      else check_end p.base x >>= λ bad. check_overflow n.overflow bad >>= λ large.
          typed n.value large (first_fit n.value (candidates x.u_seen x.l_rank p.is_decimal))
