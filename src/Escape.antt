-- ===== src/Escape.antt =====
-- src/convert/internal/escape.c: escape sequences (ISO C 6.4.4.4, 6.4.3), over the bytes behind
-- the backslash. `room` tells whether the diagnostic sink can take one more.
pub mod Laws
use quicks_qcc.Prelude.{
  ℕ, zero, suc, ◌+◌, ◌-◌, ◌*◌, ◌%◌, ◌^◌, Bool, true, false, ◌&&◌, ◌||◌, List, [], ◌∷◌, Option, none,
  some, ltb, leb, ◌==◌, if◌then◌else◌,
}
use quicks_qcc.Status.{Status, Outcome, ok, err, ◌>>=◌}

-- `simple_escape`
unfoldable pub simple_escape : ℕ → Option ℕ
simple_escape c =
    if (c == 39) || (c == 34) || (c == 63) || (c == 92)
    then some c
    else if c == b'a'
    then some 7
    else if c == b'b'
    then some 8
    else if c == b'f'
    then some 12
    else if c == b'n'
    then some 10
    else if c == b'r'
    then some 13
    else if c == b't'
    then some 9
    else if c == b'v'
    then some 11
    else none

-- `hex_value`
unfoldable pub hex_value : ℕ → Option ℕ
hex_value c =
    if leb b'0' c && leb c b'9'
    then some (c - b'0')
    else if leb b'a' c && leb c b'f'
    then some (c - b'a' + 10)
    else if leb b'A' c && leb c b'F'
    then some (c - b'A' + 10)
    else none

-- `qcc_escape_kind`
pub data EscapeKind : Type 0 where
  raw ucn : EscapeKind

-- The messages of `qcc_decode_escape`
pub data Message : Type 0 where
  incomplete no_hex_digits incomplete_ucn invalid_ucn unknown : Message

-- What `qcc_decode_escape` writes: the value, its kind, what stands behind the sequence, and the
-- diagnostic, if one is reported
pub record Escaped : Type 0 where
  pub value : ℕ
  pub kind : EscapeKind
  pub rest : List ℕ
  pub diag : Option Message

abbrev pub is_octal : ℕ → Bool
is_octal c = leb b'0' c && leb c b'7'

-- The loop over at most `k` more octal digits
unfoldable pub octal_run : ℕ → ℕ → List ℕ → ℕ × List ℕ
octal_run zero v cs = (v, cs)
octal_run (suc k) v [] = (v, [])
octal_run (suc k) v (c ∷ cs) =
    let more = octal_run k ((v * 8 + (c - b'0')) % 2 ^ 32) cs in
    if is_octal c then more else (v, c ∷ cs)

-- A hexadecimal digit behind `v` in a `uint32_t`
abbrev pub push_hex : ℕ → ℕ → ℕ
push_hex v h = (v * 16 + h) % 2 ^ 32

-- The loop over the digits of `\x`
unfoldable pub hex_run : ℕ → List ℕ → ℕ × List ℕ
hex_run v [] = (v, [])
hex_run v (c ∷ cs) = elim (hex_value c) [ none ↦ (v, c ∷ cs) | some h ↦ hex_run (push_hex v h) cs ]

-- The loop over the `k` digits of a universal character name: how many are missing, the value,
-- and what stands behind
unfoldable pub ucn_run : ℕ → ℕ → List ℕ → ℕ × ℕ × List ℕ
ucn_run zero v cs = (0, v, cs)
ucn_run (suc k) v [] = (suc k, v, [])
ucn_run (suc k) v (c ∷ cs) = elim (hex_value c) [
  | none ↦ (suc k, v, c ∷ cs)
  | some h ↦ ucn_run k (push_hex v h) cs
]

abbrev pub starts_hex : List ℕ → Bool
starts_hex [] = false
starts_hex (c ∷ cs) = elim (hex_value c) [ none ↦ false | some h ↦ true ]

-- The diagnostic of a universal character name
unfoldable pub check_ucn : ℕ → ℕ → Option Message
check_ucn missing v =
    if ltb 0 missing
    then some incomplete_ucn
    else if (leb 0xD800 v && leb v 0xDFFF) || ltb 0x10FFFF v
    then some invalid_ucn
    else none

abbrev pub raw_value : ℕ × List ℕ → Option Message → Escaped
raw_value (v, cs) diag = record { value = v; kind = raw; rest = cs; diag = diag }

-- `\u` and `\U`, with their number of digits
unfoldable pub decode_ucn : ℕ → List ℕ → Escaped
unfolding ucn_run check_ucn
decode_ucn n cs =
    let (missing, v, rest) = ucn_run n 0 cs in
    record { value = v; kind = ucn; rest = rest; diag = check_ucn missing v }

-- `qcc_decode_escape` from the test for an octal digit on
unfoldable pub decode_other : ℕ → List ℕ → Escaped
unfolding octal_run hex_run decode_ucn
decode_other c cs =
    if is_octal c
    then raw_value (octal_run 3 0 (c ∷ cs)) none
    else if c == b'x'
    then (if starts_hex cs
        then raw_value (hex_run 0 cs) none
        else raw_value (b'x', cs) (some no_hex_digits))
    else if c == b'u'
    then decode_ucn 4 cs
    else if c == b'U'
    then decode_ucn 8 cs
    else raw_value (c, cs) (some unknown)

-- All branches of `qcc_decode_escape`, as far as the diagnostic is recorded
unfoldable pub decode : List ℕ → Escaped
unfolding decode_other
decode [] = raw_value (92, []) (some incomplete)
decode (c ∷ cs) = elim (simple_escape c) [
  | none ↦ decode_other c cs
  | some v ↦ raw_value (v, cs) none
]

-- The status of `qcc_diag_emit`, where there is a diagnostic
abbrev pub recorded : Bool → Escaped → Option Message → Outcome Escaped
recorded room r none = ok r
recorded room r (some m) = if room then ok r else err Status.out_of_memory

-- `qcc_decode_escape`
unfoldable pub decode_escape : Bool → List ℕ → Outcome Escaped
unfolding decode
decode_escape room body = recorded room (decode body) (decode body).diag
