-- ===== src/CondEval/Literal.antt =====
-- ceval.c: `parse_int_literal` and `parse_char_literal`, over the bytes of a spelling.
use mathlib.Core.Option
use quicks_qcc.Prelude.{
  ℕ, zero, suc, ◌+◌, ◌-◌, ◌*◌, ◌%◌, ◌^◌, Bool, true, false, not, ◌&&◌, ◌||◌, List, [], ◌∷◌, Option,
  none, some, bit_or, ltb, leb, ◌==◌, if◌then◌else◌, length,
}
use quicks_qcc.Prelude.Word.{u64}
use quicks_qcc.CondEval.Base.{
  Cval, make_int, SyntaxError, invalid_hexadecimal, invalid_octal_digit, invalid_integer,
  invalid_suffix, too_large, invalid_character, no_hex_digits, empty_character, floating_constant,
}

abbrev pub in_range : ℕ → ℕ → ℕ → Bool
in_range lo hi c = leb lo c && leb c hi

-- The digit that `c` stands for in a base, if it continues the digits
unfoldable pub digit : ℕ → ℕ → Option ℕ
digit base c =
    if in_range b'0' b'9' c
    then some (c - b'0')
    else if (base == 16) && in_range b'a' b'f' c
    then some (10 + (c - b'a'))
    else if (base == 16) && in_range b'A' b'F' c
    then some (10 + (c - b'A'))
    else none

-- Where the digit loop leaves off: at an invalid octal digit, or at the suffix.
pub data Digits : Type 0 where
  bad_octal : Digits
  stop : ℕ → Bool → List ℕ → Digits

-- The digit loop from `value`; `overflow` is set where the product and sum wrap below `value`.
unfoldable pub digits : ℕ → ℕ → Bool → List ℕ → Digits
digits base value overflow [] = stop value overflow []
digits base value overflow (c ∷ cs) = elim (digit base c) [
  | none ↦ stop value overflow (c ∷ cs)
  | some d ↦
      let next = u64 (value * base + d) in
      let more = digits base next (ltb next value || overflow) cs in
      if (base == 8) && leb 8 d then bad_octal else more
]

-- The suffix loop: how many `u` and `l` there are, or nothing at another character
unfoldable pub suffix : ℕ → ℕ → List ℕ → Option (ℕ × ℕ)
suffix u_count l_count [] = some (u_count, l_count)
suffix u_count l_count (c ∷ cs) =
    let as_u = suffix (u_count + 1) l_count cs in
    let as_l = suffix u_count (l_count + 1) cs in
    if (c == b'u') || (c == b'U') then as_u else if (c == b'l') || (c == b'L') then as_l else none

-- A literal's value with the error that it reports, if any
abbrev pub Reading : Type 0
Reading = Cval × Option SyntaxError

abbrev bad : SyntaxError → Reading
bad e = (make_int 0 false, some e)

-- The end of `parse_int_literal`, from the counts of the suffix
unfoldable pub finish_int : ℕ → Bool → Option (ℕ × ℕ) → Reading
finish_int value overflow none = bad invalid_suffix
finish_int value overflow (some (u_count, l_count)) =
    if ltb 1 u_count || ltb 2 l_count
    then bad invalid_suffix
    else if overflow
    then bad too_large
    else (make_int value (ltb (2 ^ 63 - 1) value || (u_count == 1)), none)

-- The digits and the suffix after the prefix of a base; `start` are the bytes after that prefix.
unfoldable pub read_int : ℕ → List ℕ → Reading
unfolding digits suffix finish_int
read_int base start = elim (digits base 0 false start) [
  | bad_octal ↦ bad invalid_octal_digit
  | stop value overflow rest ↦
      if (length rest == length start) && not (base == 8)
      then bad invalid_integer
      else finish_int value overflow (suffix 0 0 rest)
]

-- `parse_int_literal`
unfoldable pub parse_int_literal : List ℕ → Reading
unfolding read_int
parse_int_literal (a ∷ b ∷ rest) =
    if (a == b'0') && ((b == b'x') || (b == b'X'))
    then (if length rest == 0 then bad invalid_hexadecimal else read_int 16 rest)
    else if a == b'0'
    then read_int 8 (b ∷ rest)
    else read_int 10 (a ∷ b ∷ rest)
parse_int_literal (a ∷ []) = if a == b'0' then read_int 8 [] else read_int 10 (a ∷ [])
parse_int_literal [] = read_int 10 []

-- The bytes after the first quote
unfoldable pub after_quote : List ℕ → Option (List ℕ)
after_quote [] = none
after_quote (c ∷ cs) = if c == 39 then some cs else after_quote cs

-- The hexadecimal run of `case 'x':`, in `unsigned int`: the value, whether a digit was read, and
-- the bytes behind it
unfoldable pub hex_run : ℕ → Bool → List ℕ → ℕ × Bool × List ℕ
hex_run hv got [] = (hv, got, [])
hex_run hv got (c ∷ cs) = elim (digit 16 c) [
  | none ↦ (hv, got, c ∷ cs)
  | some d ↦ hex_run ((hv * 16 + d) % 2 ^ 32) true cs
]

-- At most `n` further octal digits
unfoldable pub octal_run : ℕ → ℕ → List ℕ → ℕ × List ℕ
octal_run zero ov cs = (ov, cs)
octal_run (suc n) ov [] = (ov, [])
octal_run (suc n) ov (c ∷ cs) =
    let more = octal_run n (ov * 8 + (c - b'0')) cs in
    if in_range b'0' b'7' c then more else (ov, c ∷ cs)

-- The letters of the `switch` that stand for one character
unfoldable pub simple_char : ℕ → Option ℕ
simple_char e =
    if e == b'n'
    then some 10
    else if e == b't'
    then some 9
    else if e == b'r'
    then some 13
    else if e == b'0'
    then some 0
    else if (e == 92) || ((e == 39) || (e == 34))
    then some e
    else if e == b'a'
    then some 7
    else if e == b'b'
    then some 8
    else if e == b'f'
    then some 12
    else if e == b'v'
    then some 11
    else none

-- One character after a backslash: its code, the bytes behind it, and the error it reports
unfoldable pub escape : ℕ → List ℕ → ℕ × List ℕ × Option SyntaxError
unfolding hex_run octal_run
escape e cs = elim (simple_char e) [
  | some ch ↦ (ch, cs, none)
  | none ↦
      if e == b'x'
      then (let (hv, got, rest) = hex_run 0 false cs in
          (hv % 256, rest, if got then none else some no_hex_digits))
      else if in_range b'1' b'7' e
      then (let (ov, rest) = octal_run 2 (e - b'0') cs in (ov % 256, rest, none))
      else (e, cs, none)
]

-- The character at the head of the bytes `c ∷ cs`, escaped or not
unfoldable pub next_char : ℕ → List ℕ → ℕ × List ℕ × Option SyntaxError
unfolding escape
next_char c [] = (c, [], none)
next_char c (e ∷ cs) = if c == 92 then escape e cs else (c, e ∷ cs, none)

abbrev pub keep_first : Option SyntaxError → Option SyntaxError → Option SyntaxError
keep_first none e = e
keep_first (some d) e = some d

-- `(value << 8) | (ch & 0xff)`
abbrev pub pack_char : ℕ → ℕ → ℕ
pack_char value ch = bit_or (u64 (value * 256)) (ch % 256)

-- The character loop on fuel, up to the closing quote; `none` means that the fuel ran out.
unfoldable pub chars :
    ℕ → ℕ → Bool → Option SyntaxError → List ℕ → Option (ℕ × Bool × Option SyntaxError)
unfolding next_char
chars zero value any error cs = none
chars (suc f) value any error [] = some (value, any, error)
chars (suc f) value any error (c ∷ cs) =
    let (ch, rest, e) = next_char c cs in
    let more = chars f (pack_char value ch) true (keep_first error e) rest in
    if c == 39 then some (value, any, error) else more

-- The end of `parse_char_literal`, after the loop
abbrev pub finish_char : ℕ × Bool × Option SyntaxError → Reading
finish_char (value, any, error) =
    (make_int value false, if any then error else keep_first error (some empty_character))

-- `parse_char_literal`; each round takes a byte at least, so one unit of fuel for each byte and
-- one more are enough.
unfoldable pub parse_char_literal : List ℕ → Option Reading
unfolding after_quote chars
parse_char_literal s = elim (after_quote s) [
  | none ↦ some (bad invalid_character)
  | some cs ↦ Option.map finish_char (chars (suc (length cs)) 0 false none cs)
]

-- The test of `parse_primary` for a floating constant, on the spelling of a pp-number
abbrev floating_from : Bool → List ℕ → Bool
floating_from octal [] = false
floating_from octal (c ∷ cs) =
    ((c == b'.') || ((((c == b'e') || (c == b'E')) && not octal) || ((c == b'p') || (c == b'P'))))
    || floating_from octal cs

unfoldable pub is_floating : List ℕ → Bool
is_floating [] = false
is_floating (c ∷ cs) = floating_from (c == b'0') (c ∷ cs)

-- The value of a pp-number in `parse_primary`
unfoldable pub number : List ℕ → Reading
unfolding is_floating parse_int_literal
number s = if is_floating s then bad floating_constant else parse_int_literal s
