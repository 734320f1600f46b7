-- ===== src/Encoding.antt =====
-- src/convert/internal/encoding.c: UTF-8 and UTF-16 (RFC 3629, ADR-0018). A byte is a number below
-- 256, a code point one below 2 ^ 32.
pub mod Utf8
pub mod Strict
pub mod Accepts
pub mod Utf16
use quicks_qcc.Prelude.{
  ℕ, zero, suc, ◌+◌, ◌-◌, ◌*◌, ◌/◌, ◌%◌, ◌^◌, Bool, true, false, not, ◌&&◌, ◌||◌, List, [], ◌∷◌,
  Option, none, some, bit_and, bit_or, ltb, leb, ◌==◌, if◌then◌else◌, length,
}
use quicks_qcc.Token.{CharEncoding}

-- `qcc_encoding_unit_size`
unfoldable pub unit_size : CharEncoding → ℕ
unit_size CharEncoding.plain = 1
unit_size CharEncoding.utf8 = 1
unit_size CharEncoding.char16 = 2
unit_size CharEncoding.wide = 4
unit_size CharEncoding.char32 = 4

-- `qcc_encoding_unit_max`
unfoldable pub unit_max : CharEncoding → ℕ
unit_max CharEncoding.plain = 0xFF
unit_max CharEncoding.utf8 = 0xFF
unit_max CharEncoding.char16 = 0xFFFF
unit_max CharEncoding.wide = 0xFFFFFFFF
unit_max CharEncoding.char32 = 0xFFFFFFFF

abbrev pub between : ℕ → ℕ → ℕ → Bool
between lo hi n = leb lo n && leb n hi

-- `utf8_lead_length`
unfoldable pub utf8_lead_length : ℕ → ℕ
utf8_lead_length b =
    if ltb b 0x80
    then 1
    else if between 0xC2 0xDF b
    then 2
    else if between 0xE0 0xEF b
    then 3
    else if between 0xF0 0xF4 b
    then 4
    else 0

-- `min_for_len`
abbrev pub min_for_len : ℕ → ℕ
min_for_len n = if n == 2 then 0x80 else if n == 3 then 0x800 else if n == 4 then 0x10000 else 0

-- What `qcc_utf8_decode` writes and returns: the code point, the bytes consumed, and whether the
-- sequence is well-formed
pub record Decoded : Type 0 where
  pub cp : ℕ
  pub consumed : ℕ
  pub valid : Bool

-- One byte as Latin-1
abbrev pub latin1 : ℕ → Decoded
latin1 b = record { cp = b; consumed = 1; valid = false }

-- One continuation byte: the `uint32_t` shift, `|` and mask
unfoldable pub continued : ℕ → ℕ → ℕ
continued acc c = bit_or (acc * 2 ^ 6 % 2 ^ 32) (bit_and c 0x3F)

-- The loop over the `k` continuation bytes; nothing where a byte is not one
unfoldable pub continuation : ℕ → List ℕ → ℕ → Option ℕ
unfolding continued
continuation zero bs acc = some acc
continuation (suc k) [] acc = none
continuation (suc k) (c ∷ bs) acc =
    if bit_and c 0xC0 == 0x80 then continuation k bs (continued acc c) else none

-- The end of `qcc_utf8_decode`: over-long encodings, surrogates and what is above the range
unfoldable pub checked : ℕ → ℕ → Option ℕ → Decoded
checked b n none = latin1 b
checked b n (some acc) =
    if ltb acc (min_for_len n) || between 0xD800 0xDFFF acc || ltb 0x10FFFF acc
    then latin1 b
    else record { cp = acc; consumed = n; valid = true }

-- `qcc_utf8_decode` at the byte `b`, with `bs` behind it
unfoldable pub utf8_decode : ℕ → List ℕ → Decoded
unfolding utf8_lead_length continuation checked
utf8_decode b bs =
    let n = utf8_lead_length b in
    if n == 1
    then record { cp = b; consumed = 1; valid = true }
    else if (n == 0) || ltb (length bs + 1) n
    then latin1 b
    else checked b n (continuation (n - 1) bs (bit_and b (0x7F / 2 ^ n)))

-- A cast to `unsigned char`
abbrev pub byte : ℕ → ℕ
byte n = n % 2 ^ 8

-- `qcc_utf8_encode`: the bytes written
unfoldable pub utf8_encode : ℕ → List ℕ
utf8_encode cp =
    let low = byte (bit_or 0x80 (bit_and cp 0x3F)) in
    let middle = byte (bit_or 0x80 (bit_and (cp / 2 ^ 6) 0x3F)) in
    let high = byte (bit_or 0x80 (bit_and (cp / 2 ^ 12) 0x3F)) in
    if ltb cp 0x80
    then byte cp ∷ []
    else if ltb cp 0x800
    then byte (bit_or 0xC0 (cp / 2 ^ 6)) ∷ low ∷ []
    else if ltb cp 0x10000
    then byte (bit_or 0xE0 (cp / 2 ^ 12)) ∷ middle ∷ low ∷ []
    else byte (bit_or 0xF0 (cp / 2 ^ 18)) ∷ high ∷ middle ∷ low ∷ []

-- `qcc_utf16_encode`: the units written
unfoldable pub utf16_encode : ℕ → List ℕ
utf16_encode cp =
    let v = cp - 0x10000 in
    if ltb cp 0x10000
    then cp % 2 ^ 16 ∷ []
    else (0xD800 + v / 2 ^ 10) % 2 ^ 16 ∷ (0xDC00 + bit_and v 0x3FF) % 2 ^ 16 ∷ []
