-- ===== src/Encoding/Utf8.antt =====
-- UTF-8: decoding what was encoded.
use quicks_qcc.Prelude.{
  ℕ, suc, ◌+◌, ◌*◌, ◌/◌, ◌%◌, ◌^◌, ◌≤◌, ◌<◌, ◌≡◌, ◌⊎◌, refl, true, List, [], ◌∷◌, ◌++◌, Option,
  none, some, bit_and, bit_or, length, arith,
}
use quicks_qcc.Prelude.Bits.{bit_or_sum, bit_and_mask, bit_and_high}
use quicks_qcc.Encoding.{
  utf8_lead_length, Decoded, continued, continuation, checked, utf8_decode, utf8_encode,
}

-- A Unicode scalar value
abbrev pub IsScalar : ℕ → Type 0
IsScalar cp = (cp ≤ 0x10FFFF) × ((cp < 0xD800) ⊎ (0xDFFF < cp))

-- Continuation bytes
abbrev pub tail_byte : ℕ → ℕ
tail_byte x = 0x80 + x

pub low_bits : (a : ℕ) → bit_or 0x80 (bit_and a 0x3F) ≡ tail_byte (a % 64)
low_bits a = rw (bit_and_mask 6 a) (bit_or_sum 6 2 (a % 64) (omega arith))

pub encode_2 :
    (cp : ℕ) → 0x80 ≤ cp → cp < 0x800 → utf8_encode cp ≡ (0xC0 + cp / 64) ∷ tail_byte (cp % 64) ∷ []
unfolding utf8_encode
encode_2 cp lo hi = ground (arith, low_bits cp, bit_or_sum 5 6 (cp / 64) (omega arith))

pub encode_3 :
    (cp : ℕ)
    → 0x800 ≤ cp
    → cp < 0x10000
    → utf8_encode cp ≡ (0xE0 + cp / 4096) ∷ tail_byte (cp / 64 % 64) ∷ tail_byte (cp % 64) ∷ []
unfolding utf8_encode
encode_3 cp lo hi =
    ground (arith, low_bits cp, low_bits (cp / 64), bit_or_sum 4 14 (cp / 4096) (omega arith))

pub encode_4 :
    (cp : ℕ)
    → 0x10000 ≤ cp
    → cp ≤ 0x10FFFF
    → utf8_encode cp
      ≡ (0xF0 + cp / 2 ^ 18)
        ∷ tail_byte (cp / 4096 % 64)
        ∷ tail_byte (cp / 64 % 64)
        ∷ tail_byte (cp % 64)
        ∷ []
unfolding utf8_encode
encode_4 cp lo hi = ground (
  arith,
  low_bits cp,
  low_bits (cp / 64),
  low_bits (cp / 4096),
  bit_or_sum 3 30 (cp / 2 ^ 18) (omega arith),
)

-- The two top bits of a continuation byte, and its six bits of value
pub is_continuation : (x : ℕ) → x < 64 → bit_and (tail_byte x) 0xC0 ≡ 0x80
is_continuation x h = bit_and_high 6 2 3 x h

pub payload : (x : ℕ) → x < 64 → bit_and (tail_byte x) 0x3F ≡ x
payload x h = omega (arith, bit_and_mask 6 (tail_byte x))

pub continued_lem : (acc x : ℕ) → acc < 2 ^ 26 → x < 64 → continued acc (tail_byte x) ≡ acc * 64 + x
unfolding continued
continued_lem acc x h k =
    let shifted : acc * 2 ^ 6 % 2 ^ 32 ≡ acc * 2 ^ 6 = omega arith in
    rw (payload x k, shifted) (bit_or_sum 6 acc x k)

pub continuation_step :
    (k acc x : ℕ) (bs : List ℕ)
    → acc < 2 ^ 26
    → x < 64
    → continuation (suc k) (tail_byte x ∷ bs) acc ≡ continuation k bs (acc * 64 + x)
unfolding continuation
continuation_step k acc x bs h g = rw (is_continuation x g, continued_lem acc x h g) refl

pub decode_2 :
    (h x : ℕ) (bs : List ℕ)
    → 2 ≤ h
    → h < 32
    → x < 64
    → utf8_decode (0xC0 + h) (tail_byte x ∷ bs)
      ≡ record { cp = h * 64 + x; consumed = 2; valid = true }
unfolding utf8_decode utf8_lead_length checked continuation
decode_2 h x bs l u k =
    ground
      (arith, bit_and_mask 5 (0xC0 + h), is_continuation x k, continued_lem h x (omega arith) k)

pub decode_3 :
    (h x y : ℕ) (bs : List ℕ)
    → h < 16
    → x < 64
    → y < 64
    → 0x800 ≤ (h * 64 + x) * 64 + y
    → ((h * 64 + x) * 64 + y < 0xD800) ⊎ (0xDFFF < (h * 64 + x) * 64 + y)
    → utf8_decode (0xE0 + h) (tail_byte x ∷ tail_byte y ∷ bs)
      ≡ record { cp = (h * 64 + x) * 64 + y; consumed = 3; valid = true }
unfolding utf8_decode utf8_lead_length checked continuation
decode_3 h x y bs u k l least scalar = ground (
  arith,
  bit_and_mask 4 (0xE0 + h),
  is_continuation x k,
  is_continuation y l,
  continued_lem h x (omega arith) k,
  continued_lem (h * 64 + x) y (omega arith) l,
)

pub decode_4 :
    (h x y z : ℕ) (bs : List ℕ)
    → h < 5
    → x < 64
    → y < 64
    → z < 64
    → 0x10000 ≤ ((h * 64 + x) * 64 + y) * 64 + z
    → ((h * 64 + x) * 64 + y) * 64 + z ≤ 0x10FFFF
    → utf8_decode (0xF0 + h) (tail_byte x ∷ tail_byte y ∷ tail_byte z ∷ bs)
      ≡ record { cp = ((h * 64 + x) * 64 + y) * 64 + z; consumed = 4; valid = true }
unfolding utf8_decode utf8_lead_length checked continuation
decode_4 h x y z bs u k l m least most = ground (
  arith,
  bit_and_mask 3 (0xF0 + h),
  is_continuation x k,
  is_continuation y l,
  is_continuation z m,
  continued_lem h x (omega arith) k,
  continued_lem (h * 64 + x) y (omega arith) l,
  continued_lem ((h * 64 + x) * 64 + y) z (omega arith) m,
)

-- What is decoded from the bytes that were encoded, with `bs` behind them
abbrev pub decode_all : List ℕ → List ℕ → Option Decoded
decode_all [] bs = none
decode_all (b ∷ more) bs = some (utf8_decode b (more ++ bs))

abbrev Decodes : ℕ → List ℕ → List ℕ → Type 0
Decodes cp es bs = decode_all es bs ≡ some (record { cp = cp; consumed = length es; valid = true })

one_byte : (cp : ℕ) (bs : List ℕ) → cp < 0x80 → Decodes cp (utf8_encode cp) bs
unfolding utf8_encode utf8_decode utf8_lead_length
one_byte cp bs h = ground arith

two_bytes : (cp : ℕ) (bs : List ℕ) → 0x80 ≤ cp → cp < 0x800 → Decodes cp (utf8_encode cp) bs
two_bytes cp bs lo hi =
    rw
      (encode_2 cp lo hi, decode_2 (cp / 64) (cp % 64) bs (omega arith) (omega arith) (omega arith))
      (ground arith)

three_bytes :
    (cp : ℕ) (bs : List ℕ)
    → 0x800 ≤ cp
    → cp < 0x10000
    → (cp < 0xD800) ⊎ (0xDFFF < cp)
    → Decodes cp (utf8_encode cp) bs
three_bytes cp bs lo hi scalar =
    let whole : (cp / 4096 * 64 + cp / 64 % 64) * 64 + cp % 64 ≡ cp = omega arith in
    rw
      (
        encode_3 cp lo hi,
        decode_3 (cp / 4096) (cp / 64 % 64) (cp % 64) bs (omega arith) (omega arith) (omega arith)
            (omega arith) (rw whole scalar),
      )
      (ground arith)

four_bytes : (cp : ℕ) (bs : List ℕ) → 0x10000 ≤ cp → cp ≤ 0x10FFFF → Decodes cp (utf8_encode cp) bs
four_bytes cp bs lo hi =
    let whole : ((cp / 2 ^ 18 * 64 + cp / 4096 % 64) * 64 + cp / 64 % 64) * 64 + cp % 64 ≡ cp =
      omega arith in
    rw
      (
        encode_4 cp lo hi,
        decode_4 (cp / 2 ^ 18) (cp / 4096 % 64) (cp / 64 % 64) (cp % 64) bs (omega arith)
            (omega arith) (omega arith) (omega arith) (omega arith) (omega arith),
      )
      (ground arith)

-- Decoding the UTF-8 bytes of a Unicode scalar value, whatever bytes stand behind them, gives the
-- value back, consumes exactly those bytes, and reports them well-formed.
pub decode_encode :
    (cp : ℕ) (bs : List ℕ)
    → IsScalar cp
    → decode_all (utf8_encode cp) bs
      ≡ some (record { cp = cp; consumed = length (utf8_encode cp); valid = true })
decode_encode cp bs (most, scalar) =
    ground (arith, one_byte cp bs, two_bytes cp bs, three_bytes cp bs, four_bytes cp bs)
