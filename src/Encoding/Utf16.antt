-- ===== src/Encoding/Utf16.antt =====
-- UTF-16: the units that encode a code point, and its value read back from them (Unicode 3.8).
use quicks_qcc.Prelude.{
  ℕ, ◌+◌, ◌-◌, ◌*◌, ◌≡◌, ◌&&◌, List, [], ◌∷◌, Option, none, some, if◌then◌else◌, arith,
}
use quicks_qcc.Prelude.Bits.{bit_and_mask}
use quicks_qcc.Encoding.{utf16_encode, between}
use quicks_qcc.Encoding.Utf8.{IsScalar}

-- A reader of UTF-16: a unit outside the surrogates, or a high surrogate and a low one
unfoldable pub utf16_value : List ℕ → Option ℕ
utf16_value [] = none
utf16_value (u ∷ []) = if between 0xD800 0xDFFF u then none else some u
utf16_value (u ∷ v ∷ us) =
    if between 0xD800 0xDBFF u && between 0xDC00 0xDFFF v
    then some (0x10000 + (u - 0xD800) * 0x400 + (v - 0xDC00))
    else none

-- A Unicode scalar value is encoded in one unit that is no surrogate, or in a high and a low
-- surrogate, and an independent reader of UTF-16 gets it back from them.
pub utf16_value-encode : (cp : ℕ) → IsScalar cp → utf16_value (utf16_encode cp) ≡ some cp
unfolding utf16_value utf16_encode
utf16_value-encode cp (most, scalar) = ground (arith, bit_and_mask 10 (cp - 0x10000))
