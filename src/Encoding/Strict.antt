-- ===== src/Encoding/Strict.antt =====
-- UTF-8: what the decoder accepts as well-formed, and that it always moves on.
use quicks_qcc.Prelude.{
  ℕ, ◌+◌, ◌*◌, ◌/◌, ◌%◌, ◌^◌, ◌≤◌, ◌<◌, ◌≡◌, ◌⊎◌, inl, inr, refl, ap, true, List, ◌∷◌, ◌++◌,
  bit_and, length, arith,
}
use quicks_qcc.Prelude.Bits.{bit_and_mask, bit_and_high}
use quicks_qcc.Encoding.{utf8_lead_length, Decoded, continuation, checked, utf8_decode, utf8_encode}
use quicks_qcc.Encoding.Utf8.{
  IsScalar, tail_byte, encode_2, encode_3, encode_4, decode_2, decode_3, decode_4, is_continuation,
  continued_lem,
}

pub continuation_byte :
    (c : ℕ) → c < 256 → bit_and c 0xC0 ≡ 0x80 → (x : ℕ) × (x < 64) × (c ≡ tail_byte x)
continuation_byte c h e = (
  c % 64,
  omega arith,
  omega (
    arith,
    ap (λ (t : ℕ). bit_and t 0xC0) split,
    bit_and_high 6 (c / 64) 3 (c % 64) (omega arith),
    bit_and_mask 2 (c / 64),
  ),
)
  where
    split : c ≡ c / 64 * 2 ^ 6 + c % 64
    split = omega arith

-- The bytes `bs` begin with the encoding of the scalar value that was decoded.
pub record IsStrict (bs : List ℕ) (d : Decoded) : Type 0 where
  pub scalar : IsScalar d.cp
  pub length_consumed : d.consumed ≡ length (utf8_encode d.cp)
  pub rest : List ℕ
  pub bytes : bs ≡ utf8_encode d.cp ++ rest

pub IsStrict-2 :
    (h x : ℕ) (bs : List ℕ)
    → 2 ≤ h
    → h < 32
    → x < 64
    → IsStrict ((0xC0 + h) ∷ tail_byte x ∷ bs) (utf8_decode (0xC0 + h) (tail_byte x ∷ bs))
IsStrict-2 h x bs l u k = rw (decode_2 h x bs l u k) (record {
  scalar = (omega arith, inl (omega arith));
  length_consumed = rw (encode_2 (h * 64 + x) (omega arith) (omega arith)) refl;
  rest = bs;
  bytes = rw (encode_2 (h * 64 + x) (omega arith) (omega arith), high, low) refl;
})
  where
    high : (h * 64 + x) / 64 ≡ h
    high = omega arith

    low : (h * 64 + x) % 64 ≡ x
    low = omega arith

accepted_3 :
    (h x y : ℕ) (bs : List ℕ)
    → h < 16
    → x < 64
    → y < 64
    → (utf8_decode (0xE0 + h) (tail_byte x ∷ tail_byte y ∷ bs)).valid ≡ true
    → (0x800 ≤ (h * 64 + x) * 64 + y)
      × (((h * 64 + x) * 64 + y < 0xD800) ⊎ (0xDFFF < (h * 64 + x) * 64 + y))
unfolding utf8_decode utf8_lead_length checked continuation
accepted_3 h x y bs u k l v = ground (
  arith,
  bit_and_mask 4 (0xE0 + h),
  is_continuation x k,
  is_continuation y l,
  continued_lem h x (omega arith) k,
  continued_lem (h * 64 + x) y (omega arith) l,
)

pub IsStrict-3 :
    (h x y : ℕ) (bs : List ℕ)
    → h < 16
    → x < 64
    → y < 64
    → (utf8_decode (0xE0 + h) (tail_byte x ∷ tail_byte y ∷ bs)).valid ≡ true
    → IsStrict
        ((0xE0 + h) ∷ tail_byte x ∷ tail_byte y ∷ bs)
        (utf8_decode (0xE0 + h) (tail_byte x ∷ tail_byte y ∷ bs))
IsStrict-3 h x y bs u k l v =
    let (least, scalar) = accepted_3 h x y bs u k l v in
    let encoded = encode_3 ((h * 64 + x) * 64 + y) least (omega arith) in
    rw (decode_3 h x y bs u k l least scalar) (record {
      scalar = (omega arith, scalar);
      length_consumed = rw encoded refl;
      rest = bs;
      bytes = rw (encoded, high, middle, low) refl;
    })
  where
    high : ((h * 64 + x) * 64 + y) / 4096 ≡ h
    high = omega arith

    middle : ((h * 64 + x) * 64 + y) / 64 % 64 ≡ x
    middle = omega arith

    low : ((h * 64 + x) * 64 + y) % 64 ≡ y
    low = omega arith

accepted_4 :
    (h x y z : ℕ) (bs : List ℕ)
    → h < 5
    → x < 64
    → y < 64
    → z < 64
    → (utf8_decode (0xF0 + h) (tail_byte x ∷ tail_byte y ∷ tail_byte z ∷ bs)).valid ≡ true
    → (0x10000 ≤ ((h * 64 + x) * 64 + y) * 64 + z) × (((h * 64 + x) * 64 + y) * 64 + z ≤ 0x10FFFF)
unfolding utf8_decode utf8_lead_length checked continuation
accepted_4 h x y z bs u k l m v = ground (
  arith,
  bit_and_mask 3 (0xF0 + h),
  is_continuation x k,
  is_continuation y l,
  is_continuation z m,
  continued_lem h x (omega arith) k,
  continued_lem (h * 64 + x) y (omega arith) l,
  continued_lem ((h * 64 + x) * 64 + y) z (omega arith) m,
)

pub IsStrict-4 :
    (h x y z : ℕ) (bs : List ℕ)
    → h < 5
    → x < 64
    → y < 64
    → z < 64
    → (utf8_decode (0xF0 + h) (tail_byte x ∷ tail_byte y ∷ tail_byte z ∷ bs)).valid ≡ true
    → IsStrict
        ((0xF0 + h) ∷ tail_byte x ∷ tail_byte y ∷ tail_byte z ∷ bs)
        (utf8_decode (0xF0 + h) (tail_byte x ∷ tail_byte y ∷ tail_byte z ∷ bs))
IsStrict-4 h x y z bs u k l m v =
    let (least, most) = accepted_4 h x y z bs u k l m v in
    let encoded = encode_4 (((h * 64 + x) * 64 + y) * 64 + z) least most in
    rw (decode_4 h x y z bs u k l m least most) (record {
      scalar = (most, inr (omega arith));
      length_consumed = rw encoded refl;
      rest = bs;
      bytes = rw (encoded, first, second, third, last) refl;
    })
  where
    first : (((h * 64 + x) * 64 + y) * 64 + z) / 2 ^ 18 ≡ h
    first = omega arith

    second : (((h * 64 + x) * 64 + y) * 64 + z) / 4096 % 64 ≡ x
    second = omega arith

    third : (((h * 64 + x) * 64 + y) * 64 + z) / 64 % 64 ≡ y
    third = omega arith

    last : (((h * 64 + x) * 64 + y) * 64 + z) % 64 ≡ z
    last = omega arith
