-- ===== src/Encoding/Accepts.antt =====
-- UTF-8: every sequence that the decoder accepts is strict, and the decoder always moves on.
use quicks_qcc.Prelude.{
  ℕ, ◌+◌, ◌-◌, ◌/◌, ◌^◌, ◌≤◌, ◌<◌, ◌≡◌, ◌⊎◌, inl, inr, refl, true, List, [], ◌∷◌, Option, none,
  some, bit_and, length, arith,
}
use quicks_qcc.Encoding.{utf8_lead_length, continuation, checked, utf8_decode, utf8_encode}
use quicks_qcc.Encoding.Utf8.{tail_byte}
use quicks_qcc.Encoding.Strict.{continuation_byte, IsStrict, IsStrict-2, IsStrict-3, IsStrict-4}

abbrev pub AllBytes : List ℕ → Type 0
AllBytes [] = Unit
AllBytes (b ∷ bs) = (b < 256) × AllBytes bs

lead_1 : (b : ℕ) (bs : List ℕ) → b < 0x80 → IsStrict (b ∷ bs) (utf8_decode b bs)
unfolding utf8_decode utf8_lead_length utf8_encode
lead_1 b bs h =
    let ascii : utf8_decode b bs ≡ record { cp = b; consumed = 1; valid = true } = ground arith in
    let encoded : utf8_encode b ≡ b ∷ [] = ground arith in
    rw ascii (record {
      scalar = (omega arith, inl (omega arith));
      length_consumed = rw encoded refl;
      rest = bs;
      bytes = rw encoded refl;
    })

tails_2 :
    (b c : ℕ) (bs : List ℕ)
    → 0xC2 ≤ b
    → b ≤ 0xDF
    → (utf8_decode b (c ∷ bs)).valid ≡ true
    → (bit_and c 0xC0 ≡ 0x80)
unfolding utf8_decode utf8_lead_length checked continuation
tails_2 b c bs lo hi v = ground arith

lead_2 :
    (b c : ℕ) (bs : List ℕ)
    → 0xC2 ≤ b
    → b ≤ 0xDF
    → c < 256
    → (utf8_decode b (c ∷ bs)).valid ≡ true
    → IsStrict (b ∷ c ∷ bs) (utf8_decode b (c ∷ bs))
lead_2 b c bs lo hi hc valid =
    let tc = tails_2 b c bs lo hi valid in
    let (cx, lc, ec) = continuation_byte c hc tc in
    let eb : b ≡ 0xC0 + (b - 0xC0) = omega arith in go (b - 0xC0) cx eb ec lc
  where
    go :
        (h cx : ℕ)
        → b ≡ 0xC0 + h
        → c ≡ tail_byte cx
        → cx < 64
        → IsStrict (b ∷ c ∷ bs) (utf8_decode b (c ∷ bs))
    go h cx eb ec lc = rw (eb, ec) (IsStrict-2 h cx bs (omega arith) (omega arith) lc)

tails_3 :
    (b c d : ℕ) (bs : List ℕ)
    → 0xE0 ≤ b
    → b ≤ 0xEF
    → (utf8_decode b (c ∷ d ∷ bs)).valid ≡ true
    → (bit_and c 0xC0 ≡ 0x80) × (bit_and d 0xC0 ≡ 0x80)
unfolding utf8_decode utf8_lead_length checked continuation
tails_3 b c d bs lo hi v = ground arith

lead_3 :
    (b c d : ℕ) (bs : List ℕ)
    → 0xE0 ≤ b
    → b ≤ 0xEF
    → c < 256
    → d < 256
    → (utf8_decode b (c ∷ d ∷ bs)).valid ≡ true
    → IsStrict (b ∷ c ∷ d ∷ bs) (utf8_decode b (c ∷ d ∷ bs))
lead_3 b c d bs lo hi hc hd valid =
    let (tc, td) = tails_3 b c d bs lo hi valid in
    let (cx, lc, ec) = continuation_byte c hc tc in
    let (dx, ld, ed) = continuation_byte d hd td in
    let eb : b ≡ 0xE0 + (b - 0xE0) = omega arith in go (b - 0xE0) cx dx eb ec ed lc ld
  where
    go :
        (h cx dx : ℕ)
        → b ≡ 0xE0 + h
        → c ≡ tail_byte cx
        → d ≡ tail_byte dx
        → cx < 64
        → dx < 64
        → IsStrict (b ∷ c ∷ d ∷ bs) (utf8_decode b (c ∷ d ∷ bs))
    go h cx dx eb ec ed lc ld =
        rw (eb, ec, ed) (IsStrict-3 h cx dx bs (omega arith) lc ld (rw⁻¹ (eb, ec, ed) valid))

tails_4 :
    (b c d e : ℕ) (bs : List ℕ)
    → 0xF0 ≤ b
    → b ≤ 0xF4
    → (utf8_decode b (c ∷ d ∷ e ∷ bs)).valid ≡ true
    → (bit_and c 0xC0 ≡ 0x80) × (bit_and d 0xC0 ≡ 0x80) × (bit_and e 0xC0 ≡ 0x80)
unfolding utf8_decode utf8_lead_length checked continuation
tails_4 b c d e bs lo hi v = ground arith

lead_4 :
    (b c d e : ℕ) (bs : List ℕ)
    → 0xF0 ≤ b
    → b ≤ 0xF4
    → c < 256
    → d < 256
    → e < 256
    → (utf8_decode b (c ∷ d ∷ e ∷ bs)).valid ≡ true
    → IsStrict (b ∷ c ∷ d ∷ e ∷ bs) (utf8_decode b (c ∷ d ∷ e ∷ bs))
lead_4 b c d e bs lo hi hc hd he valid =
    let (tc, td, te) = tails_4 b c d e bs lo hi valid in
    let (cx, lc, ec) = continuation_byte c hc tc in
    let (dx, ld, ed) = continuation_byte d hd td in
    let (ex, le, ee) = continuation_byte e he te in
    let eb : b ≡ 0xF0 + (b - 0xF0) = omega arith in go (b - 0xF0) cx dx ex eb ec ed ee lc ld le
  where
    go :
        (h cx dx ex : ℕ)
        → b ≡ 0xF0 + h
        → c ≡ tail_byte cx
        → d ≡ tail_byte dx
        → e ≡ tail_byte ex
        → cx < 64
        → dx < 64
        → ex < 64
        → IsStrict (b ∷ c ∷ d ∷ e ∷ bs) (utf8_decode b (c ∷ d ∷ e ∷ bs))
    go h cx dx ex eb ec ed ee lc ld le =
        rw (eb, ec, ed, ee)
          (IsStrict-4 h cx dx ex bs (omega arith) lc ld le (rw⁻¹ (eb, ec, ed, ee) valid))

-- The lead bytes of the sequences that are accepted, and the bytes that must stand behind them
pub data LeadOf (b : ℕ) (bs : List ℕ) : Type 0 where
  lead_of_1 : b < 0x80 → LeadOf b bs
  lead_of_2 : 0xC2 ≤ b → b ≤ 0xDF → 1 ≤ length bs → LeadOf b bs
  lead_of_3 : 0xE0 ≤ b → b ≤ 0xEF → 2 ≤ length bs → LeadOf b bs
  lead_of_4 : 0xF0 ≤ b → b ≤ 0xF4 → 3 ≤ length bs → LeadOf b bs

lead_of : (b : ℕ) (bs : List ℕ) → (utf8_decode b bs).valid ≡ true → LeadOf b bs
unfolding utf8_decode utf8_lead_length
lead_of b bs v = choose (ground arith)
  where
    choose :
        (b < 0x80)
          ⊎ (((0xC2 ≤ b) × (b ≤ 0xDF) × (1 ≤ length bs))
              ⊎ (((0xE0 ≤ b) × (b ≤ 0xEF) × (2 ≤ length bs))
                  ⊎ ((0xF0 ≤ b) × (b ≤ 0xF4) × (3 ≤ length bs))))
        → LeadOf b bs
    choose (inl h) = lead_of_1 h
    choose (inr (inl (l, u, n))) = lead_of_2 l u n
    choose (inr (inr (inl (l, u, n)))) = lead_of_3 l u n
    choose (inr (inr (inr (l, u, n)))) = lead_of_4 l u n

-- Whatever bytes the decoder accepts as well-formed begin with the UTF-8 encoding of the code
-- point that it returns, which is a Unicode scalar value; it consumes exactly that encoding. So no
-- over-long form, no surrogate and nothing above U+10FFFF is accepted.
pub accepted-IsStrict :
    (b : ℕ) (bs : List ℕ)
    → AllBytes (b ∷ bs)
    → (utf8_decode b bs).valid ≡ true
    → IsStrict (b ∷ bs) (utf8_decode b bs)
accepted-IsStrict b bs hb v = go bs (hb.1) v (lead_of b bs v)
  where
    go :
        (bs : List ℕ)
        → AllBytes bs
        → (utf8_decode b bs).valid ≡ true
        → LeadOf b bs
        → IsStrict (b ∷ bs) (utf8_decode b bs)
    go bs h v (lead_of_1 a) = lead_1 b bs a
    go [] h v (lead_of_2 l u n) = absurd (omega arith)
    go (c ∷ bs) h v (lead_of_2 l u n) = lead_2 b c bs l u h.0 v
    go [] h v (lead_of_3 l u n) = absurd (omega arith)
    go (c ∷ []) h v (lead_of_3 l u n) = absurd (omega arith)
    go (c ∷ d ∷ bs) h v (lead_of_3 l u n) = lead_3 b c d bs l u h.0 h.1.0 v
    go [] h v (lead_of_4 l u n) = absurd (omega arith)
    go (c ∷ []) h v (lead_of_4 l u n) = absurd (omega arith)
    go (c ∷ d ∷ []) h v (lead_of_4 l u n) = absurd (omega arith)
    go (c ∷ d ∷ e ∷ bs) h v (lead_of_4 l u n) = lead_4 b c d e bs l u h.0 h.1.0 h.1.1.0 v

checked_consumes :
    (b n : ℕ) (m : Option ℕ) → ((checked b n m).consumed ≡ 1) ⊎ ((checked b n m).consumed ≡ n)
unfolding checked
checked_consumes b n none = inl refl
checked_consumes b n (some acc) = ground arith

-- The decoder always moves on: it consumes at least one byte, and no more than there are.
pub utf8_decode_moves_on :
    (b : ℕ) (bs : List ℕ)
    → (1 ≤ (utf8_decode b bs).consumed) × ((utf8_decode b bs).consumed ≤ length bs + 1)
unfolding utf8_decode
utf8_decode_moves_on b bs =
    let consumes =
      (checked_consumes b (utf8_lead_length b)
        (continuation (utf8_lead_length b - 1) bs (bit_and b (0x7F / 2 ^ utf8_lead_length b)))) in
    ground arith
