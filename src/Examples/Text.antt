-- ===== src/Examples/Text.antt =====
-- The codecs at concrete inputs.
use quicks_qcc.CharConst.{eval_char}
use quicks_qcc.CharConst.Steps.{Gives}
use quicks_qcc.CharConst.Roundtrip.{letter, big_u, encoding, eval_char-one}
use quicks_qcc.CharConst.Range.{InType, eval_char-InType}
use quicks_qcc.Token.{CharEncoding}
use quicks_qcc.Prelude.{
  ◌≢◌, ◌++◌, Bool, ℕ, ◌+◌, ◌≤◌, ◌≡◌, refl, true, List, [], ◌∷◌, some, length, arith, inl, inr,
}
use quicks_qcc.Encoding.{unit_max, utf8_decode, utf8_encode, utf16_encode}
use quicks_qcc.Encoding.Utf8.{decode_all, decode_encode}
use quicks_qcc.Encoding.Strict.{IsStrict}
use quicks_qcc.Encoding.Accepts.{AllBytes, accepted-IsStrict, utf8_decode_moves_on}
use quicks_qcc.Status.{After, ok}
use quicks_qcc.Escape.{decode_escape}
use quicks_qcc.Escape.Laws.{IsEscaped, decode_escape-IsEscaped}
use quicks_qcc.Encoding.Utf16.{utf16_value, utf16_value-encode}

decode_encode_example :
    decode_all (utf8_encode 0x20AC) (0x41 ∷ [])
    ≡ some (record { cp = 0x20AC; consumed = length (utf8_encode 0x20AC); valid = true })
decode_encode_example = decode_encode 0x20AC (0x41 ∷ []) (omega arith, inl (omega arith))

-- The bytes of the euro sign behind the first, and a letter
abbrev euro_tail : List ℕ
euro_tail = 0x82 ∷ 0xAC ∷ 0x41 ∷ []

euro_is_valid : (utf8_decode 0xE2 euro_tail).valid ≡ true
unfolding utf8_decode
euro_is_valid = refl

bytes_fit : AllBytes (0xE2 ∷ euro_tail)
bytes_fit = (omega arith, (omega arith, (omega arith, (omega arith, tt))))

accepted-IsStrict_example : IsStrict (0xE2 ∷ euro_tail) (utf8_decode 0xE2 euro_tail)
accepted-IsStrict_example = accepted-IsStrict 0xE2 euro_tail bytes_fit euro_is_valid

utf8_decode_moves_on_example :
    (1 ≤ (utf8_decode 0xE2 euro_tail).consumed)
    × ((utf8_decode 0xE2 euro_tail).consumed ≤ length euro_tail + 1)
utf8_decode_moves_on_example = utf8_decode_moves_on 0xE2 euro_tail

utf16_value-encode_example : utf16_value (utf16_encode 0x1F600) ≡ some 0x1F600
utf16_value-encode_example = utf16_value-encode 0x1F600 (omega arith, inr (omega arith))

-- Behind the backslash of `\u20AC`
abbrev ucn_digits : List ℕ
ucn_digits = b'2' ∷ b'0' ∷ b'A' ∷ b'C' ∷ []

decode_escape-IsEscaped_example :
    After (IsEscaped (length ucn_digits)) (decode_escape true (b'u' ∷ ucn_digits))
decode_escape-IsEscaped_example = decode_escape-IsEscaped true b'u' ucn_digits

-- `L'` and the euro sign
abbrev wide_lexeme : List ℕ
wide_lexeme = b'L' ∷ 39 ∷ 0xE2 ∷ 0x82 ∷ 0xAC ∷ 39 ∷ []

abbrev sink_has_room : ℕ → Bool
sink_has_room n = true

eval_char-InType_example :
    Gives (λ (r : ℕ × CharEncoding). InType r.1 r.0) (eval_char sink_has_room wide_lexeme)
eval_char-InType_example = eval_char-InType sink_has_room wide_lexeme

euro_fits : 0x20AC ≤ unit_max (encoding big_u)
unfolding unit_max
euro_fits = omega arith

euro_is_no_backslash : ◌≢◌ {A = ℕ} 0x20AC 92
euro_is_no_backslash = omega arith

eval_char-one_example :
    eval_char sink_has_room (letter big_u ∷ 39 ∷ (utf8_encode 0x20AC ++ 39 ∷ []))
    ≡ ok (0x20AC, encoding big_u)
eval_char-one_example =
    eval_char-one sink_has_room big_u 0x20AC (omega arith, inl (omega arith)) euro_fits
      euro_is_no_backslash
