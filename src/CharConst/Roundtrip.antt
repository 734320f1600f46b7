-- ===== src/CharConst/Roundtrip.antt =====
-- A character constant of one character has its code point as value.
use quicks_qcc.Prelude.{
  ℕ, suc, ◌-◌, ◌≤◌, ◌<◌, ◌≡◌, ◌≢◌, refl, sym, ap, ◌∙◌, Bool, true, false, List, [], ◌∷◌, ◌++◌,
  Option, none, some, ltb, ltb→lt, ◌==◌, ==_iff, length, drop, arith,
}
use mathlib.Core.Option.{some-injective}
use mathlib.Core.Bool.{false≢true}
use quicks_qcc.Status.{ok}
use quicks_qcc.Token.{CharEncoding}
use quicks_qcc.Encoding.{Decoded, unit_max, utf8_decode, utf8_encode, utf8_lead_length}
use quicks_qcc.Encoding.Utf8.{IsScalar, decode_all, decode_encode}
use quicks_qcc.CharConst.{
  char_prefix, without_quote, Units, fitted, wide_step, units, wide_value, no_units, eval_wide,
  eval_char,
}

without_quote-append : (es : List ℕ) → without_quote (es ++ 39 ∷ []) ≡ es
unfolding without_quote
without_quote-append [] = refl
without_quote-append (c ∷ []) = refl
without_quote-append (c ∷ d ∷ cs) = ap (λ (t : List ℕ). c ∷ t) (without_quote-append (d ∷ cs))

drop_all : (cs : List ℕ) → drop (length cs) cs ≡ []
drop_all [] = refl
drop_all (c ∷ cs) = drop_all cs

nothing_left : (cs : List ℕ) → 1 ≡ suc (length cs) → cs ≡ []
nothing_left [] e = refl
nothing_left (c ∷ cs) e = absurd (omega (arith, e))

append_nil : (cs : List ℕ) → cs ++ [] ≡ cs
append_nil [] = refl
append_nil (c ∷ cs) = ap (λ (t : List ℕ). c ∷ t) (append_nil cs)

utf8_decode-ascii :
    (c : ℕ) (bs : List ℕ)
    → c < 0x80
    → utf8_decode c bs ≡ record { cp = c; consumed = 1; valid = true }
unfolding utf8_decode utf8_lead_length
utf8_decode-ascii c bs h = ground arith

-- The encodings of wide constants, by their letters
pub data WideEncoding : Type 0 where
  big_l small_u big_u : WideEncoding

abbrev pub letter : WideEncoding → ℕ
letter big_l = b'L'
letter small_u = b'u'
letter big_u = b'U'

abbrev pub encoding : WideEncoding → CharEncoding
encoding big_l = CharEncoding.wide
encoding small_u = CharEncoding.char16
encoding big_u = CharEncoding.char32

module _ (room : ℕ → Bool) where
  read_one : (cp : ℕ) → Units
  read_one cp = record { value = cp; count = 1; rest = []; emitted = 0 }

  wide_step-one :
      (umax cp c : ℕ) (cs : List ℕ)
      → cp ≤ umax
      → cp ≢ 92
      → utf8_decode c cs ≡ record { cp = cp; consumed = suc (length cs); valid = true }
      → wide_step room umax (no_units room) c cs ≡ ok (read_one cp)
  unfolding wide_step fitted read_one
  wide_step-one umax cp c cs most plain e = go (c == 92) refl (ltb c 0x80) refl
    where
      Step : Type 0
      Step = wide_step room umax (no_units room) c cs ≡ ok (read_one cp)

      ascii : c < 0x80 → (c ≡ cp) × (1 ≡ suc (length cs))
      ascii h =
          let same : _ = sym (utf8_decode-ascii c cs h) ∙ e in
          (ap (λ (d : Decoded). d.cp) same, ap (λ (d : Decoded). d.consumed) same)

      fits : ltb umax cp ≡ false
      fits = ground arith

      dropped : drop (suc (length cs) - 1) cs ≡ []
      dropped = ap (λ (n : ℕ). drop n cs) (omega arith) ∙ drop_all cs

      go : (b : Bool) → (c == 92) ≡ b → (d : Bool) → ltb c 0x80 ≡ d → Step
      go true p d q =
          let backslash : c ≡ 92 = (==_iff c 92).0 p in
          absurd (plain (sym (ascii (omega (arith, backslash))).0 ∙ backslash))
      go false p true q =
          let one : (c ≡ cp) × (1 ≡ suc (length cs)) = ascii (ltb→lt c 0x80 q) in
          rw (p, q, one.0, nothing_left cs one.1) refl
      go false p false q = rw (p, q, e, fits, dropped) refl

  wide_value-one :
      (w : WideEncoding) (cp : ℕ) → IsScalar cp → wide_value room (encoding w) (read_one cp) ≡ ok cp
  unfolding wide_value read_one
  wide_value-one big_l cp h = ground arith
  wide_value-one small_u cp h = refl
  wide_value-one big_u cp h = refl

  eval_wide-one :
      (w : WideEncoding) (cp : ℕ)
      → IsScalar cp
      → cp ≤ unit_max (encoding w)
      → cp ≢ 92
      → eval_wide room (encoding w) (utf8_encode cp) ≡ ok cp
  unfolding eval_wide units read_one
  eval_wide-one w cp h most plain = go (utf8_encode cp) (decode_encode cp [] h)
    where
      go :
          (es : List ℕ)
          → decode_all es [] ≡ some (record { cp = cp; consumed = length es; valid = true })
          → eval_wide room (encoding w) es ≡ ok cp
      go [] e = absurd (false≢true (ap is_some e))
        where
          is_some : Option Decoded → Bool
          is_some none = false
          is_some (some d) = true
      go (c ∷ cs) e =
          let decoded : utf8_decode c cs
              ≡ record { cp = cp; consumed = suc (length cs); valid = true } =
            ap (utf8_decode c) (sym (append_nil cs)) ∙ some-injective _ _ e in
          rw (wide_step-one (unit_max (encoding w)) cp c cs most plain decoded)
            (wide_value-one w cp h)

  -- Writing a character and reading it back: the lexeme of a prefix, a quote, the UTF-8 encoding of a
  -- Unicode scalar value that fits the type and is no backslash, and a quote has that value and the
  -- encoding of the prefix, whatever room the sink has, so without a diagnostic.
  pub eval_char-one :
      (w : WideEncoding) (cp : ℕ)
      → IsScalar cp
      → cp ≤ unit_max (encoding w)
      → cp ≢ 92
      → eval_char room (letter w ∷ 39 ∷ (utf8_encode cp ++ 39 ∷ [])) ≡ ok (cp, encoding w)
  unfolding eval_char char_prefix
  eval_char-one w cp h most plain = prefixed w most
    where
      body : List ℕ
      body = utf8_encode cp ++ 39 ∷ []

      prefixed :
          (w : WideEncoding)
          → cp ≤ unit_max (encoding w)
          → eval_char room (letter w ∷ 39 ∷ body) ≡ ok (cp, encoding w)
      prefixed big_l k =
          rw (without_quote-append (utf8_encode cp), eval_wide-one big_l cp h k plain) refl
      prefixed small_u k =
          rw (without_quote-append (utf8_encode cp), eval_wide-one small_u cp h k plain) refl
      prefixed big_u k =
          rw (without_quote-append (utf8_encode cp), eval_wide-one big_u cp h k plain) refl
