-- ===== src/Escape/Laws.antt =====
-- Escape sequences: the decoder moves on, and what it accepts as a universal character name.
use quicks_qcc.Prelude.{
  ℕ, zero, suc, ◌+◌, ◌-◌, ◌*◌, ◌%◌, ◌^◌, ◌≤◌, ◌≡◌, refl, ap, inl, inr, Bool, true, false, List, [],
  ◌∷◌, Option, none, some, ◌==◌, if◌then◌else◌, length, arith, Bool-cases, Option-cases,
}
use quicks_qcc.Status.{After, after, failed}
use quicks_qcc.Encoding.Utf8.{IsScalar}
use quicks_qcc.Escape.{
  simple_escape, hex_value, EscapeKind, raw, ucn, Message, Escaped, octal_run, hex_run, ucn_run,
  check_ucn, raw_value, decode_ucn, decode_other, decode, decode_escape, is_octal, starts_hex,
  push_hex, recorded, no_hex_digits, unknown,
}

-- What stands behind the sequence is no longer than `n`, and a universal character name without
-- a diagnostic names a Unicode scalar value.
pub record IsEscaped (n : ℕ) (r : Escaped) : Type 0 where
  pub moves_on : length r.rest ≤ n
  pub names_scalar : r.kind ≡ ucn → r.diag ≡ none → IsScalar r.value

octal_run_shortens : (k v : ℕ) (cs : List ℕ) → length (octal_run k v cs).1 ≤ length cs
unfolding octal_run
octal_run_shortens zero v cs = omega arith
octal_run_shortens (suc k) v [] = omega arith
octal_run_shortens (suc k) v (c ∷ cs) = elim (Bool-cases (is_octal c)) [
  | inl e ↦
      rw (octal_run, e) (omega (arith, octal_run_shortens k ((v * 8 + (c - b'0')) % 2 ^ 32) cs))
  | inr e ↦ rw (octal_run, e) (omega arith)
]

hex_run_shortens : (v : ℕ) (cs : List ℕ) → length (hex_run v cs).1 ≤ length cs
unfolding hex_run
hex_run_shortens v [] = omega arith
hex_run_shortens v (c ∷ cs) = elim (Option-cases (hex_value c)) [
  | inl e ↦ rw (hex_run, e) (omega arith)
  | inr (h, e) ↦ rw (hex_run, e) (omega (arith, hex_run_shortens (push_hex v h) cs))
]

ucn_run_shortens : (k v : ℕ) (cs : List ℕ) → length (ucn_run k v cs).2 ≤ length cs
unfolding ucn_run
ucn_run_shortens zero v cs = omega arith
ucn_run_shortens (suc k) v [] = omega arith
ucn_run_shortens (suc k) v (c ∷ cs) = elim (Option-cases (hex_value c)) [
  | inl e ↦ rw (ucn_run, e) (omega arith)
  | inr (h, e) ↦ rw (ucn_run, e) (omega (arith, ucn_run_shortens k (push_hex v h) cs))
]

check_ucn-IsScalar : (missing v : ℕ) → check_ucn missing v ≡ none → IsScalar v
unfolding check_ucn
check_ucn-IsScalar missing v h = ground arith

decode_ucn-IsEscaped : (k : ℕ) (cs : List ℕ) → IsEscaped (length cs) (decode_ucn k cs)
unfolding decode_ucn
decode_ucn-IsEscaped k cs = record {
  moves_on = ucn_run_shortens k 0 cs;
  names_scalar = λ q h. check_ucn-IsScalar _ _ h;
}

raw-IsEscaped :
    (n : ℕ) (p : ℕ × List ℕ) (d : Option Message) → length p.1 ≤ n → IsEscaped n (raw_value p d)
raw-IsEscaped n p d h = record {
  moves_on = h;
  names_scalar = λ q. absurd (omega (arith, ap kind_index q));
}
  where
    kind_index : EscapeKind → ℕ
    kind_index raw = 0
    kind_index ucn = 1

if-IsEscaped :
    (n : ℕ) (b : Bool) {x y : Escaped}
    → (b ≡ true → IsEscaped n x)
    → IsEscaped n y
    → IsEscaped n (if b then x else y)
if-IsEscaped n true h k = h refl
if-IsEscaped n false h k = k

octal_run_moves_on :
    (c : ℕ) (cs : List ℕ) → is_octal c ≡ true → length (octal_run 3 0 (c ∷ cs)).1 ≤ length cs
unfolding octal_run
octal_run_moves_on c cs h =
    rw (octal_run, h) (octal_run_shortens 2 ((0 * 8 + (c - b'0')) % 2 ^ 32) cs)

decode_other-IsEscaped : (c : ℕ) (cs : List ℕ) → IsEscaped (length cs) (decode_other c cs)
unfolding decode_other
decode_other-IsEscaped c cs =
    let n = length cs in
    if-IsEscaped n (is_octal c)
      (λ e. raw-IsEscaped n (octal_run 3 0 (c ∷ cs)) none (octal_run_moves_on c cs e))
      (if-IsEscaped n (c == b'x')
        (λ e.
          if-IsEscaped n (starts_hex cs)
            (λ s. raw-IsEscaped n (hex_run 0 cs) none (hex_run_shortens 0 cs))
            (raw-IsEscaped n (b'x', cs) (some no_hex_digits) (omega arith)))
        (if-IsEscaped n (c == b'u') (λ e. decode_ucn-IsEscaped 4 cs)
          (if-IsEscaped n (c == b'U') (λ e. decode_ucn-IsEscaped 8 cs)
            (raw-IsEscaped n (c, cs) (some unknown) (omega arith)))))

pub decode-IsEscaped : (c : ℕ) (cs : List ℕ) → IsEscaped (length cs) (decode (c ∷ cs))
unfolding decode
decode-IsEscaped c cs = elim (Option-cases (simple_escape c)) [
  | inl e ↦ rw (decode, e) (decode_other-IsEscaped c cs)
  | inr (v, e) ↦ rw (decode, e) (raw-IsEscaped (length cs) (v, cs) none (omega arith))
]

-- Unless its diagnostic cannot be recorded, `qcc_decode_escape` consumes the character behind the
-- backslash at least and no more than there is; and a universal character name that it decodes
-- without a diagnostic names a Unicode scalar value.
pub decode_escape-IsEscaped :
    (room : Bool) (c : ℕ) (cs : List ℕ)
    → After (IsEscaped (length cs)) (decode_escape room (c ∷ cs))
unfolding decode_escape
decode_escape-IsEscaped room c cs =
    recorded-After room (decode (c ∷ cs)).diag (decode-IsEscaped c cs)
  where
    recorded-After :
        {r : Escaped} (b : Bool) (m : Option Message)
        → IsEscaped (length cs) r
        → After (IsEscaped (length cs)) (recorded b r m)
    recorded-After b none h = after h
    recorded-After true (some m) h = after h
    recorded-After false (some m) h = failed
