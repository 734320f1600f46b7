-- ===== src/Lexer/Unspliced.antt =====
-- Line splices (ISO C 5.1.1.2, phase 2), described without the cursor's code.
use quicks_qcc.Prelude.{
  ℕ, zero, suc, ◌+◌, ◌≡◌, refl, false, List, [], ◌∷◌, arith, ◌==◌, drop, inl, inr, Bool-cases,
}
use mathlib.Core.Path.{subst}
use quicks_qcc.Lexer.Cursor.{splice_length, Logical, chars_from}

-- Bytes that begin with a splice
pub data IsSplice : List ℕ → Type 0 where
  line_feed : {bs : List ℕ} → IsSplice (92 ∷ 10 ∷ bs)
  carriage_return : {bs : List ℕ} → IsSplice (92 ∷ 13 ∷ 10 ∷ bs)

-- The bytes from an offset on with the splices taken out of them
pub data Spliced : ℕ → List ℕ → List Logical → Type 0 where
  done : {pos : ℕ} → Spliced pos [] []
  past_line_feed :
      {pos : ℕ} {bs : List ℕ} {ls : List Logical}
      → Spliced (pos + 2) bs ls
      → Spliced pos (92 ∷ 10 ∷ bs) ls
  past_carriage_return :
      {pos : ℕ} {bs : List ℕ} {ls : List Logical}
      → Spliced (pos + 3) bs ls
      → Spliced pos (92 ∷ 13 ∷ 10 ∷ bs) ls
  kept :
      {pos b : ℕ} {bs : List ℕ} {ls : List Logical}
      → ¬ IsSplice (b ∷ bs)
      → Spliced (pos + 1) bs ls
      → Spliced pos (b ∷ bs) (record { char = b; chpos = pos; next = pos + 1 } ∷ ls)

-- What `splice_length` tells of bytes
data IsMeasured : List ℕ → ℕ → Type 0 where
  no_splice : {bs : List ℕ} → ¬ IsSplice bs → IsMeasured bs 0
  short : {bs : List ℕ} → IsMeasured (92 ∷ 10 ∷ bs) 1
  long : {bs : List ℕ} → IsMeasured (92 ∷ 13 ∷ 10 ∷ bs) 2

-- The length of a splice that bytes begin with
starting : {bs : List ℕ} → IsSplice bs → (splice_length bs == 0) ≡ false
unfolding splice_length
starting line_feed = refl
starting carriage_return = refl

unmeasured : (bs : List ℕ) → splice_length bs ≡ 0 → IsMeasured bs (splice_length bs)
unmeasured bs e = rw e (no_splice (λ s. absurd (ground (arith, starting s, e))))

measure_return : (bs : List ℕ) → IsMeasured (92 ∷ 13 ∷ bs) (splice_length (92 ∷ 13 ∷ bs))
unfolding splice_length
measure_return [] = unmeasured (92 ∷ 13 ∷ []) refl
measure_return (d ∷ bs) = elim (Bool-cases (d == 10)) [
  | inl e ↦ let is : d ≡ 10 = ground arith in rw is long
  | inr e ↦ unmeasured (92 ∷ 13 ∷ d ∷ bs) (rw e refl)
]

measure_backslash : (bs : List ℕ) → IsMeasured (92 ∷ bs) (splice_length (92 ∷ bs))
unfolding splice_length
measure_backslash [] = unmeasured (92 ∷ []) refl
measure_backslash (c ∷ bs) = elim (Bool-cases (c == 10)) [
  | inl e ↦ let is : c ≡ 10 = ground arith in rw is short
  | inr e ↦ elim (Bool-cases (c == 13)) [
    | inl f ↦ let is : c ≡ 13 = ground arith in rw is (measure_return bs)
    | inr f ↦ unmeasured (92 ∷ c ∷ bs) (rw (e, f) refl)
  ]
]

measure : (bs : List ℕ) → IsMeasured bs (splice_length bs)
unfolding splice_length
measure [] = unmeasured [] refl
measure (b ∷ bs) = elim (Bool-cases (b == 92)) [
  | inl e ↦ let is : b ≡ 92 = ground arith in rw is (measure_backslash bs)
  | inr e ↦ unmeasured (b ∷ bs) (rw e refl)
]

-- One splice or byte of the bytes
step-Spliced :
    (pos b : ℕ) (bs : List ℕ) {n : ℕ}
    → IsMeasured (b ∷ bs) n
    → ((k : ℕ) → Spliced (pos + 1 + k) (drop k bs) (chars_from k (pos + 1) bs))
    → Spliced pos (b ∷ bs) (elim n as (λ x. List Logical) [
      | zero ↦ record { char = b; chpos = pos; next = pos + 1 } ∷ chars_from 0 (pos + 1) bs
      | suc k ↦ chars_from (suc k) (pos + 1) bs
    ])
step-Spliced pos b bs (no_splice h) k =
    let at_next : pos + 1 + 0 ≡ pos + 1 = omega arith in
    kept h (subst (λ p. Spliced p bs (chars_from 0 (pos + 1) bs)) at_next (k 0))
step-Spliced pos b _ (short {bs}) k =
    let at_next : pos + 1 + 1 ≡ pos + 2 = omega arith in
    past_line_feed (subst (λ p. Spliced p bs (chars_from 1 (pos + 1) (10 ∷ bs))) at_next (k 1))
step-Spliced pos b _ (long {bs}) k =
    let at_next : pos + 1 + 2 ≡ pos + 3 = omega arith in
    past_carriage_return
      (subst (λ p. Spliced p bs (chars_from 2 (pos + 1) (13 ∷ 10 ∷ bs))) at_next (k 2))

chars_from-Spliced :
    (skip pos : ℕ) (bs : List ℕ) → Spliced (pos + skip) (drop skip bs) (chars_from skip pos bs)
unfolding chars_from
chars_from-Spliced zero pos [] = done
chars_from-Spliced (suc k) pos [] = done
chars_from-Spliced (suc k) pos (b ∷ bs) =
    let shifted : pos + suc k ≡ pos + 1 + k = omega arith in
    rw shifted (chars_from-Spliced k (pos + 1) bs)
chars_from-Spliced zero pos (b ∷ bs) =
    let here : pos + 0 ≡ pos = omega arith in
    rw here (step-Spliced pos b bs (measure (b ∷ bs)) (λ k. chars_from-Spliced k (pos + 1) bs))

-- The logical characters are the bytes without the splices.
pub chars_from-unspliced : (pos : ℕ) (bs : List ℕ) → Spliced pos bs (chars_from 0 pos bs)
chars_from-unspliced pos bs =
    let here : pos + 0 ≡ pos = omega arith in
    subst (λ p. Spliced p bs (chars_from 0 pos bs)) here (chars_from-Spliced 0 pos bs)
