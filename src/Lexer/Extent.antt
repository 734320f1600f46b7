-- ===== src/Lexer/Extent.antt =====
-- Where the logical characters sit.
use quicks_qcc.Prelude.{
  ℕ, zero, suc, ◌+◌, ◌≤◌, ◌≡◌, refl, sym, ap, ◌∙◌, lt→ltb, List, [], ◌∷◌, arith, length, ltb,
  if◌then◌else◌,
}
use quicks_qcc.Lexer.Unspliced.{Spliced, chars_from-unspliced}
use quicks_qcc.Lexer.Cursor.{splice_length, Logical, chars_from, spelling}

-- Characters from an offset on, one behind the other, that end within a size
abbrev pub IsStream : ℕ → ℕ → List Logical → Type 0
IsStream from size [] = from ≤ size
IsStream from size (l ∷ ls) = (from ≤ l.chpos) × (l.next ≡ l.chpos + 1) × IsStream l.next size ls

pub IsStream-le : (from size : ℕ) (ls : List Logical) → IsStream from size ls → from ≤ size
IsStream-le from size [] h = h
IsStream-le from size (l ∷ ls) (lo, n, h) = omega (arith, IsStream-le l.next size ls h)

pub IsStream-lower :
    (from to size : ℕ) (ls : List Logical) → to ≤ from → IsStream from size ls → IsStream to size ls
IsStream-lower from to size [] k h = omega arith
IsStream-lower from to size (l ∷ ls) k (lo, n, h) = (omega arith, n, h)

pub IsStream-size :
    (from size big : ℕ) (ls : List Logical)
    → size ≤ big
    → IsStream from size ls
    → IsStream from big ls
IsStream-size from size big [] k h = omega arith
IsStream-size from size big (l ∷ ls) k (lo, n, h) = (lo, n, IsStream-size l.next size big ls k h)

pub chars_from-IsStream :
    (skip pos size : ℕ) (bs : List ℕ)
    → pos + length bs ≤ size
    → IsStream pos size (chars_from skip pos bs)
unfolding chars_from
chars_from-IsStream skip pos size [] h = omega arith
chars_from-IsStream (suc k) pos size (b ∷ bs) h =
    IsStream-lower (pos + 1) pos size (chars_from k (pos + 1) bs) (omega arith)
      (chars_from-IsStream k (pos + 1) size bs (omega arith))
chars_from-IsStream zero pos size (b ∷ bs) h =
    go (splice_length (b ∷ bs)) (λ k. chars_from-IsStream k (pos + 1) size bs (omega arith))
  where
    go :
        (n : ℕ)
        → ((k : ℕ) → IsStream (pos + 1) size (chars_from k (pos + 1) bs))
        → IsStream pos size (elim n as (λ x. List Logical) [
          | zero ↦ record { char = b; chpos = pos; next = pos + 1 } ∷ chars_from 0 (pos + 1) bs
          | suc k ↦ chars_from (suc k) (pos + 1) bs
        ])
    go zero k = (omega arith, refl, k 0)
    go (suc n) k =
        IsStream-lower (pos + 1) pos size (chars_from (suc n) (pos + 1) bs) (omega arith)
          (k (suc n))

-- The characters that sit before an offset
unfoldable pub before : ℕ → List Logical → List ℕ
before end [] = []
before end (l ∷ ls) = let more = before end ls in if ltb l.chpos end then l.char ∷ more else []

before-IsStream :
    (from size : ℕ) (end : ℕ) (ls : List Logical)
    → end ≤ from
    → IsStream from size ls
    → before end ls ≡ []
unfolding before
before-IsStream from size end [] k h = refl
before-IsStream from size end (l ∷ ls) k (lo, n, h) = ground arith

spelling-before_skip :
    (skip n pos : ℕ) (bs : List ℕ) → spelling skip n bs ≡ before (pos + n) (chars_from skip pos bs)
unfolding spelling before chars_from
spelling-before_skip skip zero pos bs = sym (
    before-IsStream pos (pos + length bs) (pos + 0) (chars_from skip pos bs) (omega arith)
      (chars_from-IsStream skip pos (pos + length bs) bs (omega arith)))
spelling-before_skip skip (suc n) pos [] = refl
spelling-before_skip (suc k) (suc n) pos (b ∷ bs) =
    let shifted : pos + suc n ≡ pos + 1 + n = omega arith in
    rw shifted (spelling-before_skip k n (pos + 1) bs)
spelling-before_skip zero (suc n) pos (b ∷ bs) =
    go (splice_length (b ∷ bs)) (λ k. spelling-before_skip k n (pos + 1) bs)
  where
    shifted : pos + suc n ≡ pos + 1 + n
    shifted = omega arith

    go :
        (m : ℕ)
        → ((k : ℕ) → spelling k n bs ≡ before (pos + 1 + n) (chars_from k (pos + 1) bs))
        → (elim m as (λ x. List ℕ) [ zero ↦ b ∷ spelling 0 n bs | suc k ↦ spelling (suc k) n bs ])
          ≡ before (pos + suc n) (elim m as (λ x. List Logical) [
            | zero ↦ record { char = b; chpos = pos; next = pos + 1 } ∷ chars_from 0 (pos + 1) bs
            | suc k ↦ chars_from (suc k) (pos + 1) bs
          ])
    go zero k = rw (lt→ltb pos (pos + suc n) (omega arith)) (
        ap (λ (t : List ℕ). b ∷ t)
          (k 0 ∙ ap (λ (e : ℕ). before e (chars_from 0 (pos + 1) bs)) (sym shifted)))
    go (suc m) k = rw shifted (k (suc m))

-- The spelling of a span of bytes that begins at a logical character is made of the logical
-- characters that sit in it; and the logical characters are the bytes, each at its offset, without
-- the splices: each backslash directly in front of a line feed, or of a carriage return and a line
-- feed, is taken out with these.
pub spelling-before :
    (n pos : ℕ) (bs : List ℕ)
    → (spelling 0 n bs ≡ before (pos + n) (chars_from 0 pos bs))
      × Spliced pos bs (chars_from 0 pos bs)
spelling-before n pos bs = (spelling-before_skip 0 n pos bs, chars_from-unspliced pos bs)
