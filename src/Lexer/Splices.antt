-- ===== src/Lexer/Splices.antt =====
-- Line splices: reading a source character by character with `qcc_lx_at`.
use quicks_qcc.Prelude.{ℕ, zero, suc, ◌+◌, ◌≡◌, refl, List, [], ◌∷◌}
use quicks_qcc.Lexer.Cursor.{
  splice_length, skip_from, skip_splices, Logical, logical, at, chars_from,
}

-- The bytes behind the character that `qcc_lx_at` reads
abbrev pub bytes_behind : ℕ × List ℕ → List ℕ
bytes_behind (pos, []) = []
bytes_behind (pos, b ∷ bs) = bs

-- The first of the logical characters is what `qcc_lx_at` reads, and the others are those from its
-- `next` on; where there is none, it reads the sentinel.
pub data IsRead (l : Logical) (bs : List ℕ) : List Logical → Type 0 where
  read : {ls : List Logical} → ls ≡ l ∷ chars_from 0 l.next bs → IsRead l bs ls
  at_end : l.char ≡ 0 → l.next ≡ l.chpos → IsRead l bs []

chars_from-skip_from :
    (skip pos : ℕ) (bs : List ℕ)
    → IsRead
        (logical (skip_from skip pos bs))
        (bytes_behind (skip_from skip pos bs))
        (chars_from skip pos bs)
unfolding skip_from chars_from
chars_from-skip_from skip pos [] = at_end refl refl
chars_from-skip_from (suc k) pos (b ∷ bs) = chars_from-skip_from k (pos + 1) bs
chars_from-skip_from zero pos (b ∷ bs) =
    go (splice_length (b ∷ bs)) (λ k. chars_from-skip_from (suc k) (pos + 1) bs)
  where
    go :
        (n : ℕ)
        → ((k : ℕ)
            → IsRead
                (logical (skip_from (suc k) (pos + 1) bs))
                (bytes_behind (skip_from (suc k) (pos + 1) bs))
                (chars_from (suc k) (pos + 1) bs))
        → IsRead
            (logical (elim n as (λ x. ℕ × List ℕ) [
              | zero ↦ (pos, b ∷ bs)
              | suc k ↦ skip_from (suc k) (pos + 1) bs
            ]))
            (bytes_behind (elim n as (λ x. ℕ × List ℕ) [
              | zero ↦ (pos, b ∷ bs)
              | suc k ↦ skip_from (suc k) (pos + 1) bs
            ]))
            (elim n as (λ x. List Logical) [
              | zero ↦ record { char = b; chpos = pos; next = pos + 1 } ∷ chars_from 0 (pos + 1) bs
              | suc k ↦ chars_from (suc k) (pos + 1) bs
            ])
    go zero h = read refl
    go (suc k) h = h k

-- Every call of `qcc_lx_at` reads the next logical character: at any offset, the character read is
-- the first of those that the splices leave from there on, and the others are those from its
-- `next` on; where only splices are left, it reads the sentinel.
pub chars_from-at :
    (pos : ℕ) (bs : List ℕ)
    → IsRead (at pos bs) (bytes_behind (skip_splices pos bs)) (chars_from 0 pos bs)
unfolding at skip_splices
chars_from-at pos bs = chars_from-skip_from 0 pos bs
