-- ===== src/Lexer/Cursor.antt =====
-- src/lexer/internal/cursor.c: the logical characters of a source. An offset is a number with the
-- bytes from there on; behind the last byte stands the sentinel 0.
use quicks_qcc.Prelude.{
  ℕ, zero, suc, ◌+◌, Bool, ◌&&◌, ◌||◌, List, [], ◌∷◌, leb, ◌==◌, if◌then◌else◌,
}

abbrev pub between : ℕ → ℕ → ℕ → Bool
between lo hi c = leb lo c && leb c hi

-- `qcc_lx_is_space_not_nl`
unfoldable pub is_space_not_nl : ℕ → Bool
is_space_not_nl c = (c == b' ') || (c == 9) || (c == 11) || (c == 12) || (c == 13)

-- `qcc_lx_is_digit`
unfoldable pub is_digit : ℕ → Bool
is_digit c = between b'0' b'9' c

-- `qcc_lx_is_hex_digit`
unfoldable pub is_hex_digit : ℕ → Bool
unfolding is_digit
is_hex_digit c = is_digit c || between b'a' b'f' c || between b'A' b'F' c

-- `qcc_lx_is_ident_start`
unfoldable pub is_ident_start : ℕ → Bool
is_ident_start c = between b'a' b'z' c || between b'A' b'Z' c || (c == b'_')

-- `qcc_lx_is_ident_cont`
unfoldable pub is_ident_cont : ℕ → Bool
unfolding is_ident_start is_digit
is_ident_cont c = is_ident_start c || is_digit c

-- The first byte, or the sentinel
abbrev pub byte_at : List ℕ → ℕ
byte_at [] = 0
byte_at (b ∷ bs) = b

abbrev pub drop_one : List ℕ → List ℕ
drop_one [] = []
drop_one (b ∷ bs) = bs

-- The splice at the head of the bytes: how many bytes it has behind the backslash, 0 if there is
-- none
unfoldable pub splice_length : List ℕ → ℕ
splice_length [] = 0
splice_length (b ∷ bs) =
    if b == 92
    then (if byte_at bs == 10
        then 1
        else if (byte_at bs == 13) && (byte_at (drop_one bs) == 10)
        then 2
        else 0)
    else 0

-- `qcc_lx_skip_splices`, behind `skip` more bytes of the splice that it is in: where it stops, and
-- the bytes from there on
unfoldable pub skip_from : ℕ → ℕ → List ℕ → ℕ × List ℕ
unfolding splice_length
skip_from skip pos [] = (pos, [])
skip_from (suc k) pos (b ∷ bs) = skip_from k (pos + 1) bs
skip_from zero pos (b ∷ bs) = elim (splice_length (b ∷ bs)) [
  | zero ↦ (pos, b ∷ bs)
  | suc k ↦ skip_from (suc k) (pos + 1) bs
]

-- `qcc_lx_skip_splices`
unfoldable pub skip_splices : ℕ → List ℕ → ℕ × List ℕ
unfolding skip_from
skip_splices pos bs = skip_from 0 pos bs

-- A logical character: the character, where it sits, and the offset just behind it
pub record Logical : Type 0 where
  pub char : ℕ
  pub chpos : ℕ
  pub next : ℕ

abbrev pub logical : ℕ × List ℕ → Logical
logical (pos, []) = record { char = 0; chpos = pos; next = pos }
logical (pos, b ∷ bs) = record { char = b; chpos = pos; next = pos + 1 }

-- `qcc_lx_at`
unfoldable pub at : ℕ → List ℕ → Logical
unfolding skip_splices
at pos bs = logical (skip_splices pos bs)

-- All logical characters from an offset on, behind `skip` more bytes of a splice: what calls of
-- `qcc_lx_at`, each at the `next` of the one before, deliver
unfoldable pub chars_from : ℕ → ℕ → List ℕ → List Logical
unfolding splice_length
chars_from skip pos [] = []
chars_from (suc k) pos (b ∷ bs) = chars_from k (pos + 1) bs
chars_from zero pos (b ∷ bs) = elim (splice_length (b ∷ bs)) [
  | zero ↦ record { char = b; chpos = pos; next = pos + 1 } ∷ chars_from 0 (pos + 1) bs
  | suc k ↦ chars_from (suc k) (pos + 1) bs
]

-- The logical characters of a source
unfoldable pub chars : List ℕ → List Logical
unfolding chars_from
chars bs = chars_from 0 0 bs

-- `qcc_lx_spelling`, the copy of the bytes: those of the span that are no part of a splice. The
-- span begins at a logical character and ends just behind one.
unfoldable pub spelling : ℕ → ℕ → List ℕ → List ℕ
unfolding splice_length
spelling skip zero bs = []
spelling skip (suc n) [] = []
spelling (suc k) (suc n) (b ∷ bs) = spelling k n bs
spelling zero (suc n) (b ∷ bs) = elim (splice_length (b ∷ bs)) [
  | zero ↦ b ∷ spelling 0 n bs
  | suc k ↦ spelling (suc k) n bs
]
