-- ===== src/Lexer/Blanks.antt =====
-- White space and comments: what the loop of `qcc_lexer_next` steps over.
use quicks_qcc.Prelude.{
  ℕ, zero, suc, ◌≡◌, Bool, true, false, ◌&&◌, List, [], ◌∷◌, ◌==◌, arith, length, drop, ◌≤◌, refl,
}
use quicks_qcc.Lexer.Cursor.{Logical, is_space_not_nl}
use quicks_qcc.Lexer.Extent.{IsStream, IsStream-lower}
use quicks_qcc.Lexer.Scan.{peek}
use quicks_qcc.Lexer.Next.{Blank, Blanks, blanks}

-- Characters that are blank up to where others begin (ISO C 6.4.9): white space but for newlines,
-- comments up to the newline, and comments up to their first `*/`, which may be missing
pub data Gap : Blank → List Logical → List Logical → Type 0 where
  here : {ls : List Logical} → Gap Blank.space ls ls
  blank :
      {l : Logical} {ls rest : List Logical}
      → is_space_not_nl l.char ≡ true
      → Gap Blank.space ls rest
      → Gap Blank.space (l ∷ ls) rest
  line_opens :
      {l m : Logical} {ls rest : List Logical}
      → l.char ≡ b'/'
      → m.char ≡ b'/'
      → Gap Blank.line_comment ls rest
      → Gap Blank.space (l ∷ m ∷ ls) rest
  block_opens :
      {l m : Logical} {ls rest : List Logical}
      → l.char ≡ b'/'
      → m.char ≡ b'*'
      → Gap Blank.block_comment ls rest
      → Gap Blank.space (l ∷ m ∷ ls) rest
  in_line :
      {l : Logical} {ls rest : List Logical}
      → (l.char == 10) ≡ false
      → Gap Blank.line_comment ls rest
      → Gap Blank.line_comment (l ∷ ls) rest
  line_ends :
      {l : Logical} {ls : List Logical} → l.char ≡ 10 → Gap Blank.line_comment (l ∷ ls) (l ∷ ls)
  in_block :
      {l : Logical} {ls rest : List Logical}
      → ((l.char == b'*') && (peek 0 ls == b'/')) ≡ false
      → Gap Blank.block_comment ls rest
      → Gap Blank.block_comment (l ∷ ls) rest
  block_closes :
      {l m : Logical} {ls rest : List Logical}
      → l.char ≡ b'*'
      → m.char ≡ b'/'
      → Gap Blank.space ls rest
      → Gap Blank.block_comment (l ∷ m ∷ ls) rest
  line_at_end : Gap Blank.line_comment [] []
  unterminated : Gap Blank.block_comment [] []

pub Gap-length : {b : Blank} {ls rest : List Logical} → Gap b ls rest → length rest ≤ length ls
Gap-length here = omega arith
Gap-length (blank e g) = omega (arith, Gap-length g)
Gap-length (line_opens e f g) = omega (arith, Gap-length g)
Gap-length (block_opens e f g) = omega (arith, Gap-length g)
Gap-length (in_line e g) = omega (arith, Gap-length g)
Gap-length (line_ends e) = omega arith
Gap-length (in_block e g) = omega (arith, Gap-length g)
Gap-length (block_closes e f g) = omega (arith, Gap-length g)
Gap-length line_at_end = omega arith
Gap-length unterminated = omega arith

pub Gap-IsStream :
    {b : Blank} {ls rest : List Logical} (from size : ℕ)
    → Gap b ls rest
    → IsStream from size ls
    → IsStream from size rest
Gap-IsStream from size here h = h
Gap-IsStream {rest} from size (blank {l} e g) (lo, n, h) =
    IsStream-lower l.next from size rest (omega arith) (Gap-IsStream l.next size g h)
Gap-IsStream {rest} from size (line_opens {l} {m} e f g) (lo, n, (lo', n', h)) =
    IsStream-lower m.next from size rest (omega arith) (Gap-IsStream m.next size g h)
Gap-IsStream {rest} from size (block_opens {l} {m} e f g) (lo, n, (lo', n', h)) =
    IsStream-lower m.next from size rest (omega arith) (Gap-IsStream m.next size g h)
Gap-IsStream {rest} from size (in_line {l} e g) (lo, n, h) =
    IsStream-lower l.next from size rest (omega arith) (Gap-IsStream l.next size g h)
Gap-IsStream from size (line_ends e) h = h
Gap-IsStream {rest} from size (in_block {l} e g) (lo, n, h) =
    IsStream-lower l.next from size rest (omega arith) (Gap-IsStream l.next size g h)
Gap-IsStream {rest} from size (block_closes {l} {m} e f g) (lo, n, (lo', n', h)) =
    IsStream-lower m.next from size rest (omega arith) (Gap-IsStream m.next size g h)
Gap-IsStream from size line_at_end h = h
Gap-IsStream from size unterminated h = h

-- What stands between the blanks and the token: nothing that is blank itself
pub data IsInk : List Logical → Type 0 where
  none_left : IsInk []
  ink :
      {l : Logical} {ls : List Logical}
      → is_space_not_nl l.char ≡ false
      → ((l.char == b'/') && (peek 0 ls == b'/')) ≡ false
      → ((l.char == b'/') && (peek 0 ls == b'*')) ≡ false
      → IsInk (l ∷ ls)

newline : {l : Logical} {ls : List Logical} → l.char ≡ 10 → IsInk (l ∷ ls)
unfolding is_space_not_nl
newline e = ink (rw e refl) (rw e refl) (rw e refl)

-- A character, and the one behind it, which is no sentinel
data IsPair (a b : ℕ) (l : Logical) : List Logical → Type 0 where
  pair : {m : Logical} {ms : List Logical} → l.char ≡ a → m.char ≡ b → IsPair a b l (m ∷ ms)

IsPair-peek :
    (a b : ℕ) (l : Logical) (ls : List Logical)
    → (0 == b) ≡ false
    → ((l.char == a) && (peek 0 ls == b)) ≡ true
    → IsPair a b l ls
IsPair-peek a b l [] n e = absurd (ground arith)
IsPair-peek a b l (m ∷ ms) n e = pair (ground arith) (ground arith)

-- What the loop leaves behind the blanks
pub record IsSkipped (mode : Blank) (ls rest : List Logical) : Type 0 where
  pub gap : Gap mode ls rest
  pub behind : IsInk rest

opened_line :
    {l : Logical} {ls rest : List Logical}
    → IsPair b'/' b'/' l ls
    → IsSkipped Blank.line_comment (drop 1 ls) rest
    → IsSkipped Blank.space (l ∷ ls) rest
opened_line (pair e f) s = record { gap = line_opens e f s.gap; behind = s.behind }

opened_block :
    {l : Logical} {ls rest : List Logical}
    → IsPair b'/' b'*' l ls
    → IsSkipped Blank.block_comment (drop 1 ls) rest
    → IsSkipped Blank.space (l ∷ ls) rest
opened_block (pair e f) s = record { gap = block_opens e f s.gap; behind = s.behind }

closed_block :
    {l : Logical} {ls rest : List Logical}
    → IsPair b'*' b'/' l ls
    → IsSkipped Blank.space (drop 1 ls) rest
    → IsSkipped Blank.block_comment (l ∷ ls) rest
closed_block (pair e f) s = record { gap = block_closes e f s.gap; behind = s.behind }

drop_nil : (n : ℕ) → drop {A = Logical} n [] ≡ []
drop_nil zero = refl
drop_nil (suc n) = refl

-- The loop over white space and comments steps over all the blanks that there are.
pub blanks-IsSkipped :
    (mode : Blank) (skip : ℕ) (seen : Bool) (ls : List Logical)
    → IsSkipped mode (drop skip ls) (blanks mode skip seen ls).rest
unfolding blanks
blanks-IsSkipped Blank.space skip seen [] =
    rw (drop_nil skip) (record { gap = here; behind = none_left })
blanks-IsSkipped Blank.line_comment skip seen [] =
    rw (drop_nil skip) (record { gap = line_at_end; behind = none_left })
blanks-IsSkipped Blank.block_comment skip seen [] =
    rw (drop_nil skip) (record { gap = unterminated; behind = none_left })
blanks-IsSkipped Blank.space (suc k) seen (l ∷ ls) = blanks-IsSkipped Blank.space k seen ls
blanks-IsSkipped Blank.line_comment (suc k) seen (l ∷ ls) =
    blanks-IsSkipped Blank.line_comment k seen ls
blanks-IsSkipped Blank.block_comment (suc k) seen (l ∷ ls) =
    blanks-IsSkipped Blank.block_comment k seen ls
blanks-IsSkipped Blank.space zero seen (l ∷ ls) =
    go (is_space_not_nl l.char) refl ((l.char == b'/') && (peek 0 ls == b'/')) refl
      ((l.char == b'/') && (peek 0 ls == b'*')) refl (λ mode k. blanks-IsSkipped mode k true ls)
  where
    go :
        (white : Bool)
        → is_space_not_nl l.char ≡ white
        → (line : Bool) → ((l.char == b'/') && (peek 0 ls == b'/')) ≡ line
        → (block : Bool) → ((l.char == b'/') && (peek 0 ls == b'*')) ≡ block
        → ((mode : Blank) (k : ℕ) → IsSkipped mode (drop k ls) (blanks mode k true ls).rest)
        → IsSkipped Blank.space
            (l ∷ ls)
            (elim white as (λ x. Blanks) [
              | true ↦ blanks Blank.space 0 true ls
              | false ↦ elim line [
                | true ↦ blanks Blank.line_comment 1 true ls
                | false ↦ elim block [
                  | true ↦ blanks Blank.block_comment 1 true ls
                  | false ↦ record { leading_space = seen; rest = l ∷ ls; diags = [] }
                ]
              ]
            ]).rest
    go true e line f block g k = record {
      gap = blank e (k Blank.space 0).gap;
      behind = (k Blank.space 0).behind;
    }
    go false e true f block g k =
        opened_line (IsPair-peek b'/' b'/' l ls refl f) (k Blank.line_comment 1)
    go false e false f true g k =
        opened_block (IsPair-peek b'/' b'*' l ls refl g) (k Blank.block_comment 1)
    go false e false f false g k = record { gap = here; behind = ink e f g }
blanks-IsSkipped Blank.line_comment zero seen (l ∷ ls) =
    go (l.char == 10) refl (blanks-IsSkipped Blank.line_comment 0 true ls)
  where
    go :
        (c : Bool)
        → (l.char == 10) ≡ c
        → IsSkipped Blank.line_comment ls (blanks Blank.line_comment 0 true ls).rest
        → IsSkipped Blank.line_comment
            (l ∷ ls)
            (elim c as (λ x. Blanks) [
              | true ↦ record { leading_space = true; rest = l ∷ ls; diags = [] }
              | false ↦ blanks Blank.line_comment 0 true ls
            ]).rest
    go true e k = record { gap = line_ends (ground arith); behind = newline (ground arith) }
    go false e k = record { gap = in_line e k.gap; behind = k.behind }
blanks-IsSkipped Blank.block_comment zero seen (l ∷ ls) =
    go ((l.char == b'*') && (peek 0 ls == b'/')) refl (λ mode k. blanks-IsSkipped mode k true ls)
  where
    go :
        (c : Bool)
        → ((l.char == b'*') && (peek 0 ls == b'/')) ≡ c
        → ((mode : Blank) (k : ℕ) → IsSkipped mode (drop k ls) (blanks mode k true ls).rest)
        → IsSkipped Blank.block_comment
            (l ∷ ls)
            (elim c as (λ x. Blanks) [
              | true ↦ blanks Blank.space 1 true ls
              | false ↦ blanks Blank.block_comment 0 true ls
            ]).rest
    go true e k = closed_block (IsPair-peek b'*' b'/' l ls refl e) (k Blank.space 1)
    go false e k = record {
      gap = in_block e (k Blank.block_comment 0).gap;
      behind = (k Blank.block_comment 0).behind;
    }
