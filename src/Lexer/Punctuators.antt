-- ===== src/Lexer/Punctuators.antt =====
-- The table of punctuators, and the switch as a search in it.
use quicks_qcc.Prelude.{
  ℕ, ◌≡◌, Bool, true, false, ◌&&◌, List, [], ◌∷◌, none, some, ◌==◌, if◌then◌else◌, length, arith,
}
use quicks_qcc.Token.{Punct}
use quicks_qcc.Lexer.Munch.{Munched, munch, munch_double, munch_single, second}

abbrev pub Table : Type 0
Table = List (List ℕ × Punct)

abbrev pub starts : List ℕ → List ℕ → Bool
starts [] cs = true
starts (s ∷ ss) [] = false
starts (s ∷ ss) (c ∷ cs) = (c == s) && starts ss cs

-- The first entry of a table that the characters begin with
abbrev pub first_match : Table → List ℕ → Munched
first_match [] cs = none
first_match (e ∷ es) cs = if starts e.0 cs then some (e.1, length e.0) else first_match es cs

-- Punctuators that no other begins with
abbrev singles : Table
singles =
    (b'[' ∷ [], Punct.lbracket)
    ∷ (b']' ∷ [], Punct.rbracket)
    ∷ (b'(' ∷ [], Punct.lparen)
    ∷ (b')' ∷ [], Punct.rparen)
    ∷ (b'{' ∷ [], Punct.lbrace)
    ∷ (b'}' ∷ [], Punct.rbrace)
    ∷ (b';' ∷ [], Punct.semi)
    ∷ (b',' ∷ [], Punct.comma)
    ∷ (b'~' ∷ [], Punct.tilde)
    ∷ (b'?' ∷ [], Punct.question)
    ∷ []

-- With those of one first character more each time, longer ones first
abbrev pub from_hash : Table
from_hash = (b'#' ∷ b'#' ∷ [], Punct.hash_hash) ∷ (b'#' ∷ [], Punct.hash) ∷ singles

abbrev pub from_colon : Table
from_colon = (b':' ∷ b'>' ∷ [], Punct.rbracket) ∷ (b':' ∷ [], Punct.colon) ∷ from_hash

abbrev pub from_caret : Table
from_caret = (b'^' ∷ b'=' ∷ [], Punct.caret_eq) ∷ (b'^' ∷ [], Punct.caret) ∷ from_colon

abbrev pub from_equal : Table
from_equal = (b'=' ∷ b'=' ∷ [], Punct.eq_eq) ∷ (b'=' ∷ [], Punct.eq) ∷ from_caret

abbrev pub from_slash : Table
from_slash = (b'/' ∷ b'=' ∷ [], Punct.slash_eq) ∷ (b'/' ∷ [], Punct.slash) ∷ from_equal

abbrev pub from_star : Table
from_star = (b'*' ∷ b'=' ∷ [], Punct.star_eq) ∷ (b'*' ∷ [], Punct.star) ∷ from_slash

abbrev pub from_bang : Table
from_bang = (b'!' ∷ b'=' ∷ [], Punct.bang_eq) ∷ (b'!' ∷ [], Punct.bang) ∷ from_star

abbrev pub from_pipe : Table
from_pipe =
    (b'|' ∷ b'|' ∷ [], Punct.pipe_pipe)
    ∷ (b'|' ∷ b'=' ∷ [], Punct.pipe_eq)
    ∷ (b'|' ∷ [], Punct.pipe)
    ∷ from_bang

abbrev pub from_amp : Table
from_amp =
    (b'&' ∷ b'&' ∷ [], Punct.amp_amp)
    ∷ (b'&' ∷ b'=' ∷ [], Punct.amp_eq)
    ∷ (b'&' ∷ [], Punct.amp)
    ∷ from_pipe

abbrev pub from_plus : Table
from_plus =
    (b'+' ∷ b'+' ∷ [], Punct.plus_plus)
    ∷ (b'+' ∷ b'=' ∷ [], Punct.plus_eq)
    ∷ (b'+' ∷ [], Punct.plus)
    ∷ from_amp

abbrev pub from_minus : Table
from_minus =
    (b'-' ∷ b'>' ∷ [], Punct.arrow)
    ∷ (b'-' ∷ b'-' ∷ [], Punct.minus_minus)
    ∷ (b'-' ∷ b'=' ∷ [], Punct.minus_eq)
    ∷ (b'-' ∷ [], Punct.minus)
    ∷ from_plus

abbrev pub from_percent : Table
from_percent =
    (b'%' ∷ b'=' ∷ [], Punct.percent_eq)
    ∷ (b'%' ∷ b'>' ∷ [], Punct.rbrace)
    ∷ (b'%' ∷ b':' ∷ b'%' ∷ b':' ∷ [], Punct.hash_hash)
    ∷ (b'%' ∷ b':' ∷ [], Punct.hash)
    ∷ (b'%' ∷ [], Punct.percent)
    ∷ from_minus

abbrev pub from_greater : Table
from_greater =
    (b'>' ∷ b'>' ∷ b'=' ∷ [], Punct.rshift_eq)
    ∷ (b'>' ∷ b'>' ∷ [], Punct.rshift)
    ∷ (b'>' ∷ b'=' ∷ [], Punct.ge)
    ∷ (b'>' ∷ [], Punct.gt)
    ∷ from_percent

abbrev pub from_less : Table
from_less =
    (b'<' ∷ b'<' ∷ b'=' ∷ [], Punct.lshift_eq)
    ∷ (b'<' ∷ b'<' ∷ [], Punct.lshift)
    ∷ (b'<' ∷ b'=' ∷ [], Punct.le)
    ∷ (b'<' ∷ b':' ∷ [], Punct.lbracket)
    ∷ (b'<' ∷ b'%' ∷ [], Punct.lbrace)
    ∷ (b'<' ∷ [], Punct.lt)
    ∷ from_greater

-- ISO C 6.4.6: the spellings of the punctuators, digraphs included, each in front of the shorter
-- ones that it begins with
abbrev pub punctuators : Table
punctuators = (b'.' ∷ b'.' ∷ b'.' ∷ [], Punct.ellipsis) ∷ (b'.' ∷ [], Punct.dot) ∷ from_less

-- A first character with one, two or three longer punctuators
one_longer :
    (h c1 c2 c3 c4 x : ℕ) (p q : Punct) (rest : Table) (m : Munched)
    → m ≡ first_match rest (c1 ∷ c2 ∷ c3 ∷ c4 ∷ [])
    → (if c1 == h then second c2 x (some (p, 2)) (some (q, 1)) else m)
      ≡ first_match ((h ∷ x ∷ [], p) ∷ (h ∷ [], q) ∷ rest) (c1 ∷ c2 ∷ c3 ∷ c4 ∷ [])
one_longer h c1 c2 c3 c4 x p q rest m e = ground arith

two_longer :
    (h c1 c2 c3 c4 x y : ℕ) (p p' q : Punct) (rest : Table) (m : Munched)
    → m ≡ first_match rest (c1 ∷ c2 ∷ c3 ∷ c4 ∷ [])
    → (if c1 == h then second c2 x (some (p, 2)) (second c2 y (some (p', 2)) (some (q, 1))) else m)
      ≡ first_match
          ((h ∷ x ∷ [], p) ∷ (h ∷ y ∷ [], p') ∷ (h ∷ [], q) ∷ rest)
          (c1 ∷ c2 ∷ c3 ∷ c4 ∷ [])
two_longer h c1 c2 c3 c4 x y p p' q rest m e = ground arith

three_longer :
    (h c1 c2 c3 c4 x y z : ℕ) (p p' p'' q : Punct) (rest : Table) (m : Munched)
    → m ≡ first_match rest (c1 ∷ c2 ∷ c3 ∷ c4 ∷ [])
    → (if c1 == h
        then second c2 x
            (some (p, 2))
            (second c2 y (some (p', 2)) (second c2 z (some (p'', 2)) (some (q, 1))))
        else m)
      ≡ first_match
          ((h ∷ x ∷ [], p) ∷ (h ∷ y ∷ [], p') ∷ (h ∷ z ∷ [], p'') ∷ (h ∷ [], q) ∷ rest)
          (c1 ∷ c2 ∷ c3 ∷ c4 ∷ [])
three_longer h c1 c2 c3 c4 x y z p p' p'' q rest m e = ground arith

dots :
    (c1 c2 c3 c4 : ℕ) (rest : Table) (m : Munched)
    → m ≡ first_match rest (c1 ∷ c2 ∷ c3 ∷ c4 ∷ [])
    → (if c1 == b'.'
        then (if (c2 == b'.') && (c3 == b'.')
            then some (Punct.ellipsis, 3)
            else some (Punct.dot, 1))
        else m)
      ≡ first_match
          ((b'.' ∷ b'.' ∷ b'.' ∷ [], Punct.ellipsis) ∷ (b'.' ∷ [], Punct.dot) ∷ rest)
          (c1 ∷ c2 ∷ c3 ∷ c4 ∷ [])
dots c1 c2 c3 c4 rest m e = ground arith

lesses :
    (c1 c2 c3 c4 : ℕ) (rest : Table) (m : Munched)
    → m ≡ first_match rest (c1 ∷ c2 ∷ c3 ∷ c4 ∷ [])
    → (if c1 == b'<'
        then second c2 b'<'
            (if c3 == b'=' then some (Punct.lshift_eq, 3) else some (Punct.lshift, 2))
            (second c2 b'=' (some (Punct.le, 2)) (
              second c2 b':'
                (some (Punct.lbracket, 2))
                (second c2 b'%' (some (Punct.lbrace, 2)) (some (Punct.lt, 1)))))
        else m)
      ≡ first_match
          ((b'<' ∷ b'<' ∷ b'=' ∷ [], Punct.lshift_eq)
            ∷ (b'<' ∷ b'<' ∷ [], Punct.lshift)
            ∷ (b'<' ∷ b'=' ∷ [], Punct.le)
            ∷ (b'<' ∷ b':' ∷ [], Punct.lbracket)
            ∷ (b'<' ∷ b'%' ∷ [], Punct.lbrace)
            ∷ (b'<' ∷ [], Punct.lt)
            ∷ rest)
          (c1 ∷ c2 ∷ c3 ∷ c4 ∷ [])
lesses c1 c2 c3 c4 rest m e = ground arith

greaters :
    (c1 c2 c3 c4 : ℕ) (rest : Table) (m : Munched)
    → m ≡ first_match rest (c1 ∷ c2 ∷ c3 ∷ c4 ∷ [])
    → (if c1 == b'>'
        then second c2 b'>'
            (if c3 == b'=' then some (Punct.rshift_eq, 3) else some (Punct.rshift, 2))
            (second c2 b'=' (some (Punct.ge, 2)) (some (Punct.gt, 1)))
        else m)
      ≡ first_match
          ((b'>' ∷ b'>' ∷ b'=' ∷ [], Punct.rshift_eq)
            ∷ (b'>' ∷ b'>' ∷ [], Punct.rshift)
            ∷ (b'>' ∷ b'=' ∷ [], Punct.ge)
            ∷ (b'>' ∷ [], Punct.gt)
            ∷ rest)
          (c1 ∷ c2 ∷ c3 ∷ c4 ∷ [])
greaters c1 c2 c3 c4 rest m e = ground arith

percents :
    (c1 c2 c3 c4 : ℕ) (rest : Table) (m : Munched)
    → m ≡ first_match rest (c1 ∷ c2 ∷ c3 ∷ c4 ∷ [])
    → (if c1 == b'%'
        then second c2 b'=' (some (Punct.percent_eq, 2)) (
            second c2 b'>' (some (Punct.rbrace, 2)) (
              second c2 b':'
                (if (c3 == b'%') && (c4 == b':')
                  then some (Punct.hash_hash, 4)
                  else some (Punct.hash, 2))
                (some (Punct.percent, 1))))
        else m)
      ≡ first_match
          ((b'%' ∷ b'=' ∷ [], Punct.percent_eq)
            ∷ (b'%' ∷ b'>' ∷ [], Punct.rbrace)
            ∷ (b'%' ∷ b':' ∷ b'%' ∷ b':' ∷ [], Punct.hash_hash)
            ∷ (b'%' ∷ b':' ∷ [], Punct.hash)
            ∷ (b'%' ∷ [], Punct.percent)
            ∷ rest)
          (c1 ∷ c2 ∷ c3 ∷ c4 ∷ [])
percents c1 c2 c3 c4 rest m e = ground arith

munch_single-first_match :
    (c1 c2 c3 c4 : ℕ) → munch_single c1 ≡ first_match singles (c1 ∷ c2 ∷ c3 ∷ c4 ∷ [])
unfolding munch_single
munch_single-first_match c1 c2 c3 c4 = ground arith

munch_double-first_match :
    (c1 c2 c3 c4 : ℕ) → munch_double c1 c2 ≡ first_match from_minus (c1 ∷ c2 ∷ c3 ∷ c4 ∷ [])
unfolding munch_double
munch_double-first_match c1 c2 c3 c4 = three_longer b'-' c1 c2 c3 c4 _ _ _ _ _ _ _ from_plus _ (
    two_longer b'+' c1 c2 c3 c4 _ _ _ _ _ from_amp _ (
      two_longer b'&' c1 c2 c3 c4 _ _ _ _ _ from_pipe _ (
        two_longer b'|' c1 c2 c3 c4 _ _ _ _ _ from_bang _ (
          one_longer b'!' c1 c2 c3 c4 _ _ _ from_star _ (
            one_longer b'*' c1 c2 c3 c4 _ _ _ from_slash _ (
              one_longer b'/' c1 c2 c3 c4 _ _ _ from_equal _ (
                one_longer b'=' c1 c2 c3 c4 _ _ _ from_caret _ (
                  one_longer b'^' c1 c2 c3 c4 _ _ _ from_colon _ (
                    one_longer b':' c1 c2 c3 c4 _ _ _ from_hash _ (
                      one_longer b'#' c1 c2 c3 c4 _ _ _ singles _
                        (munch_single-first_match c1 c2 c3 c4)))))))))))

pub munch-first_match :
    (c1 c2 c3 c4 : ℕ) → munch c1 c2 c3 c4 ≡ first_match punctuators (c1 ∷ c2 ∷ c3 ∷ c4 ∷ [])
unfolding munch
munch-first_match c1 c2 c3 c4 = dots c1 c2 c3 c4 from_less _ (
    lesses c1 c2 c3 c4 from_greater _ (
      greaters c1 c2 c3 c4 from_percent _
        (percents c1 c2 c3 c4 from_minus _ (munch_double-first_match c1 c2 c3 c4))))
