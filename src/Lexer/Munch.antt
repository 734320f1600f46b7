-- ===== src/Lexer/Munch.antt =====
-- src/lexer/internal/punct.c: the scanner of punctuators.
use quicks_qcc.Prelude.{
  ℕ, zero, suc, ◌-◌, ◌&&◌, List, [], ◌∷◌, Option, none, some, ◌==◌, if◌then◌else◌,
}
use quicks_qcc.Token.{PpTokenKind, Punct}
use quicks_qcc.Lexer.Cursor.{Logical}
use quicks_qcc.Lexer.Scan.{Scan, LexDiag, peek, warn_trigraph}

-- A punctuator and the number of its characters
abbrev pub Munched : Type 0
Munched = Option (Punct × ℕ)

-- Where the second character is `c`, the longer punctuator, else the shorter one
abbrev pub second : ℕ → ℕ → Munched → Munched → Munched
second c2 c longer shorter = if c2 == c then longer else shorter

-- The cases of the switch whose first character begins no other punctuator
unfoldable pub munch_single : ℕ → Munched
munch_single c1 =
    if c1 == b'['
    then some (Punct.lbracket, 1)
    else if c1 == b']'
    then some (Punct.rbracket, 1)
    else if c1 == b'('
    then some (Punct.lparen, 1)
    else if c1 == b')'
    then some (Punct.rparen, 1)
    else if c1 == b'{'
    then some (Punct.lbrace, 1)
    else if c1 == b'}'
    then some (Punct.rbrace, 1)
    else if c1 == b';'
    then some (Punct.semi, 1)
    else if c1 == b','
    then some (Punct.comma, 1)
    else if c1 == b'~'
    then some (Punct.tilde, 1)
    else if c1 == b'?'
    then some (Punct.question, 1)
    else none

-- The cases of at most two characters
unfoldable pub munch_double : ℕ → ℕ → Munched
unfolding munch_single
munch_double c1 c2 =
    if c1 == b'-'
    then second c2 b'>' (some (Punct.arrow, 2)) (
        second c2 b'-' (some (Punct.minus_minus, 2))
          (second c2 b'=' (some (Punct.minus_eq, 2)) (some (Punct.minus, 1))))
    else if c1 == b'+'
    then second c2 b'+' (some (Punct.plus_plus, 2))
        (second c2 b'=' (some (Punct.plus_eq, 2)) (some (Punct.plus, 1)))
    else if c1 == b'&'
    then second c2 b'&' (some (Punct.amp_amp, 2))
        (second c2 b'=' (some (Punct.amp_eq, 2)) (some (Punct.amp, 1)))
    else if c1 == b'|'
    then second c2 b'|' (some (Punct.pipe_pipe, 2))
        (second c2 b'=' (some (Punct.pipe_eq, 2)) (some (Punct.pipe, 1)))
    else if c1 == b'!'
    then second c2 b'=' (some (Punct.bang_eq, 2)) (some (Punct.bang, 1))
    else if c1 == b'*'
    then second c2 b'=' (some (Punct.star_eq, 2)) (some (Punct.star, 1))
    else if c1 == b'/'
    then second c2 b'=' (some (Punct.slash_eq, 2)) (some (Punct.slash, 1))
    else if c1 == b'='
    then second c2 b'=' (some (Punct.eq_eq, 2)) (some (Punct.eq, 1))
    else if c1 == b'^'
    then second c2 b'=' (some (Punct.caret_eq, 2)) (some (Punct.caret, 1))
    else if c1 == b':'
    then second c2 b'>' (some (Punct.rbracket, 2)) (some (Punct.colon, 1))
    else if c1 == b'#'
    then second c2 b'#' (some (Punct.hash_hash, 2)) (some (Punct.hash, 1))
    else munch_single c1

-- The switch of `qcc_lx_scan_punct_or_other` on the next four characters
unfoldable pub munch : ℕ → ℕ → ℕ → ℕ → Munched
unfolding munch_double
munch c1 c2 c3 c4 =
    if c1 == b'.'
    then (if (c2 == b'.') && (c3 == b'.') then some (Punct.ellipsis, 3) else some (Punct.dot, 1))
    else if c1 == b'<'
    then second c2 b'<' (if c3 == b'=' then some (Punct.lshift_eq, 3) else some (Punct.lshift, 2)) (
        second c2 b'=' (some (Punct.le, 2)) (
          second c2 b':' (some (Punct.lbracket, 2))
            (second c2 b'%' (some (Punct.lbrace, 2)) (some (Punct.lt, 1)))))
    else if c1 == b'>'
    then second c2 b'>' (if c3 == b'=' then some (Punct.rshift_eq, 3) else some (Punct.rshift, 2))
        (second c2 b'=' (some (Punct.ge, 2)) (some (Punct.gt, 1)))
    else if c1 == b'%'
    then second c2 b'=' (some (Punct.percent_eq, 2)) (
        second c2 b'>' (some (Punct.rbrace, 2)) (
          second c2 b':'
            (if (c3 == b'%') && (c4 == b':')
              then some (Punct.hash_hash, 4)
              else some (Punct.hash, 2))
            (some (Punct.percent, 1))))
    else munch_double c1 c2

-- The characters behind the first `n`, and the offset there
abbrev pub behind : ℕ → ℕ → List Logical → ℕ × List Logical
behind zero end ls = (end, ls)
behind (suc n) end [] = (end, [])
behind (suc n) end (l ∷ ls) = behind n l.next ls

-- The token of a punctuator, or an "other" token of one character; the first character is `l`.
unfoldable pub munched : Munched → List LexDiag → Logical → List Logical → Scan
munched none ds l ls = record {
  kind = PpTokenKind.other;
  punct = Punct.lbracket;
  end = l.next;
  rest = ls;
  diags = [];
}
munched (some (p, n)) ds l ls =
    let found = behind (n - 1) l.next ls in
    record { kind = PpTokenKind.punct; punct = p; end = found.0; rest = found.1; diags = ds }

-- `qcc_lx_scan_punct_or_other` from the character `l` on
unfoldable pub scan_punct_or_other : Logical → List Logical → Scan
unfolding munch munched
scan_punct_or_other l ls =
    munched (munch l.char (peek 0 ls) (peek 1 ls) (peek 2 ls)) (warn_trigraph (l ∷ ls)) l ls
