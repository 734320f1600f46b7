-- ===== src/Lexer/Scan.antt =====
-- src/lexer/internal/scan.c: the scanners of identifiers, numbers, literals and header names.
-- They go over the logical characters that `qcc_lx_at` delivers; an offset `p` of the source is
-- the list of the characters from there on, with the offset behind the last one consumed. Where a
-- scanner steps over several characters at once, a counter says how many are still to be skipped.
use quicks_qcc.Prelude.{
  ℕ, zero, suc, Bool, true, false, ◌&&◌, ◌||◌, List, [], ◌∷◌, Option, none, some, ◌==◌,
  if◌then◌else◌,
}
use quicks_qcc.Token.{PpTokenKind, Punct}
use quicks_qcc.Lexer.Cursor.{Logical, is_hex_digit, is_ident_cont}
use quicks_qcc.Lexer.Extent.{before}

-- The diagnostics of the lexer
pub data LexDiag : Type 0 where
  trigraph_ignored stray_backslash missing_quote missing_header_end unterminated_comment : LexDiag

-- `qcc_lx_scan`, with the characters behind the token and the diagnostics
pub record Scan : Type 0 where
  pub kind : PpTokenKind
  pub punct : Punct
  pub end : ℕ
  pub rest : List Logical
  pub diags : List LexDiag

-- The character that `qcc_lx_at` reads `n` characters ahead, or the sentinel
abbrev pub peek : ℕ → List Logical → ℕ
peek n [] = 0
peek zero (l ∷ ls) = l.char
peek (suc n) (l ∷ ls) = peek n ls

-- `strchr("=(/)'<!>-", third) != NULL`
abbrev is_trigraph_end : ℕ → Bool
is_trigraph_end c =
    (c == b'=')
    || (c == b'(')
    || (c == b'/')
    || (c == b')')
    || (c == 39)
    || (c == b'<')
    || (c == b'!')
    || (c == b'>')
    || (c == b'-')

-- `qcc_lx_warn_trigraph`
unfoldable pub warn_trigraph : List Logical → List LexDiag
warn_trigraph ls =
    if (peek 0 ls == b'?') && (peek 1 ls == b'?') && is_trigraph_end (peek 2 ls)
    then trigraph_ignored ∷ []
    else []

-- The digits of `scan_ucn`
unfoldable pub hex_digits : ℕ → List Logical → Bool
hex_digits zero ls = true
hex_digits (suc n) [] = false
hex_digits (suc n) (l ∷ ls) = is_hex_digit l.char && hex_digits n ls

-- `scan_ucn` behind a backslash: the number of characters of the name
unfoldable pub scan_ucn : List Logical → Option ℕ
unfolding hex_digits
scan_ucn [] = none
scan_ucn (u ∷ ls) =
    if (u.char == b'u') && hex_digits 4 ls
    then some 5
    else if (u.char == b'U') && hex_digits 8 ls
    then some 9
    else none

-- The loop of `qcc_lx_scan_identifier`: the offset behind the identifier, and the characters there
unfoldable pub ident_loop : ℕ → ℕ → List Logical → ℕ × List Logical
unfolding scan_ucn
ident_loop skip end [] = (end, [])
ident_loop (suc k) end (l ∷ ls) = ident_loop k l.next ls
ident_loop zero end (l ∷ ls) =
    elim (if is_ident_cont l.char then some 0 else if l.char == 92 then scan_ucn ls else none) [
      | none ↦ (end, l ∷ ls)
      | some n ↦ ident_loop n l.next ls
    ]

-- The result of a loop over a literal or a header name
pub record Body : Type 0 where
  pub end : ℕ
  pub terminated : Bool
  pub rest : List Logical
  pub diags : List LexDiag

-- A body with the diagnostics that come before
abbrev pub with_diags : List LexDiag → Body → Body
with_diags [] b = b
with_diags (d ∷ ds) b = record b { diags = d ∷ b.diags }

-- The loop of `qcc_lx_scan_literal`; `size` is the size of the source.
unfoldable pub literal_loop : ℕ → ℕ → ℕ → List Logical → Body
unfolding warn_trigraph
literal_loop skip size quote [] = record { end = size; terminated = false; rest = []; diags = [] }
literal_loop (suc k) size quote (l ∷ ls) = literal_loop k size quote ls
literal_loop zero size quote (l ∷ ls) = elim (l.char == 10) [
  | true ↦ record { end = l.chpos; terminated = false; rest = l ∷ ls; diags = [] }
  | false ↦ elim (l.char == quote) [
    | true ↦ record { end = l.next; terminated = true; rest = ls; diags = [] }
    | false ↦ elim (l.char == 92) [
      | true ↦ literal_loop 1 size quote ls
      | false ↦ with_diags (warn_trigraph (l ∷ ls)) (literal_loop 0 size quote ls)
    ]
  ]
]

abbrev append {ℓ} : {A : Type ℓ} → List A → List A → List A
append [] ys = ys
append (x ∷ xs) ys = x ∷ append xs ys

-- `qcc_lx_scan_literal` behind the opening quote
unfoldable pub scan_literal : ℕ → ℕ → List Logical → Scan
unfolding literal_loop
scan_literal size quote ls =
    let b = literal_loop 0 size quote ls in
    record {
      kind = if quote == 39 then PpTokenKind.char_const else PpTokenKind.string_lit;
      punct = Punct.lbracket;
      end = b.end;
      rest = b.rest;
      diags = append b.diags (if b.terminated then [] else missing_quote ∷ []);
    }

-- Whether the characters of an identifier in front of a quote are an encoding prefix
unfoldable pub is_prefix : List ℕ → ℕ → Bool
is_prefix [] q = false
is_prefix (c ∷ []) q = (c == b'L') || (c == b'u') || (c == b'U')
is_prefix (c ∷ d ∷ []) q = (c == b'u') && (d == b'8') && (q == 34)
is_prefix (c ∷ d ∷ e ∷ cs) q = false

-- The end of `qcc_lx_scan_identifier`: the identifier, or the literal that it is the prefix of
unfoldable pub finish_identifier : ℕ → List Logical → ℕ → List Logical → Scan
unfolding is_prefix scan_literal before
finish_identifier size start end [] = record {
  kind = PpTokenKind.identifier;
  punct = Punct.lbracket;
  end = end;
  rest = [];
  diags = [];
}
finish_identifier size start end (q ∷ ls) =
    elim (((q.char == 39) || (q.char == 34)) && is_prefix (before end start) q.char) [
      | true ↦ scan_literal size q.char ls
      | false ↦ record {
        kind = PpTokenKind.identifier;
        punct = Punct.lbracket;
        end = end;
        rest = q ∷ ls;
        diags = [];
      }
    ]

-- `qcc_lx_scan_identifier` from the character `l` on
unfoldable pub scan_identifier : ℕ → Logical → List Logical → Scan
unfolding ident_loop finish_identifier
scan_identifier size l ls =
    elim ((l.char == 92) && elim (scan_ucn ls) [ none ↦ true | some n ↦ false ]) [
      | true ↦ record {
        kind = PpTokenKind.other;
        punct = Punct.lbracket;
        end = l.next;
        rest = ls;
        diags = stray_backslash ∷ [];
      }
      | false ↦
          let found = ident_loop 0 l.chpos (l ∷ ls) in
          finish_identifier size (l ∷ ls) found.0 found.1
    ]

-- How many characters a pp-number takes behind the character `c`, unless it ends in front of `c`
unfoldable pub number_step : ℕ → List Logical → Option ℕ
number_step c ls =
    if (c == b'e') || (c == b'E') || (c == b'p') || (c == b'P')
    then some (if (peek 0 ls == b'+') || (peek 0 ls == b'-') then 1 else 0)
    else if is_ident_cont c || (c == b'.')
    then some 0
    else if c == 92
    then scan_ucn ls
    else none

-- The loop of `qcc_lx_scan_pp_number`
unfoldable pub number_loop : ℕ → ℕ → List Logical → ℕ × List Logical
unfolding number_step
number_loop skip end [] = (end, [])
number_loop (suc k) end (l ∷ ls) = number_loop k l.next ls
number_loop zero end (l ∷ ls) = elim (number_step l.char ls) [
  | none ↦ (end, l ∷ ls)
  | some n ↦ number_loop n l.next ls
]

-- `qcc_lx_scan_pp_number` from the character `l` on
unfoldable pub scan_pp_number : Logical → List Logical → Scan
unfolding number_loop
scan_pp_number l ls =
    let found = number_loop 0 l.next ls in
    record {
      kind = PpTokenKind.pp_number;
      punct = Punct.lbracket;
      end = found.0;
      rest = found.1;
      diags = [];
    }

-- The loop of `qcc_lx_scan_header_name`
unfoldable pub header_loop : ℕ → ℕ → List Logical → Body
header_loop size close [] = record { end = size; terminated = false; rest = []; diags = [] }
header_loop size close (l ∷ ls) = elim (l.char == 10) [
  | true ↦ record { end = l.chpos; terminated = false; rest = l ∷ ls; diags = [] }
  | false ↦ elim (l.char == close) [
    | true ↦ record { end = l.next; terminated = true; rest = ls; diags = [] }
    | false ↦ header_loop size close ls
  ]
]

-- `qcc_lx_scan_header_name` behind the opening character
unfoldable pub scan_header_name : ℕ → ℕ → List Logical → Scan
unfolding header_loop
scan_header_name size opening ls =
    let b = header_loop size (if opening == b'<' then b'>' else 34) ls in
    record {
      kind = PpTokenKind.header_name;
      punct = Punct.lbracket;
      end = b.end;
      rest = b.rest;
      diags = if b.terminated then [] else missing_header_end ∷ [];
    }
