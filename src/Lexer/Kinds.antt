-- ===== src/Lexer/Kinds.antt =====
-- The kinds of tokens that the scanners return.
use quicks_qcc.Prelude.{
  ℕ, ◌≡◌, refl, Bool, true, false, ◌&&◌, ◌||◌, List, [], ◌∷◌, ◌==◌, if◌then◌else◌, none, some,
}
use mathlib.Core.Bool.{true≢false}
use quicks_qcc.Token.{PpTokenKind, Punct}
use quicks_qcc.Lexer.Cursor.{Logical, is_ident_start, is_digit}
use quicks_qcc.Lexer.Extent.{before}
use quicks_qcc.Lexer.Scan.{
  LexDiag, Scan, peek, warn_trigraph, scan_ucn, ident_loop, scan_literal, is_prefix,
  finish_identifier, scan_identifier, scan_pp_number, scan_header_name,
}
use quicks_qcc.Lexer.Munch.{Munched, munch, munched, scan_punct_or_other}
use quicks_qcc.Lexer.Next.{dispatch}

abbrev pub is_newline : PpTokenKind → Bool
is_newline PpTokenKind.newline = true
is_newline _ = false

abbrev pub is_eof : PpTokenKind → Bool
is_eof PpTokenKind.eof = true
is_eof _ = false

abbrev pub is_break : PpTokenKind → Bool
is_break PpTokenKind.newline = true
is_break PpTokenKind.eof = true
is_break _ = false

pub is_break-parts :
    (k : PpTokenKind) → is_break k ≡ false → (is_newline k ≡ false) × (is_eof k ≡ false)
is_break-parts PpTokenKind.newline e = absurd (true≢false e)
is_break-parts PpTokenKind.eof e = absurd (true≢false e)
is_break-parts PpTokenKind.identifier e = (refl, refl)
is_break-parts PpTokenKind.pp_number e = (refl, refl)
is_break-parts PpTokenKind.char_const e = (refl, refl)
is_break-parts PpTokenKind.string_lit e = (refl, refl)
is_break-parts PpTokenKind.punct e = (refl, refl)
is_break-parts PpTokenKind.header_name e = (refl, refl)
is_break-parts PpTokenKind.other e = (refl, refl)

scan_literal-kind :
    (size quote : ℕ) (ls : List Logical) → is_break (scan_literal size quote ls).kind ≡ false
unfolding scan_literal
scan_literal-kind size quote ls = go (quote == 39)
  where
    go :
        (c : Bool) → is_break (if c then PpTokenKind.char_const else PpTokenKind.string_lit) ≡ false
    go true = refl
    go false = refl

finish_identifier-kind :
    (size : ℕ) (start : List Logical) (end : ℕ) (rest : List Logical)
    → is_break (finish_identifier size start end rest).kind ≡ false
unfolding finish_identifier
finish_identifier-kind size start end [] = refl
finish_identifier-kind size start end (q ∷ ls) =
    go (((q.char == 39) || (q.char == 34)) && is_prefix (before end start) q.char)
  where
    go :
        (c : Bool)
        → is_break
            (elim c as (λ x. Scan) [
              | true ↦ scan_literal size q.char ls
              | false ↦ record {
                kind = PpTokenKind.identifier;
                punct = Punct.lbracket;
                end = end;
                rest = q ∷ ls;
                diags = [];
              }
            ]).kind
          ≡ false
    go true = scan_literal-kind size q.char ls
    go false = refl

scan_identifier-kind :
    (size : ℕ) (l : Logical) (ls : List Logical) → is_break (scan_identifier size l ls).kind ≡ false
unfolding scan_identifier
scan_identifier-kind size l ls =
    go ((l.char == 92) && elim (scan_ucn ls) [ none ↦ true | some n ↦ false ])
  where
    go :
        (c : Bool)
        → is_break
            (elim c as (λ x. Scan) [
              | true ↦ record {
                kind = PpTokenKind.other;
                punct = Punct.lbracket;
                end = l.next;
                rest = ls;
                diags = LexDiag.stray_backslash ∷ [];
              }
              | false ↦
                  let found = ident_loop 0 l.chpos (l ∷ ls) in
                  finish_identifier size (l ∷ ls) found.0 found.1
            ]).kind
          ≡ false
    go true = refl
    go false =
        finish_identifier-kind size (l ∷ ls) (ident_loop 0 l.chpos (l ∷ ls)).0
          (ident_loop 0 l.chpos (l ∷ ls)).1

munched-kind :
    (m : Munched) (ds : List LexDiag) (l : Logical) (ls : List Logical)
    → is_break (munched m ds l ls).kind ≡ false
unfolding munched
munched-kind none ds l ls = refl
munched-kind (some (p, n)) ds l ls = refl

-- No scanner returns a newline or the end of input.
pub dispatch-kind :
    (size : ℕ) (mode : Bool) (l : Logical) (ls : List Logical)
    → is_break (dispatch size mode l ls).kind ≡ false
unfolding dispatch scan_pp_number scan_header_name scan_punct_or_other
dispatch-kind size mode l ls =
    go (mode && ((l.char == b'<') || (l.char == 34))) (is_ident_start l.char || (l.char == 92))
      (is_digit l.char) ((l.char == b'.') && is_digit (peek 0 ls))
      ((l.char == 39) || (l.char == 34))
  where
    go :
        (header ident digit dot quote : Bool)
        → is_break
            (if header
              then scan_header_name size l.char ls
              else if ident
              then scan_identifier size l ls
              else if digit
              then scan_pp_number l ls
              else if dot
              then scan_pp_number l ls
              else if quote
              then scan_literal size l.char ls
              else scan_punct_or_other l ls).kind
          ≡ false
    go true i d p q = refl
    go false true d p q = scan_identifier-kind size l ls
    go false false true p q = refl
    go false false false true q = refl
    go false false false false true = scan_literal-kind size l.char ls
    go false false false false false =
        munched-kind (munch l.char (peek 0 ls) (peek 1 ls) (peek 2 ls)) (warn_trigraph (l ∷ ls)) l
          ls
