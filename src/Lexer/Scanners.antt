-- ===== src/Lexer/Scanners.antt =====
-- How far the scanners reach.
use quicks_qcc.Prelude.{
  ℕ, ◌-◌, ◌≡◌, refl, ap, Bool, true, false, ◌&&◌, ◌||◌, List, [], ◌∷◌, ◌==◌, if◌then◌else◌, arith,
  Option, none, some,
}
use mathlib.Core.Bool.{false≢true}
use quicks_qcc.Token.{PpTokenKind, Punct}
use quicks_qcc.Lexer.Cursor.{Logical, is_ident_start, is_ident_cont, is_digit}
use quicks_qcc.Lexer.Extent.{IsStream}
use quicks_qcc.Lexer.Scan.{
  LexDiag, Scan, peek, warn_trigraph, scan_ucn, ident_loop, scan_literal, is_prefix,
  finish_identifier, scan_identifier, scan_pp_number, scan_header_name,
}
use quicks_qcc.Lexer.Extent.{before}
use quicks_qcc.Lexer.Munch.{Munched, munch, munched, scan_punct_or_other}
use quicks_qcc.Lexer.Next.{dispatch}
use quicks_qcc.Lexer.Reach.{
  IsReached, IsReached-stop, past, Taken-trans, behind-IsReached, ident_loop-IsReached,
  number_loop-IsReached, literal_loop-IsBody, header_loop-IsBody,
}

-- What a scanner returns
abbrev pub IsScan : ℕ → ℕ → List Logical → Scan → Type 0
IsScan from size ls s = IsReached from size ls s.end s.rest

scan_literal-IsScan :
    (from size quote : ℕ) (ls : List Logical)
    → IsStream from size ls
    → IsScan from size ls (scan_literal size quote ls)
unfolding scan_literal
scan_literal-IsScan from size quote ls h = literal_loop-IsBody 0 from size quote ls h

finish_identifier-IsScan :
    (from size : ℕ) (n : List Logical) (start : List Logical) (end : ℕ) (rest : List Logical)
    → IsReached from size n end rest
    → IsScan from size n (finish_identifier size start end rest)
unfolding finish_identifier
finish_identifier-IsScan from size n start end [] r = r
finish_identifier-IsScan from size n start end (q ∷ ls) r =
    go (((q.char == 39) || (q.char == 34)) && is_prefix (before end start) q.char)
  where
    literal : IsScan q.next size ls (scan_literal size q.char ls)
    literal = scan_literal-IsScan q.next size q.char ls r.stream.2

    go :
        (c : Bool)
        → IsScan from size n (elim c as (λ x. Scan) [
          | true ↦ scan_literal size q.char ls
          | false ↦ record {
            kind = PpTokenKind.identifier;
            punct = Punct.lbracket;
            end = end;
            rest = q ∷ ls;
            diags = [];
          }
        ])
    go true = record {
      later = omega (arith, r.later, r.stream.0, r.stream.1, literal.later);
      stream = literal.stream;
      taken =
          Taken-trans (omega (arith, r.stream.0, r.stream.1, literal.later)) r.taken
            (past literal.later literal.taken);
    }
    go false = r

-- An identifier that begins with a character of one goes on behind it.
ident_loop-first :
    (m end : ℕ) (l : Logical) (ls : List Logical)
    → (if is_ident_cont l.char then some 0 else if l.char == 92 then scan_ucn ls else none) ≡ some m
    → ident_loop 0 end (l ∷ ls) ≡ ident_loop m l.next ls
unfolding ident_loop
ident_loop-first m end l ls e =
    ap
      (λ (o : Option ℕ). elim o as (λ x. ℕ × List Logical) [
        | none ↦ (end, l ∷ ls)
        | some n ↦ ident_loop n l.next ls
      ])
      e

identifier-IsScan :
    (from size m : ℕ) (l : Logical) (ls : List Logical)
    → IsStream from size (l ∷ ls)
    → (if is_ident_cont l.char then some 0 else if l.char == 92 then scan_ucn ls else none) ≡ some m
    → let found = ident_loop 0 l.chpos (l ∷ ls) in
      IsScan l.next size ls (finish_identifier size (l ∷ ls) found.0 found.1)
identifier-IsScan from size m l ls h e = rw (ident_loop-first m l.chpos l ls e) (
    finish_identifier-IsScan l.next size ls (l ∷ ls) (ident_loop m l.next ls).0
      (ident_loop m l.next ls).1 (ident_loop-IsReached m l.next size ls h.2))

scan_identifier-IsScan :
    (from size : ℕ) (l : Logical) (ls : List Logical)
    → IsStream from size (l ∷ ls)
    → (is_ident_start l.char || (l.char == 92)) ≡ true
    → IsScan l.next size ls (scan_identifier size l ls)
unfolding scan_identifier is_ident_cont
scan_identifier-IsScan from size l ls h begins =
    go (l.char == 92) (scan_ucn ls) (is_ident_start l.char) (is_digit l.char) begins
      (identifier-IsScan from size 0 l ls h) (λ n. identifier-IsScan from size n l ls h)
  where
    Found : Type 0
    Found =
        let found = ident_loop 0 l.chpos (l ∷ ls) in
        IsScan l.next size ls (finish_identifier size (l ∷ ls) found.0 found.1)

    stray : Scan
    stray = record {
      kind = PpTokenKind.other;
      punct = Punct.lbracket;
      end = l.next;
      rest = ls;
      diags = LexDiag.stray_backslash ∷ [];
    }

    first : Bool → Bool → Bool → Option ℕ → Option ℕ
    first s d b o = if s || d then some 0 else if b then o else none

    go :
        (b : Bool) (o : Option ℕ) (s d : Bool)
        → (s || b) ≡ true
        → (first s d b o ≡ some 0 → Found)
        → ((n : ℕ) → first s d b o ≡ some n → Found)
        → IsScan l.next size ls
            (elim (b && elim o as (λ x. Bool) [ none ↦ true | some n ↦ false ]) as (λ x. Scan) [
              | true ↦ stray
              | false ↦
                  let found = ident_loop 0 l.chpos (l ∷ ls) in
                  finish_identifier size (l ∷ ls) found.0 found.1
            ])
    go true none s d e k k' = IsReached-stop h.2
    go true (some n) true d e k k' = k refl
    go true (some n) false true e k k' = k refl
    go true (some n) false false e k k' = k' n refl
    go false o true d e k k' = k refl
    go false o false d e k k' = absurd (false≢true e)

scan_pp_number-IsScan :
    (from size : ℕ) (l : Logical) (ls : List Logical)
    → IsStream from size (l ∷ ls)
    → IsScan l.next size ls (scan_pp_number l ls)
unfolding scan_pp_number
scan_pp_number-IsScan from size l ls h = number_loop-IsReached 0 l.next size ls h.2

scan_header_name-IsScan :
    (from size opening : ℕ) (ls : List Logical)
    → IsStream from size ls
    → IsScan from size ls (scan_header_name size opening ls)
unfolding scan_header_name
scan_header_name-IsScan from size opening ls h =
    header_loop-IsBody from size (if opening == b'<' then b'>' else 34) ls h

munched-IsScan :
    (m : Munched) (ds : List LexDiag) (from size : ℕ) (l : Logical) (ls : List Logical)
    → IsStream from size (l ∷ ls)
    → IsScan l.next size ls (munched m ds l ls)
unfolding munched
munched-IsScan none ds from size l ls h = IsReached-stop h.2
munched-IsScan (some (p, n)) ds from size l ls h = behind-IsReached (n - 1) l.next size ls h.2

scan_punct_or_other-IsScan :
    (from size : ℕ) (l : Logical) (ls : List Logical)
    → IsStream from size (l ∷ ls)
    → IsScan l.next size ls (scan_punct_or_other l ls)
unfolding scan_punct_or_other
scan_punct_or_other-IsScan from size l ls h =
    munched-IsScan (munch l.char (peek 0 ls) (peek 1 ls) (peek 2 ls)) (warn_trigraph (l ∷ ls)) from
      size l ls h

-- Every scanner consumes the character that it is called at, and goes no further than the source.
pub dispatch-IsScan :
    (from size : ℕ) (mode : Bool) (l : Logical) (ls : List Logical)
    → IsStream from size (l ∷ ls)
    → IsScan l.next size ls (dispatch size mode l ls)
unfolding dispatch
dispatch-IsScan from size mode l ls h =
    go (mode && ((l.char == b'<') || (l.char == 34))) (is_ident_start l.char || (l.char == 92)) refl
      (is_digit l.char) ((l.char == b'.') && is_digit (peek 0 ls))
      ((l.char == 39) || (l.char == 34))
  where
    number : IsScan l.next size ls (scan_pp_number l ls)
    number = scan_pp_number-IsScan from size l ls h

    go :
        (header ident : Bool)
        → (is_ident_start l.char || (l.char == 92)) ≡ ident
        → (digit dot quote : Bool)
        → IsScan l.next size ls (
            if header
            then scan_header_name size l.char ls
            else if ident
            then scan_identifier size l ls
            else if digit
            then scan_pp_number l ls
            else if dot
            then scan_pp_number l ls
            else if quote
            then scan_literal size l.char ls
            else scan_punct_or_other l ls)
    go true i e d p q = scan_header_name-IsScan l.next size l.char ls h.2
    go false true e d p q = scan_identifier-IsScan from size l ls h e
    go false false e true p q = number
    go false false e false true q = number
    go false false e false false true = scan_literal-IsScan l.next size l.char ls h.2
    go false false e false false false = scan_punct_or_other-IsScan from size l ls h
