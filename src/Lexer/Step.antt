-- ===== src/Lexer/Step.antt =====
-- One call of `qcc_lexer_next`.
use quicks_qcc.Prelude.{
  ℕ, ◌+◌, ◌-◌, ◌≤◌, ◌≡◌, refl, sym, ap, ◌∙◌, Bool, true, false, not, ◌&&◌, List, [], ◌∷◌, ◌++◌,
  ◌==◌, if◌then◌else◌, arith, length,
}
use mathlib.Core.Bool.{false≢true}
use quicks_qcc.Status.{Status, Outcome, ok, err, ◌>>=◌, Yields, yields, exhausted}
use quicks_qcc.Token.{PpTokenKind}
use quicks_qcc.Source.{Source}
use quicks_qcc.Lexer.Cursor.{Logical}
use quicks_qcc.Lexer.Extent.{IsStream, IsStream-le, IsStream-lower}
use quicks_qcc.Lexer.Scan.{LexDiag}
use quicks_qcc.Lexer.Next.{
  PpToken, Lexer, make_token, Blank, blanks, dispatch, at_end, emit_all, scanned, after_blanks,
  lexer_next,
}
use quicks_qcc.Lexer.Reach.{IsReached, Taken, stop, Taken-length, Taken-trans}
use quicks_qcc.Lexer.Scanners.{dispatch-IsScan}
use quicks_qcc.Lexer.Blanks.{IsSkipped, Gap-length, Gap-IsStream, blanks-IsSkipped}
use quicks_qcc.Lexer.Kinds.{is_newline, is_eof, is_break-parts, dispatch-kind}
use quicks_qcc.Lexer.Covers.{IsReady, word, supplied, IsNext, ended, went_on}

emit_all-Yields :
    {A : Type 0} {P : A → Type 0} (room : List LexDiag → Bool) (recorded ds : List LexDiag)
    (k : List LexDiag → Outcome A)
    → ((recorded : List LexDiag) → Yields P (k recorded))
    → Yields P (emit_all room recorded ds >>= k)
unfolding emit_all
emit_all-Yields room recorded [] k h = h recorded
emit_all-Yields {A} {P} room recorded (d ∷ ds) k h =
    go (room recorded) (emit_all-Yields room (recorded ++ d ∷ []) ds k h)
  where
    go :
        (c : Bool)
        → Yields P (emit_all room (recorded ++ d ∷ []) ds >>= k)
        → Yields P
            ((if c then emit_all room (recorded ++ d ∷ []) ds else err Status.out_of_memory) >>= k)
    go true y = y
    go false y = exhausted

at_end-IsNext :
    (from : ℕ) (src : Source) (lx : Lexer) (seen : Bool)
    → IsReady from (length src.bytes) lx
    → IsSkipped Blank.space lx.rest []
    → IsNext from (length src.bytes) lx (at_end src lx seen)
unfolding at_end make_token
at_end-IsNext from src lx seen h s = go lx.at_line_start lx.eof_newline_done refl refl
  where
    size : ℕ
    size = length src.bytes

    bound : from ≤ length src.bytes
    bound = IsStream-le _ _ lx.rest h.stream

    go :
        (b d : Bool)
        → lx.at_line_start ≡ b
        → lx.eof_newline_done ≡ d
        → IsNext from (length src.bytes) lx (
            if not b && not d
            then make_token src
                (record lx { eof_newline_done = true })
                PpTokenKind.newline
                size
                size
                []
                seen
                true
            else make_token src lx PpTokenKind.eof size size [] seen false)
    go true d e f = ended record {
      skipped = s;
      marked = e;
      kind = refl;
      offset = refl;
      extent = omega arith;
      flag = e;
    }
    go false true e f = ended record {
      skipped = s;
      marked = (h.repaired f).0;
      kind = refl;
      offset = refl;
      extent = omega arith;
      flag = (h.repaired f).0;
    }
    go false false e f = went_on record {
      later = bound;
      flag = refl;
      newline = refl;
      covers = supplied s e refl refl (omega arith);
      inner = refl;
      ready = record { stream = omega arith; repaired = λ x. (refl, refl) };
      fewer = rw f (omega arith);
    }

scanned-IsNext :
    (room : List LexDiag → Bool) (from : ℕ) (src : Source) (lx : Lexer) (seen : Bool) (l : Logical)
    (ls : List Logical)
    → lx.eof_newline_done ≡ false
    → IsSkipped Blank.space lx.rest (l ∷ ls)
    → (l.char == 10) ≡ false
    → IsStream from (length src.bytes) (l ∷ ls)
    → Yields
        (IsNext from (length src.bytes) lx)
        (scanned room src lx seen l.chpos (dispatch (length src.bytes) lx.header_mode l ls))
unfolding scanned make_token
scanned-IsNext room from src lx seen l ls undone s other h =
    emit_all-Yields room lx.diags (dispatch (length src.bytes) lx.header_mode l ls).diags _
      (λ recorded. yields (
        went_on record {
          later = h.0;
          flag = refl;
          newline = sym plain.0;
          covers = word s refl beyond (at_its_end reached.taken) (plain.0 ∙ sym other);
          inner = plain.1;
          ready = record {
            stream = in_source;
            repaired = λ done. absurd (false≢true (sym undone ∙ done));
          };
          fewer = omega (arith, Taken-length reached.taken, Gap-length s.gap);
        }))
  where
    plain :
        (is_newline (dispatch (length src.bytes) lx.header_mode l ls).kind ≡ false)
        × (is_eof (dispatch (length src.bytes) lx.header_mode l ls).kind ≡ false)
    plain =
        is_break-parts (dispatch (length src.bytes) lx.header_mode l ls).kind
          (dispatch-kind (length src.bytes) lx.header_mode l ls)

    reached :
        IsReached l.next
          (length src.bytes)
          ls
          (dispatch (length src.bytes) lx.header_mode l ls).end
          (dispatch (length src.bytes) lx.header_mode l ls).rest
    reached = dispatch-IsScan from (length src.bytes) lx.header_mode l ls h

    ending : ℕ
    ending = (dispatch (length src.bytes) lx.header_mode l ls).end

    beyond : l.next ≤ l.chpos + (ending - l.chpos)
    beyond = omega (arith, h.1, reached.later)

    at_its_end :
        Taken ending ls (dispatch (length src.bytes) lx.header_mode l ls).rest
        → Taken
            (l.chpos + (ending - l.chpos))
            ls
            (dispatch (length src.bytes) lx.header_mode l ls).rest
    at_its_end k = Taken-trans (omega (arith, h.1, reached.later)) k stop

    in_source :
        IsStream
          (l.chpos + (ending - l.chpos))
          (length src.bytes)
          (dispatch (length src.bytes) lx.header_mode l ls).rest
    in_source = IsStream-lower _ _ _ _ (omega (arith, h.1, reached.later)) reached.stream

after_blanks-IsNext :
    (room : List LexDiag → Bool) (from : ℕ) (src : Source) (lx : Lexer) (seen : Bool)
    (rest : List Logical)
    → IsReady from (length src.bytes) lx
    → IsSkipped Blank.space lx.rest rest
    → Yields (IsNext from (length src.bytes) lx) (after_blanks room src lx seen rest)
unfolding after_blanks make_token
after_blanks-IsNext room from src lx seen [] h r = yields (at_end-IsNext from src lx seen h r)
after_blanks-IsNext room from src lx seen (l ∷ ls) h r = go (l.char == 10) refl
  where
    inked : IsStream from (length src.bytes) (l ∷ ls)
    inked = Gap-IsStream from (length src.bytes) r.gap h.stream

    undone : (d : Bool) → lx.eof_newline_done ≡ d → lx.eof_newline_done ≡ false
    undone false e = e
    undone true e =
        let none_left : length lx.rest ≡ 0 = ap length (h.repaired e).1 in
        absurd (omega (arith, none_left, Gap-length r.gap))

    go :
        (c : Bool)
        → (l.char == 10) ≡ c
        → Yields (IsNext from (length src.bytes) lx) (elim c as (λ x. Outcome (PpToken × Lexer)) [
          | true ↦ ok (make_token src lx PpTokenKind.newline l.chpos l.next ls seen true)
          | false ↦
              scanned room src lx seen l.chpos (dispatch (length src.bytes) lx.header_mode l ls)
        ])
    go true e = yields (
        went_on record {
          later = inked.0;
          flag = refl;
          newline = refl;
          covers = word r refl (omega (arith, inked.1)) stop (sym e);
          inner = refl;
          ready = record {
            stream = IsStream-lower _ _ _ ls (omega (arith, inked.1)) inked.2;
            repaired = λ done. absurd (false≢true (sym (undone lx.eof_newline_done refl) ∙ done));
          };
          fewer = omega (arith, Gap-length r.gap);
        })
    go false e =
        scanned-IsNext room from src lx seen l ls (undone lx.eof_newline_done refl) r e inked

-- The state of the lexer but for its diagnostics
IsNext-diags :
    {from size : ℕ} (lx : Lexer) (recorded : List LexDiag) (r : Outcome (PpToken × Lexer))
    → Yields (IsNext from size (record lx { diags = recorded })) r
    → Yields (IsNext from size lx) r
IsNext-diags lx recorded _ (yields (ended e)) = yields (
    ended record {
      skipped = e.skipped;
      marked = e.marked;
      kind = e.kind;
      offset = e.offset;
      extent = e.extent;
      flag = e.flag;
    })
IsNext-diags lx recorded _ (yields (went_on s)) = yields (
    went_on record {
      later = s.later;
      flag = s.flag;
      newline = s.newline;
      covers = s.covers;
      inner = s.inner;
      ready = s.ready;
      fewer = s.fewer;
    })
IsNext-diags lx recorded _ exhausted = exhausted

-- A call of `qcc_lexer_next` takes a token that lies in what is left of the source, or finds the end.
pub lexer_next-IsNext :
    (room : List LexDiag → Bool) (from : ℕ) (src : Source) (lx : Lexer)
    → IsReady from (length src.bytes) lx
    → Yields (IsNext from (length src.bytes) lx) (lexer_next room src lx)
unfolding lexer_next
lexer_next-IsNext room from src lx h =
    let b = blanks Blank.space 0 false lx.rest in
    emit_all-Yields room lx.diags b.diags _ (λ recorded. IsNext-diags lx recorded _ (
      after_blanks-IsNext room from src (record lx { diags = recorded }) b.leading_space b.rest
        record { stream = h.stream; repaired = h.repaired }
        (blanks-IsSkipped Blank.space 0 false lx.rest)))
