-- ===== src/Lexer/EndOfInput.antt =====
-- Calls of `qcc_lexer_next` at the end of input.
use quicks_qcc.Prelude.{
  ℕ, zero, suc, ◌≡◌, refl, Bool, true, false, List, [], ◌∷◌, replicate, if◌then◌else◌,
}
use quicks_qcc.Status.{Outcome, ok, ◌>>=◌}
use quicks_qcc.Token.{PpTokenKind}
use quicks_qcc.Source.{Source}
use quicks_qcc.Lexer.Scan.{LexDiag}
use quicks_qcc.Lexer.Next.{Lexer, lexer_next, after_blanks, at_end, make_token, blanks, emit_all}

-- The kinds of the tokens that so many calls return
unfoldable pub kinds : (List LexDiag → Bool) → ℕ → Source → Lexer → Outcome (List PpTokenKind)
unfolding lexer_next
kinds room zero src lx = ok []
kinds room (suc n) src lx =
    lexer_next room src lx >>= λ r. kinds room n src r.1 >>= λ more. ok (r.0.kind ∷ more)

-- A lexer that has no characters left
abbrev pub exhausted_lexer : Bool → Bool → Bool → List LexDiag → Lexer
exhausted_lexer first mode repaired ds = record {
  rest = [];
  at_line_start = first;
  header_mode = mode;
  eof_newline_done = repaired;
  diags = ds;
}

kinds-repaired :
    (room : List LexDiag → Bool) (n : ℕ) (src : Source) (first mode : Bool) (ds : List LexDiag)
    → kinds room n src (exhausted_lexer first mode true ds) ≡ ok (replicate n PpTokenKind.eof)
unfolding kinds lexer_next blanks emit_all after_blanks at_end make_token
kinds-repaired room zero src first mode ds = refl
kinds-repaired room (suc n) src true mode ds = rw (kinds-repaired room n src false mode ds) refl
kinds-repaired room (suc n) src false mode ds = rw (kinds-repaired room n src false mode ds) refl

-- Calls at the end of input: where the final newline has been supplied, all return the end of
-- input; where a newline is missing, the first supplies it; where the last line has its newline, the
-- first returns the end of input, yet the second a newline, and only the later ones the end again.
pub kinds-at_end :
    (room : List LexDiag → Bool) (n : ℕ) (src : Source) (first mode repaired : Bool)
    (ds : List LexDiag)
    → kinds room (suc (suc n)) src (exhausted_lexer first mode repaired ds)
      ≡ ok (
          if repaired
          then replicate (suc (suc n)) PpTokenKind.eof
          else if first
          then PpTokenKind.eof ∷ PpTokenKind.newline ∷ replicate n PpTokenKind.eof
          else PpTokenKind.newline ∷ replicate (suc n) PpTokenKind.eof)
unfolding kinds lexer_next blanks emit_all after_blanks at_end make_token
kinds-at_end room n src first mode true ds = kinds-repaired room (suc (suc n)) src first mode ds
kinds-at_end room n src true mode false ds = rw (kinds-repaired room n src true mode ds) refl
kinds-at_end room n src false mode false ds = rw (kinds-repaired room n src false mode ds) refl
