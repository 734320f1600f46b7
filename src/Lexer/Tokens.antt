-- ===== src/Lexer/Tokens.antt =====
-- The tokens of a whole source, by calls of `qcc_lexer_next` until one returns the end of input.
use quicks_qcc.Prelude.{
  ℕ, zero, suc, ◌+◌, ◌≤◌, ◌≡◌, Bool, true, false, List, [], ◌∷◌, if◌then◌else◌,
}
use quicks_qcc.Status.{Status, ok, err, undefined}
use quicks_qcc.Token.{PpTokenKind}
use quicks_qcc.Source.{Source}
use quicks_qcc.Lexer.Cursor.{Logical}
use quicks_qcc.Lexer.Blanks.{IsSkipped}
use quicks_qcc.Lexer.Extent.{IsStream}
use quicks_qcc.Lexer.Scan.{LexDiag}
use quicks_qcc.Lexer.Next.{Blank, PpToken, Lexer, lexer_next}
use quicks_qcc.Lexer.Kinds.{is_newline, is_eof}
use quicks_qcc.Lexer.Covers.{Covers}

-- A run of calls: to the end of input, to a failure, or not that far
pub data Run : Type 0 where
  finished : List PpToken → Run
  failed : Status → Run
  unfinished : Run

abbrev pub and_then : PpToken → Run → Run
and_then tok (finished toks) = finished (tok ∷ toks)
and_then tok (failed st) = failed st
and_then tok unfinished = unfinished

-- At most `n` calls, until one returns the end of input
unfoldable pub tokenize : (List LexDiag → Bool) → ℕ → Source → Lexer → Run
unfolding lexer_next
tokenize room zero src lx = unfinished
tokenize room (suc n) src lx = elim (lexer_next room src lx) [
  | ok r ↦
      (let more = tokenize room n src r.1 in
        if is_eof r.0.kind then finished (r.0 ∷ []) else and_then r.0 more)
  | err st ↦ failed st
  | undefined ↦ unfinished
]

-- The tokens of the characters `ls` of a source of a size, from an offset on: each covers all from
-- the first character that is not blank up to where the characters left for the next tokens begin,
-- and is marked as the first of its line just if a newline is in front of it. The last is the end
-- of input, behind a newline, where only blanks are left.
pub data AreLexed (size : ℕ) : ℕ → List Logical → Bool → List PpToken → Type 0 where
  last :
      {from : ℕ} {ls : List Logical} {tok : PpToken}
      → from ≤ size
      → IsSkipped Blank.space ls []
      → tok.kind ≡ PpTokenKind.eof
      → tok.offset ≡ size
      → tok.extent ≡ 0
      → tok.at_line_start ≡ true
      → AreLexed size from ls true (tok ∷ [])
  more :
      {from : ℕ} {ls rest : List Logical} {first : Bool} {tok : PpToken} {toks : List PpToken}
      → from ≤ tok.offset
      → Covers size first ls tok rest
      → IsStream (tok.offset + tok.extent) size rest
      → is_eof tok.kind ≡ false
      → tok.at_line_start ≡ first
      → AreLexed size (tok.offset + tok.extent) rest (is_newline tok.kind) toks
      → AreLexed size from ls first (tok ∷ toks)

-- A run that gets all the tokens, or finds no memory for a diagnostic
pub data Lexes (size from : ℕ) (ls : List Logical) (first : Bool) : Run → Type 0 where
  lexed :
      {toks : List PpToken}
      → AreLexed size from ls first toks
      → Lexes size from ls first (finished toks)
  out_of_memory : Lexes size from ls first (failed Status.out_of_memory)
