-- ===== src/Lexer/Covers.antt =====
-- What one call of `qcc_lexer_next` takes of the characters that are left.
use quicks_qcc.Prelude.{
  ℕ, ◌+◌, ◌≤◌, ◌<◌, ◌≡◌, Bool, true, false, List, [], ◌∷◌, ◌==◌, if◌then◌else◌, length,
}
use quicks_qcc.Token.{PpTokenKind}
use quicks_qcc.Lexer.Cursor.{Logical}
use quicks_qcc.Lexer.Extent.{IsStream}
use quicks_qcc.Lexer.Next.{PpToken, Lexer, Blank}
use quicks_qcc.Lexer.Reach.{Taken}
use quicks_qcc.Lexer.Blanks.{IsSkipped}
use quicks_qcc.Lexer.Kinds.{is_newline, is_eof}

-- A lexer in front of the end of its input: the characters that are left lie between `from` and the
-- size, and where the final newline was supplied, there are none left.
pub record IsReady (from size : ℕ) (lx : Lexer) : Type 0 where
  pub stream : IsStream from size lx.rest
  pub repaired : lx.eof_newline_done ≡ true → (lx.at_line_start ≡ true) × (lx.rest ≡ [])

-- How many calls may still return something else than the end of input
abbrev pub left : Lexer → ℕ
left lx = length lx.rest + (if lx.eof_newline_done then 0 else 1)

-- What a token covers of the characters `ls`, with `rest` behind it: all from the first that is not
-- blank up to its end, with a newline just as a token for one; or nothing, where only blanks are
-- left and a newline is missing.
pub data Covers (size : ℕ) (first : Bool) (ls : List Logical) (tok : PpToken)
    : List Logical → Type 0 where
  word :
      {l : Logical} {after rest : List Logical}
      → IsSkipped Blank.space ls (l ∷ after)
      → tok.offset ≡ l.chpos
      → l.next ≤ tok.offset + tok.extent
      → Taken (tok.offset + tok.extent) after rest
      → is_newline tok.kind ≡ (l.char == 10)
      → Covers size first ls tok rest
  supplied :
      IsSkipped Blank.space ls []
      → first ≡ false
      → tok.kind ≡ PpTokenKind.newline
      → tok.offset ≡ size
      → tok.extent ≡ 0
      → Covers size first ls tok []

-- The end of input as a token, where only blanks are left
pub record IsEnd (size : ℕ) (lx : Lexer) (tok : PpToken) : Type 0 where
  pub skipped : IsSkipped Blank.space lx.rest []
  pub marked : tok.at_line_start ≡ true
  pub kind : tok.kind ≡ PpTokenKind.eof
  pub offset : tok.offset ≡ size
  pub extent : tok.extent ≡ 0
  pub flag : lx.at_line_start ≡ true

-- A token from `from` on, with the lexer behind it
pub record IsStep (from size : ℕ) (lx : Lexer) (tok : PpToken) (lx' : Lexer) : Type 0 where
  pub later : from ≤ tok.offset
  pub flag : tok.at_line_start ≡ lx.at_line_start
  pub newline : lx'.at_line_start ≡ is_newline tok.kind
  pub covers : Covers size lx.at_line_start lx.rest tok lx'.rest
  pub inner : is_eof tok.kind ≡ false
  pub ready : IsReady (tok.offset + tok.extent) size lx'
  pub fewer : left lx' < left lx

-- What a call returns
pub data IsNext (from size : ℕ) (lx : Lexer) : PpToken × Lexer → Type 0 where
  ended : {tok : PpToken} {lx' : Lexer} → IsEnd size lx tok → IsNext from size lx (tok, lx')
  went_on :
      {tok : PpToken} {lx' : Lexer} → IsStep from size lx tok lx' → IsNext from size lx (tok, lx')
