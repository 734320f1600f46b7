-- ===== src/Lexer/Next.antt =====
-- src/lexer/lexer.c: the driver. The position of the lexer is the list of the logical characters from
-- there on. `room` tells whether the sink can record a diagnostic behind those it has; where it
-- cannot, the call fails and its state is given up, as the run of the compiler is.
use quicks_qcc.Prelude.{
  ℕ, zero, suc, ◌-◌, Bool, true, false, not, ◌&&◌, ◌||◌, List, [], ◌∷◌, ◌++◌, ◌==◌, if◌then◌else◌,
  length, drop,
}
use quicks_qcc.Status.{Status, Outcome, ok, err, ◌>>=◌}
use quicks_qcc.Token.{PpTokenKind, Punct}
use quicks_qcc.Source.{Source, location}
use quicks_qcc.Lexer.Cursor.{Logical, chars, is_space_not_nl, is_ident_start, is_digit, spelling}
use quicks_qcc.Lexer.Scan.{
  LexDiag, Scan, peek, scan_identifier, scan_pp_number, scan_literal, scan_header_name,
}
use quicks_qcc.Lexer.Munch.{scan_punct_or_other}

-- `qcc_pp_token`
pub record PpToken : Type 0 where
  pub kind : PpTokenKind
  pub punct : Punct
  pub offset : ℕ
  pub extent : ℕ
  pub line : ℕ
  pub column : ℕ
  pub leading_space : Bool
  pub at_line_start : Bool

-- `qcc_lexer`, with the diagnostics that its sink has from it
pub record Lexer : Type 0 where
  pub rest : List Logical
  pub at_line_start : Bool
  pub header_mode : Bool
  pub eof_newline_done : Bool
  pub diags : List LexDiag

-- `qcc_lexer_init`
unfoldable pub init : Source → Lexer
init src = record {
  rest = chars src.bytes;
  at_line_start = true;
  header_mode = false;
  eof_newline_done = false;
  diags = [];
}

-- `qcc_lexer_set_header_mode`
unfoldable pub set_header_mode : Lexer → Bool → Lexer
set_header_mode lx on = record lx { header_mode = on }

-- `make_token`, of the characters up to `end`, with `rest` behind them
unfoldable pub make_token :
    Source → Lexer → PpTokenKind → ℕ → ℕ → List Logical → Bool → Bool → PpToken × Lexer
unfolding location
make_token src lx kind start end rest space is_newline =
    let place = location src start in
    (
      record {
        kind = kind;
        punct = Punct.lbracket;
        offset = start;
        extent = end - start;
        line = place.0;
        column = place.1;
        leading_space = space;
        at_line_start = lx.at_line_start;
      },
      record lx { rest = rest; at_line_start = is_newline },
    )

-- Where the loop over white space stands: between comments, or in one
pub data Blank : Type 0 where
  space line_comment block_comment : Blank

-- What the loop over white space leaves
pub record Blanks : Type 0 where
  pub leading_space : Bool
  pub rest : List Logical
  pub diags : List LexDiag

-- The loop over white space and comments, with `skip` more characters to step over
unfoldable pub blanks : Blank → ℕ → Bool → List Logical → Blanks
unfolding is_space_not_nl
blanks Blank.space skip seen [] = record { leading_space = seen; rest = []; diags = [] }
blanks Blank.line_comment skip seen [] = record { leading_space = true; rest = []; diags = [] }
blanks Blank.block_comment skip seen [] = record {
  leading_space = true;
  rest = [];
  diags = LexDiag.unterminated_comment ∷ [];
}
blanks mode (suc k) seen (l ∷ ls) = blanks mode k seen ls
blanks Blank.space zero seen (l ∷ ls) = elim (is_space_not_nl l.char) [
  | true ↦ blanks Blank.space 0 true ls
  | false ↦ elim ((l.char == b'/') && (peek 0 ls == b'/')) [
    | true ↦ blanks Blank.line_comment 1 true ls
    | false ↦ elim ((l.char == b'/') && (peek 0 ls == b'*')) [
      | true ↦ blanks Blank.block_comment 1 true ls
      | false ↦ record { leading_space = seen; rest = l ∷ ls; diags = [] }
    ]
  ]
]
blanks Blank.line_comment zero seen (l ∷ ls) = elim (l.char == 10) [
  | true ↦ record { leading_space = true; rest = l ∷ ls; diags = [] }
  | false ↦ blanks Blank.line_comment 0 true ls
]
blanks Blank.block_comment zero seen (l ∷ ls) = elim ((l.char == b'*') && (peek 0 ls == b'/')) [
  | true ↦ blanks Blank.space 1 true ls
  | false ↦ blanks Blank.block_comment 0 true ls
]

-- The dispatch on the first significant character
unfoldable pub dispatch : ℕ → Bool → Logical → List Logical → Scan
unfolding is_ident_start is_digit scan_identifier scan_pp_number scan_literal scan_header_name
    scan_punct_or_other
dispatch size header_mode l ls =
    if header_mode && ((l.char == b'<') || (l.char == 34))
    then scan_header_name size l.char ls
    else if is_ident_start l.char || (l.char == 92)
    then scan_identifier size l ls
    else if is_digit l.char
    then scan_pp_number l ls
    else if (l.char == b'.') && is_digit (peek 0 ls)
    then scan_pp_number l ls
    else if (l.char == 39) || (l.char == 34)
    then scan_literal size l.char ls
    else scan_punct_or_other l ls

-- The end of input: a missing final newline is repaired once.
unfoldable pub at_end : Source → Lexer → Bool → PpToken × Lexer
unfolding make_token
at_end src lx seen =
    let size = length src.bytes in
    if not lx.at_line_start && not lx.eof_newline_done
    then make_token src (record lx { eof_newline_done = true }) PpTokenKind.newline size size []
        seen true
    else make_token src lx PpTokenKind.eof size size [] seen false

module _ (room : List LexDiag → Bool) where
  -- The calls of `qcc_diag_emit`, each of which may find no memory: all that are recorded then
  unfoldable pub emit_all : List LexDiag → List LexDiag → Outcome (List LexDiag)
  emit_all recorded [] = ok recorded
  emit_all recorded (d ∷ ds) =
      if room recorded then emit_all (recorded ++ d ∷ []) ds else err Status.out_of_memory

  -- The token of a scan
  unfoldable pub scanned : Source → Lexer → Bool → ℕ → Scan → Outcome (PpToken × Lexer)
  unfolding emit_all make_token
  scanned src lx seen start scan = emit_all lx.diags scan.diags >>= λ recorded.
      let made =
        make_token src (record lx { diags = recorded }) scan.kind start scan.end scan.rest seen
          false in
      ok (record made.0 { punct = scan.punct }, made.1)

  -- The token behind the white space
  unfoldable pub after_blanks : Source → Lexer → Bool → List Logical → Outcome (PpToken × Lexer)
  unfolding at_end scanned dispatch
  after_blanks src lx seen [] = ok (at_end src lx seen)
  after_blanks src lx seen (l ∷ ls) = elim (l.char == 10) [
    | true ↦ ok (make_token src lx PpTokenKind.newline l.chpos l.next ls seen true)
    | false ↦ scanned src lx seen l.chpos (dispatch (length src.bytes) lx.header_mode l ls)
  ]

  -- `qcc_lexer_next`
  unfoldable pub lexer_next : Source → Lexer → Outcome (PpToken × Lexer)
  unfolding blanks after_blanks
  lexer_next src lx =
      let b = blanks Blank.space 0 false lx.rest in
      emit_all lx.diags b.diags >>= λ recorded.
      after_blanks src (record lx { diags = recorded }) b.leading_space b.rest

-- `qcc_lexer_token_spelling`, the bytes it copies and their number
unfoldable pub token_spelling : Source → PpToken → List ℕ
unfolding spelling
token_spelling src tok = spelling 0 tok.extent (drop tok.offset src.bytes)
