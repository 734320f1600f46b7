-- ===== src/Examples/Lexing.antt =====
-- The lexer and its sources at concrete inputs.
use quicks_qcc.Prelude.{ℕ, ◌≡◌, Bool, true, false, List, [], ◌∷◌, ◌+◌, replicate, some, take}
use quicks_qcc.Status.{After, ok}
use quicks_qcc.Token.{PpTokenKind}
use quicks_qcc.Source.{Source, Buffer, location, from_memory}
use quicks_qcc.Source.Walk.{walked, from_memory-location}
use quicks_qcc.Lexer.Cursor.{at, skip_splices, chars_from, spelling}
use quicks_qcc.Lexer.Extent.{before, spelling-before}
use quicks_qcc.Lexer.Unspliced.{Spliced}
use quicks_qcc.Lexer.Splices.{IsRead, bytes_behind, chars_from-at}
use quicks_qcc.Lexer.Scan.{LexDiag}
use quicks_qcc.Lexer.Munch.{munch}
use quicks_qcc.Lexer.Punctuators.{first_match, punctuators}
use quicks_qcc.Lexer.Longest.{AreAtMost, size, munch-longest}
use quicks_qcc.Lexer.EndOfInput.{kinds, exhausted_lexer, kinds-at_end}

-- `a`, a splice, `+=`, a line comment without a newline behind it
abbrev text : List ℕ
text = b'a' ∷ 92 ∷ 10 ∷ b'+' ∷ b'=' ∷ b'/' ∷ b'/' ∷ b'x' ∷ []

abbrev source : Source
source = record { bytes = text; line_starts = 0 ∷ 3 ∷ []; line_count = 2 }

abbrev room : List LexDiag → Bool
room ds = true

abbrev malloc : Buffer → ℕ → Bool
malloc buffer n = true

spelling-before_example :
    (spelling 0 4 text ≡ before (0 + 4) (chars_from 0 0 text))
    × Spliced 0 text (chars_from 0 0 text)
spelling-before_example = spelling-before 4 0 text

chars_from-at_example :
    IsRead
      (at 1 (92 ∷ 10 ∷ b'+' ∷ []))
      (bytes_behind (skip_splices 1 (92 ∷ 10 ∷ b'+' ∷ [])))
      (chars_from 0 1 (92 ∷ 10 ∷ b'+' ∷ []))
chars_from-at_example = chars_from-at 1 (92 ∷ 10 ∷ b'+' ∷ [])

munch-longest_example :
    (munch b'<' b'<' b'=' b'1' ≡ first_match punctuators (b'<' ∷ b'<' ∷ b'=' ∷ b'1' ∷ []))
    × AreAtMost (size (munch b'<' b'<' b'=' b'1')) punctuators (b'<' ∷ b'<' ∷ b'=' ∷ b'1' ∷ [])
munch-longest_example = munch-longest b'<' b'<' b'=' b'1'

kinds-at_end_example :
    kinds room 3 source (exhausted_lexer true false false [])
    ≡ ok (PpTokenKind.eof ∷ PpTokenKind.newline ∷ replicate 1 PpTokenKind.eof)
kinds-at_end_example = kinds-at_end room 1 source true false false []

from_memory-location_example :
    After
      (λ (src : Source).
        (src.bytes ≡ take 8 text)
        × ((offset : ℕ) → location src offset ≡ walked (take 8 text) offset))
      (from_memory malloc 3 (some text) 8)
from_memory-location_example = from_memory-location malloc 3 text 8
