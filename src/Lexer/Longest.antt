-- ===== src/Lexer/Longest.antt =====
-- Punctuators: the scanner takes the longest.
use quicks_qcc.Prelude.{
  ℕ, ◌≤◌, ◌<◌, ◌≡◌, refl, sym, ◌∙◌, ltb→lt, Bool-cases, inl, inr, Bool, true, false, not, ltb, ◌&&◌,
  List, [], ◌∷◌, none, some, ◌==◌, if◌then◌else◌, length, arith,
}
use mathlib.Core.Bool.{false≢true}
use quicks_qcc.Lexer.Munch.{Munched, munch}
use quicks_qcc.Lexer.Punctuators.{Table, starts, first_match, punctuators, munch-first_match}

-- The number of characters of a match
abbrev pub size : Munched → ℕ
size none = 0
size (some (p, n)) = n

-- No entry that the characters begin with is longer than a number.
abbrev pub AreAtMost : ℕ → Table → List ℕ → Type 0
AreAtMost n [] cs = Unit
AreAtMost n (e ∷ es) cs = (starts e.0 cs ≡ true → length e.0 ≤ n) × AreAtMost n es cs

-- No entry begins a longer one that comes later.
abbrev leads : List ℕ → Table → Bool
leads s [] = true
leads s (e ∷ es) = not (starts s e.0 && ltb (length s) (length e.0)) && leads s es

abbrev is_longest_first : Table → Bool
is_longest_first [] = true
is_longest_first (e ∷ es) = leads e.0 es && is_longest_first es

both : (b c : Bool) → (b && c) ≡ true → (b ≡ true) × (c ≡ true)
both true c e = (refl, e)
both false c e = absurd (false≢true e)

-- Of two beginnings of the same characters the shorter begins the longer.
starts-starts :
    (s t cs : List ℕ)
    → starts s cs ≡ true
    → starts t cs ≡ true
    → length s < length t
    → starts s t ≡ true
starts-starts [] t cs h k l = refl
starts-starts (x ∷ s) [] cs h k l = absurd (omega arith)
starts-starts (x ∷ s) (y ∷ t) [] h k l = absurd (false≢true h)
starts-starts (x ∷ s) (y ∷ t) (c ∷ cs) h k l =
    let hs : (c == x ≡ true) × (starts s cs ≡ true) = both (c == x) (starts s cs) h in
    let ks : (c == y ≡ true) × (starts t cs ≡ true) = both (c == y) (starts t cs) k in
    let same : (y == x) ≡ true = ground arith in
    rw (same, starts-starts s t cs hs.1 ks.1 (omega arith)) refl

leads-AreAtMost :
    (s : List ℕ) (es : Table) (cs : List ℕ)
    → leads s es ≡ true
    → starts s cs ≡ true
    → AreAtMost (length s) es cs
leads-AreAtMost s [] cs h k = tt
leads-AreAtMost s (e ∷ es) cs h k =
    let hs : (not (starts s e.0 && ltb (length s) (length e.0)) ≡ true) × (leads s es ≡ true) =
      both (not (starts s e.0 && ltb (length s) (length e.0))) (leads s es) h in
    (λ m. shorter hs.0 (starts-starts s e.0 cs k m), leads-AreAtMost s es cs hs.1 k)
  where
    shorter :
        not (starts s e.0 && ltb (length s) (length e.0)) ≡ true
        → (length s < length e.0 → starts s e.0 ≡ true)
        → length e.0 ≤ length s
    shorter n begun = elim (Bool-cases (ltb (length s) (length e.0))) [
      | inr at_most ↦ ground arith
      | inl longer ↦
          absurd (false≢true (rw (begun (ltb→lt (length s) (length e.0) longer), longer) at n))
    ]

first_match-AreAtMost :
    (table : Table) (cs : List ℕ)
    → is_longest_first table ≡ true
    → AreAtMost (size (first_match table cs)) table cs
first_match-AreAtMost [] cs h = tt
first_match-AreAtMost (e ∷ es) cs h =
    let hs : (leads e.0 es ≡ true) × (is_longest_first es ≡ true) =
      both (leads e.0 es) (is_longest_first es) h in
    go hs.0 (first_match-AreAtMost es cs hs.1) (starts e.0 cs) refl
  where
    go :
        leads e.0 es ≡ true
        → AreAtMost (size (first_match es cs)) es cs
        → (c : Bool) → starts e.0 cs ≡ c
        → (starts e.0 cs ≡ true
            → length e.0 ≤ size (if c then some (e.1, length e.0) else first_match es cs))
          × AreAtMost (size (if c then some (e.1, length e.0) else first_match es cs)) es cs
    go first ih true m = (λ k. omega arith, leads-AreAtMost e.0 es cs first m)
    go first ih false m = (λ k. absurd (false≢true (sym m ∙ k)), ih)

-- The switch over punctuators, on any four characters: it takes a punctuator of the standard's table
-- that they begin with, or none where there is none, and every other one that they begin with is at
-- most as long.
pub munch-longest :
    (c1 c2 c3 c4 : ℕ)
    → let cs = c1 ∷ c2 ∷ c3 ∷ c4 ∷ [] in
      (munch c1 c2 c3 c4 ≡ first_match punctuators cs)
      × AreAtMost (size (munch c1 c2 c3 c4)) punctuators cs
munch-longest c1 c2 c3 c4 = (
  munch-first_match c1 c2 c3 c4,
  rw (munch-first_match c1 c2 c3 c4)
      (first_match-AreAtMost punctuators (c1 ∷ c2 ∷ c3 ∷ c4 ∷ []) refl),
)
