-- ===== src/Lexer/Reach.antt =====
-- How far the loops of the scanners reach: behind where they start, and no further than the source.
use quicks_qcc.Prelude.{
  ℕ, zero, suc, ◌≤◌, Bool, true, false, List, [], ◌∷◌, ◌==◌, if◌then◌else◌, arith, length, Option,
  none, some,
}
use quicks_qcc.Lexer.Cursor.{Logical, is_ident_cont}
use quicks_qcc.Lexer.Extent.{IsStream, IsStream-le}
use quicks_qcc.Lexer.Scan.{
  LexDiag, Body, with_diags, warn_trigraph, scan_ucn, ident_loop, literal_loop, number_step,
  number_loop, header_loop,
}
use quicks_qcc.Lexer.Munch.{behind}

-- The characters taken from `ls` in front of `rest` all end by `end`.
pub data Taken (end : ℕ) : List Logical → List Logical → Type 0 where
  stop : {rest : List Logical} → Taken end rest rest
  past :
      {l : Logical} {ls rest : List Logical}
      → l.next ≤ end
      → Taken end ls rest
      → Taken end (l ∷ ls) rest

pub Taken-length : {end : ℕ} {ls rest : List Logical} → Taken end ls rest → length rest ≤ length ls
Taken-length stop = omega arith
Taken-length (past h t) = omega (arith, Taken-length t)

Taken-all : (from size : ℕ) (ls : List Logical) → IsStream from size ls → Taken size ls []
Taken-all from size [] h = stop
Taken-all from size (l ∷ ls) (lo, n, h) =
    past (IsStream-le l.next size ls h) (Taken-all l.next size ls h)

pub Taken-trans :
    {mid end : ℕ} {ls rest more : List Logical}
    → mid ≤ end
    → Taken mid ls rest
    → Taken end rest more
    → Taken end ls more
Taken-trans k stop u = u
Taken-trans k (past h t) u = past (omega arith) (Taken-trans k t u)

-- An end with the characters behind it: no earlier than `from`, characters up to the size, and
-- between `ls` and these what ends by then.
pub record IsReached (from size : ℕ) (ls : List Logical) (end : ℕ) (rest : List Logical)
    : Type 0 where
  pub later : from ≤ end
  pub stream : IsStream end size rest
  pub taken : Taken end ls rest

pub IsReached-stop :
    {from size : ℕ} {ls : List Logical} → IsStream from size ls → IsReached from size ls from ls
IsReached-stop h = record { later = omega arith; stream = h; taken = stop }

pub IsReached-end :
    {from size : ℕ} (ls : List Logical) → IsStream from size ls → IsReached from size ls size []
IsReached-end {from} {size} ls h = record {
  later = IsStream-le _ _ ls h;
  stream = omega arith;
  taken = Taken-all from size ls h;
}

-- What is reached behind a character is reached in front of it.
pub IsReached-past :
    {from size end : ℕ} {rest : List Logical} (l : Logical) (ls : List Logical)
    → IsStream from size (l ∷ ls)
    → IsReached l.next size ls end rest
    → IsReached from size (l ∷ ls) end rest
IsReached-past l ls (lo, n, h) r = record {
  later = omega (arith, r.later);
  stream = r.stream;
  taken = past r.later r.taken;
}

pub behind-IsReached :
    (n end size : ℕ) (ls : List Logical)
    → IsStream end size ls
    → IsReached end size ls (behind n end ls).0 (behind n end ls).1
behind-IsReached zero end size ls h = IsReached-stop h
behind-IsReached (suc n) end size [] h = IsReached-stop h
behind-IsReached (suc n) end size (l ∷ ls) h =
    IsReached-past l ls h (behind-IsReached n l.next size ls h.2)

pub ident_loop-IsReached :
    (skip end size : ℕ) (ls : List Logical)
    → IsStream end size ls
    → IsReached end size ls (ident_loop skip end ls).0 (ident_loop skip end ls).1
unfolding ident_loop
ident_loop-IsReached skip end size [] h = IsReached-stop h
ident_loop-IsReached (suc k) end size (l ∷ ls) h =
    IsReached-past l ls h (ident_loop-IsReached k l.next size ls h.2)
ident_loop-IsReached zero end size (l ∷ ls) h =
    go (λ n. IsReached-past l ls h (ident_loop-IsReached n l.next size ls h.2))
      (if is_ident_cont l.char then some 0 else if l.char == 92 then scan_ucn ls else none)
  where
    go :
        ((n : ℕ)
          → IsReached end size (l ∷ ls) (ident_loop n l.next ls).0 (ident_loop n l.next ls).1)
        → (o : Option ℕ)
        → let r = elim o as (λ x. ℕ × List Logical) [
          | none ↦ (end, l ∷ ls)
          | some n ↦ ident_loop n l.next ls
        ] in
          IsReached end size (l ∷ ls) r.0 r.1
    go k none = IsReached-stop h
    go k (some n) = k n

pub number_loop-IsReached :
    (skip end size : ℕ) (ls : List Logical)
    → IsStream end size ls
    → IsReached end size ls (number_loop skip end ls).0 (number_loop skip end ls).1
unfolding number_loop
number_loop-IsReached skip end size [] h = IsReached-stop h
number_loop-IsReached (suc k) end size (l ∷ ls) h =
    IsReached-past l ls h (number_loop-IsReached k l.next size ls h.2)
number_loop-IsReached zero end size (l ∷ ls) h =
    go (λ n. IsReached-past l ls h (number_loop-IsReached n l.next size ls h.2))
      (number_step l.char ls)
  where
    go :
        ((n : ℕ)
          → IsReached end size (l ∷ ls) (number_loop n l.next ls).0 (number_loop n l.next ls).1)
        → (o : Option ℕ)
        → let r = elim o as (λ x. ℕ × List Logical) [
          | none ↦ (end, l ∷ ls)
          | some n ↦ number_loop n l.next ls
        ] in
          IsReached end size (l ∷ ls) r.0 r.1
    go k none = IsReached-stop h
    go k (some n) = k n

-- What a loop over a literal or a header name returns
abbrev pub IsBody : ℕ → ℕ → List Logical → Body → Type 0
IsBody from size ls b = IsReached from size ls b.end b.rest

with_diags-IsBody :
    {from size : ℕ} {ls : List Logical} (ds : List LexDiag) (b : Body)
    → IsBody from size ls b
    → IsBody from size ls (with_diags ds b)
with_diags-IsBody [] b h = h
with_diags-IsBody (d ∷ ds) b h = record { later = h.later; stream = h.stream; taken = h.taken }

pub literal_loop-IsBody :
    (skip from size quote : ℕ) (ls : List Logical)
    → IsStream from size ls
    → IsBody from size ls (literal_loop skip size quote ls)
unfolding literal_loop
literal_loop-IsBody skip from size quote [] h = IsReached-end [] h
literal_loop-IsBody (suc k) from size quote (l ∷ ls) h =
    IsReached-past l ls h (literal_loop-IsBody k l.next size quote ls h.2)
literal_loop-IsBody zero from size quote (l ∷ ls) h =
    go (λ k. IsReached-past l ls h (literal_loop-IsBody k l.next size quote ls h.2)) (l.char == 10)
      (l.char == quote) (l.char == 92)
  where
    here : Body
    here = record { end = l.chpos; terminated = false; rest = l ∷ ls; diags = [] }

    closed : Body
    closed = record { end = l.next; terminated = true; rest = ls; diags = [] }

    go :
        ((k : ℕ) → IsBody from size (l ∷ ls) (literal_loop k size quote ls))
        → (newline closing escape : Bool)
        → IsBody from size (l ∷ ls) (elim newline as (λ x. Body) [
          | true ↦ here
          | false ↦ elim closing [
            | true ↦ closed
            | false ↦ elim escape [
              | true ↦ literal_loop 1 size quote ls
              | false ↦ with_diags (warn_trigraph (l ∷ ls)) (literal_loop 0 size quote ls)
            ]
          ]
        ])
    go k true c e = record { later = h.0; stream = (omega arith, h.1, h.2); taken = stop }
    go k false true e = IsReached-past l ls h (IsReached-stop h.2)
    go k false false true = k 1
    go k false false false =
        with_diags-IsBody (warn_trigraph (l ∷ ls)) (literal_loop 0 size quote ls) (k 0)

pub header_loop-IsBody :
    (from size close : ℕ) (ls : List Logical)
    → IsStream from size ls
    → IsBody from size ls (header_loop size close ls)
unfolding header_loop
header_loop-IsBody from size close [] h = IsReached-end [] h
header_loop-IsBody from size close (l ∷ ls) h =
    go (IsReached-past l ls h (header_loop-IsBody l.next size close ls h.2)) (l.char == 10)
      (l.char == close)
  where
    go :
        IsBody from size (l ∷ ls) (header_loop size close ls)
        → (newline closing : Bool)
        → IsBody from size (l ∷ ls) (elim newline as (λ x. Body) [
          | true ↦ record { end = l.chpos; terminated = false; rest = l ∷ ls; diags = [] }
          | false ↦ elim closing [
            | true ↦ record { end = l.next; terminated = true; rest = ls; diags = [] }
            | false ↦ header_loop size close ls
          ]
        ])
    go k true c = record { later = h.0; stream = (omega arith, h.1, h.2); taken = stop }
    go k false true = IsReached-past l ls h (IsReached-stop h.2)
    go k false false = k
