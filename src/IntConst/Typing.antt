-- ===== src/IntConst/Typing.antt =====
-- The type that an integer constant is given.
use quicks_qcc.Prelude.{
  ℕ, ◌%◌, ◌^◌, ◌<◌, ◌≤◌, ◌≡◌, inl, inr, refl, sym, ap, ◌∙◌, Bool, true, false, not, ◌&&◌, ◌||◌,
  List, [], ◌∷◌, Option, none, some, leb, ◌==◌, if◌then◌else◌, length, arith, Bool-cases,
}
use mathlib.Core.Path.{subst}
use quicks_qcc.Status.{Status, ok, err, Yields, yields, exhausted, Yields-then, Yields-imp}
use quicks_qcc.Token.{IntType}
use quicks_qcc.IntConst.{
  type_max, Prefix, decimal, octal, hexadecimal, prefix, Digits, accumulate, Suffix, suffix,
  candidates, first_fit, Message, invalid_hexadecimal, invalid_octal_digit, invalid_suffix,
  too_large, is_unsigned, Constant, is_octal_error, is_empty, emit, check_end, check_overflow,
  typed, eval_integer,
}
use quicks_qcc.IntConst.Numeral.{
  numeral, IsBase, base_8, base_10, base_16, accumulate-numeral, accumulate-mod, behind_digits,
  accumulate-behind, begins_with_digit, behind_digits-all,
}
use quicks_qcc.IntConst.Candidates.{
  Chosen, found, first_fit-Chosen, Chosen-holds, permitted, candidates-permitted, suffix-rank,
}

prefix-base : (s : List ℕ) → IsBase (prefix s).base
unfolding prefix
prefix-base [] = base_10
prefix-base (z ∷ []) = go (z == b'0')
  where
    go : (c : Bool) → IsBase (if c then octal [] else decimal (z ∷ [])).base
    go true = base_8
    go false = base_10
prefix-base (z ∷ x ∷ s) = go (z == b'0') ((x == b'x') || (x == b'X'))
  where
    go :
        (c d : Bool)
        → IsBase
            (if c then (if d then hexadecimal s else octal (x ∷ s)) else decimal (z ∷ x ∷ s)).base
    go true true = base_16
    go true false = base_8
    go false d = base_10

abbrev pub warns : Message → Bool
warns too_large = true
warns _ = false

-- Whether diagnostics tell that the constant is too large
abbrev pub reports_overflow : List Message → Bool
reports_overflow [] = false
reports_overflow (m ∷ ms) = warns m || reports_overflow ms

-- What is written for the constant `s`, whose prefix has been read. Where it is no hexadecimal
-- prefix without digits: the numeral of its digits modulo 2 ^ 64, a diagnostic just where it is not
-- below, and the type chosen, which holds the value.
pub data IsConstant (p : Prefix) (r : Constant) : Type 0 where
  evaluated :
      ((p.base == 16) && not (begins_with_digit p.base p.body)) ≡ false
      → r.value ≡ numeral p.base 0 p.body % 2 ^ 64
      → reports_overflow r.diags ≡ leb (2 ^ 64) (numeral p.base 0 p.body)
      → Chosen r.value
          (let x = suffix false 0 (behind_digits p.base p.body) in
            permitted x.u_seen x.l_rank p.is_decimal)
          r.type
      → r.value ≤ type_max r.type
      → IsConstant p r
  no_digits :
      ((p.base == 16) && not (begins_with_digit p.base p.body)) ≡ true
      → r.value ≡ 0
      → r.type ≡ IntType.int
      → r.diags ≡ invalid_hexadecimal ∷ []
      → IsConstant p r

module _ (room : ℕ → Bool) where
  emit-Yields :
      (m : Message) (diags : List Message) → Yields (λ d. d ≡ m ∷ diags) (emit room m diags)
  unfolding emit
  emit-Yields m diags = go (room (length diags))
    where
      go :
          (c : Bool)
          → Yields (λ d. d ≡ m ∷ diags) (if c then ok (m ∷ diags) else err Status.out_of_memory)
      go true = yields refl
      go false = exhausted

  typed-Yields :
      (value : ℕ) (diags : List Message) (o : Option IntType)
      → Yields
          (λ (r : Constant).
            (r.value ≡ value)
            × (r.type ≡ found o)
            × (reports_overflow r.diags ≡ reports_overflow diags))
          (typed room value diags o)
  unfolding typed
  typed-Yields value diags none =
      Yields-then (emit-Yields is_unsigned diags) λ d e. yields (refl, refl, ap reports_overflow e)
  typed-Yields value diags (some t) = yields (refl, refl, refl)

  check_end-Yields :
      (base : ℕ) (x : Suffix) → Yields (λ d. reports_overflow d ≡ false) (check_end room base x)
  unfolding check_end
  check_end-Yields base x = go (x.bad || not (is_empty x.left)) (is_octal_error base x.left)
    where
      go :
          (c d : Bool)
          → Yields
              (λ d. reports_overflow d ≡ false)
              (if c
                then emit room (if d then invalid_octal_digit else invalid_suffix) []
                else ok [])
      go true true = Yields-imp (emit-Yields invalid_octal_digit []) λ d e. ap reports_overflow e
      go true false = Yields-imp (emit-Yields invalid_suffix []) λ d e. ap reports_overflow e
      go false d = yields refl

  check_overflow-Yields :
      (overflow : Bool) (diags : List Message)
      → reports_overflow diags ≡ false
      → Yields (λ d. reports_overflow d ≡ overflow) (check_overflow room overflow diags)
  unfolding check_overflow
  check_overflow-Yields true diags h =
      Yields-imp (emit-Yields too_large diags) λ d e. ap reports_overflow e
  check_overflow-Yields false diags h = yields h

  -- Unless a diagnostic finds no memory, `qcc_eval_integer` gives every lexeme the numeral of its
  -- digits modulo 2 ^ 64, reporting that it is too large just where it is not below 2 ^ 64, and the
  -- first type that can represent the value of those that the standard permits for its base and for
  -- the suffix as the suffix loop reads it, or `unsigned long long`; the value always fits the
  -- type. A hexadecimal prefix without digits gives 0 of type `int` and its diagnostic.
  pub eval_integer-IsConstant : (s : List ℕ) → Yields (IsConstant (prefix s)) (eval_integer room s)
  unfolding eval_integer
  eval_integer-IsConstant s =
      elim (Bool-cases ((p.base == 16) && (length n.behind == length p.body))) [
        | inl c ↦ rw c (
            Yields-then (emit-Yields invalid_hexadecimal [])
              λ d e. yields (no_digits (sym digitless ∙ c) refl refl e))
        | inr c ↦ rw c (
            Yields-then (check_end-Yields p.base x) λ bad b.
              Yields-then (check_overflow-Yields n.overflow bad b) λ large o.
                Yields-imp (typed-Yields n.value large (first_fit n.value types)) λ r (v, t, d).
                  evaluated (sym digitless ∙ c) (v ∙ value) (d ∙ o ∙ exact.1)
                    (rw (v, t)
                      (subst (λ ts. Chosen n.value ts (found (first_fit n.value types))) listed
                        chosen))
                    (rw (v, t) (Chosen-holds in_range chosen)))
      ]
    where
      p : Prefix
      p = prefix s

      n : Digits
      n = accumulate p.base 0 false p.body

      x : Suffix
      x = suffix false 0 n.behind

      types : List IntType
      types = candidates x.u_seen x.l_rank p.is_decimal

      behind : n.behind ≡ behind_digits p.base p.body
      behind = accumulate-behind p.base 0 false p.body

      digitless :
          ((p.base == 16) && (length n.behind == length p.body))
          ≡ ((p.base == 16) && not (begins_with_digit p.base p.body))
      digitless =
          ap (λ (b : Bool). (p.base == 16) && b)
            (ap (λ (r : List ℕ). length r == length p.body) behind
              ∙ behind_digits-all p.base p.body)

      value : n.value ≡ numeral p.base 0 p.body % 2 ^ 64
      value = accumulate-mod p.base 0 0 false p.body (prefix-base s) refl

      in_range : n.value < 2 ^ 64
      in_range = omega (arith, value)

      exact :
          (numeral p.base 0 p.body < 2 ^ 64 → n.value ≡ numeral p.base 0 p.body)
          × (n.overflow ≡ leb (2 ^ 64) (numeral p.base 0 p.body))
      exact = accumulate-numeral p.base 0 p.body (prefix-base s) (omega arith)

      listed : types ≡ (
          let y = suffix false 0 (behind_digits p.base p.body) in
          permitted y.u_seen y.l_rank p.is_decimal)
      listed =
          candidates-permitted x.u_seen x.l_rank p.is_decimal
            (suffix-rank false 0 n.behind (omega arith))
          ∙ ap
              (λ (r : List ℕ). let y = suffix false 0 r in permitted y.u_seen y.l_rank p.is_decimal)
              behind

      chosen : Chosen n.value types (found (first_fit n.value types))
      chosen = first_fit-Chosen n.value types in_range
