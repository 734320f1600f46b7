-- ===== src/Examples/Constants.antt =====
-- The constant evaluator and the integer constants at concrete inputs.
use quicks_qcc.Prelude.{
  ℕ, ◌-◌, ◌^◌, ◌<◌, ◌≡◌, refl, Bool, true, false, List, [], ◌∷◌, leb, arith, inr, inl, ◌⊎◌, ◌≤◌,
}
use quicks_qcc.Prelude.Int.{ℤ, ◌+ℤ◌, ◌-ℤ◌, ◌*ℤ◌}
use quicks_qcc.Status.{ok, Yields}
use quicks_qcc.Token.{Punct, IntType}
use quicks_qcc.ConstEval.{
  Ival, Expr, int_const, unary, binary, conditional, make, usual_arith, eval_arith_binary, nonzero,
  promote, eval, eval_const_int,
}
use quicks_qcc.ConstEval.Canonical.{IsCanonical, make-IsCanonical}
use quicks_qcc.ConstEval.Errors.{Sound, eval-Sound, short_circuit}
use quicks_qcc.ConstEval.Arith.{value, Converts, additive_Converts}
use quicks_qcc.ConstEval.CommonType.{IsConverted, conversion_rank, usual_arith-conversion_rank}
use quicks_qcc.ConstEval.Divide.{Divides, division-Divides}
use quicks_qcc.ConstEval.Result.{Reported, eval_const_int-Reported}
use quicks_qcc.IntConst.{prefix, accumulate, eval_integer}
use quicks_qcc.IntConst.Numeral.{numeral, base_16, accumulate-numeral}
use quicks_qcc.IntConst.Typing.{IsConstant, eval_integer-IsConstant}

abbrev int_max : Ival
int_max = make (2 ^ 31 - 1) 32 false

abbrev big_unsigned : Ival
big_unsigned = make (2 ^ 32 - 5) 32 true

additive_Converts_example :
    ((r : Ival) × (eval_arith_binary Punct.plus int_max big_unsigned ≡ ok r)
      × Converts 32 true (value int_max +ℤ value big_unsigned) r)
    × ((r : Ival) × (eval_arith_binary Punct.minus int_max big_unsigned ≡ ok r)
        × Converts 32 true (value int_max -ℤ value big_unsigned) r)
    × ((r : Ival) × (eval_arith_binary Punct.star int_max big_unsigned ≡ ok r)
        × Converts 32 true (value int_max *ℤ value big_unsigned) r)
unfolding usual_arith make promote
additive_Converts_example =
    additive_Converts int_max big_unsigned
      (make-IsCanonical (2 ^ 31 - 1) 32 false (inr (inr (inl refl))))
      (make-IsCanonical (2 ^ 32 - 5) 32 true (inr (inr (inl refl))))

-- `-(1 + 2)`
abbrev minus_three : Expr
minus_three =
    unary Punct.minus (binary Punct.plus (int_const IntType.int 1) (int_const IntType.int 2))

eval-Sound_example : Sound (eval minus_three)
eval-Sound_example = eval-Sound minus_three

eval_const_int-Reported_example : Reported (eval_const_int minus_three)
eval_const_int-Reported_example = eval_const_int-Reported minus_three

abbrev zero_int : Expr
zero_int = int_const IntType.int 0

-- `1 / 0`
abbrev one_over_zero : Expr
one_over_zero = binary Punct.slash (int_const IntType.int 1) zero_int

short_circuit_example :
    (nonzero (make 0 32 false) ≡ false
      → eval (binary Punct.amp_amp zero_int one_over_zero)
        ≡ eval (binary Punct.amp_amp zero_int zero_int))
    × (nonzero (make 0 32 false) ≡ true
        → eval (binary Punct.pipe_pipe zero_int one_over_zero)
          ≡ eval (binary Punct.pipe_pipe zero_int zero_int))
    × (nonzero (promote (make 0 32 false)) ≡ true
        → eval (conditional zero_int one_over_zero one_over_zero)
          ≡ eval (conditional zero_int one_over_zero zero_int))
    × (nonzero (promote (make 0 32 false)) ≡ false
        → eval (conditional zero_int one_over_zero one_over_zero)
          ≡ eval (conditional zero_int zero_int one_over_zero))
unfolding eval
short_circuit_example = short_circuit zero_int one_over_zero zero_int refl

-- -7 and 2 as `int`
abbrev minus_seven : Ival
minus_seven = record { bits = 2 ^ 64 - 7; width = 32; uns = false }

abbrev two : Ival
two = record { bits = 2; width = 32; uns = false }

minus_seven-IsCanonical : IsCanonical minus_seven
minus_seven-IsCanonical = record { is_width = inr (inr (inl refl)); reduced = refl }

two-IsCanonical : IsCanonical two
two-IsCanonical = record { is_width = inr (inr (inl refl)); reduced = refl }

division-Divides_example :
    let w = (usual_arith minus_seven two).0 in
    let u = (usual_arith minus_seven two).1 in
    (x y : ℤ) × IsConverted w u (value minus_seven) x
    × IsConverted w u (value two) y
    × Divides w u x y
        (eval_arith_binary Punct.slash minus_seven two)
        (eval_arith_binary Punct.percent minus_seven two)
division-Divides_example = division-Divides minus_seven two minus_seven-IsCanonical two-IsCanonical

usual_arith-conversion_rank_example :
    let (w, u) = usual_arith minus_seven two in
    (((w ≡ 32) × (u ≡ false)) ⊎ ((w ≡ 32) × (u ≡ false)))
    × (conversion_rank 32 false ≤ conversion_rank w u)
    × (conversion_rank 32 false ≤ conversion_rank w u)
usual_arith-conversion_rank_example =
    usual_arith-conversion_rank minus_seven two (inl refl) (inl refl)

-- `0xFFu`
abbrev hex_bytes : List ℕ
hex_bytes = b'0' ∷ b'x' ∷ b'F' ∷ b'F' ∷ b'u' ∷ []

-- A sink that takes ten diagnostics
abbrev ten : ℕ → Bool
ten n = leb n 9

eval_integer-IsConstant_example :
    Yields (IsConstant (prefix hex_bytes)) (eval_integer ten hex_bytes)
eval_integer-IsConstant_example = eval_integer-IsConstant ten hex_bytes

abbrev hex_digits : List ℕ
hex_digits = b'F' ∷ b'f' ∷ b'u' ∷ []

accumulate-numeral_example :
    (numeral 16 0 hex_digits < 2 ^ 64
      → (accumulate 16 0 false hex_digits).value ≡ numeral 16 0 hex_digits)
    × ((accumulate 16 0 false hex_digits).overflow ≡ leb (2 ^ 64) (numeral 16 0 hex_digits))
accumulate-numeral_example = accumulate-numeral 16 0 hex_digits base_16 (omega arith)
