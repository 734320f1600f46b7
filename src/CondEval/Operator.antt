-- ===== src/CondEval/Operator.antt =====
-- ceval.c: `binop_prec` and `apply_binop`.
use quicks_qcc.Prelude.{
  ℕ, ◌+◌, ◌-◌, ◌*◌, ◌/◌, ◌%◌, ◌^◌, bit_and, bit_or, bit_xor, Bool, true, false, not, ◌||◌, ◌&&◌,
  Option, none, some, ltb, leb, ◌==◌, if◌then◌else◌,
}
use quicks_qcc.Prelude.Word.{u64, sub64, shl64, shr64, sar64, slt64, sdiv64, srem64, is_negative}
use quicks_qcc.Token.{Punct}
use quicks_qcc.CondEval.Base.{Cval, make_int, EvalError, division_by_zero, shift_out_of_range}

-- `binop_prec`; `none` is -1
unfoldable pub binop_prec : Punct → Option ℕ
binop_prec Punct.star = some 10
binop_prec Punct.slash = some 10
binop_prec Punct.percent = some 10
binop_prec Punct.plus = some 9
binop_prec Punct.minus = some 9
binop_prec Punct.lshift = some 8
binop_prec Punct.rshift = some 8
binop_prec Punct.lt = some 7
binop_prec Punct.gt = some 7
binop_prec Punct.le = some 7
binop_prec Punct.ge = some 7
binop_prec Punct.eq_eq = some 6
binop_prec Punct.bang_eq = some 6
binop_prec Punct.amp = some 5
binop_prec Punct.caret = some 4
binop_prec Punct.pipe = some 3
binop_prec _ = none

-- A value with the error that computing it reports, if any
abbrev pub Applied : Type 0
Applied = Cval × Option EvalError

abbrev pure : Cval → Applied
pure v = (v, none)

abbrev of_bool : Bool → Applied
of_bool b = (make_int (if b then 1 else 0) false, none)

-- `case QCC_PUNCT_SLASH: case QCC_PUNCT_PERCENT:`
unfoldable pub quotient : Bool → Cval → Cval → Bool → Applied
quotient is_slash a b ev =
    let ru = a.is_unsigned || b.is_unsigned in
    if not ev
    then pure (make_int 0 ru)
    else if b.u == 0
    then (make_int 0 ru, some division_by_zero)
    else if ru
    then pure (make_int (if is_slash then a.u / b.u else a.u % b.u) true)
    else if b.u == 2 ^ 64 - 1
    then pure (make_int (if is_slash then sub64 0 a.u else 0) false)
    else pure (make_int (if is_slash then sdiv64 a.u b.u else srem64 a.u b.u) false)

-- `case QCC_PUNCT_LSHIFT: case QCC_PUNCT_RSHIFT:`; the result has the type of the left operand.
unfoldable pub shift : Bool → Cval → Cval → Bool → Applied
shift is_left a b ev =
    let sh = bit_and b.u 63 in
    if ev && (is_negative b.u || leb 64 b.u)
    then (make_int 0 a.is_unsigned, some shift_out_of_range)
    else if is_left
    then pure (make_int (shl64 a.u sh) a.is_unsigned)
    else if a.is_unsigned
    then pure (make_int (shr64 a.u sh) true)
    else pure (make_int (sar64 a.u sh) false)

-- `a < b` at the signedness of the comparison
abbrev less : Cval → Cval → Bool
less a b = if a.is_unsigned || b.is_unsigned then ltb a.u b.u else slt64 a.u b.u

-- `apply_binop`
unfoldable pub apply_binop : Punct → Cval → Cval → Bool → Applied
unfolding quotient shift
apply_binop Punct.star a b ev = pure (make_int (u64 (a.u * b.u)) (a.is_unsigned || b.is_unsigned))
apply_binop Punct.plus a b ev = pure (make_int (u64 (a.u + b.u)) (a.is_unsigned || b.is_unsigned))
apply_binop Punct.minus a b ev = pure (make_int (sub64 a.u b.u) (a.is_unsigned || b.is_unsigned))
apply_binop Punct.slash a b ev = quotient true a b ev
apply_binop Punct.percent a b ev = quotient false a b ev
apply_binop Punct.lshift a b ev = shift true a b ev
apply_binop Punct.rshift a b ev = shift false a b ev
apply_binop Punct.lt a b ev = of_bool (less a b)
apply_binop Punct.gt a b ev = of_bool (less b a)
apply_binop Punct.le a b ev = of_bool (not (less b a))
apply_binop Punct.ge a b ev = of_bool (not (less a b))
apply_binop Punct.eq_eq a b ev = of_bool (a.u == b.u)
apply_binop Punct.bang_eq a b ev = of_bool (not (a.u == b.u))
apply_binop Punct.amp a b ev = pure (make_int (bit_and a.u b.u) (a.is_unsigned || b.is_unsigned))
apply_binop Punct.caret a b ev = pure (make_int (bit_xor a.u b.u) (a.is_unsigned || b.is_unsigned))
apply_binop Punct.pipe a b ev = pure (make_int (bit_or a.u b.u) (a.is_unsigned || b.is_unsigned))
apply_binop _ a b ev = pure (make_int 0 false)
