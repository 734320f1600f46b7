-- ===== src/ConstEval.antt =====
-- src/consteval/consteval.c: the evaluator of integer constant expressions (ISO C 6.6), on the
-- LP64 target. Its children prove its laws.
pub mod Canonical
pub mod Errors
pub mod Arith
pub mod Result
pub mod Quotient
pub mod DivideWords
pub mod CommonType
pub mod Divide
use quicks_qcc.Prelude.{
  ℕ, ◌+◌, ◌-◌, ◌*◌, ◌/◌, ◌%◌, ◌^◌, bit_and, bit_or, bit_xor, Bool, true, false, not, ◌&&◌, ◌||◌,
  ltb, leb, ◌==◌, if◌then◌else◌,
}
use quicks_qcc.Prelude.Word.{
  u64, sub64, not64, shl64, shr64, sar64, slt64, sdiv64, srem64, is_negative,
}
use quicks_qcc.Status.{Status, Outcome, ok, err, undefined, ◌>>=◌}
use quicks_qcc.Token.{Punct, IntType, CharEncoding}
use quicks_qcc.CType.{CType, Basic, basic, is_integer, is_unsigned_integer, size, align}

-- `struct ival`: `bits` is the value reduced to `width` and `uns`.
pub record Ival : Type 0 where
  pub bits : ℕ
  pub width : ℕ
  pub uns : Bool

-- The fields of `qcc_expr` that the evaluator reads, by kind. `other` is every kind that its
-- `default` case rejects.
pub data Expr : Type 0 where
  int_const : IntType → ℕ → Expr
  char_const : CharEncoding → ℕ → Expr
  unary : Punct → Expr → Expr
  binary : Punct → Expr → Expr → Expr
  conditional : Expr → Expr → Expr → Expr
  cast : CType → Expr → Expr
  sizeof_type : CType → Expr
  alignof_type : CType → Expr
  other : Expr

-- `mask_for`
unfoldable pub mask_for : ℕ → ℕ
mask_for width = if leb 64 width then not64 0 else shl64 1 width - 1

-- `reduce`
unfoldable pub reduce : ℕ → ℕ → Bool → ℕ
unfolding mask_for
reduce raw width uns =
    let m = mask_for width in
    let low = bit_and raw m in
    if not uns && (ltb width 64 && not (bit_and low (shl64 1 (width - 1)) == 0))
    then bit_or low (not64 m)
    else low

-- `make`
unfoldable pub make : ℕ → ℕ → Bool → Ival
make raw width uns = record { bits = reduce raw width uns; width = width; uns = uns }

-- `int_type_wu`
unfoldable pub int_type_wu : IntType → ℕ × Bool
int_type_wu IntType.int = (32, false)
int_type_wu IntType.uint = (32, true)
int_type_wu IntType.long = (64, false)
int_type_wu IntType.ulong = (64, true)
int_type_wu IntType.llong = (64, false)
int_type_wu IntType.ullong = (64, true)

-- `wu_int_type`
unfoldable pub wu_int_type : ℕ → Bool → IntType
wu_int_type width uns =
    if leb width 32
    then (if uns then IntType.uint else IntType.int)
    else (if uns then IntType.ulong else IntType.long)

-- `promote`
unfoldable pub promote : Ival → Ival
promote v = if ltb v.width 32 then make v.bits 32 false else v

-- `usual_arith`: the common width and signedness
unfoldable pub usual_arith : Ival → Ival → ℕ × Bool
usual_arith a b =
    if (if a.uns then b.uns else not b.uns)
    then ((if ltb b.width a.width then a.width else b.width), a.uns)
    else (let u = if a.uns then a else b in
        let s = if a.uns then b else a in
        if leb s.width u.width then (u.width, true) else (s.width, false))

-- The two quotients of `case QCC_PUNCT_SLASH: case QCC_PUNCT_PERCENT:`. In `int64_t`,
-- `INT64_MIN / -1` and `INT64_MIN % -1` are undefined behaviour.
unfoldable pub divide : Bool → ℕ → ℕ → ℕ → Bool → Outcome Ival
unfolding mask_for
divide is_slash av bv w u =
    if bv == 0
    then err Status.type
    else if u
    then (let x = bit_and av (mask_for w) in
        let y = bit_and bv (mask_for w) in ok (make (if is_slash then x / y else x % y) w u))
    else if (av == 2 ^ 63) && (bv == 2 ^ 64 - 1)
    then undefined
    else ok (make (if is_slash then sdiv64 av bv else srem64 av bv) w u)

abbrev pub flag : Bool → ℕ
flag true = 1
flag false = 0

-- The relational and equality operators, as tests of `lt` and `eq` on the two operands.
unfoldable pub compare_op : Punct → (ℕ → ℕ → Bool) → ℕ → ℕ → Bool
compare_op Punct.lt less x y = less x y
compare_op Punct.gt less x y = less y x
compare_op Punct.le less x y = not (less y x)
compare_op Punct.ge less x y = not (less x y)
compare_op Punct.eq_eq less x y = x == y
compare_op _ less x y = not (x == y)

unfoldable pub eval_compare : Punct → ℕ → ℕ → ℕ → Bool → Outcome Ival
unfolding mask_for compare_op
eval_compare op av bv w u =
    let r =
      if u
      then compare_op op ltb (bit_and av (mask_for w)) (bit_and bv (mask_for w))
      else compare_op op slt64 av bv in
    ok (make (flag r) 32 false)

-- `eval_arith_binary`, its `switch` on an operator at the common width and signedness
unfoldable pub arith_case : Punct → ℕ → ℕ → ℕ → Bool → Outcome Ival
unfolding divide eval_compare make
arith_case Punct.plus av bv w u = ok (make (u64 (av + bv)) w u)
arith_case Punct.minus av bv w u = ok (make (sub64 av bv) w u)
arith_case Punct.star av bv w u = ok (make (u64 (av * bv)) w u)
arith_case Punct.amp av bv w u = ok (make (bit_and av bv) w u)
arith_case Punct.pipe av bv w u = ok (make (bit_or av bv) w u)
arith_case Punct.caret av bv w u = ok (make (bit_xor av bv) w u)
arith_case Punct.slash av bv w u = divide true av bv w u
arith_case Punct.percent av bv w u = divide false av bv w u
arith_case Punct.lt av bv w u = eval_compare Punct.lt av bv w u
arith_case Punct.gt av bv w u = eval_compare Punct.gt av bv w u
arith_case Punct.le av bv w u = eval_compare Punct.le av bv w u
arith_case Punct.ge av bv w u = eval_compare Punct.ge av bv w u
arith_case Punct.eq_eq av bv w u = eval_compare Punct.eq_eq av bv w u
arith_case Punct.bang_eq av bv w u = eval_compare Punct.bang_eq av bv w u
arith_case _ av bv w u = err Status.type

unfoldable pub eval_arith_binary : Punct → Ival → Ival → Outcome Ival
unfolding arith_case usual_arith
eval_arith_binary op a b = let (w, u) = usual_arith a b in arith_case op a.bits b.bits w u

-- `eval_unary`, once the operand is evaluated
unfoldable pub apply_unary : Punct → Ival → Outcome Ival
unfolding promote make
apply_unary Punct.plus v = ok (promote v)
apply_unary Punct.minus v = let a = promote v in ok (make (sub64 0 a.bits) a.width a.uns)
apply_unary Punct.tilde v = let a = promote v in ok (make (not64 a.bits) a.width a.uns)
apply_unary Punct.bang v = ok (make (flag ((promote v).bits == 0)) 32 false)
apply_unary _ v = err Status.type

-- The shifts of `eval_binary`, on promoted operands
unfoldable pub shift : Bool → Ival → Ival → Outcome Ival
unfolding make
shift is_left a b =
    let sh = bit_and b.bits 63 in
    ok (
      make (if is_left then shl64 a.bits sh else if a.uns then shr64 a.bits sh else sar64 a.bits sh)
        a.width a.uns)

-- `eval_binary` for an operator that evaluates both operands
unfoldable pub apply_binary : Punct → Ival → Ival → Outcome Ival
unfolding promote shift eval_arith_binary
apply_binary Punct.lshift x y = shift true (promote x) (promote y)
apply_binary Punct.rshift x y = shift false (promote x) (promote y)
apply_binary op x y = eval_arith_binary op (promote x) (promote y)

-- How an operator of `eval_binary` treats its right operand
pub data Operands : Type 0 where
  and_then or_else both : Operands

abbrev pub operands : Punct → Operands
operands Punct.amp_amp = and_then
operands Punct.pipe_pipe = or_else
operands _ = both

-- `bits != 0`
abbrev pub nonzero : Ival → Bool
nonzero v = not (v.bits == 0)

-- `t->kind == QCC_TYPE_BOOL`
abbrev pub is_bool : CType → Bool
is_bool (basic p q Basic.bool) = true
is_bool t = false

-- `eval_cast`, once the type has passed its first test and the operand is evaluated
unfoldable pub apply_cast : CType → Ival → Outcome Ival
unfolding make
apply_cast t a =
    if is_bool t
    then ok (make (flag (nonzero a)) 8 true)
    else if (size t == 0) || ltb 8 (size t)
    then err Status.type
    else ok (make a.bits (size t * 8) (is_unsigned_integer t))

-- `case QCC_EXPR_CHAR_CONST:`
unfoldable pub char_value : CharEncoding → ℕ → Ival
unfolding make
char_value CharEncoding.char16 n = make n 16 true
char_value CharEncoding.char32 n = make n 32 true
char_value _ n = make n 32 false

-- `case QCC_EXPR_SIZEOF_TYPE:` and `case QCC_EXPR_ALIGNOF_TYPE:`
unfoldable pub size_value : ℕ → Outcome Ival
unfolding make
size_value n = if n == 0 then err Status.type else ok (make n 64 true)

abbrev pub truth : Bool → Outcome Ival
truth b = ok (make (flag b) 32 false)

-- `eval_binary`, from the outcomes of its two operands: the right one counts only if the left
-- one does not decide.
unfoldable pub eval_binary : Operands → Punct → Outcome Ival → Outcome Ival → Outcome Ival
unfolding apply_binary make
eval_binary and_then op a b =
    a >>= λ x. if nonzero x then b >>= (λ y. truth (nonzero y)) else truth false
eval_binary or_else op a b =
    a >>= λ x. if nonzero x then truth true else b >>= (λ y. truth (nonzero y))
eval_binary both op a b = a >>= λ x. b >>= λ y. apply_binary op x y

-- `eval`
unfoldable pub eval : Expr → Outcome Ival
unfolding int_type_wu char_value apply_unary eval_binary apply_cast size_value
eval (int_const t n) = let (w, u) = int_type_wu t in ok (make n w u)
eval (char_const e n) = ok (char_value e n)
eval (unary op a) = eval a >>= apply_unary op
eval (binary op a b) = eval_binary (operands op) op (eval a) (eval b)
eval (conditional c a b) =
    let x = eval a in let y = eval b in eval c >>= λ v. if nonzero (promote v) then x else y
eval (cast t a) = if is_integer t then eval a >>= apply_cast t else err Status.type
eval (sizeof_type t) = size_value (size t)
eval (alignof_type t) = size_value (align t)
eval other = err Status.type

-- `struct qcc_const_value`
pub record ConstValue : Type 0 where
  pub value : ℕ
  pub type : IntType

-- The end of `qcc_eval_const_int`: a result narrower than `int` is reported as `int`.
unfoldable pub report : Ival → ConstValue
unfolding promote wu_int_type
report x = let v = promote x in record { value = v.bits; type = wu_int_type v.width v.uns }

-- `qcc_eval_const_int`, at pointers that are not null
unfoldable pub eval_const_int : Expr → Outcome ConstValue
unfolding eval report
eval_const_int e = eval e >>= λ x. ok (report x)
