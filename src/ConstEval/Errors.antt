-- ===== src/ConstEval/Errors.antt =====
-- What `eval` can return: a canonical value or the status `QCC_ERR_TYPE`; and which operands it
-- leaves unevaluated.
use quicks_qcc.Prelude.{
  ℕ, ◌*◌, ◌^◌, ◌-◌, ◌≡◌, inl, inr, Bool, true, false, arith, ltb, ◌==◌, ◌||◌, ◌&&◌, if◌then◌else◌,
  Bool-cases,
}
use quicks_qcc.Status.{Status, Outcome, ok, err, undefined, ◌>>=◌}
use quicks_qcc.Token.{Punct, IntType, CharEncoding}
use quicks_qcc.CType.{CType, null, basic, tagged, is_integer, size, align}
use quicks_qcc.ConstEval.{
  Ival, Expr, int_const, char_const, unary, binary, conditional, cast, sizeof_type, alignof_type,
  other, make, promote, usual_arith, divide, eval_compare, arith_case, eval_arith_binary,
  apply_unary, apply_binary, apply_cast, is_bool, char_value, size_value, eval, int_type_wu,
  operands, nonzero, truth, Operands, and_then, or_else, both, eval_binary,
}
use quicks_qcc.ConstEval.Canonical.{IsWidth, IsCanonical, make-IsCanonical, promote-IsCanonical}

-- The outcomes of the evaluator: a canonical value, `QCC_ERR_TYPE`, or a division that overflows.
pub data Sound : Outcome Ival → Type 0 where
  value : {v : Ival} → IsCanonical v → Sound (ok v)
  rejected : Sound (err Status.type)
  unspecified : Sound undefined

>>=-Sound :
    {m : Outcome Ival} (f : Ival → Outcome Ival)
    → Sound m
    → ((v : Ival) → IsCanonical v → Sound (f v))
    → Sound (m >>= f)
>>=-Sound f (value {v} h) k = k v h
>>=-Sound f rejected k = rejected
>>=-Sound f unspecified k = unspecified

if-Sound : {m n : Outcome Ival} (c : Bool) → Sound m → Sound n → Sound (if c then m else n)
if-Sound true p q = p
if-Sound false p q = q

truth-Sound : (b : Bool) → Sound (truth b)
unfolding make
truth-Sound b = value (make-IsCanonical _ 32 false (omega arith))

pub usual_arith-IsWidth : (a b : Ival) → IsCanonical a → IsCanonical b → IsWidth (usual_arith a b).0
unfolding usual_arith
usual_arith-IsWidth a b ha hb = ground (arith, ha.is_width, hb.is_width)

divide-Sound :
    (is_slash : Bool) (av bv w : ℕ) (u : Bool) → IsWidth w → Sound (divide is_slash av bv w u)
unfolding divide
divide-Sound is_slash av bv w u h = if-Sound (bv == 0) rejected (
    if-Sound u (value (make-IsCanonical _ w u h)) (
      if-Sound ((av == 2 ^ 63) && (bv == 2 ^ 64 - 1)) unspecified
        (value (make-IsCanonical _ w u h))))

eval_compare-Sound : (op : Punct) (av bv w : ℕ) (u : Bool) → Sound (eval_compare op av bv w u)
unfolding eval_compare
eval_compare-Sound op av bv w u = value (make-IsCanonical _ 32 false (omega arith))

arith_case-Sound :
    (op : Punct) (av bv w : ℕ) (u : Bool) → IsWidth w → Sound (arith_case op av bv w u)
unfolding arith_case
arith_case-Sound Punct.plus av bv w u h = value (make-IsCanonical _ w u h)
arith_case-Sound Punct.minus av bv w u h = value (make-IsCanonical _ w u h)
arith_case-Sound Punct.star av bv w u h = value (make-IsCanonical _ w u h)
arith_case-Sound Punct.amp av bv w u h = value (make-IsCanonical _ w u h)
arith_case-Sound Punct.pipe av bv w u h = value (make-IsCanonical _ w u h)
arith_case-Sound Punct.caret av bv w u h = value (make-IsCanonical _ w u h)
arith_case-Sound Punct.slash av bv w u h = divide-Sound true av bv w u h
arith_case-Sound Punct.percent av bv w u h = divide-Sound false av bv w u h
arith_case-Sound Punct.lt av bv w u h = eval_compare-Sound Punct.lt av bv w u
arith_case-Sound Punct.gt av bv w u h = eval_compare-Sound Punct.gt av bv w u
arith_case-Sound Punct.le av bv w u h = eval_compare-Sound Punct.le av bv w u
arith_case-Sound Punct.ge av bv w u h = eval_compare-Sound Punct.ge av bv w u
arith_case-Sound Punct.eq_eq av bv w u h = eval_compare-Sound Punct.eq_eq av bv w u
arith_case-Sound Punct.bang_eq av bv w u h = eval_compare-Sound Punct.bang_eq av bv w u
arith_case-Sound _ av bv w u h = rejected

eval_arith_binary-Sound :
    (op : Punct) (a b : Ival) → IsCanonical a → IsCanonical b → Sound (eval_arith_binary op a b)
unfolding eval_arith_binary
eval_arith_binary-Sound op a b ha hb =
    arith_case-Sound op a.bits b.bits _ _ (usual_arith-IsWidth a b ha hb)

apply_unary-Sound : (op : Punct) (v : Ival) → IsCanonical v → Sound (apply_unary op v)
unfolding apply_unary
apply_unary-Sound Punct.plus v h = value (promote-IsCanonical h)
apply_unary-Sound Punct.minus v h = value (make-IsCanonical _ _ _ (promote-IsCanonical h).is_width)
apply_unary-Sound Punct.tilde v h = value (make-IsCanonical _ _ _ (promote-IsCanonical h).is_width)
apply_unary-Sound Punct.bang v h = value (make-IsCanonical _ 32 false (omega arith))
apply_unary-Sound _ v h = rejected

apply_binary-Sound :
    (op : Punct) (a b : Ival) → IsCanonical a → IsCanonical b → Sound (apply_binary op a b)
unfolding apply_binary
apply_binary-Sound Punct.lshift a b ha hb =
    value (make-IsCanonical _ _ _ (promote-IsCanonical ha).is_width)
apply_binary-Sound Punct.rshift a b ha hb =
    value (make-IsCanonical _ _ _ (promote-IsCanonical ha).is_width)
apply_binary-Sound op a b ha hb =
    eval_arith_binary-Sound op _ _ (promote-IsCanonical ha) (promote-IsCanonical hb)

-- The sizes of the integer types
integer-IsWidth : (t : CType) → is_integer t ≡ true → IsWidth (size t * 8)
unfolding is_integer size
integer-IsWidth (basic p q k) h = ground arith
integer-IsWidth (tagged p q k s c) h = ground arith
integer-IsWidth null h = cc
integer-IsWidth _ h = cc

apply_cast-Sound : (t : CType) (v : Ival) → is_integer t ≡ true → Sound (apply_cast t v)
unfolding apply_cast
apply_cast-Sound t v h = if-Sound (is_bool t) (value (make-IsCanonical _ 8 true (omega arith))) (
    if-Sound ((size t == 0) || ltb 8 (size t)) rejected
      (value (make-IsCanonical v.bits (size t * 8) _ (integer-IsWidth t h))))

size_value-Sound : (n : ℕ) → Sound (size_value n)
unfolding size_value
size_value-Sound n = if-Sound (n == 0) rejected (value (make-IsCanonical n 64 true (omega arith)))

char_value-IsCanonical : (c : CharEncoding) (n : ℕ) → IsCanonical (char_value c n)
unfolding char_value
char_value-IsCanonical CharEncoding.char16 n = make-IsCanonical n 16 true (omega arith)
char_value-IsCanonical CharEncoding.char32 n = make-IsCanonical n 32 true (omega arith)
char_value-IsCanonical _ n = make-IsCanonical n 32 false (omega arith)

int_type_wu-IsWidth : (t : IntType) → IsWidth (int_type_wu t).0
unfolding int_type_wu
int_type_wu-IsWidth IntType.int = omega arith
int_type_wu-IsWidth _ = omega arith

eval_binary-Sound :
    (how : Operands) (op : Punct) (a b : Outcome Ival)
    → Sound a
    → Sound b
    → Sound (eval_binary how op a b)
unfolding eval_binary
eval_binary-Sound and_then op a b ha hb = >>=-Sound _ ha λ x _.
    if-Sound (nonzero x) (>>=-Sound (λ y. truth (nonzero y)) hb (λ y _. truth-Sound (nonzero y)))
      (truth-Sound false)
eval_binary-Sound or_else op a b ha hb = >>=-Sound _ ha λ x _.
    if-Sound (nonzero x) (truth-Sound true)
      (>>=-Sound (λ y. truth (nonzero y)) hb (λ y _. truth-Sound (nonzero y)))
eval_binary-Sound both op a b ha hb =
    >>=-Sound _ ha λ x hx. >>=-Sound _ hb λ y hy. apply_binary-Sound op x y hx hy

-- The evaluator returns canonical values only, those reduced to their own width and signedness;
-- its only error is `QCC_ERR_TYPE`, and else it comes to an operation that C leaves undefined.
pub eval-Sound : (e : Expr) → Sound (eval e)
unfolding eval
eval-Sound (int_const t n) = value (make-IsCanonical n _ _ (int_type_wu-IsWidth t))
eval-Sound (char_const c n) = value (char_value-IsCanonical c n)
eval-Sound (unary op a) = >>=-Sound _ (eval-Sound a) (apply_unary-Sound op)
eval-Sound (binary op a b) =
    eval_binary-Sound (operands op) op (eval a) (eval b) (eval-Sound a) (eval-Sound b)
eval-Sound (conditional c a b) =
    >>=-Sound _ (eval-Sound c) λ v _. if-Sound (nonzero (promote v)) (eval-Sound a) (eval-Sound b)
eval-Sound (cast t a) = elim (Bool-cases (is_integer t)) [
  | inl e ↦ rw e (>>=-Sound _ (eval-Sound a) (λ v _. apply_cast-Sound t v e))
  | inr e ↦ rw e rejected
]
eval-Sound (sizeof_type t) = size_value-Sound (size t)
eval-Sound (alignof_type t) = size_value-Sound (align t)
eval-Sound other = rejected

-- An operand that the left operand of `&&` and `||`, or the condition of `?:`, rules out has no
-- influence on the result, whether or not it is a constant expression.
pub short_circuit :
    (a b b' : Expr) {v : Ival}
    → eval a ≡ ok v
    → (nonzero v ≡ false → eval (binary Punct.amp_amp a b) ≡ eval (binary Punct.amp_amp a b'))
      × (nonzero v ≡ true → eval (binary Punct.pipe_pipe a b) ≡ eval (binary Punct.pipe_pipe a b'))
      × (nonzero (promote v) ≡ true → eval (conditional a b b) ≡ eval (conditional a b b'))
      × (nonzero (promote v) ≡ false → eval (conditional a b b) ≡ eval (conditional a b' b))
unfolding eval eval_binary
short_circuit a b b' h =
    (λ z. rw (h, ◌>>=◌, z), λ z. rw (h, ◌>>=◌, z), λ z. rw (h, ◌>>=◌, z), λ z. rw (h, ◌>>=◌, z))
