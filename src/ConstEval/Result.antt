-- ===== src/ConstEval/Result.antt =====
-- `qcc_eval_const_int`: what its result promises.
use quicks_qcc.Prelude.{◌≡◌, arith}
use quicks_qcc.Status.{Status, Outcome, ok, err, undefined, ◌>>=◌}
use quicks_qcc.ConstEval.{
  Ival, Expr, ConstValue, promote, make, eval_const_int, report, int_type_wu, wu_int_type,
}
use quicks_qcc.ConstEval.Canonical.{IsCanonical, promote-IsCanonical}
use quicks_qcc.ConstEval.Errors.{Sound, value, rejected, unspecified, eval-Sound}
use quicks_qcc.ConstEval.Arith.{read, InRange, IsCanonical-InRange}

-- After promotion only the widths 32 and 64 are left, and the reported type has them.
promoted_type :
    (v : Ival)
    → IsCanonical v
    → int_type_wu (wu_int_type (promote v).width (promote v).uns)
      ≡ ((promote v).width, (promote v).uns)
unfolding promote make wu_int_type int_type_wu
promoted_type v h = ground (arith, h.is_width)

-- A value of the type that it is reported with: read with the signedness of that type, its 64
-- bits lie in the type's range.
abbrev pub Fits : ConstValue → Type 0
Fits r = let type = int_type_wu r.type in InRange type.0 type.1 (read r.value type.1)

report-Fits : (v : Ival) → IsCanonical v → Fits (report v)
unfolding report
report-Fits v h = rw (promoted_type v h) (IsCanonical-InRange (promote v) (promote-IsCanonical h))

-- What the public entry point may return
pub data Reported : Outcome ConstValue → Type 0 where
  reported : {r : ConstValue} → Fits r → Reported (ok r)
  not_constant : Reported (err Status.type)
  no_quotient : Reported undefined

-- `qcc_eval_const_int` returns a value that fits the type reported with it, or `QCC_ERR_TYPE`, or
-- (only in the model, where C leaves the division undefined) no result.
pub eval_const_int-Reported : (e : Expr) → Reported (eval_const_int e)
unfolding eval_const_int
eval_const_int-Reported e = outcome (eval-Sound e)
  where
    outcome : {m : Outcome Ival} → Sound m → Reported (m >>= λ x. ok (report x))
    outcome (value {v} h) = reported (report-Fits v h)
    outcome rejected = not_constant
    outcome unspecified = no_quotient
