-- ===== src/Status.antt =====
-- src/status: the status codes that every fallible operation returns, and the outcome of a call.

-- `qcc_status`, but for `QCC_OK`
pub data Status : Type 0 where
  out_of_memory io invalid_argument not_found overflow : Status
  lex pp parse type ir codegen unsupported : Status

-- The outcome of a function that returns `qcc_status` and writes its result through a pointer:
-- `ok` is `QCC_OK` with the value written, `err` any other status. `undefined` is a C operation
-- whose behaviour the standard leaves open, such as a division that overflows.
pub data Outcome {ℓ} (A : Type ℓ) : Type ℓ where
  ok : A → Outcome A
  err : Status → Outcome A
  undefined : Outcome A

infixl 5 ◌>>=◌
abbrev pub ◌>>=◌ {ℓ κ} : {A : Type ℓ} {B : Type κ} → Outcome A → (A → Outcome B) → Outcome B
ok a >>= f = f a
err s >>= f = err s
undefined >>= f = undefined

-- A predicate on the result, where there is one
pub data After {ℓ} {A : Type ℓ} (P : A → Type ℓ) : Outcome A → Type ℓ where
  after : {a : A} → P a → After P (ok a)
  failed : {st : Status} → After P (err st)
  no_result : After P undefined

pub >>=-After {ℓ} :
    {A B : Type ℓ} {P : B → Type ℓ} (m : Outcome A) {k : A → Outcome B}
    → ((a : A) → After P (k a))
    → After P (m >>= k)
>>=-After (ok a) h = h a
>>=-After (err st) h = failed
>>=-After undefined h = no_result

pub After-then {ℓ} :
    {A B : Type ℓ} {P : A → Type ℓ} {Q : B → Type ℓ} {m : Outcome A} {k : A → Outcome B}
    → After P m
    → ((a : A) → P a → After Q (k a))
    → After Q (m >>= k)
After-then (after {a} p) h = h a p
After-then failed h = failed
After-then no_result h = no_result

pub After-imp {ℓ} :
    {A : Type ℓ} {P Q : A → Type ℓ} {m : Outcome A} → After P m → ((a : A) → P a → Q a) → After Q m
After-imp (after {a} p) h = after (h a p)
After-imp failed h = failed
After-imp no_result h = no_result

-- A call that returns what satisfies a predicate, or else `QCC_ERR_OUT_OF_MEMORY`
pub data Yields {ℓ} {A : Type ℓ} (P : A → Type ℓ) : Outcome A → Type ℓ where
  yields : {a : A} → P a → Yields P (ok a)
  exhausted : Yields P (err Status.out_of_memory)

pub Yields-then {ℓ} :
    {A B : Type ℓ} {P : A → Type ℓ} {Q : B → Type ℓ} {m : Outcome A} {k : A → Outcome B}
    → Yields P m
    → ((a : A) → P a → Yields Q (k a))
    → Yields Q (m >>= k)
Yields-then (yields {a} p) h = h a p
Yields-then exhausted h = exhausted

pub Yields-imp {ℓ} :
    {A : Type ℓ} {P Q : A → Type ℓ} {m : Outcome A}
    → Yields P m
    → ((a : A) → P a → Q a)
    → Yields Q m
Yields-imp (yields {a} p) h = yields (h a p)
Yields-imp exhausted h = exhausted
