-- ===== src/Prelude/Word.antt =====
-- `uint64_t` as a native number below 2 ^ 64, with the wrap-around of C written out, and its
-- reading as a two's complement `int64_t`.
use Prim.Native.Nat.{ℕ, ◌+◌, ◌-◌, ◌*◌, ◌/◌, ◌%◌, ◌^◌}
use mathlib.Core.Bool.{Bool, true, false, not}
use quicks_qcc.Prelude.Tests.{ltb, leb, if◌then◌else◌}

abbrev pub word : ℕ
word = 2 ^ 64

abbrev pub u64 : ℕ → ℕ
u64 n = n % 2 ^ 64

-- `a - b` of two words; 2 ^ 64 is added first since `-` on ℕ stops at 0.
abbrev pub sub64 : ℕ → ℕ → ℕ
sub64 a b = u64 (a + 2 ^ 64 - b)

-- `~a`
abbrev pub not64 : ℕ → ℕ
not64 a = 2 ^ 64 - 1 - a

-- `a << k` and `a >> k`, for a count below the width
abbrev pub shl64 : ℕ → ℕ → ℕ
shl64 a k = u64 (a * 2 ^ k)

abbrev pub shr64 : ℕ → ℕ → ℕ
shr64 a k = a / 2 ^ k

-- `(int64_t)a < 0`
abbrev pub is_negative : ℕ → Bool
is_negative a = leb (2 ^ 63) a

-- `|(int64_t)a|`
abbrev pub magnitude : ℕ → ℕ
magnitude a = if is_negative a then 2 ^ 64 - a else a

-- `(uint64_t)((int64_t)a >> k)`: the arithmetic shift copies the sign bit.
abbrev pub sar64 : ℕ → ℕ → ℕ
sar64 a k = if is_negative a then not64 (not64 a / 2 ^ k) else a / 2 ^ k

-- `(int64_t)a < (int64_t)b`: adding 2 ^ 63 turns the signed order into the unsigned one.
abbrev pub slt64 : ℕ → ℕ → Bool
slt64 a b = ltb (u64 (a + 2 ^ 63)) (u64 (b + 2 ^ 63))

-- The word of a signed value given by its sign and its magnitude.
abbrev pub signed_word : Bool → ℕ → ℕ
signed_word true m = sub64 0 m
signed_word false m = u64 m

-- `(uint64_t)((int64_t)a / (int64_t)b)` and `%`: C truncates the quotient towards zero, and the
-- remainder has the sign of the dividend.
abbrev pub sdiv64 : ℕ → ℕ → ℕ
sdiv64 a b =
    signed_word (if is_negative a then not (is_negative b) else is_negative b)
      (magnitude a / magnitude b)

abbrev pub srem64 : ℕ → ℕ → ℕ
srem64 a b = signed_word (is_negative a) (magnitude a % magnitude b)
