-- ===== src/CType/Size.antt =====
-- `qcc_type_size` against the size of a type as a number without a bound, and `qcc_type_align`.
use native.Mathlib.Nat.{zero-mod}
use quicks_qcc.Prelude.{
  ℕ, ◌*◌, ◌%◌, ◌<◌, ◌^◌, ◌≡◌, refl, ap, ◌+◌, ◌/◌, ◌⊎◌, inl, inr, true, false, arith,
}
use quicks_qcc.CType.{CType, TagKind, Basic, null, basic, pointer, array, function, tagged}
use quicks_qcc.CType.{basic_size, size, align}

-- The size of a type in bytes, as a number without a bound; 0 for a type with no size.
unfoldable pub extent : CType → ℕ
extent (array p q t n true) = n * extent t
extent (basic p q k) = basic_size k
extent (pointer p q t) = 8
extent (tagged p q TagKind.enum s c) = 4
extent t = 0

mul-mod_word : (n e : ℕ) → n * (e % 2 ^ 64) % 2 ^ 64 ≡ n * e % 2 ^ 64
mul-mod_word n e =
    let split : e ≡ 2 ^ 64 * (e / 2 ^ 64) + e % 2 ^ 64 = omega arith in
    omega (arith, ap (λ (t : ℕ). n * t) split)

basic_size-lt : (k : Basic) → basic_size k < 2 ^ 64
basic_size-lt Basic.void = omega arith
basic_size-lt _ = omega arith

-- The size computed for a type is its size in bytes as an unbounded number, reduced modulo 2 ^ 64:
-- nothing but the wrap-around of the products is lost.
pub size-extent : (t : CType) → size t ≡ extent t % 2 ^ 64
unfolding size extent
size-extent null = refl
size-extent (basic p q k) = omega (arith, basic_size-lt k)
size-extent (pointer p q t) = refl
size-extent (array p q t n true) = rw (size-extent t) (mul-mod_word n (extent t))
size-extent (array p q t n false) = refl
size-extent (function p q r ps v) = refl
size-extent (tagged p q TagKind.enum s c) = refl
size-extent (tagged p q _ s c) = refl

-- The alignments of the target
abbrev pub IsAlignment : ℕ → Type 0
IsAlignment n = (n ≡ 0) ⊎ (n ≡ 1) ⊎ (n ≡ 2) ⊎ (n ≡ 4) ⊎ (n ≡ 8) ⊎ (n ≡ 16)

basic_IsAlignment : (k : Basic) → IsAlignment (basic_size k) × (basic_size k % basic_size k ≡ 0)
basic_IsAlignment Basic.void = omega arith
basic_IsAlignment _ = omega arith

multiple : (a n s : ℕ) → s ≡ a * (s / a) → n * s ≡ a * (n * (s / a))
multiple a n s e = omega (arith, ap (λ (t : ℕ). n * t) e)

-- Wrapping at 2 ^ 64 keeps a product a multiple of the alignment of its factor.
product_aligned : (a n s : ℕ) → IsAlignment a → s % a ≡ 0 → n * s % 2 ^ 64 % a ≡ 0
product_aligned a n s (inl z) h =
    let nothing : s ≡ 0 = (let h' = rw z at h in omega arith) in rw (z, nothing) (omega arith)
product_aligned a n s (inr (inl z)) h = rw z (omega arith)
product_aligned a n s (inr (inr (inl z))) h =
    rw z (omega (arith, rw z at h, multiple 2 n s (let h' = rw z at h in omega arith)))
product_aligned a n s (inr (inr (inr (inl z)))) h =
    rw z (omega (arith, rw z at h, multiple 4 n s (let h' = rw z at h in omega arith)))
product_aligned a n s (inr (inr (inr (inr (inl z))))) h =
    rw z (omega (arith, rw z at h, multiple 8 n s (let h' = rw z at h in omega arith)))
product_aligned a n s (inr (inr (inr (inr (inr z))))) h =
    rw z (omega (arith, rw z at h, multiple 16 n s (let h' = rw z at h in omega arith)))

-- Every alignment is zero or a power of two up to 16, and the size is a multiple of it.
pub align-size : (t : CType) → IsAlignment (align t) × (size t % align t ≡ 0)
unfolding align
align-size null = omega arith
align-size (basic p q k) = basic_IsAlignment k
align-size (pointer p q t) = omega arith
align-size (array p q t n true) =
    let (ok, fits) = align-size t in (ok, product_aligned (align t) n (size t) ok fits)
align-size (array p q t n false) = ((align-size t).0, zero-mod (align t))
align-size (function p q r ps v) = omega arith
align-size (tagged p q TagKind.enum s c) = omega arith
align-size (tagged p q _ s c) = omega arith
