-- ===== src/CType/Equal.antt =====
-- `qcc_type_equal` as a relation.
use quicks_qcc.Prelude.{ℕ, ◌≡◌, refl, true, List, [], ◌∷◌, arith, ◌==◌}
use quicks_qcc.CType.{
  CType, Params, null, basic, pointer, array, function, tagged, none, param, same_bytes, equal,
  equal_params,
}

==_self : (a : ℕ) → (a == a) ≡ true
==_self a = ground arith

equal_refl : (t : CType) → equal t t ≡ true
unfolding equal
equal_refl null = refl
equal_refl (basic p q k) = rw (==_self p)
equal_refl (pointer p q t) = rw (==_self p)
equal_refl (array p q t n c) = rw (==_self p)
equal_refl (function p q r ps v) = rw (==_self p)
equal_refl (tagged p q k s c) = rw (==_self p)

==_comm : (a b : ℕ) → (a == b) ≡ (b == a)
==_comm a b = ground arith

same_bytes_comm : (xs ys : List ℕ) → same_bytes xs ys ≡ same_bytes ys xs
same_bytes_comm [] [] = refl
same_bytes_comm [] (y ∷ ys) = refl
same_bytes_comm (x ∷ xs) [] = refl
same_bytes_comm (x ∷ xs) (y ∷ ys) = ground (arith, same_bytes_comm xs ys)

mutual
  unfolding equal

  equal_comm : (a b : CType) → equal a b ≡ equal b a
  equal_comm null null = refl
  equal_comm (basic p q k) (basic p' q' k') = ground arith
  equal_comm (pointer p q t) (pointer p' q' t') = ground (arith, equal_comm t t')
  equal_comm (array p q t n c) (array p' q' t' n' c') = ground (arith, equal_comm t t')
  equal_comm (function p q r ps v) (function p' q' r' ps' v') =
      ground (arith, equal_comm r r', equal_params_comm ps ps')
  equal_comm (tagged p q k s c) (tagged p' q' k' s' c') = ground (arith, same_bytes_comm s s')
  equal_comm a b = ground arith

  equal_params_comm : (ps qs : Params) → equal_params ps qs ≡ equal_params qs ps
  equal_params_comm none none = refl
  equal_params_comm none (param t ts) = refl
  equal_params_comm (param t ts) none = refl
  equal_params_comm (param t ts) (param u us) =
      ground (arith, equal_comm t u, equal_params_comm ts us)

-- `qcc_type_equal` is reflexive and symmetric.
pub equal_refl_symm : (t u : CType) → (equal t t ≡ true) × (equal t u ≡ equal u t)
equal_refl_symm t u = (equal_refl t, equal_comm t u)
