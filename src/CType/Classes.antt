-- ===== src/CType/Classes.antt =====
-- The classification of types (ISO C 6.2.5): how the predicates divide them.
use quicks_qcc.Prelude.{◌≡◌, refl, false, ◌&&◌, ◌||◌}
use quicks_qcc.CType.{CType, TagKind, Basic, null, basic, tagged}
use quicks_qcc.CType.{
  is_integer, is_floating, is_arithmetic, is_signed_integer, is_unsigned_integer,
}

-- The integer types are those that are signed or unsigned, none is both, and no floating type is
-- an integer type.
pub integer_classes :
    (t : CType)
    → ((is_signed_integer t || is_unsigned_integer t) ≡ is_integer t)
      × ((is_signed_integer t && is_unsigned_integer t) ≡ false)
      × ((is_integer t && is_floating t) ≡ false)
unfolding is_signed_integer is_unsigned_integer is_arithmetic
integer_classes null = (refl, refl, refl)
integer_classes (basic p q Basic.void) = (refl, refl, refl)
integer_classes (tagged p q TagKind.enum s c) = (refl, refl, refl)
integer_classes (basic p q _) = (refl, refl, refl)
integer_classes (tagged p q _ s c) = (refl, refl, refl)
integer_classes _ = (refl, refl, refl)
