-- ===== src/Examples/Types.antt =====
-- Types at concrete inputs.
use quicks_qcc.Prelude.{◌%◌, ◌^◌, ◌≡◌, true, false, ◌||◌, ◌&&◌}
use quicks_qcc.CType.{
  CType, Basic, basic, pointer, array, size, align, equal, is_integer, is_floating,
  is_signed_integer, is_unsigned_integer,
}
use quicks_qcc.CType.Size.{extent, size-extent, IsAlignment, align-size}
use quicks_qcc.CType.Classes.{integer_classes}
use quicks_qcc.CType.Equal.{equal_refl_symm}

-- `int`, at the address 16
abbrev int_type : CType
int_type = basic 16 0 Basic.int

-- `int *[3]`
abbrev three_pointers : CType
three_pointers = array 48 0 (pointer 32 0 int_type) 3 true

size-extent_example : size three_pointers ≡ extent three_pointers % 2 ^ 64
size-extent_example = size-extent three_pointers

align-size_example :
    IsAlignment (align three_pointers) × (size three_pointers % align three_pointers ≡ 0)
align-size_example = align-size three_pointers

integer_classes_example :
    ((is_signed_integer int_type || is_unsigned_integer int_type) ≡ is_integer int_type)
    × ((is_signed_integer int_type && is_unsigned_integer int_type) ≡ false)
    × ((is_integer int_type && is_floating int_type) ≡ false)
integer_classes_example = integer_classes int_type

equal_refl_symm_example :
    (equal three_pointers three_pointers ≡ true)
    × (equal three_pointers int_type ≡ equal int_type three_pointers)
equal_refl_symm_example = equal_refl_symm three_pointers int_type
