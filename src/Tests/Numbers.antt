-- ===== src/Tests/Numbers.antt =====
-- Concrete inputs for the layouts of src/target/, the types of src/sema/numeric_types.cc and the
-- class `Natural` of src/sema/scalar_constants.cc.
use c_cloth.Base.{
  ℕ, ◌+◌, ◌%◌, ◌^◌, ◌≤◌, ◌<◌, ◌≡◌, ◌↔◌, refl, true, false, ◌||◌, [], ◌∷◌, some, none, arith,
}
use c_cloth.Base.Int.{◌≤ℤ◌, ◌<ℤ◌}
use c_cloth.Target.{is_power_of_two, align_to, is_valid_data_layout, llvm_x86_64, llvm_wasm32}
use c_cloth.Target.Align.{align_to_least}
use c_cloth.Target.Layout.{IsLayout, is_valid_data_layout_iff}
use c_cloth.Numeric.{
  int8, int32, uint8, numeric_type_properties, is_integer_type, is_valid_integer_bits,
  can_widen_numeric, same_kind, widen_integer_constant, integer_constant_bits,
}
use c_cloth.Numeric.Values.{value, min_value, max_value}
use c_cloth.Numeric.Widen.{can_widen_numeric_iff, widen_integer_constant_value}
use c_cloth.Base.Text.{codes}
use c_cloth.Scalar.Natural.{Words, add}

x86_64-valid : is_valid_data_layout llvm_x86_64 ≡ true
unfolding is_valid_data_layout llvm_x86_64
x86_64-valid = refl

wasm32-valid : is_valid_data_layout llvm_wasm32 ≡ true
unfolding is_valid_data_layout llvm_wasm32
wasm32-valid = refl

aligned : align_to 13 8 ≡ 16
unfolding align_to is_power_of_two
aligned = refl

align_to_least_example :
    (13 ≤ align_to 13 (2 ^ 3))
    × (align_to 13 (2 ^ 3) < 13 + 2 ^ 3)
    × (align_to 13 (2 ^ 3) % 2 ^ 3 ≡ 0)
align_to_least_example = align_to_least 13 3 (omega arith) (omega arith)

is_valid_data_layout_iff_example : (is_valid_data_layout llvm_x86_64 ≡ true) ↔ IsLayout llvm_x86_64
is_valid_data_layout_iff_example = is_valid_data_layout_iff llvm_x86_64

int8-integer : is_integer_type int8 ≡ true
unfolding is_integer_type numeric_type_properties
int8-integer = refl

int32-integer : is_integer_type int32 ≡ true
unfolding is_integer_type numeric_type_properties
int32-integer = refl

minus_one-valid : is_valid_integer_bits 255 int8 ≡ true
unfolding is_valid_integer_bits numeric_type_properties is_integer_type
minus_one-valid = refl

int8-int32 : (same_kind int8 int32 || can_widen_numeric int8 int32) ≡ true
unfolding can_widen_numeric numeric_type_properties
int8-int32 = refl

-- -1 as an `int8` and as an `int32`.
widened : widen_integer_constant 255 int8 int32 ≡ some 4294967295
unfolding widen_integer_constant is_valid_integer_bits is_integer_type numeric_type_properties
    can_widen_numeric
widened = refl

too_large : integer_constant_bits (codes "256") false uint8 ≡ none
unfolding integer_constant_bits is_integer_type numeric_type_properties
too_large = refl

can_widen_numeric_iff_example :
    (can_widen_numeric int8 int32 ≡ true)
    ↔ ((min_value int32 ≤ℤ min_value int8) × (max_value int8 <ℤ max_value int32))
can_widen_numeric_iff_example = can_widen_numeric_iff int8 int32 int8-integer int32-integer

widen_integer_constant_value_example :
    (r : ℕ) × (widen_integer_constant 255 int8 int32 ≡ some r)
    × (is_valid_integer_bits r int32 ≡ true)
    × (value int32 r ≡ value int8 255)
widen_integer_constant_value_example =
    widen_integer_constant_value 255 int8 int32 int32-integer minus_one-valid int8-int32

-- 2^32 + 7 and 2^32 - 1 as words.
abbrev large : Words
large = 7 ∷ 1 ∷ []

abbrev small : Words
small = 4294967295 ∷ []

carried : add large small ≡ 6 ∷ 2 ∷ []
unfolding add
carried = refl
