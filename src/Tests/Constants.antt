-- ===== src/Tests/Constants.antt =====
-- Concrete inputs for the operations on scalar constants of src/sema/scalar_constants.cc.
use c_cloth.Base.{
  ◌≤◌, ◌↔◌, ℕ, ◌^◌, ◌<◌, ◌≡◌, refl, true, false, ◌==◌, ◌&&◌, ◌||◌, arith, if◌then◌else◌,
}
use c_cloth.Base.Int.{◌<ℤ◌, mod_ℤ, floor_div, pos_part, pos, ◌+ℤ◌, ◌-ℤ◌, ◌*ℤ◌}
use c_cloth.Base.Text.{codes}
use c_cloth.Token.{
  plus, minus, tilde, ampersand, pipe, caret, star, slash, percent, less, shift_left, shift_right,
}
use c_cloth.Numeric.{
  int8, uint8, float64, float32, numeric_type_properties, is_integer_type, is_valid_integer_bits,
}
use c_cloth.Numeric.Values.{value, min_value, max_value}
use c_cloth.Scalar.{ok, unexpected, overflow, zero_divisor, out_of_range}
use c_cloth.Scalar.Integer.{
  Integer, integer, integer_bits, properties_of, integer_with, integer_bits_with,
}
use c_cloth.Scalar.Integer.Exact.{to_ℤ, encode, integer_value, integer_bits_value}
use c_cloth.Scalar.Compare.{is_comparison}
use c_cloth.Scalar.Operations.{binary_scalar, unary_scalar}
use c_cloth.Scalar.Operations.Arithmetic.{arithmetic_value, minus_scalar_value}
use c_cloth.Scalar.Operations.Division.{abs_ℤ, quotient, remainder, is_least_by_minus_one}
use c_cloth.Scalar.Operations.Quotients.{division_value}
use c_cloth.Base.Words.Digits.{xor}
use c_cloth.Scalar.Operations.Bitwise.{CombinesBits, bitwise_value}
use c_cloth.Scalar.Operations.Complement.{complement_scalar_value}
use c_cloth.Scalar.Operations.Comparisons.{Comparison, comparison_value}
use c_cloth.Scalar.Operations.Shifts.{checked_count, shift_scalar_value}
use c_cloth.Scalar.Conversions.{convert_scalar, convert_integer_mode, wrap, sat}
use c_cloth.Scalar.Conversions.Exact.{clamp_ℤ, convert_scalar_value, convert_integer_mode_value}
use c_cloth.Scalar.Literals.{LiteralKind, scalar_literal, scalar_integer_decimal}
use c_cloth.Scalar.Literals.Exact.{literal-integer_decimal}

int8-integer : is_integer_type int8 ≡ true
unfolding is_integer_type numeric_type_properties
int8-integer = refl

uint8-integer : is_integer_type uint8 ≡ true
unfolding is_integer_type numeric_type_properties
uint8-integer = refl

-- -128, -1 and 100 as `int8`.
least-valid : is_valid_integer_bits 128 int8 ≡ true
unfolding is_valid_integer_bits numeric_type_properties is_integer_type
least-valid = refl

minus_one-valid : is_valid_integer_bits 255 int8 ≡ true
unfolding is_valid_integer_bits numeric_type_properties is_integer_type
minus_one-valid = refl

hundred-valid : is_valid_integer_bits 100 int8 ≡ true
unfolding is_valid_integer_bits numeric_type_properties is_integer_type
hundred-valid = refl

overflowing : binary_scalar plus int8 100 100 int8 ≡ unexpected overflow
unfolding binary_scalar numeric_type_properties properties_of integer_with integer_bits_with
overflowing = refl

negative_shift : binary_scalar shift_right int8 128 3 uint8 ≡ ok 240
unfolding binary_scalar numeric_type_properties properties_of integer_with
negative_shift = refl

three-valid : is_valid_integer_bits 3 uint8 ≡ true
unfolding is_valid_integer_bits numeric_type_properties is_integer_type
three-valid = refl

shift_scalar_value_example :
    (binary_scalar shift_left int8 128 3 uint8
      ≡ checked_count (properties_of int8).bit_width (value uint8 3) (
          ok (
            mod_ℤ
              (value int8 128 *ℤ pos (2 ^ pos_part (value uint8 3)))
              (2 ^ (properties_of int8).bit_width))))
    × (binary_scalar shift_right int8 128 3 uint8
        ≡ checked_count
            (properties_of int8).bit_width
            (value uint8 3)
            (encode overflow int8 (floor_div (value int8 128) (2 ^ pos_part (value uint8 3)))))
shift_scalar_value_example =
    shift_scalar_value int8 uint8 128 3 int8-integer uint8-integer least-valid three-valid

-- 0.1 + 0.2 in binary64.
tenths :
    binary_scalar plus float64 0x3FB999999999999A 0x3FC999999999999A float64 ≡ ok 0x3FD3333333333334
unfolding binary_scalar numeric_type_properties properties_of
tenths = refl

tenth : scalar_literal LiteralKind.float (codes "0.1") float32 false ≡ ok 0x3DCCCCCD
unfolding scalar_literal numeric_type_properties properties_of
tenth = refl

arithmetic_value_example :
    (binary_scalar plus int8 100 255 int8 ≡ encode overflow int8 (value int8 100 +ℤ value int8 255))
    × (binary_scalar minus int8 100 255 int8
        ≡ encode overflow int8 (value int8 100 -ℤ value int8 255))
    × (binary_scalar star int8 100 255 int8
        ≡ encode overflow int8 (value int8 100 *ℤ value int8 255))
arithmetic_value_example = arithmetic_value int8 100 255 int8-integer hundred-valid minus_one-valid

minus_scalar_value_example :
    unary_scalar minus int8 128 ≡ encode overflow int8 (pos 0 -ℤ value int8 128)
minus_scalar_value_example = minus_scalar_value int8 128 int8-integer least-valid

complement_scalar_value_example :
    unary_scalar tilde int8 128
    ≡ encode overflow int8 (min_value int8 +ℤ max_value int8 -ℤ value int8 128)
complement_scalar_value_example = complement_scalar_value int8 128 int8-integer least-valid

bitwise_value_example :
    CombinesBits (λ s t. s && t) int8 100 255 (binary_scalar ampersand int8 100 255 int8)
    × CombinesBits (λ s t. s || t) int8 100 255 (binary_scalar pipe int8 100 255 int8)
    × CombinesBits xor int8 100 255 (binary_scalar caret int8 100 255 int8)
bitwise_value_example = bitwise_value int8 100 255 int8-integer hundred-valid minus_one-valid

division_value_example :
    (binary_scalar slash int8 128 255 int8 ≡ (
      if abs_ℤ (value int8 255) == 0
      then unexpected zero_divisor
      else encode overflow int8 (quotient (value int8 128) (value int8 255))))
    × (binary_scalar percent int8 128 255 int8 ≡ (
        if abs_ℤ (value int8 255) == 0
        then unexpected zero_divisor
        else if is_least_by_minus_one int8 128 255
        then unexpected overflow
        else encode overflow int8 (remainder (value int8 128) (value int8 255))))
division_value_example = division_value int8 128 255 int8-integer least-valid minus_one-valid

less-comparison : is_comparison less ≡ true
unfolding is_comparison
less-comparison = refl

comparison_value_example :
    (bits : ℕ) × (binary_scalar less int8 255 100 int8 ≡ ok bits)
    × (bits ≤ 1)
    × ((bits ≡ 1) ↔ (value int8 255 <ℤ value int8 100))
comparison_value_example =
    comparison_value Comparison.below int8 255 100 int8-integer minus_one-valid hundred-valid

convert_scalar_value_example :
    convert_scalar 255 int8 uint8 ≡ encode out_of_range uint8 (value int8 255)
convert_scalar_value_example =
    convert_scalar_value int8 uint8 255 int8-integer uint8-integer minus_one-valid

convert_integer_mode_value_example :
    (convert_integer_mode 255 int8 uint8 wrap
      ≡ ok (mod_ℤ (value int8 255) (2 ^ (properties_of uint8).bit_width)))
    × (convert_integer_mode 255 int8 uint8 sat
        ≡ encode out_of_range uint8 (clamp_ℤ (min_value uint8) (max_value uint8) (value int8 255)))
    × ((result : ℕ) × (convert_integer_mode 255 int8 uint8 sat ≡ ok result))
convert_integer_mode_value_example =
    convert_integer_mode_value int8 uint8 255 int8-integer uint8-integer minus_one-valid

literal-integer_decimal_example :
    scalar_literal LiteralKind.integer (scalar_integer_decimal int8 128) int8 false ≡ ok 128
literal-integer_decimal_example = literal-integer_decimal int8 128 int8-integer least-valid

abbrev minus_five : Integer
minus_five = record { negative = true; magnitude = 5 }

integer_bits_value_example :
    integer_bits minus_five uint8 ≡ encode out_of_range uint8 (to_ℤ minus_five)
integer_bits_value_example = integer_bits_value minus_five uint8 uint8-integer (omega arith)

integer_value_example :
    (to_ℤ (integer 255 int8) ≡ value int8 255) × ((integer 255 int8).magnitude < 2 ^ 64)
integer_value_example = integer_value 255 int8 int8-integer minus_one-valid
