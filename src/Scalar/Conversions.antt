-- ===== src/Scalar/Conversions.antt =====
-- The conversions of src/sema/scalar_constants.cc: between types, and the wrapping and
-- saturating ones.
pub mod Exact
use c_cloth.Base.{
  ℕ, zero, suc, ◌+◌, ◌-◌, ◌*◌, ◌/◌, ◌%◌, ◌^◌, min, Bool, true, false, not, ◌&&◌, ◌||◌, ◌==◌, ◌/=◌,
  leb, ltb, List, [], ◌∷◌, ◌++◌, length, if◌then◌else◌,
}
use Prim.Native.Nat.{Ordering, lt, eq, gt}
use c_cloth.Base.Int.{ℤ, pos, negsuc, ◌+ℤ◌, ◌-ℤ◌, ltb_ℤ}
use c_cloth.Base.Words.{low_bits, test_bit, shr, shl64, neg64, u64_max}
use c_cloth.Base.Text.{Bytes, codes, text_eq, to_string}
use c_cloth.Token.{TokenKind, minus}
use c_cloth.Numeric.{
  TypeKind, bool, char, float32, float64, NumericTypeProperties, same_kind, is_integer_type,
  is_numeric_type, is_valid_integer_bits, is_signed_category, is_unsigned_category,
}
use c_cloth.Literal.{TextLiteralError, TextLiteralKind, DecodedTextLiteral}
use c_cloth.Literal.Digits.{is_decimal_digit}
use c_cloth.Literal.Text.{decode_text_literal}
use c_cloth.Scalar.{
  ConstantBits, Expected, ok, unexpected, ◌>>=◌, invalid_literal, out_of_range, invalid_operation,
}
use c_cloth.Scalar.Natural.{Words, from_u64, is_zero, width, low}
use c_cloth.Scalar.Float.{Finite, floating, unpack, scaled_compare, pack}
use c_cloth.Scalar.Integer.{Integer, integer, integer_bits, integer_with, properties_of, mask}
use c_cloth.Scalar.Operations.{is_valid_scalar_bits, unary_scalar}
use c_cloth.Scalar.Decimal.{decimal_float}

-- A floating constant as one of an integer type: cut towards zero.
unfoldable pub truncate : Finite → TypeKind → ConstantBits
unfolding width is_zero low integer_bits ◌+ℤ◌
truncate value target =
    let bits = pos (width value.magnitude) +ℤ value.scale in
    let magnitude : ℕ = elim value.scale [
      | pos by ↦ shl64 (low value.magnitude) by
      | negsuc by ↦ shr (low value.magnitude) (suc by)
    ] in
    if is_zero value.magnitude || ltb_ℤ bits (pos 1)
    then ok 0
    else if ltb_ℤ (pos 64) bits
    then unexpected out_of_range
    else integer_bits (record { negative = value.negative; magnitude = magnitude }) target

abbrev above : Ordering → Bool
above gt = true
above _ = false

-- A floating constant as one of another floating type.
unfoldable pub convert_floating : Finite → TypeKind → TypeKind → ConstantBits
unfolding scaled_compare from_u64 pack ◌-ℤ◌
convert_floating value source target =
    if same_kind source float64
      && same_kind target float32
      && above (scaled_compare value.magnitude (from_u64 0xffffff) (value.scale -ℤ pos 104))
    then unexpected out_of_range
    else pack value.negative value.magnitude (from_u64 1) value.scale target false

unfoldable pub convert_scalar : ℕ → TypeKind → TypeKind → ConstantBits
unfolding is_valid_scalar_bits is_numeric_type floating integer integer_bits unpack truncate
    convert_floating pack from_u64
convert_scalar bits source target =
    let value = integer bits source in
    if not (is_valid_scalar_bits source bits)
    then unexpected out_of_range
    else if same_kind source target
    then ok bits
    else if not (is_numeric_type source) || not (is_numeric_type target)
    then unexpected invalid_operation
    else if not (floating source)
    then (if floating target
        then pack value.negative (from_u64 value.magnitude) (from_u64 1) (pos 0) target false
        else integer_bits value target)
    else if floating target
    then convert_floating (unpack bits source) source target
    else truncate (unpack bits source) target

pub data IntegerConversionMode : Type 0 where
  wrap sat : IntegerConversionMode

-- `convert_integer_mode` past its checks, on the integer and the properties of the target.
unfoldable pub convert_mode : Integer → NumericTypeProperties → IntegerConversionMode → ℕ
unfolding mask
convert_mode value p wrap =
    low_bits (if value.negative then neg64 value.magnitude else value.magnitude) p.bit_width
convert_mode value p sat =
    let minimum_magnitude = shl64 1 (p.bit_width - 1) in
    if is_unsigned_category p.category
    then (if value.negative && value.magnitude /= 0
        then 0
        else min value.magnitude (mask p.bit_width))
    else if not value.negative
    then min value.magnitude (minimum_magnitude - 1)
    else if leb minimum_magnitude value.magnitude
    then minimum_magnitude
    else low_bits (neg64 value.magnitude) p.bit_width

unfoldable pub convert_integer_mode : ℕ → TypeKind → TypeKind → IntegerConversionMode → ConstantBits
unfolding is_valid_integer_bits is_integer_type integer convert_mode
convert_integer_mode bits source target mode =
    if not (is_valid_integer_bits bits source) || not (is_integer_type target)
    then unexpected invalid_operation
    else ok (convert_mode (integer bits source) (properties_of target) mode)
