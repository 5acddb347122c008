-- ===== src/Scalar/Integer.antt =====
-- The `Integer` of src/sema/scalar_constants.cc, a sign and a magnitude, between the bit patterns of
-- an integer type. The properties of a type are what `*numeric_type_properties(type)` reads.
pub mod Exact
use c_cloth.Base.{
  ℕ, ◌+◌, ◌-◌, ◌*◌, ◌/◌, ◌%◌, ◌^◌, Bool, true, false, not, ◌&&◌, ◌||◌, ◌==◌, ◌/=◌, ltb,
  if◌then◌else◌,
}
use c_cloth.Base.Words.{low_bits, test_bit, shl64, neg64, u64_max}
use c_cloth.Numeric.{
  TypeKind, NumericTypeProperties, unsigned_integer, is_signed_category, with_properties,
  numeric_type_properties,
}
use c_cloth.Scalar.{ConstantBits, ok, unexpected, out_of_range}

pub record Integer : Type 0 where
  pub negative : Bool
  pub magnitude : ℕ

-- `*numeric_type_properties(type)`. The source calls it at numeric types only; at any other type the
-- model has a value that no result depends on.
unfoldable pub properties_of : TypeKind → NumericTypeProperties
properties_of type =
    with_properties (λ p. p) (record { category = unsigned_integer; bit_width = 64 })
      (numeric_type_properties type)

-- `mask(width)`.
unfoldable pub mask : ℕ → ℕ
mask width = if width == 64 then u64_max else shl64 1 width - 1

-- `integer(bits, type)` on the properties of the type.
unfoldable pub integer_with : NumericTypeProperties → ℕ → Integer
integer_with p bits =
    let negative = is_signed_category p.category && test_bit bits (p.bit_width - 1) in
    record {
      negative = negative;
      magnitude = if negative then low_bits (neg64 bits) p.bit_width else bits;
    }

unfoldable pub integer : ℕ → TypeKind → Integer
integer bits type = integer_with (properties_of type) bits

-- `integer_bits(value, type)` on the properties of the type.
unfoldable pub integer_bits_with : Integer → NumericTypeProperties → ConstantBits
unfolding mask
integer_bits_with value p =
    let signed_type = is_signed_category p.category in
    let maximum =
      if signed_type
      then shl64 1 (p.bit_width - 1) - (if value.negative then 0 else 1)
      else mask p.bit_width in
    if (not signed_type && value.negative && value.magnitude /= 0) || ltb maximum value.magnitude
    then unexpected out_of_range
    else ok
        (low_bits (if value.negative then neg64 value.magnitude else value.magnitude) p.bit_width)

unfoldable pub integer_bits : Integer → TypeKind → ConstantBits
integer_bits value type = integer_bits_with value (properties_of type)
