-- ===== src/Scalar/Integer/Exact.antt =====
-- `integer` and `integer_bits` (src/sema/scalar_constants.cc) against the integers: reading a
-- pattern gives its integer, and writing an integer succeeds exactly in the range of the type.
use c_cloth.Base.{◌↔◌, ℕ, ◌+◌, ◌-◌, ◌^◌, ◌<◌, ◌≡◌, ap, Bool, true, leb, ◌&&◌, arith, if◌then◌else◌}
use c_cloth.Base.Int.{ℤ, pos, negsuc, sub_ℕ, pos_part, neg_part}
use c_cloth.Numeric.{
  TypeKind, NumericTypeProperties, is_integer_type, is_valid_integer_bits, with_properties,
}
use c_cloth.Numeric.Values.{
  Width, w8, width_bits, shape, Shape, integer_shape, value_of, min_of, max_of, value, value-shape,
  is_valid_integer_bits-shape,
}
use c_cloth.Scalar.{ConstantError, ConstantBits, ok, unexpected, out_of_range}
use c_cloth.Scalar.Integer.{
  Integer, integer_with, integer, integer_bits_with, integer_bits, properties_of, mask,
}

abbrev pub to_ℤ : Integer → ℤ
to_ℤ v = if v.negative then sub_ℕ 0 v.magnitude else pos v.magnitude

abbrev leb_ℤ : ℤ → ℤ → Bool
leb_ℤ a b = leb (pos_part a + neg_part b) (pos_part b + neg_part a)

-- The pattern of an integer in two's complement.
abbrev pattern_of : ℕ → ℤ → ℕ
pattern_of width (pos n) = n
pattern_of width (negsuc n) = 2 ^ width - 1 - n

-- The pattern of an integer in the range of the type, and the error outside.
abbrev pub encode_with : ConstantError → NumericTypeProperties → ℤ → ConstantBits
encode_with error p z =
    if leb_ℤ (min_of p) z && leb_ℤ z (max_of p)
    then ok (pattern_of p.bit_width z)
    else unexpected error

unfoldable pub encode : ConstantError → TypeKind → ℤ → ConstantBits
encode error type z = encode_with error (properties_of type) z

integer_with_value :
    (s : Bool) (w : Width) (bits : ℕ)
    → bits < 2 ^ width_bits w
    → (to_ℤ (integer_with (shape s w) bits) ≡ value_of (shape s w) bits)
      × ((integer_with (shape s w) bits).magnitude < 2 ^ 64)
unfolding integer_with
integer_with_value true w8 bits h = ground arith
integer_with_value _ w bits h = ground arith

integer_bits_with_value :
    (s : Bool) (w : Width) (v : Integer)
    → v.magnitude < 2 ^ 64
    → integer_bits_with v (shape s w) ≡ encode_with out_of_range (shape s w) (to_ℤ v)
unfolding integer_bits_with mask
integer_bits_with_value true w8 v h = ground arith
integer_bits_with_value _ w v h = ground arith

encode_with_value :
    (error : ConstantError) (s : Bool) (w : Width) (z : ℤ) {bits : ℕ}
    → encode_with error (shape s w) z ≡ ok bits
    → (bits < 2 ^ width_bits w) × (value_of (shape s w) bits ≡ z)
encode_with_value error true w8 z h = ground arith
encode_with_value error _ w z h = ground arith

encode_with-value_of :
    (error : ConstantError) (s : Bool) (w : Width) (bits : ℕ)
    → bits < 2 ^ width_bits w
    → encode_with error (shape s w) (value_of (shape s w) bits) ≡ ok bits
encode_with-value_of error true w8 bits h = ground arith
encode_with-value_of error _ w bits h = ground arith

pub properties_of-shape :
    {type : TypeKind} (s : Shape type) → properties_of type ≡ shape s.signed s.width
unfolding properties_of
properties_of-shape s = ap (with_properties (λ p. p) _) s.properties_eq

pub valid-lt :
    {type : TypeKind} (s : Shape type) (bits : ℕ)
    → is_valid_integer_bits bits type ≡ true
    → bits < 2 ^ width_bits s.width
valid-lt s bits valid = ground (arith, is_valid_integer_bits-shape s bits)

-- Encoding an integer of the range gives a valid pattern for it, and any valid pattern is the
-- encoding of its integer.
pub encode_iff :
    (error : ConstantError) (type : TypeKind) (z : ℤ) (bits : ℕ)
    → is_integer_type type ≡ true
    → (encode error type z ≡ ok bits)
      ↔ ((is_valid_integer_bits bits type ≡ true) × (value type bits ≡ z))
unfolding encode
encode_iff error type z bits h =
    let s = integer_shape type h in
    rw (properties_of-shape s, is_valid_integer_bits-shape s bits, value-shape s bits)
      (
        λ e. ground (arith, encode_with_value error s.signed s.width z e),
        λ (lt, e). rw (← e) (encode_with-value_of error s.signed s.width bits (ground arith)),
      )

-- `integer` reads from a valid pattern of an integer type the sign and the magnitude of its integer,
-- and the magnitude fits 64 bits.
pub integer_value :
    (bits : ℕ) (type : TypeKind)
    → is_integer_type type ≡ true
    → is_valid_integer_bits bits type ≡ true
    → (to_ℤ (integer bits type) ≡ value type bits) × ((integer bits type).magnitude < 2 ^ 64)
unfolding integer
integer_value bits type h valid =
    let s = integer_shape type h in
    rw (properties_of-shape s, value-shape s bits)
      (integer_with_value s.signed s.width bits (valid-lt s bits valid))

-- `integer_bits`, on a magnitude of 64 bits, gives the pattern of an integer in the range of an integer
-- type, and reports any other as out of range.
pub integer_bits_value :
    (v : Integer) (type : TypeKind)
    → is_integer_type type ≡ true
    → v.magnitude < 2 ^ 64
    → integer_bits v type ≡ encode out_of_range type (to_ℤ v)
unfolding integer_bits encode
integer_bits_value v type h small =
    let s = integer_shape type h in
    rw (properties_of-shape s) (integer_bits_with_value s.signed s.width v small)
