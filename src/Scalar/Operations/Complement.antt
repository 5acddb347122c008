-- ===== src/Scalar/Operations/Complement.antt =====
-- The operator `~` of `unary_scalar` (src/sema/scalar_constants.cc) on integers.
use c_cloth.Base.{ℕ, ◌-◌, ◌^◌, ◌<◌, ◌≡◌, ◌∙◌, Bool, true, arith}
use c_cloth.Base.Int.{◌+ℤ◌, ◌-ℤ◌}
use c_cloth.Base.Words.{low_bits, u64_max}
use c_cloth.Token.{tilde}
use c_cloth.Numeric.{TypeKind, is_integer_type, is_valid_integer_bits}
use c_cloth.Numeric.Values.{
  value, value_of, min_value, max_value, min_of, max_of, Width, w8, width_bits, shape,
  integer_shape, value-shape, min_value-shape, max_value-shape,
}
use c_cloth.Scalar.{ok, overflow}
use c_cloth.Scalar.Integer.Exact.{encode, encode_with, valid-lt, properties_of-shape}
use c_cloth.Scalar.Operations.{unary_scalar, unary_valid}
use c_cloth.Scalar.Operations.Reduce.{unary_scalar-integer}

complement_with :
    (s : Bool) (w : Width) (bits : ℕ)
    → bits < 2 ^ width_bits w
    → ok (low_bits (u64_max - bits) (shape s w).bit_width)
      ≡ encode_with overflow
          (shape s w)
          (min_of (shape s w) +ℤ max_of (shape s w) -ℤ value_of (shape s w) bits)
unfolding ◌+ℤ◌ ◌-ℤ◌
complement_with true w8 bits h = ground arith
complement_with _ w bits h = ground arith

-- The complement of a valid constant of an integer type is the constant of the integer that mirrors
-- its own in the range of the type: the sum of the least and the greatest integer, less its own.
pub complement_scalar_value :
    (type : TypeKind) (bits : ℕ)
    → is_integer_type type ≡ true
    → is_valid_integer_bits bits type ≡ true
    → unary_scalar tilde type bits
      ≡ encode overflow type (min_value type +ℤ max_value type -ℤ value type bits)
unfolding unary_valid encode
complement_scalar_value type bits h v =
    let s = integer_shape type h in
    unary_scalar-integer tilde type bits h v
    ∙ rw (h, properties_of-shape s, value-shape s bits, min_value-shape s, max_value-shape s)
        (complement_with s.signed s.width bits (valid-lt s bits v))
