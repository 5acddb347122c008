-- ===== src/Scalar/Operations/Quotients.antt =====
-- `/` and `%` of `binary_scalar` (src/sema/scalar_constants.cc) on integers.
use native.Mathlib.Nat.{div-le_self, mod-le}
use c_cloth.Base.{
  ℕ, ◌-◌, ◌^◌, ◌<◌, ◌≡◌, refl, ◌∙◌, sym, Bool, true, false, ◌==◌, ◌&&◌, arith, if◌then◌else◌,
}
use c_cloth.Base.Int.{ℤ}
use c_cloth.Base.Words.{shl64}
use c_cloth.Token.{slash, percent}
use c_cloth.Numeric.{TypeKind, is_integer_type, is_valid_integer_bits}
use c_cloth.Numeric.Values.{value, integer_shape, value-shape, min_value-shape}
use c_cloth.Scalar.{Expected, ok, unexpected, overflow, zero_divisor, ◌>>=◌}
use c_cloth.Scalar.Integer.{Integer, integer, integer_bits, properties_of}
use c_cloth.Scalar.Compare.{is_comparison}
use c_cloth.Scalar.Integer.Exact.{to_ℤ, encode, valid-lt, properties_of-shape, integer_value}
use c_cloth.Scalar.Operations.{
  integer_arithmetic, integer_binary, binary_scalar, checked_divisor, or_overflow,
}
use c_cloth.Scalar.Operations.Computes.{encoded}
use c_cloth.Scalar.Operations.Reduce.{binary_scalar-arithmetic}
use c_cloth.Scalar.Operations.Division.{
  abs_ℤ, quotient, remainder, is_least_by_minus_one, quotient_value, remainder_value, least_test,
  least_quotient, zero_test,
}

branches :
    (zero least : Bool) (v : Integer) (k : Integer → Expected ℕ) (c : Expected ℕ)
    → (zero ≡ false → k v ≡ c)
    → ((if zero then unexpected zero_divisor else if least then unexpected overflow else ok v)
        >>= k)
      ≡ (if zero then unexpected zero_divisor else if least then unexpected overflow else c)
branches true least v k c f = refl
branches false true v k c f = refl
branches false false v k c f = f refl

without_overflow :
    (zero least : Bool) (c : Expected ℕ)
    → (least ≡ true → c ≡ unexpected overflow)
    → (if zero then unexpected zero_divisor else if least then unexpected overflow else c)
      ≡ (if zero then unexpected zero_divisor else c)
without_overflow true least c f = refl
without_overflow false true c f = sym (f refl)
without_overflow false false c f = refl

positive : (n : ℕ) → (n == 0) ≡ false → 0 < n
positive n h = ground arith

module _ (type : TypeKind) (left right : ℕ) (h : is_integer_type type ≡ true)
    (l : is_valid_integer_bits left type ≡ true) (r : is_valid_integer_bits right type ≡ true) where
  least_test-integer :
      let a = integer left type in
      let b = integer right type in
      (a.negative
        && a.magnitude == shl64 1 ((properties_of type).bit_width - 1)
        && b.negative
        && b.magnitude == 1)
      ≡ is_least_by_minus_one type left right
  unfolding integer
  least_test-integer =
      let s = integer_shape type h in
      rw (properties_of-shape s, value-shape s left, value-shape s right, min_value-shape s)
        (least_test s.signed s.width left right (valid-lt s left l) (valid-lt s right r))

  least_quotient-integer :
      is_least_by_minus_one type left right ≡ true
      → encode overflow type (quotient (value type left) (value type right)) ≡ unexpected overflow
  unfolding encode
  least_quotient-integer =
      let s = integer_shape type h in
      rw (properties_of-shape s, value-shape s left, value-shape s right, min_value-shape s)
        (least_quotient s.signed s.width left right)

  divided :
      (z : ℤ) (v : Integer)
      → (0 < (integer right type).magnitude → (to_ℤ v ≡ z) × (v.magnitude < 2 ^ 64))
      → (checked_divisor (properties_of type).bit_width (integer left type) (integer right type) v
          >>= λ q. or_overflow (integer_bits q type))
        ≡ (if abs_ℤ (value type right) == 0
            then unexpected zero_divisor
            else if is_least_by_minus_one type left right
            then unexpected overflow
            else encode overflow type z)
  unfolding checked_divisor
  divided z v f =
      rw
        (
          ← zero_test (value type right) (integer right type) (integer_value right type h r).0,
          ← least_test-integer,
        )
        (branches ((integer right type).magnitude == 0) _ v (λ q. or_overflow (integer_bits q type))
          (encode overflow type z)
          (λ n. encoded type z (ok v) h (f (positive (integer right type).magnitude n))))

  pub slash_value : binary_scalar slash type left right type ≡ (
      if abs_ℤ (value type right) == 0
      then unexpected zero_divisor
      else encode overflow type (quotient (value type left) (value type right)))
  unfolding integer_binary integer_arithmetic
  slash_value =
      let a = integer_value left type h l in
      let b = integer_value right type h r in
      binary_scalar-arithmetic slash type left right h l refl refl (unfold is_comparison in refl) r
      ∙ divided (quotient (value type left) (value type right)) _ (λ p. (
        rw (← a.0, ← b.0) (quotient_value (integer left type) (integer right type) p),
        ground
            (arith, a.1, div-le_self (integer left type).magnitude (integer right type).magnitude),
      ))
      ∙ without_overflow (abs_ℤ (value type right) == 0) (is_least_by_minus_one type left right)
          (encode overflow type (quotient (value type left) (value type right)))
          least_quotient-integer

  pub percent_value : binary_scalar percent type left right type ≡ (
      if abs_ℤ (value type right) == 0
      then unexpected zero_divisor
      else if is_least_by_minus_one type left right
      then unexpected overflow
      else encode overflow type (remainder (value type left) (value type right)))
  unfolding integer_binary integer_arithmetic
  percent_value =
      let a = integer_value left type h l in
      let b = integer_value right type h r in
      binary_scalar-arithmetic percent type left right h l refl refl (unfold is_comparison in refl)
        r
      ∙ divided (remainder (value type left) (value type right)) _ (λ p. (
        rw (← a.0, ← b.0) (remainder_value (integer left type) (integer right type)),
        ground (arith, a.1, mod-le (integer left type).magnitude (integer right type).magnitude),
      ))

-- `/` and `%` on two valid constants of an integer type report a zero divisor where the divisor is
-- zero. Elsewhere `/` gives the constant of the quotient cut towards zero, or an overflow where the
-- type does not hold it, and `%` an overflow for the least integer by minus one and the constant of
-- the remainder for any other operands.
pub division_value :
    (type : TypeKind) (left right : ℕ)
    → is_integer_type type ≡ true
    → is_valid_integer_bits left type ≡ true
    → is_valid_integer_bits right type ≡ true
    → (binary_scalar slash type left right type ≡ (
        if abs_ℤ (value type right) == 0
        then unexpected zero_divisor
        else encode overflow type (quotient (value type left) (value type right))))
      × (binary_scalar percent type left right type ≡ (
          if abs_ℤ (value type right) == 0
          then unexpected zero_divisor
          else if is_least_by_minus_one type left right
          then unexpected overflow
          else encode overflow type (remainder (value type left) (value type right))))
division_value type left right h l r =
    (slash_value type left right h l r, percent_value type left right h l r)
