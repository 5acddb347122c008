-- ===== src/Scalar/Operations/Arithmetic.antt =====
-- The integer arithmetic of `binary_scalar` (src/sema/scalar_constants.cc) is that of the integers,
-- with every result outside the type reported.
use c_cloth.Base.{ℕ, ◌≡◌, refl, ◌∙◌, true, arith, not}
use c_cloth.Base.Int.{ℤ, pos, ◌+ℤ◌, ◌-ℤ◌, ◌*ℤ◌}
use c_cloth.Token.{plus, minus, star}
use c_cloth.Numeric.{TypeKind, is_integer_type, is_valid_integer_bits}
use c_cloth.Numeric.Values.{value}
use c_cloth.Scalar.{ok, overflow}
use c_cloth.Scalar.Integer.{Integer, integer}
use c_cloth.Scalar.Compare.{is_comparison}
use c_cloth.Scalar.Integer.Exact.{to_ℤ, encode, integer_value}
use c_cloth.Scalar.Operations.{
  integer_arithmetic, integer_binary, binary_scalar, unary_scalar, unary_valid,
}
use c_cloth.Scalar.Operations.Computes.{add_integers-Computes, multiply_integers-Computes, encoded}
use c_cloth.Scalar.Operations.Reduce.{
  binary_scalar-arithmetic, unary_scalar-integer, floating-integer,
}

abbrev negated : Integer → Integer
negated v = record v { negative = not v.negative }

negated_value : (x : ℤ) (v : Integer) → to_ℤ v ≡ x → to_ℤ (negated v) ≡ pos 0 -ℤ x
unfolding ◌-ℤ◌
negated_value x v e = ground arith

add_negated : (x y : ℤ) → x +ℤ (pos 0 -ℤ y) ≡ x -ℤ y
unfolding ◌-ℤ◌ ◌+ℤ◌
add_negated x y = ground arith

module _ (type : TypeKind) (left right : ℕ) (h : is_integer_type type ≡ true)
    (l : is_valid_integer_bits left type ≡ true) (r : is_valid_integer_bits right type ≡ true) where
  plus_value :
      binary_scalar plus type left right type
      ≡ encode overflow type (value type left +ℤ value type right)
  unfolding integer_binary integer_arithmetic
  plus_value =
      let a = integer_value left type h l in
      let b = integer_value right type h r in
      binary_scalar-arithmetic plus type left right h l refl refl (unfold is_comparison in refl) r
      ∙ encoded type _ _ h (
          rw (← a.0, ← b.0)
            (add_integers-Computes (integer left type) (integer right type) a.1 b.1))

  minus_value :
      binary_scalar minus type left right type
      ≡ encode overflow type (value type left -ℤ value type right)
  unfolding integer_binary integer_arithmetic
  minus_value =
      let a = integer_value left type h l in
      let b = integer_value right type h r in
      let n = negated_value (value type right) (integer right type) b.0 in
      binary_scalar-arithmetic minus type left right h l refl refl (unfold is_comparison in refl) r
      ∙ encoded type _ _ h (
          rw (← add_negated (value type left) (value type right), ← a.0, ← n)
            (add_integers-Computes (integer left type) (negated (integer right type)) a.1 b.1))

  star_value :
      binary_scalar star type left right type
      ≡ encode overflow type (value type left *ℤ value type right)
  unfolding integer_binary integer_arithmetic
  star_value =
      let a = integer_value left type h l in
      let b = integer_value right type h r in
      binary_scalar-arithmetic star type left right h l refl refl (unfold is_comparison in refl) r
      ∙ encoded type _ _ h (
          rw (← a.0, ← b.0)
            (multiply_integers-Computes (integer left type) (integer right type) a.1 b.1))

-- `+`, `-` and `*` on two valid constants of an integer type give the constant of the integer sum,
-- difference or product where the type holds it, and report an overflow where it does not.
pub arithmetic_value :
    (type : TypeKind) (left right : ℕ)
    → is_integer_type type ≡ true
    → is_valid_integer_bits left type ≡ true
    → is_valid_integer_bits right type ≡ true
    → (binary_scalar plus type left right type
        ≡ encode overflow type (value type left +ℤ value type right))
      × (binary_scalar minus type left right type
          ≡ encode overflow type (value type left -ℤ value type right))
      × (binary_scalar star type left right type
          ≡ encode overflow type (value type left *ℤ value type right))
arithmetic_value type left right h l r = (
  plus_value type left right h l r,
  minus_value type left right h l r,
  star_value type left right h l r,
)

-- The negation of a valid constant is that of its integer, and an overflow where the type does not
-- hold it.
pub minus_scalar_value :
    (type : TypeKind) (bits : ℕ)
    → is_integer_type type ≡ true
    → is_valid_integer_bits bits type ≡ true
    → unary_scalar minus type bits ≡ encode overflow type (pos 0 -ℤ value type bits)
unfolding unary_valid
minus_scalar_value type bits h v =
    let a = integer_value bits type h v in
    unary_scalar-integer minus type bits h v
    ∙ rw (floating-integer type h) (
        rw h (
          encoded type _ (ok (negated (integer bits type))) h
            (negated_value (value type bits) (integer bits type) a.0, a.1)))
