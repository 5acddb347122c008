-- ===== src/Scalar/Operations/Reduce.antt =====
-- What `binary_scalar` and `unary_scalar` (src/sema/scalar_constants.cc) come to at integer types.
use c_cloth.Base.{ℕ, ◌≡◌, refl, Bool, true, false, ◌&&◌, not, Option, some, none, arith}
use c_cloth.Token.{TokenKind}
use c_cloth.Numeric.{
  TypeKind, bool, is_integer_type, is_valid_integer_bits, same_kind, same_kind_self,
  numeric_type_properties, error, is_numeric_type, NumericTypeProperties, with_properties,
  is_floating_category,
}
use c_cloth.Scalar.Compare.{is_comparison}
use c_cloth.Scalar.Float.{floating}
use c_cloth.Scalar.Operations.{
  compare_scalars, integer_binary, is_valid_scalar_bits, binary_scalar, unary_scalar, unary_valid,
  shift_scalar, is_shift, is_logical,
}

pub floating-integer : (type : TypeKind) → is_integer_type type ≡ true → floating type ≡ false
unfolding is_integer_type numeric_type_properties floating
floating-integer error h = cc
floating-integer _ h = ground arith

pub integer-numeric : (type : TypeKind) → is_integer_type type ≡ true → is_numeric_type type ≡ true
unfolding is_integer_type is_numeric_type
integer-numeric type h = cases (numeric_type_properties type) h
  where
    cases :
        (p : Option NumericTypeProperties)
        → with_properties (λ p. not (is_floating_category p.category)) false p ≡ true
        → (elim p [ some q ↦ true | none ↦ false ]) ≡ true
    cases (some p) e = refl
    cases none e = e

pub valid-integer :
    (type : TypeKind) (bits : ℕ)
    → is_integer_type type ≡ true
    → is_valid_scalar_bits type bits ≡ is_valid_integer_bits bits type
unfolding is_valid_scalar_bits
valid-integer type bits h = rw h

pub unary_scalar-integer :
    (operation : TokenKind) (type : TypeKind) (bits : ℕ)
    → is_integer_type type ≡ true
    → is_valid_integer_bits bits type ≡ true
    → unary_scalar operation type bits ≡ unary_valid operation type bits
unfolding unary_scalar
unary_scalar-integer operation type bits h v = rw (valid-integer type bits h) (rw v)

and-false : (b : Bool) → (b && false) ≡ false
and-false true = refl
and-false false = refl

module _ (operation : TokenKind) (type : TypeKind) (left right : ℕ)
    (h : is_integer_type type ≡ true) (l : is_valid_integer_bits left type ≡ true) where
  pub binary_scalar-arithmetic :
      is_shift operation ≡ false
      → is_logical operation ≡ false
      → is_comparison operation ≡ false
      → is_valid_integer_bits right type ≡ true
      → binary_scalar operation type left right type ≡ integer_binary operation type left right
  unfolding binary_scalar
  binary_scalar-arithmetic s g c r =
      rw (valid-integer type left h, valid-integer type right h)
        (rw (l, r, s, same_kind_self type, floating-integer type h)
          (rw (g, and-false (same_kind type bool)) (rw (c, h))))

  pub binary_scalar-comparison :
      is_shift operation ≡ false
      → is_logical operation ≡ false
      → is_comparison operation ≡ true
      → is_valid_integer_bits right type ≡ true
      → binary_scalar operation type left right type ≡ compare_scalars operation type left right
  unfolding binary_scalar
  binary_scalar-comparison s g c r =
      rw (valid-integer type left h, valid-integer type right h)
        (rw (l, r, s, same_kind_self type, floating-integer type h)
          (rw (g, and-false (same_kind type bool)) (rw c)))

  pub binary_scalar-shift :
      (right_type : TypeKind)
      → is_shift operation ≡ true
      → is_integer_type right_type ≡ true
      → is_valid_integer_bits right right_type ≡ true
      → binary_scalar operation type left right right_type
        ≡ shift_scalar operation type left right right_type
  unfolding binary_scalar
  binary_scalar-shift right_type s k r =
      rw (valid-integer type left h, valid-integer right_type right k) (rw (l, r) (rw s))
