-- ===== src/Scalar/Operations/Comparisons.antt =====
-- The comparisons of `binary_scalar` (src/sema/scalar_constants.cc) on integers.
use Prim.Native.Nat.{Ordering, lt, eq, gt, compare}
use c_cloth.Base.{
  ℕ, ◌+◌, ◌^◌, ◌<◌, ◌≡◌, ◌≢◌, ◌↔◌, ◌≤◌, refl, ◌∙◌, Bool, true, false, not, arith, if◌then◌else◌,
}
use c_cloth.Base.Int.{ℤ, pos_part, neg_part, ◌≤ℤ◌, ◌<ℤ◌, eq_of_parts}
use c_cloth.Token.{TokenKind, less, less_equal, greater, greater_equal, equal_equal, bang_equal}
use c_cloth.Numeric.{TypeKind, is_integer_type, is_valid_integer_bits}
use c_cloth.Numeric.Values.{
  value, value_of, Width, w8, width_bits, shape, integer_shape, value-shape,
}
use c_cloth.Scalar.{ok}
use c_cloth.Scalar.Integer.{integer, integer_with}
use c_cloth.Scalar.Compare.{is_comparison, same_bool, bit_of, comparison}
use c_cloth.Scalar.Integer.Exact.{valid-lt, properties_of-shape}
use c_cloth.Scalar.Operations.{binary_scalar, compare_scalars, scalar_order, is_shift, is_logical}
use c_cloth.Scalar.Operations.Reduce.{binary_scalar-comparison, integer-numeric}

abbrev pub compare_ℤ : ℤ → ℤ → Ordering
compare_ℤ a b = compare (pos_part a + neg_part b) (pos_part b + neg_part a)

order_with :
    (s : Bool) (w : Width) (left right : ℕ)
    → left < 2 ^ width_bits w
    → right < 2 ^ width_bits w
    → let p = shape s w in
      let a = (integer_with p left).negative in
      (if not (same_bool a (integer_with p right).negative)
        then (if a then lt else gt)
        else compare left right)
      ≡ compare_ℤ (value_of p left) (value_of p right)
unfolding integer_with
order_with true w8 left right hl hr = ground arith
order_with _ w left right hl hr = ground arith

scalar_order_value :
    (type : TypeKind) (left right : ℕ)
    → is_integer_type type ≡ true
    → is_valid_integer_bits left type ≡ true
    → is_valid_integer_bits right type ≡ true
    → scalar_order type left right ≡ compare_ℤ (value type left) (value type right)
unfolding scalar_order integer
scalar_order_value type left right h l r =
    let s = integer_shape type h in
    rw (h, properties_of-shape s, value-shape s left, value-shape s right)
      (order_with s.signed s.width left right (valid-lt s left l) (valid-lt s right r))

comparison-other :
    (operation : TokenKind)
    → is_comparison operation ≡ true
    → (is_shift operation ≡ false) × (is_logical operation ≡ false)
unfolding is_comparison
comparison-other operation c = ground arith

-- The six comparisons, apart from the tokens that name them.
pub data Comparison : Type 0 where
  below at_most above at_least same different : Comparison

abbrev pub operator_of : Comparison → TokenKind
operator_of below = less
operator_of at_most = less_equal
operator_of above = greater
operator_of at_least = greater_equal
operator_of same = equal_equal
operator_of different = bang_equal

-- What a comparison says of two integers.
abbrev pub Holds : Comparison → ℤ → ℤ → Type 0
Holds below a b = a <ℤ b
Holds at_most a b = a ≤ℤ b
Holds above a b = b <ℤ a
Holds at_least a b = b ≤ℤ a
Holds same a b = a ≡ b
Holds different a b = a ≢ b

compare_ℤ-eq : (a b : ℤ) → (compare_ℤ a b ≡ eq) ↔ (a ≡ b)
compare_ℤ-eq a b = (λ h. eq_of_parts a b (ground arith), λ h. rw h (ground arith))

comparison-eq :
    (x : Ordering)
    → ((comparison equal_equal x ≡ true) ↔ (x ≡ eq)) × ((comparison bang_equal x ≡ true) ↔ (x ≢ eq))
unfolding comparison
comparison-eq lt = ground arith
comparison-eq eq = ground arith
comparison-eq gt = ground arith

comparison-Holds :
    (o : Comparison) (a b : ℤ) → (comparison (operator_of o) (compare_ℤ a b) ≡ true) ↔ Holds o a b
unfolding comparison
comparison-Holds below a b = ground arith
comparison-Holds at_most a b = ground arith
comparison-Holds above a b = ground arith
comparison-Holds at_least a b = ground arith
comparison-Holds same a b =
    let t = (comparison-eq (compare_ℤ a b)).0 in
    let e = compare_ℤ-eq a b in (λ x. e.0 (t.0 x), λ x. t.1 (e.1 x))
comparison-Holds different a b =
    let t = (comparison-eq (compare_ℤ a b)).1 in
    let e = compare_ℤ-eq a b in (λ x y. t.0 x (e.1 y), λ x. t.1 (λ y. x (e.0 y)))

is_comparison-operator_of : (o : Comparison) → is_comparison (operator_of o) ≡ true
unfolding is_comparison
is_comparison-operator_of o = ground arith

bit_of-true : (b : Bool) → (bit_of b ≤ 1) × ((bit_of b ≡ 1) ↔ (b ≡ true))
bit_of-true b = ground arith

operator_value :
    (operation : TokenKind) (type : TypeKind) (left right : ℕ)
    → is_comparison operation ≡ true
    → is_integer_type type ≡ true
    → is_valid_integer_bits left type ≡ true
    → is_valid_integer_bits right type ≡ true
    → binary_scalar operation type left right type
      ≡ ok (bit_of (comparison operation (compare_ℤ (value type left) (value type right))))
unfolding compare_scalars
operator_value operation type left right c h l r =
    binary_scalar-comparison operation type left right h l (comparison-other operation c).0
      (comparison-other operation c).1 c r
    ∙ rw (integer-numeric type h, scalar_order_value type left right h l r) refl

-- A comparison operator on two valid constants of an integer type gives 1 where it holds of their
-- integers, and 0 elsewhere.
pub comparison_value :
    (o : Comparison) (type : TypeKind) (left right : ℕ)
    → is_integer_type type ≡ true
    → is_valid_integer_bits left type ≡ true
    → is_valid_integer_bits right type ≡ true
    → (bits : ℕ) × (binary_scalar (operator_of o) type left right type ≡ ok bits)
      × (bits ≤ 1)
      × ((bits ≡ 1) ↔ Holds o (value type left) (value type right))
comparison_value o type left right h l r =
    let a = value type left in
    let b = value type right in
    let bit = comparison (operator_of o) (compare_ℤ a b) in
    let e = operator_value (operator_of o) type left right (is_comparison-operator_of o) h l r in
    let t = bit_of-true bit in
    let k = comparison-Holds o a b in (bit_of bit, e, t.0, (λ x. k.0 (t.1.0 x), λ x. t.1.1 (k.1 x)))
