-- ===== src/Scalar/Operations/Shifts.antt =====
-- The shifts of `binary_scalar` (src/sema/scalar_constants.cc) on integers.
use Prim.Native.Nat.{bit_or, bit_xor}
use c_cloth.Base.{
  ℕ, ◌-◌, ◌^◌, ◌<◌, ◌≡◌, refl, ap, ◌∙◌, sym, Bool, true, false, ltb, leb, ◌==◌, ◌/=◌, ◌&&◌, ◌||◌,
  arith, if◌then◌else◌, Bool-cases, inl, inr,
}
use c_cloth.Base.Words.{shr, shl64, low_bits}
use c_cloth.Base.Int.{ℤ, mod_ℤ, floor_div, ◌*ℤ◌, pos, pos_part, ltb_ℤ}
use c_cloth.Numeric.Values.{
  Width, w8, width_bits, shape, integer_shape, value, value-shape, is_valid_integer_bits-shape,
}
use c_cloth.Numeric.{NumericTypeProperties}
use c_cloth.Numeric.{TypeKind, is_integer_type, is_valid_integer_bits}
use c_cloth.Token.{shift_left, shift_right}
use c_cloth.Scalar.{ConstantBits, ok, unexpected, invalid_shift, overflow}
use c_cloth.Scalar.Integer.{Integer, integer, properties_of, mask, integer_with}
use c_cloth.Scalar.Integer.Exact.{
  to_ℤ, encode, encode_iff, integer_value, valid-lt, properties_of-shape,
}
use c_cloth.Scalar.Operations.{binary_scalar, shift_scalar}
use c_cloth.Scalar.Operations.Reduce.{binary_scalar-shift}
use c_cloth.Scalar.Operations.ShiftPatterns.{shifted, shifted_value, left_value}

-- The checks of a shift count, and the result for a count that passes them.
abbrev pub checked_count : ℕ → ℤ → ConstantBits → ConstantBits
checked_count width count result =
    if ltb_ℤ count (pos 0) || leb width (pos_part count) then unexpected invalid_shift else result

count_test :
    (width : ℕ) (v : Integer) (z : ℤ)
    → to_ℤ v ≡ z
    → (v.negative && v.magnitude == 0) ≡ false
    → ((v.negative || leb width v.magnitude) ≡ (ltb_ℤ z (pos 0) || leb width (pos_part z)))
count_test width v z e n = ground arith

count_value : (v : Integer) (z : ℤ) → to_ℤ v ≡ z → v.negative ≡ false → v.magnitude ≡ pos_part z
count_value v z e n = ground arith

-- A negative integer is not zero.
not_negative_zero :
    (s : Bool) (w : Width) (bits : ℕ)
    → bits < 2 ^ width_bits w
    → ((integer_with (shape s w) bits).negative && (integer_with (shape s w) bits).magnitude == 0)
      ≡ false
unfolding integer_with
not_negative_zero true w8 bits h = ground arith
not_negative_zero _ w bits h = ground arith

checked_count_value :
    (width : ℕ) (v : Integer) (z : ℤ) (f : ℕ → ConstantBits)
    → to_ℤ v ≡ z
    → (v.negative && v.magnitude == 0) ≡ false
    → (if v.negative || leb width v.magnitude then unexpected invalid_shift else f v.magnitude)
      ≡ checked_count width z (f (pos_part z))
checked_count_value width v z f e n =
    rw (← count_test width v z e n)
      (elim (Bool-cases v.negative) [ inl b ↦ rw b refl | inr b ↦ rw (count_value v z e b) refl ])

-- Two results under the check are equal where they are for every count that passes.
checked_count_ap :
    (width : ℕ) (z : ℤ) (x y : ConstantBits)
    → (pos_part z < width → x ≡ y)
    → checked_count width z x ≡ checked_count width z y
checked_count_ap width z x y f = elim (Bool-cases (ltb_ℤ z (pos 0) || leb width (pos_part z))) [
  | inl b ↦ rw b refl
  | inr b ↦ rw b (f (passes width z b))
]
  where
    passes :
        (width : ℕ) (z : ℤ)
        → (ltb_ℤ z (pos 0) || leb width (pos_part z)) ≡ false
        → pos_part z < width
    passes width z b = ground arith

ok_if : (b : Bool) (x y : ℕ) → (if b then ok x else ok y) ≡ ok (if b then x else y)
ok_if true x y = refl
ok_if false x y = refl

ltb-true : (a b : ℕ) → a < b → ltb a b ≡ true
ltb-true a b h = ground arith

-- What `shift_scalar` computes for a right shift by a count that it accepts.
abbrev right_result : NumericTypeProperties → ℕ → ℕ → ConstantBits
right_result p left k =
    if k /= 0 && (integer_with p left).negative
    then ok (bit_or (shr left k) (bit_xor (mask p.bit_width) (mask (p.bit_width - k))))
    else ok (shr left k)

right_result-shifted :
    (p : NumericTypeProperties) (left k : ℕ) → right_result p left k ≡ ok (shifted p left k)
right_result-shifted p left k = ok_if (k /= 0 && (integer_with p left).negative) _ _

module _ (type right_type : TypeKind) (left right : ℕ) (h : is_integer_type type ≡ true)
    (hr : is_integer_type right_type ≡ true) (l : is_valid_integer_bits left type ≡ true)
    (r : is_valid_integer_bits right right_type ≡ true) where
  count_not_negative_zero :
      ((integer right right_type).negative && (integer right right_type).magnitude == 0) ≡ false
  unfolding integer
  count_not_negative_zero =
      let s = integer_shape right_type hr in
      rw (properties_of-shape s) (not_negative_zero s.signed s.width right (valid-lt s right r))

  encoded_shift :
      (k : ℕ)
      → k < (properties_of type).bit_width
      → ok (shifted (properties_of type) left k)
        ≡ encode overflow type (floor_div (value type left) (2 ^ k))
  encoded_shift k less =
      let s = integer_shape type h in
      let p = properties_of-shape s in
      let v =
        shifted_value s.signed s.width left k (valid-lt s left l)
          (bits_below s.signed s.width k (rw p at less)) in
      sym (
        (encode_iff overflow type _ _ h).1 (
          rw (p, is_valid_integer_bits-shape s _) (ltb-true _ _ v.0),
          rw (p, value-shape s _, value-shape s left) v.1,
        ))
    where
      bits_below : (s : Bool) (w : Width) (k : ℕ) → k < (shape s w).bit_width → k < width_bits w
      bits_below true w k h = h
      bits_below false w k h = h

  shift_right_value :
      binary_scalar shift_right type left right right_type
      ≡ checked_count (properties_of type).bit_width (value right_type right) (
          encode overflow type
            (floor_div (value type left) (2 ^ pos_part (value right_type right))))
  unfolding shift_scalar integer
  shift_right_value =
      let a = integer_value right right_type hr r in
      let z = value right_type right in
      binary_scalar-shift shift_right type left right h l right_type refl hr r
      ∙ rw (h, hr)
          (checked_count_value (properties_of type).bit_width (integer right right_type) z
            (right_result (properties_of type) left) a.0 count_not_negative_zero)
      ∙ checked_count_ap (properties_of type).bit_width z _ _ (λ less.
        right_result-shifted (properties_of type) left (pos_part z)
        ∙ encoded_shift (pos_part z) less)

  left_pattern :
      (k : ℕ)
      → low_bits (shl64 left k) (properties_of type).bit_width
        ≡ mod_ℤ (value type left *ℤ pos (2 ^ k)) (2 ^ (properties_of type).bit_width)
  left_pattern k =
      let s = integer_shape type h in
      rw (properties_of-shape s, value-shape s left)
        (left_value s.signed s.width left k (valid-lt s left l))

  shift_left_value :
      binary_scalar shift_left type left right right_type
      ≡ checked_count (properties_of type).bit_width (value right_type right) (
          ok (
            mod_ℤ
              (value type left *ℤ pos (2 ^ pos_part (value right_type right)))
              (2 ^ (properties_of type).bit_width)))
  unfolding shift_scalar
  shift_left_value =
      let a = integer_value right right_type hr r in
      let z = value right_type right in
      binary_scalar-shift shift_left type left right h l right_type refl hr r
      ∙ rw (h, hr)
          (checked_count_value (properties_of type).bit_width (integer right right_type) z
            (λ k. ok (low_bits (shl64 left k) (properties_of type).bit_width)) a.0
            count_not_negative_zero)
      ∙ ap (λ n. checked_count (properties_of type).bit_width z (ok n)) (left_pattern (pos_part z))

-- The shifts of a valid constant of an integer type by one of an integer type report a count that is
-- negative or not below the width. For any other count `<<` gives the product with that power of two,
-- modulo 2 to the width, and `>>` the constant of the quotient by it, cut towards minus infinity.
pub shift_scalar_value :
    (type right_type : TypeKind) (left right : ℕ)
    → is_integer_type type ≡ true
    → is_integer_type right_type ≡ true
    → is_valid_integer_bits left type ≡ true
    → is_valid_integer_bits right right_type ≡ true
    → (binary_scalar shift_left type left right right_type
        ≡ checked_count (properties_of type).bit_width (value right_type right) (
            ok (
              mod_ℤ
                (value type left *ℤ pos (2 ^ pos_part (value right_type right)))
                (2 ^ (properties_of type).bit_width))))
      × (binary_scalar shift_right type left right right_type
          ≡ checked_count (properties_of type).bit_width (value right_type right) (
              encode overflow type
                (floor_div (value type left) (2 ^ pos_part (value right_type right)))))
shift_scalar_value type right_type left right h hr l r = (
  shift_left_value type right_type left right h hr l r,
  shift_right_value type right_type left right h hr l r,
)
