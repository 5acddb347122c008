-- ===== src/Scalar/Operations/Division.antt =====
-- Division, remainder and comparison of `binary_scalar` (src/sema/scalar_constants.cc) on integers.
use native.Mathlib.Nat.{div-add-mod', mod-lt, zero-div, zero-mod}
use c_cloth.Base.{
  ℕ, ◌+◌, ◌-◌, ◌/◌, ◌%◌, ◌^◌, ◌<◌, ◌≡◌, ◌≢◌, refl, ap, ◌∙◌, sym, Bool, true, false, not, ◌==◌, ◌&&◌,
  arith, if◌then◌else◌,
}
use c_cloth.Base.Int.{ℤ, pos, negsuc, pos_part, neg_part, sub_ℕ, ◌+ℤ◌, ◌*ℤ◌, ltb_ℤ}
use c_cloth.Numeric.{TypeKind}
use c_cloth.Numeric.Values.{value, min_value, value_of, min_of, Width, w8, width_bits, shape}
use c_cloth.Base.Words.{shl64}
use c_cloth.Scalar.{unexpected, overflow}
use c_cloth.Scalar.Integer.{Integer, integer_with}
use c_cloth.Scalar.Compare.{same_bool}
use c_cloth.Scalar.Integer.Exact.{to_ℤ, encode_with}
use c_cloth.Scalar.Operations.Computes.{to_ℤ-product}

abbrev pub abs_ℤ : ℤ → ℕ
abs_ℤ z = pos_part z + neg_part z

abbrev negative_ℤ : ℤ → Bool
negative_ℤ z = ltb_ℤ z (pos 0)

abbrev signed : Bool → ℕ → ℤ
signed s m = if s then sub_ℕ 0 m else pos m

-- The quotient, cut towards zero, and the remainder, which has the sign of the dividend.
unfoldable pub quotient : ℤ → ℤ → ℤ
quotient a b = signed (not (same_bool (negative_ℤ a) (negative_ℤ b))) (abs_ℤ a / abs_ℤ b)

unfoldable pub remainder : ℤ → ℤ → ℤ
remainder a b = signed (negative_ℤ a) (abs_ℤ a % abs_ℤ b)

signed_parts : (z : ℤ) → signed (negative_ℤ z) (abs_ℤ z) ≡ z
signed_parts z = ground arith

sum_of_parts : (s : Bool) (m n : ℕ) → signed s m +ℤ signed s n ≡ signed s (m + n)
unfolding ◌+ℤ◌
sum_of_parts true m n = ground arith
sum_of_parts false m n = ground arith

division_law :
    (s t : Bool) (m n : ℕ)
    → signed (not (same_bool s t)) (m / n) *ℤ signed t n +ℤ signed s (m % n) ≡ signed s m
division_law s t m n =
    rw (← to_ℤ-product (not (same_bool s t)) t (m / n) n, signs s t, sum_of_parts, div-add-mod')
      refl
  where
    signs : (s t : Bool) → not (same_bool (not (same_bool s t)) t) ≡ s
    signs s t = ground arith

-- They are those of the division of integers.
pub quotient-remainder :
    (a b : ℤ)
    → b ≢ pos 0
    → (quotient a b *ℤ b +ℤ remainder a b ≡ a) × (abs_ℤ (remainder a b) < abs_ℤ b)
unfolding quotient remainder
quotient-remainder a b h = (
  rw (ap (λ x. quotient a b *ℤ x +ℤ remainder a b) (sym (signed_parts b)))
      (division_law (negative_ℤ a) (negative_ℤ b) (abs_ℤ a) (abs_ℤ b) ∙ signed_parts a),
  ground (arith, mod-lt (abs_ℤ a) {m = abs_ℤ b} (positive b h)),
)
  where
    positive : (z : ℤ) → z ≢ pos 0 → 0 < abs_ℤ z
    positive z ne = ground arith

-- On integers as signs and magnitudes; the sign of a zero does not matter.
pub quotient_value :
    (a b : Integer)
    → 0 < b.magnitude
    → to_ℤ (record {
      negative = not (same_bool a.negative b.negative);
      magnitude = a.magnitude / b.magnitude;
    })
      ≡ quotient (to_ℤ a) (to_ℤ b)
unfolding quotient
quotient_value a b h = ground (arith, zero-div b.magnitude)

pub remainder_value :
    (a b : Integer)
    → to_ℤ (record { negative = a.negative; magnitude = a.magnitude % b.magnitude })
      ≡ remainder (to_ℤ a) (to_ℤ b)
unfolding remainder
remainder_value a b = ground (arith, zero-mod b.magnitude)

abbrev pub eq_ℤ : ℤ → ℤ → Bool
eq_ℤ a b = pos_part a + neg_part b == pos_part b + neg_part a

-- The least integer of a type divided by minus one.
abbrev pub is_least_by_minus_one : TypeKind → ℕ → ℕ → Bool
is_least_by_minus_one type left right =
    eq_ℤ (value type left) (min_value type) && eq_ℤ (value type right) (negsuc 0)

pub least_test :
    (s : Bool) (w : Width) (left right : ℕ)
    → left < 2 ^ width_bits w
    → right < 2 ^ width_bits w
    → let p = shape s w in
      let a = integer_with p left in
      let b = integer_with p right in
      (a.negative && a.magnitude == shl64 1 (p.bit_width - 1) && b.negative && b.magnitude == 1)
      ≡ (eq_ℤ (value_of p left) (min_of p) && eq_ℤ (value_of p right) (negsuc 0))
unfolding integer_with
least_test true w8 left right hl hr = ground arith
least_test _ w left right hl hr = ground arith

pub least_quotient :
    (s : Bool) (w : Width) (left right : ℕ)
    → (eq_ℤ (value_of (shape s w) left) (min_of (shape s w))
        && eq_ℤ (value_of (shape s w) right) (negsuc 0))
      ≡ true
    → encode_with overflow
        (shape s w)
        (quotient (value_of (shape s w) left) (value_of (shape s w) right))
      ≡ unexpected overflow
unfolding quotient
least_quotient true w8 left right h = ground arith
least_quotient _ w left right h = ground arith

pub zero_test : (x : ℤ) (v : Integer) → to_ℤ v ≡ x → (v.magnitude == 0) ≡ (abs_ℤ x == 0)
zero_test x v e = ground arith
