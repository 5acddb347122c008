-- ===== src/Scalar/Operations/Computes.antt =====
-- The signs and magnitudes of `binary_scalar` (src/sema/scalar_constants.cc) against the integers: an
-- operation on signs and magnitudes either gives the integer, or finds it too large for any type.
use native.Mathlib.Nat.{div-lt_iff_lt-mul}
use c_cloth.Base.{
  ◌↔◌, sym, ℕ, ◌+◌, ◌*◌, ◌/◌, ◌^◌, ◌≤◌, ◌<◌, ◌≡◌, Bool, true, false, ltb, not, arith,
}
use c_cloth.Base.Int.{ℤ, pos_part, neg_part, ◌+ℤ◌, ◌*ℤ◌}
use c_cloth.Base.Words.{u64_max}
use c_cloth.Numeric.{TypeKind, NumericTypeProperties, is_integer_type}
use c_cloth.Numeric.Values.{Width, w8, shape, integer_shape}
use c_cloth.Scalar.{ConstantError, Expected, ok, unexpected, ◌>>=◌, out_of_range, overflow}
use c_cloth.Scalar.Compare.{same_bool}
use c_cloth.Scalar.Integer.{Integer, integer_bits, properties_of}
use c_cloth.Scalar.Integer.Exact.{
  to_ℤ, encode, encode_with, integer_bits_value, properties_of-shape,
}
use c_cloth.Scalar.Operations.{or_overflow, add_integers, multiply_integers}

-- `r` is the integer `z`, or reports an overflow of a `z` that no type holds.
abbrev pub Computes : ℤ → Expected Integer → Type 0
Computes z (ok v) = (to_ℤ v ≡ z) × (v.magnitude < 2 ^ 64)
Computes z (unexpected e) = (e ≡ overflow) × (2 ^ 64 ≤ pos_part z + neg_part z)

pub add_integers-Computes :
    (a b : Integer)
    → a.magnitude < 2 ^ 64
    → b.magnitude < 2 ^ 64
    → Computes (to_ℤ a +ℤ to_ℤ b) (add_integers a b)
unfolding add_integers ◌+ℤ◌
add_integers-Computes a b ha hb = ground arith

product_test : (m n : ℕ) → 0 < n → (ltb (u64_max / n) m ≡ true) ↔ (u64_max < m * n)
product_test m n h =
    let e = div-lt_iff_lt-mul {k = n} {x = u64_max} {y = m} h in
    (λ t. e.0 (ground arith), λ t. ground (arith, e.1 t))

-- The product of two integers, on signs and magnitudes.
pub to_ℤ-product :
    (s t : Bool) (m n : ℕ)
    → to_ℤ (record { negative = not (same_bool s t); magnitude = m * n })
      ≡ to_ℤ (record { negative = s; magnitude = m })
        *ℤ to_ℤ (record { negative = t; magnitude = n })
unfolding ◌*ℤ◌
to_ℤ-product true true m n = ground arith
to_ℤ-product true false m n = ground arith
to_ℤ-product false true m n = ground arith
to_ℤ-product false false m n = ground arith

size_product :
    (s t : Bool) (m n : ℕ)
    → let z =
        to_ℤ (record { negative = s; magnitude = m })
        *ℤ to_ℤ (record { negative = t; magnitude = n }) in
      pos_part z + neg_part z ≡ m * n
size_product s t m n = rw (← to_ℤ-product s t m n) (ground arith)

pub multiply_integers-Computes :
    (a b : Integer)
    → a.magnitude < 2 ^ 64
    → b.magnitude < 2 ^ 64
    → Computes (to_ℤ a *ℤ to_ℤ b) (multiply_integers a b)
unfolding multiply_integers ◌*ℤ◌
multiply_integers-Computes a b ha hb = ground (
  arith,
  to_ℤ-product a.negative b.negative a.magnitude b.magnitude,
  size_product a.negative b.negative a.magnitude b.magnitude,
  product_test a.magnitude b.magnitude,
)

pub or_overflow-encode :
    (p : NumericTypeProperties) (z : ℤ)
    → or_overflow (encode_with out_of_range p z) ≡ encode_with overflow p z
or_overflow-encode p z = ground arith

encode_with_large :
    (error : ConstantError) (s : Bool) (w : Width) (z : ℤ)
    → 2 ^ 64 ≤ pos_part z + neg_part z
    → encode_with error (shape s w) z ≡ unexpected error
encode_with_large error true w8 z h = ground arith
encode_with_large error _ w z h = ground arith

-- The encoding of a result, with a failure turned into an overflow.
pub encoded :
    (type : TypeKind) (z : ℤ) (r : Expected Integer)
    → is_integer_type type ≡ true
    → Computes z r
    → (r >>= λ v. or_overflow (integer_bits v type)) ≡ encode overflow type z
unfolding encode
encoded type z (ok v) h (e, small) =
    rw (integer_bits_value v type h small) (rw e (or_overflow-encode (properties_of type) z))
encoded type z (unexpected e) h (o, large) =
    let s = integer_shape type h in
    rw (o, properties_of-shape s) (sym (encode_with_large overflow s.signed s.width z large))
