-- ===== src/Scalar/Conversions/Exact.antt =====
-- The conversions between integer types (src/sema/scalar_constants.cc) against the integers.
use c_cloth.Base.{
  ℕ, ◌^◌, ◌<◌, ◌≡◌, refl, ap, sym, Bool, true, Bool-cases, inl, inr, arith, if◌then◌else◌,
}
use c_cloth.Base.Int.{mod_ℤ, ℤ, ltb_ℤ}
use c_cloth.Numeric.{TypeKind, is_integer_type, is_valid_integer_bits, same_kind, same_kind→eq}
use c_cloth.Numeric.Values.{
  Width, w8, shape, integer_shape, min_of, max_of, value, min_value, max_value, min_value-shape,
  max_value-shape,
}
use c_cloth.Scalar.{ok, out_of_range}
use c_cloth.Scalar.Integer.{Integer, integer, properties_of}
use c_cloth.Scalar.Integer.Exact.{
  to_ℤ, encode, encode_with, encode_iff, integer_value, integer_bits_value, properties_of-shape,
}
use c_cloth.Scalar.Operations.Reduce.{valid-integer, floating-integer, integer-numeric}
use c_cloth.Scalar.Conversions.{convert_scalar, convert_integer_mode, convert_mode, wrap, sat}

-- A valid constant of an integer type converts to another integer type exactly where that type holds
-- its integer, and to the constant of the same integer.
pub convert_scalar_value :
    (source target : TypeKind) (bits : ℕ)
    → is_integer_type source ≡ true
    → is_integer_type target ≡ true
    → is_valid_integer_bits bits source ≡ true
    → convert_scalar bits source target ≡ encode out_of_range target (value source bits)
unfolding convert_scalar
convert_scalar_value source target bits hs ht v = elim (Bool-cases (same_kind source target)) [
  | inl e ↦ rw (valid-integer source bits hs) (
      rw (v, e)
        (sym (
          (encode_iff out_of_range target (value source bits) bits ht).1
            (rw (← same_kind→eq source target e) (v, refl)))))
  | inr e ↦
      let a = integer_value bits source hs v in
      rw (valid-integer source bits hs) (
        rw (v, e)
          (rw
            (
              integer-numeric source hs,
              integer-numeric target ht,
              floating-integer source hs,
              floating-integer target ht,
            )
            (rw (← a.0) (integer_bits_value (integer bits source) target ht a.1))))
]

-- The nearest integer between two.
abbrev pub clamp_ℤ : ℤ → ℤ → ℤ → ℤ
clamp_ℤ low high z = if ltb_ℤ z low then low else if ltb_ℤ high z then high else z

convert_mode-wrap :
    (s : Bool) (w : Width) (v : Integer)
    → v.magnitude < 2 ^ 64
    → convert_mode v (shape s w) wrap ≡ mod_ℤ (to_ℤ v) (2 ^ (shape s w).bit_width)
unfolding convert_mode
convert_mode-wrap true w8 v h = ground arith
convert_mode-wrap _ w v h = ground arith

convert_mode-sat :
    (s : Bool) (w : Width) (v : Integer)
    → v.magnitude < 2 ^ 64
    → encode_with out_of_range
        (shape s w)
        (clamp_ℤ (min_of (shape s w)) (max_of (shape s w)) (to_ℤ v))
      ≡ ok (convert_mode v (shape s w) sat)
unfolding convert_mode
convert_mode-sat true w8 v h = ground arith
convert_mode-sat _ w v h = ground arith

module _ (source target : TypeKind) (bits : ℕ) (hs : is_integer_type source ≡ true)
    (ht : is_integer_type target ≡ true) (v : is_valid_integer_bits bits source ≡ true) where
  wrap_value :
      convert_integer_mode bits source target wrap
      ≡ ok (mod_ℤ (value source bits) (2 ^ (properties_of target).bit_width))
  unfolding convert_integer_mode
  wrap_value =
      let s = integer_shape target ht in
      let a = integer_value bits source hs v in
      rw (v, ht)
        (rw (← a.0) (
          ap ok (
            rw (properties_of-shape s)
              (convert_mode-wrap s.signed s.width (integer bits source) a.1))))

  sat_value :
      convert_integer_mode bits source target sat
      ≡ encode out_of_range target
          (clamp_ℤ (min_value target) (max_value target) (value source bits))
  unfolding convert_integer_mode encode
  sat_value =
      let s = integer_shape target ht in
      let a = integer_value bits source hs v in
      rw (v, ht)
        (rw (properties_of-shape s, min_value-shape s, max_value-shape s)
          (rw (← a.0) (sym (convert_mode-sat s.signed s.width (integer bits source) a.1))))

-- The wrapping conversion keeps the integer modulo 2^w for a target of w bits, and the saturating
-- one takes the nearest integer of the target; neither fails.
pub convert_integer_mode_value :
    (source target : TypeKind) (bits : ℕ)
    → is_integer_type source ≡ true
    → is_integer_type target ≡ true
    → is_valid_integer_bits bits source ≡ true
    → (convert_integer_mode bits source target wrap
        ≡ ok (mod_ℤ (value source bits) (2 ^ (properties_of target).bit_width)))
      × (convert_integer_mode bits source target sat
          ≡ encode out_of_range target
              (clamp_ℤ (min_value target) (max_value target) (value source bits)))
      × ((result : ℕ) × (convert_integer_mode bits source target sat ≡ ok result))
convert_integer_mode_value source target bits hs ht v = (
  wrap_value source target bits hs ht v,
  sat_value source target bits hs ht v,
  (
    convert_mode (integer bits source) (properties_of target) sat,
    unfold convert_integer_mode in rw (v, ht) refl,
  ),
)
