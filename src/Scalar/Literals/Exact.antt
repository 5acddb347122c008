-- ===== src/Scalar/Literals/Exact.antt =====
-- The decimal text of an integer constant, read back (src/sema/scalar_constants.cc).
use native.Mathlib.Nat.{pow-suc}
use c_cloth.Base.{
  ℕ, zero, suc, ◌+◌, ◌-◌, ◌*◌, ◌/◌, ◌%◌, ◌^◌, ◌≤◌, ◌<◌, ◌≡◌, refl, ap, ◌∙◌, Bool, true, false, not,
  ltb, ◌==◌, ◌&&◌, [], ◌∷◌, length, Bool-cases, inl, inr, arith, if◌then◌else◌,
}
use c_cloth.Base.Words.{u64_max, neg64, shl64, test_bit}
use c_cloth.Base.Text.{Bytes, to_string, to_string_loop}
use c_cloth.Literal.Digits.{is_decimal_digit}
use c_cloth.Numeric.{TypeKind, is_integer_type, is_valid_integer_bits, is_signed_category}
use c_cloth.Numeric.Values.{Width, w8, width_bits, shape, integer_shape, value}
use c_cloth.Scalar.{ok, out_of_range}
use c_cloth.Scalar.Integer.{Integer, integer, integer_with, integer_bits}
use c_cloth.Scalar.Integer.Exact.{
  encode_iff, integer_value, integer_bits_value, properties_of-shape, valid-lt,
}
use c_cloth.Scalar.Operations.Reduce.{floating-integer, integer-numeric}
use c_cloth.Scalar.Literals.{
  LiteralKind, literal_magnitude, integer_literal, unsigned_literal, numeric_literal,
  scalar_literal, scalar_integer_decimal, signed_text,
}

to_string_step :
    (fuel n : ℕ) (digits : Bytes)
    → to_string_loop (suc fuel) n digits ≡ (
        if ltb n 10
        then (b'0' + n % 10) ∷ digits
        else to_string_loop fuel (n / 10) ((b'0' + n % 10) ∷ digits))
unfolding to_string_loop
to_string_step fuel n digits = refl

magnitude_digit :
    (m d : ℕ) (digits : Bytes)
    → d < 10
    → m * 10 + d ≤ u64_max
    → literal_magnitude m ((b'0' + d) ∷ digits) ≡ literal_magnitude (m * 10 + d) digits
unfolding literal_magnitude
magnitude_digit m d digits h small = ground arith

-- Reading the digits of a number goes on from the number.
magnitude-to_string_loop :
    (fuel n : ℕ) (digits : Bytes)
    → n < 10 ^ suc fuel
    → n ≤ u64_max
    → literal_magnitude 0 (to_string_loop (suc fuel) n digits) ≡ literal_magnitude n digits
magnitude-to_string_loop zero n digits h small =
    rw (to_string_step zero n digits)
      (ground (arith, magnitude_digit 0 (n % 10) digits (omega arith) (omega arith)))
magnitude-to_string_loop (suc fuel) n digits h small =
    let more = (b'0' + n % 10) ∷ digits in
    let ih = magnitude-to_string_loop fuel (n / 10) more in
    let p = pow-suc 10 (suc fuel) in
    elim (Bool-cases (ltb n 10)) [
      | inl e ↦
          rw (to_string_step (suc fuel) n digits, e)
            (ground (arith, magnitude_digit 0 (n % 10) digits (omega arith) (omega arith)))
      | inr e ↦
          rw (to_string_step (suc fuel) n digits, e)
            (ih (omega arith) (omega arith)
              ∙ magnitude_digit (n / 10) (n % 10) digits (omega arith) (omega arith)
              ∙ ap (λ m. literal_magnitude m digits) (omega arith))
    ]

abbrev begins_with_digit : Bytes → Bool
begins_with_digit [] = false
begins_with_digit (c ∷ text) = is_decimal_digit c

to_string_loop-front :
    (fuel n : ℕ) (digits : Bytes) → begins_with_digit (to_string_loop (suc fuel) n digits) ≡ true
to_string_loop-front zero n digits = unfold to_string_loop in ground arith
to_string_loop-front (suc fuel) n digits = elim (Bool-cases (ltb n 10)) [
  | inl e ↦ rw (to_string_step (suc fuel) n digits, e) (ground arith)
  | inr e ↦
      rw (to_string_step (suc fuel) n digits, e)
        (to_string_loop-front fuel (n / 10) ((b'0' + n % 10) ∷ digits))
]

length-to_string_loop :
    (fuel n : ℕ) (digits : Bytes) → length (to_string_loop fuel n digits) ≤ fuel + length digits
unfolding to_string_loop
length-to_string_loop zero n digits = ground arith
length-to_string_loop (suc fuel) n digits =
    ground (arith, length-to_string_loop fuel (n / 10) ((b'0' + n % 10) ∷ digits))

-- Reading the text of a number gives the number.
literal_magnitude-to_string : (n : ℕ) → n ≤ u64_max → literal_magnitude 0 (to_string n) ≡ ok n
unfolding to_string
literal_magnitude-to_string n h =
    magnitude-to_string_loop 19 n [] (omega arith) h ∙ unfold literal_magnitude in refl

module _ (type : TypeKind) (h : is_integer_type type ≡ true) where
  integer_literal-to_string :
      (n : ℕ) (negative : Bool)
      → n ≤ u64_max
      → integer_literal (to_string n) negative type
        ≡ integer_bits (record { negative = negative; magnitude = n }) type
  unfolding integer_literal
  integer_literal-to_string n negative small =
      rw (literal_magnitude-to_string n small) (rw (floating-integer type h) refl)

  unsigned_literal-digits :
      (text : Bytes) (negative : Bool)
      → begins_with_digit text ≡ true
      → (unsigned_literal LiteralKind.integer text type negative
          ≡ integer_literal text negative type)
        × (numeric_literal LiteralKind.integer text type negative
            ≡ integer_literal text negative type)
  unfolding unsigned_literal numeric_literal
  unsigned_literal-digits [] negative b = cc
  unsigned_literal-digits (c ∷ text) negative b =
      let n = not_minus c b in rw (n, integer-numeric type h) (refl, refl)
    where
      not_minus : (c : ℕ) → is_decimal_digit c ≡ true → (c == b'-') ≡ false
      not_minus c b = ground arith

magnitudes :
    (s : Bool) (w : Width) (bits : ℕ)
    → bits < 2 ^ width_bits w
    → let p = shape s w in
      let negative = is_signed_category p.category && test_bit bits (p.bit_width - 1) in
      (if not negative
        then bits
        else if p.bit_width == 64
        then neg64 bits
        else shl64 1 p.bit_width - bits)
      ≡ (integer_with p bits).magnitude
unfolding integer_with
magnitudes true w8 bits h = ground arith
magnitudes _ w bits h = ground arith

decimal-integer :
    (type : TypeKind) (bits : ℕ)
    → is_integer_type type ≡ true
    → is_valid_integer_bits bits type ≡ true
    → scalar_integer_decimal type bits
      ≡ signed_text (integer bits type).negative (integer bits type).magnitude
unfolding scalar_integer_decimal integer integer_with
decimal-integer type bits h v =
    let s = integer_shape type h in
    rw v (
      rw (properties_of-shape s)
        (ap (signed_text _) (magnitudes s.signed s.width bits (valid-lt s bits v))))

literal-numeric :
    (text : Bytes) (type : TypeKind) (negative : Bool)
    → 0 < length text
    → length text ≤ 4096
    → scalar_literal LiteralKind.integer text type negative
      ≡ numeric_literal LiteralKind.integer text type negative
unfolding scalar_literal
literal-numeric text type negative lo hi =
    rw (nonempty (length text) lo, within (length text) hi) refl
  where
    nonempty : (n : ℕ) → 0 < n → (n == 0) ≡ false
    nonempty n h = ground arith

    within : (n : ℕ) → n ≤ 4096 → ltb 4096 n ≡ false
    within n h = ground arith

front-length : (text : Bytes) → begins_with_digit text ≡ true → 0 < length text
front-length [] h = cc
front-length (c ∷ text) h = omega arith

literal-signed_text :
    (v : Integer) (type : TypeKind)
    → is_integer_type type ≡ true
    → v.magnitude ≤ u64_max
    → scalar_literal LiteralKind.integer (signed_text v.negative v.magnitude) type false
      ≡ integer_bits v type
unfolding to_string numeric_literal signed_text
literal-signed_text v type h small =
    let text = to_string v.magnitude in
    let long = length-to_string_loop 20 v.magnitude [] in
    let front = to_string_loop-front 19 v.magnitude [] in
    let digits = unsigned_literal-digits type h text in
    elim (Bool-cases v.negative) [
      | inl e ↦ rw e (
          literal-numeric (b'-' ∷ text) type false (omega arith) (omega (arith, long))
          ∙ (digits true front).0
          ∙ integer_literal-to_string type h v.magnitude true small)
      | inr e ↦ rw e (
          literal-numeric text type false (front-length text front) (omega (arith, long))
          ∙ (digits false front).1
          ∙ integer_literal-to_string type h v.magnitude false small)
    ]

-- The decimal text of a valid constant of an integer type, read as an integer literal of that type,
-- is the constant.
pub literal-integer_decimal :
    (type : TypeKind) (bits : ℕ)
    → is_integer_type type ≡ true
    → is_valid_integer_bits bits type ≡ true
    → scalar_literal LiteralKind.integer (scalar_integer_decimal type bits) type false ≡ ok bits
literal-integer_decimal type bits h v =
    let a = integer_value bits type h v in
    rw (decimal-integer type bits h v) (
      literal-signed_text (integer bits type) type h (omega (arith, a.1))
      ∙ integer_bits_value (integer bits type) type h a.1
      ∙ rw a.0 ((encode_iff out_of_range type (value type bits) bits h).1 (v, refl)))
