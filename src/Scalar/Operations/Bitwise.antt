-- ===== src/Scalar/Operations/Bitwise.antt =====
-- The operators `&`, `|` and `^` of `binary_scalar` (src/sema/scalar_constants.cc) on integers.
use Prim.Native.Nat.{bit_and, bit_or, bit_xor}
use c_cloth.Base.{ℕ, ◌^◌, ◌<◌, ◌≡◌, refl, Bool, true, ◌&&◌, ◌||◌, arith}
use c_cloth.Base.Words.{test_bit}
use c_cloth.Base.Words.Digits.{
  xor, Digitwise, bit_and-Digitwise, bit_or-Digitwise, bit_xor-Digitwise,
}
use c_cloth.Token.{ampersand, pipe, caret}
use c_cloth.Numeric.{TypeKind, is_integer_type, is_valid_integer_bits}
use c_cloth.Numeric.Values.{width_bits, integer_shape, is_valid_integer_bits-shape}
use c_cloth.Scalar.{ok, ConstantBits}
use c_cloth.Scalar.Compare.{is_comparison}
use c_cloth.Scalar.Integer.Exact.{valid-lt}
use c_cloth.Scalar.Operations.{binary_scalar, integer_binary}
use c_cloth.Scalar.Operations.Reduce.{binary_scalar-arithmetic}

-- A constant of the type, each of whose binary digits `f` gives from those of the operands.
abbrev pub CombinesBits : (Bool → Bool → Bool) → TypeKind → ℕ → ℕ → ConstantBits → Type 0
CombinesBits f type left right result =
    (bits : ℕ) × (result ≡ ok bits)
    × (is_valid_integer_bits bits type ≡ true)
    × ((i : ℕ) → test_bit bits i ≡ f (test_bit left i) (test_bit right i))

module _ (type : TypeKind) (left right : ℕ) (h : is_integer_type type ≡ true)
    (l : is_valid_integer_bits left type ≡ true) (r : is_valid_integer_bits right type ≡ true) where
  abbrev bit_width : ℕ
  bit_width = width_bits (integer_shape type h).width

  left-lt : left < 2 ^ bit_width
  left-lt = valid-lt (integer_shape type h) left l

  right-lt : right < 2 ^ bit_width
  right-lt = valid-lt (integer_shape type h) right r

  combined :
      (f : Bool → Bool → Bool) (result : ConstantBits) (bits : ℕ)
      → result ≡ ok bits
      → Digitwise f bit_width left right bits
      → CombinesBits f type left right result
  combined f result bits e d = (
    bits,
    e,
    rw (is_valid_integer_bits-shape (integer_shape type h) bits) (ground (arith, d.0)),
    d.1,
  )

  ampersand_value :
      CombinesBits (λ s t. s && t) type left right (binary_scalar ampersand type left right type)
  unfolding integer_binary
  ampersand_value =
      combined (λ s t. s && t) (binary_scalar ampersand type left right type) (bit_and left right)
        (binary_scalar-arithmetic ampersand type left right h l refl refl
          (unfold is_comparison in refl) r)
        (bit_and-Digitwise bit_width left right left-lt right-lt)

  pipe_value :
      CombinesBits (λ s t. s || t) type left right (binary_scalar pipe type left right type)
  unfolding integer_binary
  pipe_value =
      combined (λ s t. s || t) (binary_scalar pipe type left right type) (bit_or left right)
        (binary_scalar-arithmetic pipe type left right h l refl refl (unfold is_comparison in refl)
          r)
        (bit_or-Digitwise bit_width left right left-lt right-lt)

  caret_value : CombinesBits xor type left right (binary_scalar caret type left right type)
  unfolding integer_binary
  caret_value =
      combined xor (binary_scalar caret type left right type) (bit_xor left right)
        (binary_scalar-arithmetic caret type left right h l refl refl (unfold is_comparison in refl)
          r)
        (bit_xor-Digitwise bit_width left right left-lt right-lt)

-- `&`, `|` and `^` on two valid constants of an integer type do not fail and give a valid constant
-- of that type, each binary digit of which is the conjunction, the disjunction or the exclusive
-- disjunction of the digits of the operands at its place.
pub bitwise_value :
    (type : TypeKind) (left right : ℕ)
    → is_integer_type type ≡ true
    → is_valid_integer_bits left type ≡ true
    → is_valid_integer_bits right type ≡ true
    → CombinesBits (λ s t. s && t) type left right (binary_scalar ampersand type left right type)
      × CombinesBits (λ s t. s || t) type left right (binary_scalar pipe type left right type)
      × CombinesBits xor type left right (binary_scalar caret type left right type)
bitwise_value type left right h l r = (
  ampersand_value type left right h l r,
  pipe_value type left right h l r,
  caret_value type left right h l r,
)
