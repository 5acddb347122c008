-- ===== src/Scalar/Literals.antt =====
-- The literals of src/sema/scalar_constants.cc: their constants, and the decimal text of an integer.
pub mod Exact
use c_cloth.Base.{
  ℕ, zero, suc, ◌+◌, ◌-◌, ◌*◌, ◌/◌, ◌%◌, ◌^◌, min, Bool, true, false, not, ◌&&◌, ◌||◌, ◌==◌, ◌/=◌,
  leb, ltb, List, [], ◌∷◌, ◌++◌, length, if◌then◌else◌,
}
use Prim.Native.Nat.{Ordering, lt, eq, gt}
use c_cloth.Base.Int.{ℤ, pos, negsuc, ◌+ℤ◌, ◌-ℤ◌, ltb_ℤ}
use c_cloth.Base.Words.{low_bits, test_bit, shr, shl64, neg64, u64_max}
use c_cloth.Base.Text.{Bytes, codes, text_eq, to_string}
use c_cloth.Token.{TokenKind, minus}
use c_cloth.Numeric.{
  TypeKind, bool, char, float32, float64, NumericTypeProperties, same_kind, is_integer_type,
  is_numeric_type, is_valid_integer_bits, is_signed_category, is_unsigned_category,
}
use c_cloth.Literal.{TextLiteralError, TextLiteralKind, DecodedTextLiteral}
use c_cloth.Literal.Digits.{is_decimal_digit}
use c_cloth.Literal.Text.{decode_text_literal}
use c_cloth.Scalar.{
  ConstantBits, Expected, ok, unexpected, ◌>>=◌, invalid_literal, out_of_range, invalid_operation,
}
use c_cloth.Scalar.Natural.{Words, from_u64, is_zero, width, low}
use c_cloth.Scalar.Float.{Finite, floating, unpack, scaled_compare, pack}
use c_cloth.Scalar.Integer.{Integer, integer_bits, integer_with, properties_of, mask}
use c_cloth.Scalar.Operations.{is_valid_scalar_bits, unary_scalar}
use c_cloth.Scalar.Decimal.{decimal_float}
use c_cloth.Scalar.Conversions.{convert_scalar}

-- `LiteralKind` (include/cloth/ast/ast.h).
pub data LiteralKind : Type 0 where
  integer float string character boolean null enum : LiteralKind

-- The loop over the digits of an integer literal.
unfoldable pub literal_magnitude : ℕ → Bytes → Expected ℕ
literal_magnitude magnitude [] = ok magnitude
literal_magnitude magnitude (c ∷ text) =
    let digit = c - b'0' in
    let rest = literal_magnitude (magnitude * 10 + digit) text in
    if not (is_decimal_digit c)
    then unexpected invalid_literal
    else if ltb ((u64_max - digit) / 10) magnitude
    then unexpected out_of_range
    else rest

-- The magnitude and the sign of an integer literal as a constant of a numeric type.
unfoldable pub integer_literal : Bytes → Bool → TypeKind → ConstantBits
unfolding literal_magnitude floating pack from_u64 integer_bits
integer_literal text negative target = literal_magnitude 0 text >>= λ magnitude.
    if floating target
    then pack negative (from_u64 magnitude) (from_u64 1) (pos 0) target false
    else integer_bits (record { negative = negative; magnitude = magnitude }) target

unfoldable pub float_literal : Bytes → Bool → TypeKind → ConstantBits
unfolding floating decimal_float convert_scalar
float_literal text negative target =
    if floating target
    then decimal_float text negative target
    else decimal_float text negative float64 >>= λ value. convert_scalar value float64 target

-- `scalar_literal` past the literals of truth values and characters, with the sign of the text read.
unfoldable pub unsigned_literal : LiteralKind → Bytes → TypeKind → Bool → ConstantBits
unfolding float_literal integer_literal is_numeric_type
unsigned_literal literal [] target negative = unexpected invalid_literal
unsigned_literal LiteralKind.float (c ∷ text) target negative =
    if is_numeric_type target
    then float_literal (c ∷ text) negative target
    else unexpected invalid_literal
unsigned_literal LiteralKind.integer (c ∷ text) target negative =
    if is_numeric_type target
    then integer_literal (c ∷ text) negative target
    else unexpected invalid_literal
unsigned_literal _ (c ∷ text) target negative = unexpected invalid_literal

unfoldable pub numeric_literal : LiteralKind → Bytes → TypeKind → Bool → ConstantBits
unfolding unsigned_literal
numeric_literal literal [] target negative = unexpected invalid_literal
numeric_literal literal (c ∷ text) target negative =
    if c == b'-'
    then unsigned_literal literal text target (not negative)
    else unsigned_literal literal (c ∷ text) target negative

-- The value of a character literal, which has no error.
character_literal : DecodedTextLiteral → ConstantBits
character_literal decoded = elim decoded.error [
  | TextLiteralError.no_error ↦ ok decoded.character
  | _ ↦ unexpected invalid_literal
]

abbrev is_boolean : LiteralKind → Bool
is_boolean LiteralKind.boolean = true
is_boolean _ = false

abbrev is_character : LiteralKind → Bool
is_character LiteralKind.character = true
is_character _ = false

unfoldable pub scalar_literal : LiteralKind → Bytes → TypeKind → Bool → ConstantBits
unfolding text_eq character_literal decode_text_literal numeric_literal
scalar_literal literal text target negative =
    let truth_value = is_boolean literal && same_kind target bool in
    if length text == 0 || ltb 4096 (length text)
    then unexpected invalid_literal
    else if truth_value && text_eq text (codes "true")
    then ok 1
    else if truth_value && text_eq text (codes "false")
    then ok 0
    else if is_character literal && same_kind target char
    then character_literal (decode_text_literal text TextLiteralKind.character)
    else numeric_literal literal text target negative

abbrev is_minus : TokenKind → Bool
is_minus minus = true
is_minus _ = false

-- The last sign goes into the literal; those before it are applied from the last to the first.
unfoldable pub scalar_signed_literal :
    LiteralKind → Bytes → TypeKind → List TokenKind → ConstantBits
unfolding scalar_literal unary_scalar
scalar_signed_literal literal text target [] = scalar_literal literal text target false
scalar_signed_literal literal text target (sign ∷ []) =
    scalar_literal literal text target (is_minus sign)
scalar_signed_literal literal text target (sign ∷ next ∷ signs) =
    scalar_signed_literal literal text target (next ∷ signs) >>= unary_scalar sign target

-- A sign and the decimal digits of a magnitude.
unfoldable pub signed_text : Bool → ℕ → Bytes
unfolding to_string
signed_text negative magnitude =
    if negative then b'-' ∷ to_string magnitude else to_string magnitude

-- `scalar_integer_decimal`; the empty text for what is no constant of an integer type.
unfoldable pub scalar_integer_decimal : TypeKind → ℕ → Bytes
unfolding is_valid_integer_bits signed_text
scalar_integer_decimal type bits =
    let p = properties_of type in
    let negative = is_signed_category p.category && test_bit bits (p.bit_width - 1) in
    let magnitude =
      if not negative
      then bits
      else if p.bit_width == 64
      then neg64 bits
      else shl64 1 p.bit_width - bits in
    if not (is_valid_integer_bits bits type) then [] else signed_text negative magnitude
