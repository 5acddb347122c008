-- ===== src/Scalar/Operations.antt =====
-- The operations of src/sema/scalar_constants.cc on scalar constants: validity, comparison,
-- arithmetic, shifts and the conversions between types.
mod Computes
pub mod Reduce
pub mod Arithmetic
pub mod Division
pub mod Quotients
pub mod Comparisons
pub mod Complement
pub mod Bitwise
pub mod ShiftPatterns
pub mod Shifts
use Prim.Native.Nat.{compare, Ordering, lt, eq, gt, bit_and, bit_or, bit_xor}
use c_cloth.Base.{
  ℕ, zero, suc, ◌+◌, ◌-◌, ◌*◌, ◌/◌, ◌%◌, ◌^◌, Bool, true, false, not, ◌&&◌, ◌||◌, ◌==◌, ◌/=◌, ltb,
  leb, min, List, [], ◌∷◌, if◌then◌else◌,
}
use c_cloth.Base.Int.{ℤ, pos, negsuc, ◌+ℤ◌, ◌-ℤ◌, ltb_ℤ, pos_part}
use c_cloth.Base.Words.{low_bits, high_bits, test_bit, shr, shl64, neg64, u64_max}
use c_cloth.Token.{
  TokenKind, equal_equal, bang_equal, less, less_equal, greater, greater_equal, plus, minus, star,
  slash, percent, ampersand, pipe, caret, tilde, bang, ampersand_ampersand, pipe_pipe, shift_left,
  shift_right,
}
use c_cloth.Numeric.{
  TypeKind, bool, char, enum, float32, float64, same_kind, is_integer_type, is_numeric_type,
  is_valid_integer_bits, is_unsigned_category,
}
use c_cloth.Unicode.{is_unicode_scalar}
use c_cloth.Scalar.{
  ConstantBits, Expected, ok, unexpected, ◌>>=◌, out_of_range, overflow, zero_divisor,
  invalid_shift, invalid_operation,
}
use c_cloth.Scalar.Natural.{
  Words, from_u64, is_zero, width, low, compare_to, shift, add, subtract, multiply,
}
use c_cloth.Scalar.Float.{Finite, format, floating, sign_bit, unpack, scaled_compare, pack}
use c_cloth.Scalar.Integer.{Integer, integer, integer_bits, properties_of, mask}
use c_cloth.Scalar.Compare.{bit_of, same_bool, comparison, is_comparison}
use c_cloth.Scalar.FloatBinary.{float_binary}

unfoldable pub is_scalar_constant_type : TypeKind → Bool
unfolding is_numeric_type
is_scalar_constant_type type =
    is_numeric_type type || same_kind type bool || same_kind type char || same_kind type enum

unfoldable pub is_valid_scalar_bits : TypeKind → ℕ → Bool
unfolding is_integer_type is_valid_integer_bits is_unicode_scalar floating format mask
is_valid_scalar_bits type bits =
    let f = format type in
    if is_integer_type type
    then is_valid_integer_bits bits type
    else if same_kind type bool
    then leb bits 1
    else if same_kind type char
    then is_unicode_scalar bits
    else if same_kind type enum
    then ltb bits 65536
    else if not (floating type)
    then false
    else high_bits bits (f.fraction + f.exponent + 1) == 0
      && low_bits (shr bits f.fraction) f.exponent /= mask f.exponent

-- An error of `integer_bits` becomes an overflow of the arithmetic.
abbrev pub or_overflow : ConstantBits → ConstantBits
or_overflow (ok bits) = ok bits
or_overflow (unexpected e) = unexpected overflow

-- `unary_scalar` past its first check: each operator at the types that it has.
unfoldable pub unary_valid : TokenKind → TypeKind → ℕ → ConstantBits
unfolding floating sign_bit integer integer_bits is_integer_type is_numeric_type mask
unary_valid bang type bits =
    if same_kind type bool then ok (bit_of (bits == 0)) else unexpected invalid_operation
unary_valid plus type bits = if is_numeric_type type then ok bits else unexpected invalid_operation
unary_valid tilde type bits =
    if is_integer_type type
    then ok (low_bits (u64_max - bits) (properties_of type).bit_width)
    else unexpected invalid_operation
unary_valid minus type bits =
    let value = integer bits type in
    if floating type
    then ok (bit_xor bits (sign_bit type))
    else if is_integer_type type
    then or_overflow (integer_bits (record value { negative = not value.negative }) type)
    else unexpected invalid_operation
unary_valid _ type bits = unexpected invalid_operation

unfoldable pub unary_scalar : TokenKind → TypeKind → ℕ → ConstantBits
unfolding is_valid_scalar_bits unary_valid
unary_scalar operation type bits =
    if not (is_valid_scalar_bits type bits)
    then unexpected out_of_range
    else unary_valid operation type bits

abbrev pub is_shift : TokenKind → Bool
is_shift shift_left = true
is_shift shift_right = true
is_shift _ = false

abbrev is_left : TokenKind → Bool
is_left shift_left = true
is_left _ = false

-- The shifts: the count is read as an integer of its own type.
unfoldable pub shift_scalar : TokenKind → TypeKind → ℕ → ℕ → TypeKind → ConstantBits
unfolding is_integer_type integer mask
shift_scalar operation type left right right_type =
    let width = (properties_of type).bit_width in
    let count = integer right right_type in
    let shift = count.magnitude in
    let result = shr left shift in
    if not (is_integer_type type) || not (is_integer_type right_type)
    then unexpected invalid_operation
    else if count.negative || leb width count.magnitude
    then unexpected invalid_shift
    else if is_left operation
    then ok (low_bits (shl64 left shift) width)
    else if shift /= 0 && (integer left type).negative
    then ok (bit_or result (bit_xor (mask width) (mask (width - shift))))
    else ok result

-- `+` on signs and magnitudes; a sum of magnitudes must fit 64 bits.
unfoldable pub add_integers : Integer → Integer → Expected Integer
add_integers a b =
    if same_bool a.negative b.negative
    then (if ltb (u64_max - b.magnitude) a.magnitude
        then unexpected overflow
        else ok (record { negative = a.negative; magnitude = a.magnitude + b.magnitude }))
    else if ltb a.magnitude b.magnitude
    then ok (record { negative = b.negative; magnitude = b.magnitude - a.magnitude })
    else ok (record { negative = a.negative; magnitude = a.magnitude - b.magnitude })

-- `*`: the product of the magnitudes must fit 64 bits.
unfoldable pub multiply_integers : Integer → Integer → Expected Integer
multiply_integers a b =
    if b.magnitude /= 0 && ltb (u64_max / b.magnitude) a.magnitude
    then unexpected overflow
    else ok (record {
      negative = not (same_bool a.negative b.negative);
      magnitude = a.magnitude * b.magnitude;
    })

-- The checks of `/` and `%`: no zero divisor, and not the least integer by minus one.
unfoldable pub checked_divisor : ℕ → Integer → Integer → Integer → Expected Integer
checked_divisor width a b result =
    if b.magnitude == 0
    then unexpected zero_divisor
    else if a.negative && a.magnitude == shl64 1 (width - 1) && b.negative && b.magnitude == 1
    then unexpected overflow
    else ok result

-- The arithmetic of `binary_scalar` on two integers of a type of this width.
unfoldable pub integer_arithmetic : TokenKind → ℕ → Integer → Integer → Expected Integer
unfolding add_integers multiply_integers checked_divisor
integer_arithmetic plus width a b = add_integers a b
integer_arithmetic minus width a b = add_integers a (record b { negative = not b.negative })
integer_arithmetic star width a b = multiply_integers a b
integer_arithmetic slash width a b = checked_divisor width a b (record {
  negative = not (same_bool a.negative b.negative);
  magnitude = a.magnitude / b.magnitude;
})
integer_arithmetic percent width a b =
    checked_divisor width a b
      (record { negative = a.negative; magnitude = a.magnitude % b.magnitude })
integer_arithmetic _ width a b = unexpected invalid_operation

-- `binary_scalar` on two integers of one type, but for the shifts and the comparisons.
unfoldable pub integer_binary : TokenKind → TypeKind → ℕ → ℕ → ConstantBits
unfolding integer_arithmetic integer integer_bits
integer_binary ampersand type left right = ok (bit_and left right)
integer_binary pipe type left right = ok (bit_or left right)
integer_binary caret type left right = ok (bit_xor left right)
integer_binary operation type left right =
    integer_arithmetic operation (properties_of type).bit_width (integer left type)
      (integer right type)
    >>= λ result. or_overflow (integer_bits result type)

abbrev is_equality : TokenKind → Bool
is_equality equal_equal = true
is_equality bang_equal = true
is_equality _ = false

-- The order that a comparison of two constants of one type goes by.
unfoldable pub scalar_order : TypeKind → ℕ → ℕ → Ordering
unfolding integer is_integer_type
scalar_order type left right =
    let a = (integer left type).negative in
    let b = (integer right type).negative in
    if is_integer_type type && not (same_bool a b)
    then (if a then lt else gt)
    else compare left right

unfoldable pub compare_scalars : TokenKind → TypeKind → ℕ → ℕ → ConstantBits
unfolding scalar_order is_numeric_type comparison
compare_scalars operation type left right =
    if not (is_numeric_type type) && not (is_equality operation)
    then unexpected invalid_operation
    else ok (bit_of (comparison operation (scalar_order type left right)))

abbrev is_logical : TokenKind → Bool
is_logical ampersand_ampersand = true
is_logical pipe_pipe = true
is_logical _ = false

abbrev logical : TokenKind → ℕ → ℕ → ℕ
logical ampersand_ampersand left right = bit_of (left /= 0 && right /= 0)
logical _ left right = bit_of (left /= 0 || right /= 0)

unfoldable pub binary_scalar : TokenKind → TypeKind → ℕ → ℕ → TypeKind → ConstantBits
unfolding is_valid_scalar_bits shift_scalar floating float_binary is_comparison compare_scalars
    is_integer_type integer_binary
binary_scalar operation type left right right_type =
    if not (is_valid_scalar_bits type left) || not (is_valid_scalar_bits right_type right)
    then unexpected out_of_range
    else if is_shift operation
    then shift_scalar operation type left right right_type
    else if not (same_kind type right_type)
    then unexpected invalid_operation
    else if floating type
    then float_binary operation type left right
    else if same_kind type bool && is_logical operation
    then ok (logical operation left right)
    else if is_comparison operation
    then compare_scalars operation type left right
    else if not (is_integer_type type)
    then unexpected invalid_operation
    else integer_binary operation type left right
