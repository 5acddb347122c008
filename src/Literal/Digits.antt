-- ===== src/Literal/Digits.antt =====
-- Runs of digits in src/lexer/literal.cc: the value of a digit, digit separators, the suffixes, and
-- the canonical decimal cores. A loop that advances an offset while a test holds is `take_while` and
-- `drop_while`.
use c_cloth.Base.{
  ℕ, suc, ◌+◌, ◌-◌, ◌*◌, ◌/◌, min, Bool, true, false, not, ◌&&◌, ◌==◌, leb, ltb, [], ◌∷◌, ◌++◌,
  length, Option, none, some, if◌then◌else◌,
}
use c_cloth.Base.Int.{ℤ, pos, negsuc, ◌+ℤ◌, ◌-ℤ◌}
use c_cloth.Base.Text.{Bytes, codes, text_eq, to_string}
use c_cloth.Literal.{
  NumericLiteralSuffix, no_suffix, int8, int16, int32, int64, uint8, uint16, uint32, uint64,
  float32, float64,
}

abbrev pub take_while : (ℕ → Bool) → Bytes → Bytes
take_while p [] = []
take_while p (c ∷ text) = if p c then c ∷ take_while p text else []

abbrev pub drop_while : (ℕ → Bool) → Bytes → Bytes
drop_while p [] = []
drop_while p (c ∷ text) = if p c then drop_while p text else c ∷ text

abbrev pub is_decimal_digit : ℕ → Bool
is_decimal_digit c = leb b'0' c && leb c b'9'

-- `digit_value`, with `none` for -1.
unfoldable pub digit_value : ℕ → Option ℕ
digit_value c =
    if is_decimal_digit c
    then some (c - b'0')
    else if leb b'a' c && leb c b'f'
    then some (c - b'a' + 10)
    else if leb b'A' c && leb c b'F'
    then some (c - b'A' + 10)
    else none

unfoldable pub parse_suffix : Bytes → NumericLiteralSuffix
unfolding text_eq
parse_suffix suffix =
    if text_eq suffix (codes "i8")
    then int8
    else if text_eq suffix (codes "i16")
    then int16
    else if text_eq suffix (codes "i32")
    then int32
    else if text_eq suffix (codes "i64")
    then int64
    else if text_eq suffix (codes "u8")
    then uint8
    else if text_eq suffix (codes "u16")
    then uint16
    else if text_eq suffix (codes "u32")
    then uint32
    else if text_eq suffix (codes "u64")
    then uint64
    else if text_eq suffix (codes "f32")
    then float32
    else if text_eq suffix (codes "f64")
    then float64
    else no_suffix

abbrev pub is_floating_suffix : NumericLiteralSuffix → Bool
is_floating_suffix float32 = true
is_floating_suffix float64 = true
is_floating_suffix _ = false

-- The loop of `is_valid_separator_run`, behind the character at its index less one, and the check of
-- the last character.
unfoldable pub separators_between : ℕ → Bytes → Bool
separators_between previous [] = not (previous == b'_')
separators_between previous (c ∷ run) =
    not (c == b'_' && previous == b'_') && separators_between c run

unfoldable pub is_valid_separator_run : Bytes → Bool
unfolding separators_between
is_valid_separator_run [] = false
is_valid_separator_run (c ∷ run) = not (c == b'_') && separators_between c run

unfoldable pub digits_without_separators : Bytes → Bytes
digits_without_separators [] = []
digits_without_separators (c ∷ run) =
    let rest = digits_without_separators run in if c == b'_' then rest else c ∷ rest

abbrev is_zero_digit : ℕ → Bool
is_zero_digit c = c == b'0'

unfoldable pub canonical_decimal_integer : Bytes → Bytes
canonical_decimal_integer digits = elim (drop_while is_zero_digit digits) [
  | [] ↦ b'0' ∷ []
  | c ∷ rest ↦ c ∷ rest
]

abbrev saturated_exponent : ℕ
saturated_exponent = 1000000

-- `std::clamp(value, -kSaturatedExponent, kSaturatedExponent)`.
unfoldable pub clamp_exponent : ℤ → ℤ
clamp_exponent (pos n) = pos (min n saturated_exponent)
clamp_exponent (negsuc n) = negsuc (min n (saturated_exponent - 1))

-- The loop of `parse_exponent`, which stops where the value saturates.
exponent_loop : ℕ → Bytes → ℕ
exponent_loop value [] = value
exponent_loop value (c ∷ digits) =
    let rest = exponent_loop (value * 10 + (c - b'0')) digits in
    if ltb ((saturated_exponent - (c - b'0')) / 10) value then saturated_exponent else rest

unfoldable pub parse_exponent : Bytes → Bool → ℤ
unfolding exponent_loop ◌-ℤ◌
parse_exponent digits negative =
    let value = exponent_loop 0 digits in if negative then pos 0 -ℤ pos value else pos value

unfoldable pub subtract_size : ℤ → ℕ → ℤ
unfolding clamp_exponent ◌-ℤ◌
subtract_size value amount = clamp_exponent (value -ℤ pos (min amount saturated_exponent))

unfoldable pub add_size : ℤ → ℕ → ℤ
unfolding clamp_exponent ◌+ℤ◌
add_size value amount = clamp_exponent (value +ℤ pos (min amount saturated_exponent))

-- A coefficient less the zeros at its end, and how many those are.
without_trailing : Bytes → Bytes × ℕ
without_trailing [] = ([], 0)
without_trailing (c ∷ text) =
    let (kept, trailing) = without_trailing text in
    elim kept [
      | [] ↦ if is_zero_digit c then ([], suc trailing) else (c ∷ [], trailing)
      | k ∷ ks ↦ (c ∷ k ∷ ks, trailing)
    ]

-- `std::to_string` of an exponent.
abbrev signed_to_string : ℤ → Bytes
signed_to_string (pos n) = to_string n
signed_to_string (negsuc n) = b'-' ∷ to_string (suc n)

unfoldable pub canonical_decimal_float : Bytes → Bytes → ℤ → Bytes
unfolding subtract_size add_size without_trailing to_string
canonical_decimal_float integer_digits fractional_digits exponent =
    elim (drop_while is_zero_digit (integer_digits ++ fractional_digits)) [
      | [] ↦ codes "0e0"
      | c ∷ rest ↦
          let (coefficient, trailing) = without_trailing (c ∷ rest) in
          let shifted = add_size (subtract_size exponent (length fractional_digits)) trailing in
          coefficient ++ b'e' ∷ signed_to_string shifted
    ]
