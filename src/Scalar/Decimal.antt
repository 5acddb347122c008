-- ===== src/Scalar/Decimal.antt =====
-- `decimal_float` of src/sema/scalar_constants.cc: a decimal text as a constant of a floating type.
use c_cloth.Base.{
  ℕ, zero, suc, ◌+◌, ◌-◌, ◌*◌, ◌/◌, Bool, true, false, not, ◌||◌, ◌==◌, ltb, [], ◌∷◌, if◌then◌else◌,
}
use c_cloth.Base.Int.{ℤ, pos, negsuc, ◌+ℤ◌, ◌-ℤ◌, ltb_ℤ}
use c_cloth.Base.Text.{Bytes}
use c_cloth.Literal.Digits.{is_decimal_digit}
use c_cloth.Numeric.{TypeKind}
use c_cloth.Scalar.{
  ConstantBits, Expected, ok, unexpected, ◌>>=◌, invalid_literal, out_of_range, non_finite,
}
use c_cloth.Scalar.Natural.{Words, from_u64, is_zero, add, multiply}
use c_cloth.Scalar.Float.{pack}

-- The variables that `consume_digit` updates, but for the two counts of digits, and the text that
-- is left. `digits` counts the digits of one run.
pub record Digits : Type 0 where
  pub numerator : Words
  pub significant_digits : ℕ
  pub nonzero : Bool
  pub digits : ℕ
  pub rest : Bytes

unfoldable pub consume_digit : Digits → ℕ → Digits
unfolding multiply add from_u64
consume_digit d c =
    let nonzero = d.nonzero || not (c == b'0') in
    record d {
      numerator = add (multiply d.numerator (from_u64 10)) (from_u64 (c - b'0'));
      nonzero = nonzero;
      significant_digits = if nonzero then suc d.significant_digits else d.significant_digits;
      digits = suc d.digits;
    }

unfoldable pub consume_digits : Digits → Bytes → Digits
unfolding consume_digit
consume_digits d [] = record d { rest = [] }
consume_digits d (c ∷ text) =
    let more = consume_digits (consume_digit d c) text in
    if is_decimal_digit c then more else record d { rest = c ∷ text }

abbrev pub no_digits : Digits
no_digits = record {
  numerator = [];
  significant_digits = 0;
  nonzero = false;
  digits = 0;
  rest = [];
}

-- The fraction, where there is one; its digits are counted from 0.
unfoldable pub consume_fraction : Digits → Expected Digits
unfolding consume_digits
consume_fraction d = elim d.rest [
  | [] ↦ ok (record d { digits = 0 })
  | c ∷ text ↦
      let fraction = consume_digits (record d { digits = 0 }) text in
      if c == b'.'
      then (if fraction.digits == 0 then unexpected invalid_literal else ok fraction)
      else ok (record d { digits = 0 })
]

abbrev exponent_limit : ℕ
exponent_limit = 1000000

-- The loop over the digits of an exponent.
exponent_digits : ℕ → Bytes → Expected ℕ
exponent_digits exponent [] = ok exponent
exponent_digits exponent (c ∷ text) =
    let digit = c - b'0' in
    let next =
      if ltb ((exponent_limit - digit) / 10) exponent
      then exponent_limit
      else exponent * 10 + digit in
    let rest = exponent_digits next text in
    if is_decimal_digit c then rest else unexpected invalid_literal

-- An exponent has a digit, and nothing follows it.
exponent_value : Bool → Bytes → Expected ℤ
unfolding exponent_digits ◌-ℤ◌
exponent_value negative [] = unexpected invalid_literal
exponent_value negative (c ∷ text) = exponent_digits 0 (c ∷ text) >>= λ exponent.
    ok (if negative then pos 0 -ℤ pos exponent else pos exponent)

abbrev signed_exponent : Bytes → Expected ℤ
signed_exponent [] = unexpected invalid_literal
signed_exponent (c ∷ text) =
    if c == b'+' || c == b'-'
    then exponent_value (c == b'-') text
    else exponent_value false (c ∷ text)

unfoldable pub consume_exponent : Bytes → Expected ℤ
unfolding exponent_value
consume_exponent [] = ok (pos 0)
consume_exponent (c ∷ text) =
    if c == b'e' || c == b'E' then signed_exponent text else unexpected invalid_literal

unfoldable pub power_of_ten : ℕ → Words
unfolding multiply from_u64
power_of_ten zero = from_u64 1
power_of_ten (suc count) = multiply (power_of_ten count) (from_u64 10)

-- The value of the digits times a power of ten, once the text is read.
unfoldable pub decimal_pack : Bool → Words → ℕ → ℤ → TypeKind → ConstantBits
unfolding is_zero pack power_of_ten multiply from_u64 ◌+ℤ◌
decimal_pack negative numerator significant_digits decimal_exponent type =
    let order = pos significant_digits +ℤ decimal_exponent in
    if is_zero numerator
    then pack negative numerator (from_u64 1) (pos 0) type true
    else if ltb_ℤ (pos 400) order
    then unexpected non_finite
    else if ltb_ℤ order (negsuc 399)
    then unexpected out_of_range
    else elim decimal_exponent [
      | pos count ↦
          pack negative (multiply numerator (power_of_ten count)) (from_u64 1) (pos 0) type true
      | negsuc count ↦ pack negative numerator (power_of_ten (suc count)) (pos 0) type true
    ]

unfoldable pub decimal_float : Bytes → Bool → TypeKind → ConstantBits
unfolding consume_digits consume_fraction consume_exponent decimal_pack ◌-ℤ◌
decimal_float text negative type =
    let whole = consume_digits no_digits text in
    if whole.digits == 0
    then unexpected invalid_literal
    else consume_fraction whole >>= λ d. consume_exponent d.rest >>= λ exponent.
        decimal_pack negative d.numerator d.significant_digits (exponent -ℤ pos d.digits) type
