-- ===== src/Literal/Spelling.antt =====
-- `parse_base_literal` and `parse_numeric_literal_spelling` of src/lexer/literal.cc.
pub mod Value
pub mod Runs
pub mod Suffixes
pub mod Reads
use c_cloth.Base.{
  ℕ, zero, suc, ◌+◌, ◌-◌, ◌*◌, ◌/◌, Bool, true, false, not, ◌&&◌, ◌||◌, ◌==◌, leb, ltb, List, [],
  ◌∷◌, ◌++◌, Option, none, some, if◌then◌else◌, drop,
}
use c_cloth.Base.Int.{ℤ, pos}
use c_cloth.Base.Words.{u64_max}
use c_cloth.Base.Text.{Bytes, codes, to_string}
use c_cloth.Literal.{
  NumericLiteralSuffix, no_suffix, NumericLiteralSpellingError, invalid_core, invalid_suffix,
  integer_suffix_on_floating_core, missing_base_digits, invalid_base_digit, invalid_base_prefix,
  unknown_base_prefix, invalid_separator, missing_exponent_digits,
  floating_suffix_on_non_decimal_core, NumericLiteralBase, binary, octal, hexadecimal, radix,
  NumericLiteralSpelling, empty_spelling,
}
use c_cloth.Literal.Digits.{
  take_while, drop_while, is_decimal_digit, digit_value, parse_suffix, is_floating_suffix,
  is_valid_separator_run, digits_without_separators, canonical_decimal_integer, parse_exponent,
  canonical_decimal_float,
}

abbrev pub is_empty : Bytes → Bool
is_empty [] = true
is_empty (c ∷ text) = false

abbrev front_is : (ℕ → Bool) → Bytes → Bool
front_is p [] = false
front_is p (c ∷ text) = p c

abbrev pub is_no_suffix : NumericLiteralSuffix → Bool
is_no_suffix no_suffix = true
is_no_suffix _ = false

-- The characters of the digit run of a base: its digits and separators.
unfoldable pub in_digit_run : ℕ → ℕ → Bool
unfolding digit_value
in_digit_run base c =
    (elim (digit_value c) [ some value ↦ ltb value base | none ↦ false ]) || c == b'_'

-- `static_cast<std::uint64_t>(digit_value(character))`.
abbrev pub digit_word : Option ℕ → ℕ
digit_word (some value) = value
digit_word none = u64_max

-- The loop over the digits of `parse_base_literal`; `none` is an overflow of 64 bits.
unfoldable pub accumulate : ℕ → ℕ → Bytes → Option ℕ
unfolding digit_value
accumulate base value [] = some value
accumulate base value (c ∷ digits) =
    let digit = digit_word (digit_value c) in
    let rest = accumulate base (value * base + digit) digits in
    if ltb ((u64_max - digit) / base) value then none else rest

abbrev pub base_core : Option ℕ → Bytes
base_core (some value) = to_string value
base_core none = codes "18446744073709551616"

-- `parse_base_literal` past its digit run: the run and the tail behind it.
unfoldable pub parse_base_parts : NumericLiteralBase → Bytes → Bytes → NumericLiteralSpelling
unfolding is_valid_separator_run parse_suffix digits_without_separators accumulate to_string
parse_base_parts base digit_run tail =
    let start = record empty_spelling { base = base } in
    let kind = parse_suffix tail in
    let result = record start { suffix = tail; suffix_kind = kind } in
    let value = accumulate (radix base) 0 (digits_without_separators digit_run) in
    if is_empty digit_run
    then record start { error = if is_empty tail then missing_base_digits else invalid_base_digit }
    else if not (is_valid_separator_run digit_run)
    then record start { error = invalid_separator }
    else if not (is_empty tail) && is_no_suffix kind
    then record result {
      error = if front_is is_decimal_digit tail then invalid_base_digit else invalid_suffix;
    }
    else if is_floating_suffix kind
    then record result { error = floating_suffix_on_non_decimal_core }
    else record result { core = base_core value }

unfoldable pub parse_base_literal : NumericLiteralBase → Bytes → NumericLiteralSpelling
unfolding parse_base_parts in_digit_run
parse_base_literal base spelling =
    let text = drop 2 spelling in
    let in_run = in_digit_run (radix base) in
    parse_base_parts base (take_while in_run text) (drop_while in_run text)

abbrev in_run : ℕ → Bool
in_run c = is_decimal_digit c || c == b'_'

-- What is read of a fraction or an exponent: whether there is one, whether its sign is a minus, its
-- run of digits, and the text behind it.
pub record Part : Type 0 where
  pub present : Bool
  pub negative : Bool
  pub run : Bytes
  pub rest : Bytes

abbrev run_part : Bool → Bytes → Part
run_part negative text = record {
  present = true;
  negative = negative;
  run = take_while in_run text;
  rest = drop_while in_run text;
}

abbrev absent : Bytes → Part
absent text = record { present = false; negative = false; run = []; rest = text }

unfoldable pub scan_fraction : Bytes → Part
scan_fraction [] = absent []
scan_fraction (c ∷ text) = if c == b'.' then run_part false text else absent (c ∷ text)

scan_sign : Bytes → Part
scan_sign [] = run_part false []
scan_sign (c ∷ text) =
    if c == b'+' || c == b'-' then run_part (c == b'-') text else run_part false (c ∷ text)

unfoldable pub scan_exponent : Bytes → Part
unfolding scan_sign
scan_exponent [] = absent []
scan_exponent (c ∷ text) = if c == b'e' || c == b'E' then scan_sign text else absent (c ∷ text)

any_digit : Bytes → Bool
any_digit [] = false
any_digit (c ∷ run) = is_decimal_digit c || any_digit run

-- The core of a decimal spelling, once it has no error.
unfoldable pub decimal_core : Bool → Bytes → Part → Part → Bytes
unfolding digits_without_separators canonical_decimal_integer canonical_decimal_float parse_exponent
decimal_core is_floating integer_run fraction exponent =
    let digits = digits_without_separators integer_run in
    let value =
      if exponent.present
      then parse_exponent (digits_without_separators exponent.run) exponent.negative
      else pos 0 in
    if not is_floating
    then canonical_decimal_integer digits
    else canonical_decimal_float digits (digits_without_separators fraction.run) value

-- The checks of a decimal spelling on its parts, in the order of the source.
unfoldable pub parse_decimal_parts : Bytes → Part → Part → NumericLiteralSpelling
unfolding any_digit is_valid_separator_run parse_suffix decimal_core
parse_decimal_parts integer_run fraction exponent =
    let suffix = exponent.rest in
    let kind = parse_suffix suffix in
    let floating = fraction.present || exponent.present in
    let floating_error = record empty_spelling { core_is_floating = true; is_floating = true } in
    let result = record empty_spelling {
      core_is_floating = floating;
      suffix = suffix;
      suffix_kind = kind;
      is_floating = floating;
    } in
    let is_floating = floating || is_floating_suffix kind in
    let bad_separator =
      not (is_valid_separator_run integer_run)
      || (fraction.present && not (is_valid_separator_run fraction.run))
      || (exponent.present && not (is_valid_separator_run exponent.run)) in
    if fraction.present && is_empty fraction.run
    then record floating_error { error = invalid_core }
    else if exponent.present && not (any_digit exponent.run)
    then record floating_error { error = missing_exponent_digits }
    else if bad_separator
    then record result { error = invalid_separator }
    else if not (is_empty suffix) && is_no_suffix kind
    then record result { error = invalid_suffix }
    else if floating && not (is_no_suffix kind) && not (is_floating_suffix kind)
    then record result { error = integer_suffix_on_floating_core; is_floating = is_floating }
    else record result {
      core = decimal_core is_floating integer_run fraction exponent;
      is_floating = is_floating;
    }

unfoldable pub parse_decimal_literal : Bytes → NumericLiteralSpelling
unfolding scan_fraction scan_exponent parse_decimal_parts
parse_decimal_literal spelling =
    let fraction = scan_fraction (drop_while in_run spelling) in
    parse_decimal_parts (take_while in_run spelling) fraction (scan_exponent fraction.rest)

abbrev is_letter : ℕ → Bool
is_letter c = (leb b'a' c && leb c b'z') || (leb b'A' c && leb c b'Z')

-- The letters that may follow a leading zero: those of an exponent or a suffix.
abbrev follows_zero : ℕ → Bool
follows_zero c =
    c == b'e'
    || c == b'E'
    || c == b'f'
    || c == b'F'
    || c == b'i'
    || c == b'I'
    || c == b'u'
    || c == b'U'

-- The second character of a spelling that begins with a zero.
parse_prefixed : ℕ → Bytes → NumericLiteralSpelling
unfolding parse_base_literal parse_decimal_literal
parse_prefixed c spelling =
    if c == b'b'
    then parse_base_literal binary spelling
    else if c == b'o'
    then parse_base_literal octal spelling
    else if c == b'x'
    then parse_base_literal hexadecimal spelling
    else if c == b'B' || c == b'O' || c == b'X'
    then record empty_spelling { error = invalid_base_prefix }
    else if is_letter c && not (follows_zero c)
    then record empty_spelling { error = unknown_base_prefix }
    else parse_decimal_literal spelling

unfoldable pub parse_numeric_literal_spelling : Bytes → NumericLiteralSpelling
unfolding parse_prefixed parse_decimal_literal
parse_numeric_literal_spelling [] = record empty_spelling { error = invalid_core }
parse_numeric_literal_spelling (c ∷ []) =
    if not (is_decimal_digit c)
    then record empty_spelling { error = invalid_core }
    else parse_decimal_literal (c ∷ [])
parse_numeric_literal_spelling (c ∷ d ∷ text) =
    if not (is_decimal_digit c)
    then record empty_spelling { error = invalid_core }
    else if c == b'0'
    then parse_prefixed d (c ∷ d ∷ text)
    else parse_decimal_literal (c ∷ d ∷ text)
