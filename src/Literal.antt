-- ===== src/Literal.antt =====
-- include/cloth/lexer/literal.h: the suffixes, errors and results of numeric and text literals. The
-- children model src/lexer/literal.cc: `Digits` the runs of digits, `Spelling` the numeric spelling,
-- `Text` the string and character literals.
pub mod Digits
pub mod Spelling
pub mod Text
use Prim.Native.String.{String}
use c_cloth.Base.{ℕ, zero, Bool, true, false, [], ◌≡◌, refl}
use c_cloth.Base.Text.{Bytes}

pub data NumericLiteralSuffix : Type 0 where
  no_suffix : NumericLiteralSuffix
  int8 int16 int32 int64 uint8 uint16 uint32 uint64 float32 float64 : NumericLiteralSuffix

pub data NumericLiteralSpellingError : Type 0 where
  no_error invalid_core invalid_suffix : NumericLiteralSpellingError
  integer_suffix_on_floating_core missing_base_digits : NumericLiteralSpellingError
  invalid_base_digit invalid_base_prefix unknown_base_prefix : NumericLiteralSpellingError
  invalid_separator missing_exponent_digits : NumericLiteralSpellingError
  floating_suffix_on_non_decimal_core : NumericLiteralSpellingError

pub data NumericLiteralBase : Type 0 where
  decimal binary octal hexadecimal : NumericLiteralBase

abbrev pub radix : NumericLiteralBase → ℕ
radix decimal = 10
radix binary = 2
radix octal = 8
radix hexadecimal = 16

pub record NumericLiteralSpelling : Type 0 where
  pub core : Bytes
  pub suffix : Bytes
  pub suffix_kind : NumericLiteralSuffix
  pub error : NumericLiteralSpellingError
  pub base : NumericLiteralBase
  pub core_is_floating : Bool
  pub is_floating : Bool

-- The initial values of the fields.
abbrev pub empty_spelling : NumericLiteralSpelling
empty_spelling = record {
  core = [];
  suffix = [];
  suffix_kind = no_suffix;
  error = no_error;
  base = decimal;
  core_is_floating = false;
  is_floating = false;
}

unfoldable pub numeric_literal_suffix_type_name : NumericLiteralSuffix → String
numeric_literal_suffix_type_name int8 = "int8"
numeric_literal_suffix_type_name int16 = "int16"
numeric_literal_suffix_type_name int32 = "int32"
numeric_literal_suffix_type_name int64 = "int64"
numeric_literal_suffix_type_name uint8 = "uint8"
numeric_literal_suffix_type_name uint16 = "uint16"
numeric_literal_suffix_type_name uint32 = "uint32"
numeric_literal_suffix_type_name uint64 = "uint64"
numeric_literal_suffix_type_name float32 = "float32"
numeric_literal_suffix_type_name float64 = "float64"
numeric_literal_suffix_type_name no_suffix = ""

pub data TextLiteralKind : Type 0 where
  string character : TextLiteralKind

pub data TextLiteralError : Type 0 where
  no_error invalid_structure invalid_utf8 unknown_escape : TextLiteralError
  invalid_unicode_escape invalid_unicode_scalar : TextLiteralError
  empty_character multiple_characters : TextLiteralError

pub record DecodedTextLiteral : Type 0 where
  pub error : TextLiteralError
  pub error_offset : ℕ
  pub utf8 : Bytes
  pub scalar_count : ℕ
  pub character : ℕ

abbrev pub empty_text : DecodedTextLiteral
empty_text = record {
  error = TextLiteralError.no_error;
  error_offset = 0;
  utf8 = [];
  scalar_count = 0;
  character = 0;
}
