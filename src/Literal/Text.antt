-- ===== src/Literal/Text.antt =====
-- `decode_text_literal` of src/lexer/literal.cc. The body of a literal, between its delimiters, is a
-- list; the offset into the lexeme is counted beside it.
pub mod RoundTrip
use Prim.Native.Nat.{bit_or}
use c_cloth.Base.{
  ℕ, zero, suc, ◌+◌, ◌-◌, ◌*◌, ◌^◌, Bool, true, false, not, ◌&&◌, ◌||◌, ◌==◌, ◌/=◌, leb, ltb, List,
  [], ◌∷◌, ◌++◌, length, take, drop, Option, none, some, if◌then◌else◌,
}
use c_cloth.Base.Text.{Bytes}
use c_cloth.Unicode.{Utf8Scalar, is_unicode_scalar, decode_utf8_scalar, utf8_bytes}
use c_cloth.Literal.{
  TextLiteralKind, string, character, TextLiteralError, invalid_structure, invalid_utf8,
  unknown_escape, invalid_unicode_escape, invalid_unicode_scalar, empty_character,
  multiple_characters, DecodedTextLiteral, empty_text,
}
use c_cloth.Literal.Digits.{digit_value}

abbrev pub text_literal_error : TextLiteralError → ℕ → DecodedTextLiteral
text_literal_error error offset = record empty_text { error = error; error_offset = offset }

unfoldable pub decode_simple_escape : ℕ → Option ℕ
decode_simple_escape c =
    if c == b'n'
    then some 10
    else if c == b'r'
    then some 13
    else if c == b't'
    then some 9
    else if c == b'0'
    then some 0
    else if c == b'\\' || c == b'\'' || c == b'"'
    then some c
    else none

-- What one round of the loop reads: an error, or a scalar value, its bytes in the result, how far
-- the offset moves, and the text behind.
pub data TextStep : Type 0 where
  failed : TextLiteralError → TextStep
  scalar : ℕ → Bytes → ℕ → Bytes → TextStep

abbrev escaped : ℕ → ℕ → Bytes → TextStep
escaped value moved rest = scalar value (utf8_bytes value) moved rest

-- The digits of a Unicode escape: the value and the count so far. `value << 4` stays below 2^24.
unfoldable pub unicode_digits : ℕ → ℕ → Bytes → TextStep
unfolding digit_value is_unicode_scalar
unicode_digits value count [] = failed invalid_unicode_escape
unicode_digits value count (c ∷ rest) =
    let digit = digit_value c in
    let more =
      unicode_digits (bit_or (value * 2 ^ 4) (elim digit [ some d ↦ d | none ↦ 0 ])) (suc count)
        rest in
    if c == b'}'
    then (if count == 0
        then failed invalid_unicode_escape
        else if not (is_unicode_scalar value)
        then failed invalid_unicode_scalar
        else escaped value (count + 4) rest)
    else elim digit [
      | none ↦ failed invalid_unicode_escape
      | some d ↦ if leb 6 count then failed invalid_unicode_escape else more
    ]

unicode_escape : Bytes → TextStep
unfolding unicode_digits
unicode_escape [] = failed invalid_unicode_escape
unicode_escape (c ∷ rest) =
    if c == b'{' then unicode_digits 0 0 rest else failed invalid_unicode_escape

-- The text behind a backslash.
unfoldable pub escape : Bytes → TextStep
unfolding unicode_escape decode_simple_escape
escape [] = failed unknown_escape
escape (c ∷ rest) = if c == b'u' then unicode_escape rest else elim (decode_simple_escape c) [
  | none ↦ failed unknown_escape
  | some value ↦ escaped value 2 rest
]

unfoldable pub plain : Bytes → Option Utf8Scalar → TextStep
plain text none = failed invalid_utf8
plain text (some decoded) =
    scalar decoded.value (take decoded.width text) decoded.width (drop decoded.width text)

-- One round of the loop, at a text that is not empty.
unfoldable pub text_step : ℕ → ℕ → Bytes → TextStep
text_step delimiter c rest =
    if c == b'\\'
    then escape rest
    else if c == delimiter || c == b'\r' || c == b'\n'
    then failed invalid_structure
    else plain (c ∷ rest) (decode_utf8_scalar (c ∷ rest))

abbrev pub is_character : TextLiteralKind → Bool
is_character character = true
is_character string = false

unfoldable pub finish_text : TextLiteralKind → DecodedTextLiteral → DecodedTextLiteral
finish_text kind result =
    if is_character kind && result.scalar_count == 0
    then text_literal_error empty_character 1
    else result

-- The loop. A round moves by at least a byte, so the length of the body is enough fuel; the result
-- where it runs out is not reached.
unfoldable pub text_loop :
    ℕ → TextLiteralKind → ℕ → ℕ → Bytes → DecodedTextLiteral → DecodedTextLiteral
text_loop fuel kind delimiter offset [] result = finish_text kind result
text_loop zero kind delimiter offset (c ∷ rest) result = text_literal_error invalid_structure offset
text_loop (suc fuel) kind delimiter offset (c ∷ rest) result = elim (text_step delimiter c rest) [
  | failed error ↦ text_literal_error error offset
  | scalar value bytes moved after ↦
      let next = record result {
        utf8 = result.utf8 ++ bytes;
        scalar_count = suc result.scalar_count;
        character = value;
      } in
      let more = text_loop fuel kind delimiter (offset + moved) after next in
      if is_character kind && leb 2 next.scalar_count
      then text_literal_error multiple_characters offset
      else more
]

abbrev pub delimiter_of : TextLiteralKind → ℕ
delimiter_of string = b'"'
delimiter_of character = b'\''

-- A text less its last byte, and that byte.
unfoldable pub split_last : ℕ → Bytes → Bytes × ℕ
split_last c [] = ([], c)
split_last c (d ∷ text) = let (body, last) = split_last d text in (c ∷ body, last)

unfoldable pub decode_text_literal : Bytes → TextLiteralKind → DecodedTextLiteral
unfolding split_last text_loop text_step finish_text escape plain decode_utf8_scalar
decode_text_literal (c ∷ d ∷ text) kind =
    let delimiter = delimiter_of kind in
    let (body, last) = split_last d text in
    if not (c == delimiter) || not (last == delimiter)
    then text_literal_error invalid_structure 0
    else text_loop (length body) kind delimiter 1 body empty_text
decode_text_literal _ kind = text_literal_error invalid_structure 0
