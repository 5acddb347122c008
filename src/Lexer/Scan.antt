-- ===== src/Lexer/Scan.antt =====
-- The scanners of src/lexer/lexer.cc: blanks and comments, numbers, strings and characters, with the
-- messages that they report.
use c_cloth.Base.{
  ℕ, zero, suc, ◌+◌, Bool, true, false, not, ◌&&◌, ◌||◌, ◌==◌, ltb, [], ◌∷◌, ◌++◌, length, get_or,
  Option, none, some, if◌then◌else◌,
}
use c_cloth.Base.Text.{Bytes, codes, to_string}
use c_cloth.Token.{TokenKind, integer_literal, float_literal, string_literal, character_literal}
use c_cloth.Source.{SourceRange, DiagnosticEngine, point_range, report_error}
use c_cloth.Literal.{
  NumericLiteralSpelling, NumericLiteralSpellingError, invalid_core, invalid_suffix,
  integer_suffix_on_floating_core, missing_base_digits, invalid_base_digit, invalid_base_prefix,
  unknown_base_prefix, invalid_separator, missing_exponent_digits,
  floating_suffix_on_non_decimal_core, radix, TextLiteralKind, string, character, TextLiteralError,
  invalid_structure, invalid_utf8, unknown_escape, invalid_unicode_escape, invalid_unicode_scalar,
  empty_character, multiple_characters, DecodedTextLiteral,
}
use c_cloth.Literal.Spelling.{parse_numeric_literal_spelling}
use c_cloth.Literal.Text.{decode_text_literal, delimiter_of}
use c_cloth.Lexer.{
  Cursor, Token, at_end, peek, advance, current_location, make_token, advance_while, is_digit,
  is_identifier_continue, is_newline,
}

-- What `skip_ignored` finds at the cursor.
pub data Ignored : Type 0 where
  nothing blank line_comment block_comment : Ignored

unfoldable pub ignored : Bytes → Ignored
ignored [] = nothing
ignored (c ∷ text) =
    let next = get_or text 0 0 in
    if c == b' ' || c == b'\t' || c == b'\r' || c == b'\n'
    then blank
    else if c == b'/' && next == b'/'
    then line_comment
    else if c == b'/' && next == b'*'
    then block_comment
    else nothing

-- The loop of a block comment: to its end, or to that of the text.
unfoldable pub skip_block : Bytes → Cursor → Cursor
unfolding advance
skip_block [] s = s
skip_block (c ∷ []) s = advance s
skip_block (c ∷ d ∷ text) s = elim (c == b'*' && d == b'/') [
  | true ↦ s
  | false ↦ skip_block (d ∷ text) (advance s)
]

abbrev within_line : ℕ → Bool
within_line c = not (is_newline c)

-- The cursor behind a comment's opening two characters, moved to where its loop ends.
abbrev pub line_comment_end : Cursor → Cursor
line_comment_end s = let t = advance (advance s) in advance_while within_line t.rest t

abbrev pub block_comment_end : Cursor → Cursor
block_comment_end s = let t = advance (advance s) in skip_block t.rest t

-- The loop of `skip_ignored`. A round moves by at least a character, so the fuel of one more than the
-- length of the text is enough.
unfoldable pub skip_loop : ℕ → Bytes → Cursor → DiagnosticEngine → Cursor × DiagnosticEngine
unfolding ignored advance advance_while skip_block report_error
skip_loop zero file s engine = (s, engine)
skip_loop (suc fuel) file s engine = elim (ignored s.rest) [
  | nothing ↦ (s, engine)
  | blank ↦ skip_loop fuel file (advance s) engine
  | line_comment ↦ skip_loop fuel file (line_comment_end s) engine
  | block_comment ↦
      let t = block_comment_end s in
      elim (at_end t) [
        | true ↦ (
          t,
          report_error (point_range (current_location file s)) (codes "unterminated block comment")
              engine,
        )
        | false ↦ skip_loop fuel file (advance (advance t)) engine
      ]
]

unfoldable pub skip_ignored : Bytes → Cursor → DiagnosticEngine → Cursor × DiagnosticEngine
unfolding skip_loop
skip_ignored file s engine = skip_loop (suc (length s.rest)) file s engine

abbrev in_number : ℕ → Bool
in_number c = is_digit c || c == b'_'

abbrev pub number_digits : Cursor → Cursor
number_digits s = advance_while in_number s.rest s

abbrev pub identifier_end : Cursor → Cursor
identifier_end s = advance_while is_identifier_continue s.rest s

abbrev pub fraction_end : Cursor → Cursor
fraction_end s = if peek 0 s == b'.' && is_digit (peek 1 s) then number_digits (advance s) else s

abbrev pub sign_end : Cursor → Cursor
sign_end s = if peek 0 s == b'+' || peek 0 s == b'-' then advance s else s

abbrev pub exponent_end : Cursor → Cursor
exponent_end s =
    if peek 0 s == b'e' || peek 0 s == b'E'
    then identifier_end (sign_end (advance s))
    else identifier_end s

-- Where `scan_number` ends, behind the first digit.
unfoldable pub number_end : ℕ → Cursor → Cursor
unfolding advance advance_while
number_end c s =
    let next = peek 0 s in
    let base_candidate =
      c == b'0'
      && (next == b'b'
          || next == b'B'
          || next == b'o'
          || next == b'O'
          || next == b'x'
          || next == b'X') in
    if base_candidate
    then identifier_end (advance s)
    else exponent_end (fraction_end (number_digits s))

abbrev quoted : Bytes → Bytes
quoted text = b'\'' ∷ (text ++ b'\'' ∷ [])

-- The message of `scan_number` for a spelling, if it has an error.
unfoldable pub number_message : NumericLiteralSpelling → Bytes → Option Bytes
unfolding to_string
number_message spelling lexeme = elim spelling.error [
  | NumericLiteralSpellingError.no_error ↦ none
  | invalid_core ↦ some (codes "invalid numeric literal " ++ quoted lexeme)
  | invalid_suffix ↦ some (codes "invalid numeric suffix " ++ quoted spelling.suffix)
  | integer_suffix_on_floating_core ↦ some (
      codes "integer suffix "
      ++ quoted spelling.suffix
      ++ codes " cannot be applied to a floating literal")
  | missing_base_digits ↦ some (codes "numeric base prefix requires digits in " ++ quoted lexeme)
  | invalid_base_digit ↦ some (
      codes "invalid digit in base-"
      ++ to_string (radix spelling.base)
      ++ codes " numeric literal "
      ++ quoted lexeme)
  | invalid_base_prefix ↦ some (codes "numeric base prefix must be lowercase in " ++ quoted lexeme)
  | unknown_base_prefix ↦ some (codes "unknown numeric base prefix in " ++ quoted lexeme)
  | invalid_separator ↦ some (codes "invalid digit separator in numeric literal " ++ quoted lexeme)
  | missing_exponent_digits ↦ some (codes "numeric exponent requires digits in " ++ quoted lexeme)
  | floating_suffix_on_non_decimal_core ↦ some (
      codes "floating suffix "
      ++ quoted spelling.suffix
      ++ codes " cannot be applied to a base-prefixed integer literal")
]

abbrev pub report_message : SourceRange → Option Bytes → DiagnosticEngine → DiagnosticEngine
report_message range none engine = engine
report_message range (some message) engine = report_error range message engine

-- `scan_number`, from the cursor at the first digit.
unfoldable pub scan_number :
    Bytes → ℕ → Cursor → DiagnosticEngine → (Token × Cursor) × DiagnosticEngine
unfolding number_end advance number_message parse_numeric_literal_spelling report_error
scan_number file c s engine =
    let t = number_end c (advance s) in
    let token = make_token file integer_literal s t in
    let spelling = parse_numeric_literal_spelling token.lexeme in
    (
      (record token { kind = if spelling.is_floating then float_literal else integer_literal }, t),
      report_message token.range (number_message spelling token.lexeme) engine,
    )

abbrev literal_name : TextLiteralKind → Bytes
literal_name string = codes "string"
literal_name character = codes "character"

-- The message of `report_text_literal_error`.
unfoldable pub text_message : TextLiteralKind → DecodedTextLiteral → Bytes → Option Bytes
text_message kind decoded lexeme = elim decoded.error [
  | TextLiteralError.no_error ↦ none
  | invalid_structure ↦ some (codes "malformed " ++ literal_name kind ++ codes " literal")
  | invalid_utf8 ↦ some (literal_name kind ++ codes " literal is not valid UTF-8")
  | unknown_escape ↦ some (
      codes "unknown escape sequence"
      ++ (if ltb (decoded.error_offset + 1) (length lexeme)
          then codes " \\" ++ get_or lexeme (decoded.error_offset + 1) 0 ∷ []
          else []))
  | invalid_unicode_escape ↦ some (codes "invalid Unicode escape sequence")
  | invalid_unicode_scalar ↦ some (codes "Unicode escape does not name a scalar value")
  | empty_character ↦ some (codes "empty character literal")
  | multiple_characters ↦ some (codes "character literal must contain exactly one character")
]

-- The loop of `scan_string` and of `scan_character`, which differ in the delimiter: where it ends,
-- and whether the literal is closed there.
unfoldable pub text_end : ℕ → Bytes → Cursor → Cursor × Bool
unfolding advance
text_end delimiter [] s = (s, false)
text_end delimiter (c ∷ []) s =
    if c == delimiter
    then (advance s, true)
    else if is_newline c
    then (s, false)
    else (advance s, false)
text_end delimiter (c ∷ d ∷ text) s = elim (c == delimiter) [
  | true ↦ (advance s, true)
  | false ↦ elim (is_newline c) [
    | true ↦ (s, false)
    | false ↦ elim (c == b'\\') [
      | true ↦ elim (is_newline d) [
        | true ↦ (advance s, false)
        | false ↦ text_end delimiter text (advance (advance s))
      ]
      | false ↦ text_end delimiter (d ∷ text) (advance s)
    ]
  ]
]

abbrev token_kind_of : TextLiteralKind → TokenKind
token_kind_of string = string_literal
token_kind_of character = character_literal

-- `scan_string` and `scan_character`, from the cursor at the opening delimiter.
unfoldable pub scan_text :
    Bytes → TextLiteralKind → Cursor → DiagnosticEngine → (Token × Cursor) × DiagnosticEngine
unfolding text_end advance text_message decode_text_literal report_error
scan_text file kind s engine =
    let opened = advance s in
    let (t, closed) = text_end (delimiter_of kind) opened.rest opened in
    let token = make_token file (token_kind_of kind) s t in
    (
      (token, t),
      if closed
          then report_message token.range
              (text_message kind (decode_text_literal token.lexeme kind) token.lexeme) engine
          else report_error (point_range (current_location file s))
              (codes "unterminated " ++ literal_name kind ++ codes " literal") engine,
    )
