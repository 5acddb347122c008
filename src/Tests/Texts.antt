-- ===== src/Tests/Texts.antt =====
-- Concrete inputs for src/lexer/literal.cc and src/lexer/lexer.cc.
use c_cloth.Base.{ℕ, ◌≡◌, refl, true, ◌++◌, List, [], ◌∷◌, length, Option, some, All, arith}
use c_cloth.Base.Text.{Bytes, codes}
use c_cloth.Unicode.{is_unicode_scalar, decode_utf8_scalar, utf8_bytes}
use c_cloth.Unicode.RoundTrip.{decode-utf8_bytes, encode_all, Scalars}
use c_cloth.Unicode.Sequences.{AreBytes}
use c_cloth.Unicode.Canonical.{Encodes, decode_utf8_scalar-Encodes}
use c_cloth.Token.{
  TokenKind, kw_let, identifier, equal, integer_literal, semicolon, shift_right_equal,
  character_literal, float_literal, eof,
}
use c_cloth.Literal.{NumericLiteralSpellingError, hexadecimal, string, character, TextLiteralError}
use c_cloth.Literal.Spelling.{parse_base_literal, parse_numeric_literal_spelling}
use c_cloth.Literal.Spelling.Reads.{Spells, parse_base_literal-Spells}
use c_cloth.Literal.Text.{decode_text_literal}
use c_cloth.Literal.Text.RoundTrip.{
  delimited, last_or, PlainText, stands_plain, decode-string, decode-character,
}
use c_cloth.Source.{no_diagnostics}
use c_cloth.Lexer.{Token, start_cursor}
use c_cloth.Lexer.Lex.{lex}
use c_cloth.Lexer.Scan.{skip_ignored}
use c_cloth.Lexer.Moves.{Moves}
use c_cloth.Lexer.Chain.Trivia.{Trivia, skip_ignored-Trivia}
use c_cloth.Lexer.Chain.Places.{lex-Placed, lex-Ordered, lex-EndsAt, Placed, Ordered, EndsAt}

-- An e with an acute accent, and a musical clef.
abbrev two_scalars : List ℕ
two_scalars = 0xE9 ∷ 0x1D11E ∷ []

two_scalars-Scalars : Scalars two_scalars
unfolding is_unicode_scalar
two_scalars-Scalars = (refl, (refl, tt))

two_scalars-PlainText : PlainText two_scalars
two_scalars-PlainText = (refl, (refl, tt))

clef-scalar : is_unicode_scalar 0x1D11E ≡ true
unfolding is_unicode_scalar
clef-scalar = refl

clef_bytes : utf8_bytes 0x1D11E ≡ 0xF0 ∷ 0x9D ∷ 0x84 ∷ 0x9E ∷ []
unfolding utf8_bytes
clef_bytes = refl

surrogate_rejected : decode_utf8_scalar (0xED ∷ 0xA0 ∷ 0x80 ∷ []) ≡ Option.none
unfolding decode_utf8_scalar is_unicode_scalar
surrogate_rejected = refl

decode-utf8_bytes_example :
    decode_utf8_scalar (utf8_bytes 0x1D11E ++ (b'a' ∷ []))
    ≡ some (record { value = 0x1D11E; width = length (utf8_bytes 0x1D11E) })
decode-utf8_bytes_example = decode-utf8_bytes 0x1D11E (b'a' ∷ []) clef-scalar

clef-text : AreBytes (0xF0 ∷ 0x9D ∷ 0x84 ∷ 0x9E ∷ b'a' ∷ [])
clef-text = (omega arith, (omega arith, (omega arith, (omega arith, (omega arith, tt)))))

clef-decoded :
    decode_utf8_scalar (0xF0 ∷ 0x9D ∷ 0x84 ∷ 0x9E ∷ b'a' ∷ [])
    ≡ some (record { value = 0x1D11E; width = 4 })
unfolding decode_utf8_scalar is_unicode_scalar
clef-decoded = refl

decode_utf8_scalar-Encodes_example :
    Encodes (0xF0 ∷ 0x9D ∷ 0x84 ∷ 0x9E ∷ b'a' ∷ []) (record { value = 0x1D11E; width = 4 })
decode_utf8_scalar-Encodes_example =
    decode_utf8_scalar-Encodes (0xF0 ∷ 0x9D ∷ 0x84 ∷ 0x9E ∷ b'a' ∷ [])
      (record { value = 0x1D11E; width = 4 }) clef-text clef-decoded

decode-string_example :
    decode_text_literal (delimited string (encode_all two_scalars)) string ≡ record {
      error = TextLiteralError.no_error;
      error_offset = 0;
      utf8 = encode_all two_scalars;
      scalar_count = length two_scalars;
      character = last_or 0 two_scalars;
    }
decode-string_example = decode-string two_scalars two_scalars-Scalars two_scalars-PlainText

clef-plain : stands_plain b'\'' 0x1D11E ≡ true
clef-plain = refl

decode-character_example :
    decode_text_literal (delimited character (utf8_bytes 0x1D11E)) character ≡ record {
      error = TextLiteralError.no_error;
      error_offset = 0;
      utf8 = utf8_bytes 0x1D11E;
      scalar_count = 1;
      character = 0x1D11E;
    }
decode-character_example = decode-character 0x1D11E clef-scalar clef-plain

escaped_text :
    (decode_text_literal (codes "\"a\\n\\u{e9}\"") string).utf8 ≡ b'a' ∷ 10 ∷ 0xC3 ∷ 0xA9 ∷ []
unfolding decode_text_literal is_unicode_scalar utf8_bytes
escaped_text = refl

float_core : (parse_numeric_literal_spelling (codes "012_0.50e2f32")).core ≡ codes "1205e1"
unfolding parse_numeric_literal_spelling
float_core = refl

hexadecimal-no-error :
    (parse_base_literal hexadecimal (codes "0x1_Fu8")).error ≡ NumericLiteralSpellingError.no_error
unfolding parse_base_literal
hexadecimal-no-error = refl

parse_base_literal-Spells_example :
    Spells hexadecimal (codes "1_Fu8") (parse_base_literal hexadecimal (codes "0x1_Fu8"))
parse_base_literal-Spells_example =
    parse_base_literal-Spells hexadecimal (codes "0x1_Fu8") hexadecimal-no-error

abbrev program : Bytes
program = codes "let x1 = 0x1f; // c\r\n>>= 'b' 1.5e3"

kinds : List Token → List TokenKind
kinds [] = []
kinds (token ∷ tokens) = token.kind ∷ kinds tokens

kinds-program :
    kinds (lex [] program).0
    ≡ kw_let ∷ identifier ∷ equal ∷ integer_literal ∷ semicolon ∷ shift_right_equal
      ∷ character_literal ∷ float_literal ∷ eof ∷ []
unfolding kinds lex
kinds-program = refl

lex-Placed_example : All (Placed program) (lex [] program).0
lex-Placed_example = lex-Placed [] program

lex-Ordered_example : Ordered 0 (lex [] program).0
lex-Ordered_example = lex-Ordered [] program

lex-EndsAt_example : EndsAt (length program) (lex [] program).0
lex-EndsAt_example = lex-EndsAt [] program

abbrev ignored_text : Bytes
ignored_text = codes " // c\n/* * */\tb"

ignored_rest : (skip_ignored [] (start_cursor ignored_text) no_diagnostics).0.rest ≡ codes "b"
unfolding skip_ignored
ignored_rest = refl

skip_ignored-Trivia_example :
    let t = (skip_ignored [] (start_cursor ignored_text) no_diagnostics).0 in
    Moves (start_cursor ignored_text) t × Trivia ignored_text t.rest
skip_ignored-Trivia_example = skip_ignored-Trivia [] (start_cursor ignored_text) no_diagnostics
