-- ===== src/Lexer/Lex.antt =====
-- `Lexer::lex` of src/lexer/lexer.cc: operators, one token, and the loop.
use c_cloth.Base.{
  ℕ, zero, suc, ◌+◌, ◌-◌, ◌/◌, ◌%◌, ◌&&◌, ◌==◌, leb, ltb, List, [], ◌∷◌, ◌++◌, length, Option, none,
  some, if◌then◌else◌,
}
use c_cloth.Base.Text.{Bytes, codes}
use c_cloth.Token.{
  TokenKind, identifier_token_kind, eof, left_paren, right_paren, left_brace, right_brace,
  left_bracket, right_bracket, comma, semicolon, colon, colon_colon, dot, question, question_dot,
  question_question, plus, minus, star, slash, percent, equal, equal_equal, bang_equal, less,
  less_equal, greater, greater_equal, ampersand_ampersand, pipe_pipe, bang, ampersand, pipe, caret,
  tilde, plus_plus, minus_minus, plus_equal, minus_equal, star_equal, slash_equal, percent_equal,
  shift_left, shift_right, shift_left_equal, shift_right_equal, ampersand_equal, pipe_equal,
  caret_equal,
}
use c_cloth.Literal.{string, character}
use c_cloth.Source.{DiagnosticEngine, no_diagnostics, point_range, report_error}
use c_cloth.Lexer.{
  Cursor, Token, start_cursor, next_is, advance, current_location, make_token, advance_while,
  is_digit, is_identifier_start, is_identifier_continue,
}
use c_cloth.Lexer.Scan.{skip_ignored, scan_number, scan_text}

-- A case of the `switch` of `lex`: one kind, or kinds that further characters decide on. `or_next`
-- matches a character, `or_either` one of two, and `or_twice` the character of a shift and an equals
-- sign behind it or behind the first.
pub data OperatorCase : Type 0 where
  unexpected : OperatorCase
  one : TokenKind → OperatorCase
  or_next : ℕ → TokenKind → TokenKind → OperatorCase
  or_either : ℕ → TokenKind → ℕ → TokenKind → TokenKind → OperatorCase
  or_twice : ℕ → TokenKind → TokenKind → TokenKind → TokenKind → OperatorCase

-- The case of the `switch` of `lex` at a character.
unfoldable pub operator_case : ℕ → OperatorCase
operator_case c =
    if c == b'('
    then one left_paren
    else if c == b')'
    then one right_paren
    else if c == b'{'
    then one left_brace
    else if c == b'}'
    then one right_brace
    else if c == b'['
    then one left_bracket
    else if c == b']'
    then one right_bracket
    else if c == b','
    then one comma
    else if c == b';'
    then one semicolon
    else if c == b':'
    then or_next b':' colon_colon colon
    else if c == b'.'
    then one dot
    else if c == b'?'
    then or_either b'?' question_question b'.' question_dot question
    else if c == b'+'
    then or_either b'+' plus_plus b'=' plus_equal plus
    else if c == b'-'
    then or_either b'-' minus_minus b'=' minus_equal minus
    else if c == b'*'
    then or_next b'=' star_equal star
    else if c == b'/'
    then or_next b'=' slash_equal slash
    else if c == b'%'
    then or_next b'=' percent_equal percent
    else if c == b'='
    then or_next b'=' equal_equal equal
    else if c == b'!'
    then or_next b'=' bang_equal bang
    else if c == b'<'
    then or_twice b'<' shift_left_equal shift_left less_equal less
    else if c == b'>'
    then or_twice b'>' shift_right_equal shift_right greater_equal greater
    else if c == b'&'
    then or_either b'&' ampersand_ampersand b'=' ampersand_equal ampersand
    else if c == b'|'
    then or_either b'|' pipe_pipe b'=' pipe_equal pipe
    else if c == b'^'
    then or_next b'=' caret_equal caret
    else if c == b'~'
    then one tilde
    else unexpected

-- `match`, for the second kind where the character is not next.
unfoldable pub match_next : ℕ → TokenKind → TokenKind → Cursor → TokenKind × Cursor
unfolding advance
match_next c matched kind s = if next_is c s then (matched, advance s) else (kind, s)

-- The case taken, from the cursor behind the character: the kind and the cursor behind the operator.
unfoldable pub operator : OperatorCase → Cursor → Option (TokenKind × Cursor)
unfolding match_next advance
operator unexpected s = none
operator (one kind) s = some (kind, s)
operator (or_next c matched kind) s = some (match_next c matched kind s)
operator (or_either c first d second kind) s =
    if next_is c s then some (first, advance s) else some (match_next d second kind s)
operator (or_twice c shift_equal shift kind_equal kind) s =
    if next_is c s
    then some (match_next b'=' shift_equal shift (advance s))
    else some (match_next b'=' kind_equal kind s)

unfoldable pub scan_identifier : Bytes → Cursor → Token × Cursor
unfolding advance advance_while identifier_token_kind
scan_identifier file s =
    let first = advance s in
    let t = advance_while is_identifier_continue first.rest first in
    let token = make_token file eof s t in
    (record token { kind = identifier_token_kind token.lexeme }, t)

abbrev hex_digit : ℕ → ℕ
hex_digit d = if ltb d 10 then b'0' + d else b'A' + (d - 10)

-- `describe_character`; `std::isprint` of the C locale.
unfoldable pub describe_character : ℕ → Bytes
describe_character c =
    if leb 32 c && leb c 126
    then b'\'' ∷ c ∷ b'\'' ∷ []
    else codes "byte 0x" ++ hex_digit (c / 16) ∷ hex_digit (c % 16) ∷ []

-- A token if one was read, the cursor behind, and the diagnostics.
pub record Scanned : Type 0 where
  pub token : Option Token
  pub cursor : Cursor
  pub engine : DiagnosticEngine

abbrev found : (Token × Cursor) × DiagnosticEngine → Scanned
found ((token, t), engine) = record { token = some token; cursor = t; engine = engine }

-- The operator that was read, or the report of an unexpected character.
unfoldable pub operator_or_report :
    Bytes → ℕ → Cursor → DiagnosticEngine → Option (TokenKind × Cursor) → Scanned
unfolding advance report_error describe_character
operator_or_report file c s engine (some (kind, t)) = found ((make_token file kind s t, t), engine)
operator_or_report file c s engine none = record {
  token = none;
  cursor = advance s;
  engine =
      report_error (point_range (current_location file s))
        (codes "unexpected character " ++ describe_character c) engine;
}

unfoldable pub scan_operator : Bytes → ℕ → Cursor → DiagnosticEngine → Scanned
unfolding operator operator_case operator_or_report
scan_operator file c s engine =
    operator_or_report file c s engine (operator (operator_case c) (advance s))

-- One round of `lex` behind what it ignores, at a character.
unfoldable pub scan_token : Bytes → ℕ → Cursor → DiagnosticEngine → Scanned
unfolding scan_identifier scan_number scan_text scan_operator
scan_token file c s engine =
    if is_identifier_start c
    then found (scan_identifier file s, engine)
    else if is_digit c
    then found (scan_number file c s engine)
    else if c == b'"'
    then found (scan_text file string s engine)
    else if c == b'\''
    then found (scan_text file character s engine)
    else scan_operator file c s engine

abbrev pub add_token : Option Token → List Token → List Token
add_token none tokens = tokens
add_token (some token) tokens = token ∷ tokens

-- The loop of `lex`. A round moves by at least a character, so the fuel of one more than the length of
-- the text is enough; without fuel there are no tokens.
unfoldable pub lex_loop : ℕ → Bytes → Cursor → DiagnosticEngine → List Token × DiagnosticEngine
unfolding skip_ignored scan_token
lex_loop zero file s engine = ([], engine)
lex_loop (suc fuel) file s engine =
    let (t, after) = skip_ignored file s engine in
    elim t.rest [
      | [] ↦ (make_token file eof t t ∷ [], after)
      | c ∷ text ↦
          let scanned = scan_token file c t after in
          let (tokens, final) = lex_loop fuel file scanned.cursor scanned.engine in
          (add_token scanned.token tokens, final)
    ]

unfoldable pub lex : Bytes → Bytes → List Token × DiagnosticEngine
unfolding lex_loop
lex file input = lex_loop (suc (length input)) file (start_cursor input) no_diagnostics
