-- ===== src/Lexer.antt =====
-- The state of src/lexer/lexer.cc and its moves. A cursor holds the text from `current_` on, in place
-- of the whole of `input_` (what is before is not read but for lexemes, which the functions take
-- from the cursor where a token starts), and the fields that `advance` changes.
pub mod Scan
pub mod Lex
pub mod Moves
pub mod Chain
use c_cloth.Base.{
  ℕ, zero, suc, ◌+◌, ◌-◌, Bool, true, false, not, ◌&&◌, ◌||◌, ◌==◌, leb, List, [], ◌∷◌, get_or,
  take, if◌then◌else◌,
}
use c_cloth.Base.Words.{u32}
use c_cloth.Base.Text.{Bytes}
use c_cloth.Source.{SourceLocation, SourceRange, DiagnosticEngine, Diagnostic}
use c_cloth.Token.{TokenKind}

pub record Cursor : Type 0 where
  pub rest : Bytes
  pub current : ℕ
  pub line : ℕ
  pub column : ℕ
  pub previous_was_carriage_return : Bool

abbrev pub start_cursor : Bytes → Cursor
start_cursor input = record {
  rest = input;
  current = 0;
  line = 1;
  column = 1;
  previous_was_carriage_return = false;
}

pub record Token : Type 0 where
  pub kind : TokenKind
  pub lexeme : Bytes
  pub range : SourceRange

abbrev pub at_end : Cursor → Bool
at_end s = elim s.rest [ [] ↦ true | c ∷ text ↦ false ]

-- `peek`: the null byte past the end.
abbrev pub peek : ℕ → Cursor → ℕ
peek lookahead s = get_or s.rest lookahead 0

-- `advance` past a character. A line ends with a carriage return, and with a line feed that does not
-- follow one.
unfoldable pub advance_over : ℕ → Bytes → Cursor → Cursor
advance_over c text s =
    if c == b'\r'
    then record {
      rest = text;
      current = suc s.current;
      line = u32 (s.line + 1);
      column = 1;
      previous_was_carriage_return = true;
    }
    else if c == b'\n'
    then record {
      rest = text;
      current = suc s.current;
      line = if s.previous_was_carriage_return then s.line else u32 (s.line + 1);
      column = 1;
      previous_was_carriage_return = false;
    }
    else record {
      rest = text;
      current = suc s.current;
      line = s.line;
      column = u32 (s.column + 1);
      previous_was_carriage_return = false;
    }

-- `advance`, which is called only where there is a character left.
unfoldable pub advance : Cursor → Cursor
unfolding advance_over
advance s = elim s.rest [ [] ↦ s | c ∷ text ↦ advance_over c text s ]

-- `match`: the test; the callers advance where it holds.
abbrev pub next_is : ℕ → Cursor → Bool
next_is expected s = not (at_end s) && peek 0 s == expected

abbrev pub current_location : Bytes → Cursor → SourceLocation
current_location file s = record {
  file = file;
  byte_offset = s.current;
  line = s.line;
  column = s.column;
}

-- `make_token`, from the cursor at the start of the token to the one behind it.
abbrev pub make_token : Bytes → TokenKind → Cursor → Cursor → Token
make_token file kind start s = record {
  kind = kind;
  lexeme = take (s.current - start.current) start.rest;
  range = record { begin = current_location file start; end = current_location file s };
}

-- A loop that advances while a test of the next character holds; the text is that of the cursor.
unfoldable pub advance_while : (ℕ → Bool) → Bytes → Cursor → Cursor
unfolding advance
advance_while p [] s = s
advance_while p (c ∷ text) s = elim (p c) [ true ↦ advance_while p text (advance s) | false ↦ s ]

abbrev pub is_digit : ℕ → Bool
is_digit c = leb b'0' c && leb c b'9'

abbrev pub is_identifier_start : ℕ → Bool
is_identifier_start c = (leb b'a' c && leb c b'z') || (leb b'A' c && leb c b'Z') || c == b'_'

abbrev pub is_identifier_continue : ℕ → Bool
is_identifier_continue c = is_identifier_start c || is_digit c

abbrev pub is_newline : ℕ → Bool
is_newline c = c == b'\r' || c == b'\n'
