-- ===== src/Token.antt =====
-- include/cloth/lexer/token.h, src/lexer/token.cc and the keyword table of src/lexer/lexer.cc:
-- the kinds of tokens, their names, and the classification of an identifier's spelling.
use Prim.Native.String.{String}
use c_cloth.Base.{List, [], ◌∷◌, if◌then◌else◌}
use c_cloth.Base.Text.{Bytes, text_eq, codes}

pub data TokenKind : Type 0 where
  eof identifier integer_literal float_literal string_literal character_literal left_paren :
      TokenKind
  right_paren left_brace right_brace left_bracket right_bracket comma semicolon colon : TokenKind
  colon_colon dot question question_dot question_question plus minus star slash percent : TokenKind
  equal equal_equal bang_equal less less_equal greater greater_equal ampersand_ampersand : TokenKind
  pipe_pipe bang ampersand pipe caret tilde plus_plus minus_minus plus_equal minus_equal : TokenKind
  star_equal slash_equal percent_equal shift_left shift_right shift_left_equal : TokenKind
  shift_right_equal ampersand_equal pipe_equal caret_equal kw_func kw_return kw_if kw_else :
      TokenKind
  kw_while kw_for kw_in kw_break kw_continue kw_switch kw_case kw_default kw_struct kw_class :
      TokenKind
  kw_interface kw_abstract kw_sealed kw_enum kw_error kw_throw kw_throws kw_trait kw_let : TokenKind
  kw_var kw_const kw_final kw_static kw_override kw_super kw_true kw_false kw_null kw_extern :
      TokenKind
  kw_unsafe kw_import kw_is kw_as kw_match kw_int kw_int8 kw_int16 kw_int32 kw_int64 kw_uint :
      TokenKind
  kw_uint8 kw_uint16 kw_uint32 kw_uint64 kw_float kw_float32 kw_float64 kw_bool kw_char : TokenKind
  kw_byte kw_void kw_object : TokenKind

-- `token_kind_name`.
unfoldable pub token_kind_name : TokenKind → String
token_kind_name eof = "eof"
token_kind_name identifier = "identifier"
token_kind_name integer_literal = "integer_literal"
token_kind_name float_literal = "float_literal"
token_kind_name string_literal = "string_literal"
token_kind_name character_literal = "char_literal"
token_kind_name left_paren = "left_paren"
token_kind_name right_paren = "right_paren"
token_kind_name left_brace = "left_brace"
token_kind_name right_brace = "right_brace"
token_kind_name left_bracket = "left_bracket"
token_kind_name right_bracket = "right_bracket"
token_kind_name comma = "comma"
token_kind_name semicolon = "semicolon"
token_kind_name colon = "colon"
token_kind_name colon_colon = "colon_colon"
token_kind_name dot = "dot"
token_kind_name question = "question"
token_kind_name question_dot = "question_dot"
token_kind_name question_question = "question_question"
token_kind_name plus = "plus"
token_kind_name minus = "minus"
token_kind_name star = "star"
token_kind_name slash = "slash"
token_kind_name percent = "percent"
token_kind_name equal = "equal"
token_kind_name equal_equal = "equal_equal"
token_kind_name bang_equal = "bang_equal"
token_kind_name less = "less"
token_kind_name less_equal = "less_equal"
token_kind_name greater = "greater"
token_kind_name greater_equal = "greater_equal"
token_kind_name ampersand_ampersand = "ampersand_ampersand"
token_kind_name pipe_pipe = "pipe_pipe"
token_kind_name bang = "bang"
token_kind_name ampersand = "ampersand"
token_kind_name pipe = "pipe"
token_kind_name caret = "caret"
token_kind_name tilde = "tilde"
token_kind_name plus_plus = "plus_plus"
token_kind_name minus_minus = "minus_minus"
token_kind_name plus_equal = "plus_equal"
token_kind_name minus_equal = "minus_equal"
token_kind_name star_equal = "star_equal"
token_kind_name slash_equal = "slash_equal"
token_kind_name percent_equal = "percent_equal"
token_kind_name shift_left = "shift_left"
token_kind_name shift_right = "shift_right"
token_kind_name shift_left_equal = "shift_left_equal"
token_kind_name shift_right_equal = "shift_right_equal"
token_kind_name ampersand_equal = "ampersand_equal"
token_kind_name pipe_equal = "pipe_equal"
token_kind_name caret_equal = "caret_equal"
token_kind_name kw_func = "func"
token_kind_name kw_return = "return"
token_kind_name kw_if = "if"
token_kind_name kw_else = "else"
token_kind_name kw_while = "while"
token_kind_name kw_for = "for"
token_kind_name kw_in = "in"
token_kind_name kw_break = "break"
token_kind_name kw_continue = "continue"
token_kind_name kw_switch = "switch"
token_kind_name kw_case = "case"
token_kind_name kw_default = "default"
token_kind_name kw_struct = "struct"
token_kind_name kw_class = "class"
token_kind_name kw_interface = "interface"
token_kind_name kw_abstract = "abstract"
token_kind_name kw_sealed = "sealed"
token_kind_name kw_enum = "enum"
token_kind_name kw_error = "error"
token_kind_name kw_throw = "throw"
token_kind_name kw_throws = "throws"
token_kind_name kw_trait = "trait"
token_kind_name kw_let = "let"
token_kind_name kw_var = "var"
token_kind_name kw_const = "const"
token_kind_name kw_final = "final"
token_kind_name kw_static = "static"
token_kind_name kw_override = "override"
token_kind_name kw_super = "super"
token_kind_name kw_true = "true"
token_kind_name kw_false = "false"
token_kind_name kw_null = "null"
token_kind_name kw_extern = "extern"
token_kind_name kw_unsafe = "unsafe"
token_kind_name kw_import = "import"
token_kind_name kw_is = "is"
token_kind_name kw_as = "as"
token_kind_name kw_match = "match"
token_kind_name kw_int = "int"
token_kind_name kw_int8 = "int8"
token_kind_name kw_int16 = "int16"
token_kind_name kw_int32 = "int32"
token_kind_name kw_int64 = "int64"
token_kind_name kw_uint = "uint"
token_kind_name kw_uint8 = "uint8"
token_kind_name kw_uint16 = "uint16"
token_kind_name kw_uint32 = "uint32"
token_kind_name kw_uint64 = "uint64"
token_kind_name kw_float = "float"
token_kind_name kw_float32 = "float32"
token_kind_name kw_float64 = "float64"
token_kind_name kw_bool = "bool"
token_kind_name kw_char = "char"
token_kind_name kw_byte = "byte"
token_kind_name kw_void = "void"
token_kind_name kw_object = "object"

-- `kKeywords`, in the order of the table.
abbrev pub keywords : List (Bytes × TokenKind)
keywords =
    (codes "func", kw_func)
    ∷ (codes "return", kw_return)
    ∷ (codes "if", kw_if)
    ∷ (codes "else", kw_else)
    ∷ (codes "while", kw_while)
    ∷ (codes "for", kw_for)
    ∷ (codes "in", kw_in)
    ∷ (codes "break", kw_break)
    ∷ (codes "continue", kw_continue)
    ∷ (codes "switch", kw_switch)
    ∷ (codes "case", kw_case)
    ∷ (codes "default", kw_default)
    ∷ (codes "struct", kw_struct)
    ∷ (codes "class", kw_class)
    ∷ (codes "interface", kw_interface)
    ∷ (codes "abstract", kw_abstract)
    ∷ (codes "sealed", kw_sealed)
    ∷ (codes "enum", kw_enum)
    ∷ (codes "error", kw_error)
    ∷ (codes "throw", kw_throw)
    ∷ (codes "throws", kw_throws)
    ∷ (codes "trait", kw_trait)
    ∷ (codes "let", kw_let)
    ∷ (codes "var", kw_var)
    ∷ (codes "const", kw_const)
    ∷ (codes "final", kw_final)
    ∷ (codes "static", kw_static)
    ∷ (codes "override", kw_override)
    ∷ (codes "super", kw_super)
    ∷ (codes "true", kw_true)
    ∷ (codes "false", kw_false)
    ∷ (codes "null", kw_null)
    ∷ (codes "extern", kw_extern)
    ∷ (codes "unsafe", kw_unsafe)
    ∷ (codes "import", kw_import)
    ∷ (codes "is", kw_is)
    ∷ (codes "as", kw_as)
    ∷ (codes "match", kw_match)
    ∷ (codes "int", kw_int)
    ∷ (codes "int8", kw_int8)
    ∷ (codes "int16", kw_int16)
    ∷ (codes "int32", kw_int32)
    ∷ (codes "int64", kw_int64)
    ∷ (codes "uint", kw_uint)
    ∷ (codes "uint8", kw_uint8)
    ∷ (codes "uint16", kw_uint16)
    ∷ (codes "uint32", kw_uint32)
    ∷ (codes "uint64", kw_uint64)
    ∷ (codes "float", kw_float)
    ∷ (codes "float32", kw_float32)
    ∷ (codes "float64", kw_float64)
    ∷ (codes "bool", kw_bool)
    ∷ (codes "char", kw_char)
    ∷ (codes "byte", kw_byte)
    ∷ (codes "void", kw_void)
    ∷ (codes "object", kw_object)
    ∷ []

-- The `for` loop of `identifier_token_kind` over the rest of the table.
unfoldable pub find_keyword : Bytes → List (Bytes × TokenKind) → TokenKind
find_keyword lexeme [] = identifier
find_keyword lexeme ((keyword, kind) ∷ rest) =
    if text_eq lexeme keyword then kind else find_keyword lexeme rest

unfoldable pub identifier_token_kind : Bytes → TokenKind
unfolding find_keyword
identifier_token_kind lexeme = find_keyword lexeme keywords
