-- ===== src/Lib.antt =====
-- A model of parts of the Cloth compiler: its lexer, its literals, its numeric types and the evaluation
-- of its scalar constants, the analysis of control flow, the identities and digests of what it writes,
-- and the layout of its targets and of the objects on them.
--
-- The compiler reads source text into tokens, parses and analyses them, evaluates constants, and
-- lowers the result to code for a target. Modelled are the parts below; each takes from the ones before
-- it what the code takes.
--
-- Parts:
-- Base: the shared names, lists by native positions, integers, and machine words. A `uint64_t` or a
--   `uint32_t` is a natural number, with each wrap-around written out as a remainder; a signed
--   integer is an integer, where the code keeps it far from its bounds.
-- Source: include/cloth/source/source_location.h and source_range.h, and the diagnostics of
--   src/diagnostics/diagnostic_engine.cc, with the engine passed on as a value.
-- Token: the kinds of include/cloth/lexer/token.h, their names in src/lexer/token.cc, and the keywords
--   of src/lexer/lexer.cc.
-- Lexer: src/lexer/lexer.cc. The fields that `advance` changes are a cursor, with the text left in
--   place of the offset into the whole text; Lexer.Scan has `skip_ignored` and the scanners, Lexer.Lex
--   the operators, one token and the loop of `lex`. Lexer.Moves shows that each function only
--   advances, and Lexer.Chain and its children what follows for the tokens and what is skipped.
-- Unicode and Literal: src/lexer/literal.cc. Unicode has the decoding and encoding of UTF-8,
--   Literal.Digits the runs of digits, Literal.Spelling `parse_numeric_literal_spelling`, with
--   Literal.Spelling.Reads for what a spelling in a base is made of, and
--   Literal.Text `decode_text_literal`.
-- Numeric: src/sema/numeric_types.cc. Numeric.Values gives each pattern of an integer type its integer.
-- Scalar: src/sema/scalar_constants.cc. Scalar.Natural is the class `Natural`, Scalar.Float and
--   Scalar.FloatBinary the floating constants, Scalar.Integer a sign and a magnitude against a pattern,
--   Scalar.Operations the unary and binary operators, Scalar.Conversions the conversions,
--   Scalar.Decimal and Scalar.Literals the literals. A `std::expected` is `Expected`.
-- Target: src/target/data_layout.cc.
-- Flow: the statements of include/cloth/hir/hir.h as a tree, and src/flow/control_flow.cc: `CallableAnalyzer`
--   with its counts and diagnostics passed on, and in Flow.Callables `analyze_control_flow`. Flow.Meaning
--   has the executions of statements, Flow.Sound and Flow.Returns that the analysis allows for them, and
--   Flow.Unreachable the statements that it reports.
-- Semantics: what the later parts read of include/cloth/sema/semantic_model.h, with the types and the
--   symbols as functions of their numbers, which are valid where the code uses them.
--   Semantics.Types is the table of types of src/sema/semantic_model.cc with its operations,
--   Semantics.Reachable the steps of the analysis on it, Semantics.ErrorAbi `callable_uses_error_abi`,
--   Semantics.Identities src/sema/canonical_identity.cc, with the number of a type as the fuel of its text,
--   since an element has a lower number than the type on it.
-- Abi: src/abi/abi.cc. Abi has the storage of types, Abi.Laid and Abi.Layout `lower_file_layout`, where a
--   step that reports an error is `failed` with the message; Abi.Placed has what a layout has to be.
--   Abi.Callables has `lower_callable`, with Abi.Callables.Memory for the storage of what it passes,
--   Abi.Boxes `lower_value_box_descriptor`.
-- Identity: src/identity/canonical_identity.cc, with a string that is appended to as the text returned.
-- Artifact: src/artifact/sha256.cc, in Artifact.Digest.
-- Tests: runs on concrete inputs, and the theorems at concrete inputs.
--
-- Loops: a loop over a text or over words is a recursion on the list. The loop of `lex` and that
--   of `skip_ignored` have fuel of one more than the length of the text left, and each round moves
--   by a character at least, so it does not run out. The loops of `decode_text_literal` and
--   `utf8_scalar_count` have the length of the text, for the same reason, and so has the loop of
--   the hasher over blocks. The search of `callable_uses_error_abi` has the number of symbols that
--   it can ever push. `std::to_string` has 20 rounds, the digits of a 64-bit number.
--
-- From the language's library: `std::from_chars`, `std::to_string` and `std::isprint` as documented,
--   the last for the locale in which characters 32 to 126 print.
--
-- Not modelled: the files and the console, `is_valid_scalar_constant`, which asks the semantic model,
--   the parser, the semantic analysis, the two intermediate forms past what the parts above read, the
--   order of files and the descriptors of classes of the ABI, the format of artifacts, the driver,
--   the LLVM backend, whose output has its meaning from LLVM, and the runtime.
pub mod Base
pub mod Target
pub mod Semantics
pub mod Flow
pub mod Abi
pub mod Identity
pub mod Artifact
pub mod Token
pub mod Numeric
pub mod Unicode
pub mod Literal
pub mod Source
pub mod Lexer
pub mod Scalar
pub mod Tests
