-- ===== src/Lexer/Chain.antt =====
-- The tokens of `Lexer::lex` (src/lexer/lexer.cc) as steps over the text, and that the fuel of the
-- model's loops is enough.
pub mod Tokens
pub mod Comments
pub mod Trivia
pub mod Places
use c_cloth.Base.{
  ℕ, zero, suc, ◌+◌, ◌-◌, ◌≤◌, ◌<◌, ◌≡◌, ◌≢◌, refl, ap, ◌∙◌, sym, ◌⊎◌, inl, inr, Bool, true, false,
  ◌==◌, ◌&&◌, ◌||◌, List, [], ◌∷◌, length, length-drop, take, drop, Option, some, none, Bool-cases,
  arith, if◌then◌else◌,
}
use c_cloth.Base.Text.{Bytes}
use c_cloth.Token.{TokenKind, eof}
use c_cloth.Source.{DiagnosticEngine}
use c_cloth.Literal.{string, character}
use c_cloth.Lexer.{
  Cursor, Token, advance, advance_while, at_end, is_identifier_start, is_identifier_continue,
  is_digit, current_location, make_token,
}
use c_cloth.Lexer.Scan.{
  Ignored, nothing, blank, line_comment, block_comment, ignored, skip_loop, skip_ignored,
  line_comment_end, block_comment_end, scan_number, scan_text,
}
use c_cloth.Lexer.Lex.{
  scan_identifier, scan_operator, operator_or_report, scan_token, Scanned, operator, operator_case,
  lex_loop, add_token,
}
use c_cloth.Lexer.Moves.{
  Moves, Text-cases, advances-rest, Moves-refl, Moves-trans, Moves-advance, Moves-twice,
  advance-rest, advance_while-Moves,
}
use c_cloth.Lexer.Moves.Scanners.{
  line_comment_end-Moves, block_comment_end-Moves, number_end-Moves, text_end-Moves, Moved,
  operator-Moves,
}

pub Moves-length : {s t : Cursor} → Moves s t → length t.rest ≤ length s.rest
Moves-length {s} {t} (n, h, e) = omega (
  arith,
  ap (λ x. length x.rest) e,
  ap (λ x. length x) (advances-rest n s h).0,
  length-drop n s.rest,
)

behind :
    (s : Cursor) (c : ℕ) (text : Bytes)
    → s.rest ≡ c ∷ text
    → length (advance s).rest < length s.rest
behind s c text e =
    omega (arith, ap (λ x. length x) e, ap (λ x. length x) (advance-rest s c text e).0)

abbrev pub Skips : Cursor → Cursor → Type 0
Skips s t = Moves s t × (ignored t.rest ≡ nothing)

not_empty :
    (s : Cursor) (i : Ignored)
    → ignored s.rest ≡ i
    → (i ≡ nothing) ⊎ ((c : ℕ) × (text : Bytes) × (s.rest ≡ c ∷ text))
unfolding ignored
not_empty s i e = elim (Text-cases s.rest) [ inl n ↦ inl (sym e ∙ ap ignored n) | inr c ↦ inr c ]

module _ (fuel : ℕ) (file : Bytes) (s : Cursor) (engine : DiagnosticEngine)
    (h : length s.rest < suc fuel)
    (ih : (t : Cursor) → length t.rest < fuel → Skips t (skip_loop fuel file t engine).0) where
  -- A round that goes on from a cursor behind the first character.
  further :
      (t : Cursor) (i : Ignored)
      → Moves (advance s) t
      → ignored s.rest ≡ i
      → i ≢ nothing
      → Skips s (skip_loop fuel file t engine).0
  further t i m e ne = elim (not_empty s i e) [
    | inl n ↦ absurd (ne n)
    | inr (c, text, x) ↦
        let r = ih t (omega (arith, behind s c text x, Moves-length m)) in
        (Moves-trans (Moves-advance s) (Moves-trans m r.0), r.1)
  ]

  skip_round : (i : Ignored) → ignored s.rest ≡ i → Skips s (skip_loop (suc fuel) file s engine).0
  unfolding skip_loop
  skip_round nothing e = rw (e, skip_loop) (Moves-refl s, e)
  skip_round blank e =
      rw (e, skip_loop) (further (advance s) blank (Moves-refl (advance s)) e (λ x. cc))
  skip_round line_comment e =
      rw (e, skip_loop)
        (further (line_comment_end s) line_comment
          (Moves-trans (Moves-advance (advance s)) (line_comment_end-Moves s)) e (λ x. cc))
  skip_round block_comment e =
      let t = block_comment_end s in
      let m = Moves-trans (Moves-advance (advance s)) (block_comment_end-Moves s) in
      elim (Text-cases t.rest) [
        | inl n ↦ rw (e, skip_loop) (rw n (Moves-trans (Moves-advance s) m, ap ignored n))
        | inr (c, text, x) ↦
            rw (e, skip_loop)
              (rw x (
                further (advance (advance t)) block_comment (Moves-trans m (Moves-twice t)) e
                  (λ y. cc)))
      ]

skip_loop-Skips :
    (fuel : ℕ) (file : Bytes) (s : Cursor) (engine : DiagnosticEngine)
    → length s.rest < fuel
    → Skips s (skip_loop fuel file s engine).0
skip_loop-Skips zero file s engine h = absurd (omega arith)
skip_loop-Skips (suc fuel) file s engine h =
    skip_round fuel file s engine h (λ t. skip_loop-Skips fuel file t engine) (ignored s.rest) refl

-- `skip_ignored` only advances, and stops where neither a blank nor a comment begins.
pub skip_ignored-Skips :
    (file : Bytes) (s : Cursor) (engine : DiagnosticEngine) → Skips s (skip_ignored file s engine).0
unfolding skip_ignored
skip_ignored-Skips file s engine = skip_loop-Skips (suc (length s.rest)) file s engine (omega arith)

-- A token from one cursor to another.
abbrev pub TokenOf : Bytes → Cursor → Cursor → Option Token → Type 0
TokenOf file s t none = Unit
TokenOf file s t (some token) =
    (token.lexeme ≡ take (t.current - s.current) s.rest)
    × (token.range ≡ record { begin = current_location file s; end = current_location file t })

operator_or_report-Moves :
    (file : Bytes) (c : ℕ) (s : Cursor) (engine : DiagnosticEngine)
    (o : Option (TokenKind × Cursor))
    → Moved (advance s) o
    → let r = operator_or_report file c s engine o in
      Moves (advance s) r.cursor × TokenOf file s r.cursor r.token
unfolding operator_or_report
operator_or_report-Moves file c s engine (some (kind, t)) m = (m, (refl, refl))
operator_or_report-Moves file c s engine none m = (Moves-refl (advance s), tt)

-- One round reads a token or skips a character.
pub scan_token-Moves :
    (file : Bytes) (c : ℕ) (s : Cursor) (engine : DiagnosticEngine)
    → let r = scan_token file c s engine in
      Moves (advance s) r.cursor × TokenOf file s r.cursor r.token
unfolding scan_token scan_identifier scan_number scan_text scan_operator
scan_token-Moves file c s engine = elim (Bool-cases (is_identifier_start c)) [
  | inl b ↦
      rw b
        (advance_while-Moves is_identifier_continue (advance s).rest (advance s) refl, (refl, refl))
  | inr b ↦ rw b (elim (Bool-cases (is_digit c)) [
    | inl d ↦ rw d (number_end-Moves c (advance s), (refl, refl))
    | inr d ↦ rw d (elim (Bool-cases (c == b'"')) [
      | inl q ↦ rw q (text_end-Moves b'"' (advance s).rest (advance s) refl, (refl, refl))
      | inr q ↦ rw q (elim (Bool-cases (c == b'\'')) [
        | inl a ↦ rw a (text_end-Moves b'\'' (advance s).rest (advance s) refl, (refl, refl))
        | inr a ↦ rw a (
            operator_or_report-Moves file c s engine (operator (operator_case c) (advance s))
              (operator-Moves (operator_case c) (advance s)))
      ])
    ])
  ])
]
