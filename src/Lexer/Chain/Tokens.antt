-- ===== src/Lexer/Chain/Tokens.antt =====
-- The run of `Lexer::lex` (src/lexer/lexer.cc) as a relation, and what it says of the tokens.
use c_cloth.Base.{
  ℕ, zero, suc, ◌≤◌, ◌<◌, ◌≡◌, ap, inl, inr, List, [], ◌∷◌, length, Option, some, none, arith,
}
use c_cloth.Base.Text.{Bytes}
use c_cloth.Token.{eof}
use c_cloth.Source.{DiagnosticEngine, no_diagnostics}
use c_cloth.Lexer.{Cursor, Token, start_cursor, make_token}
use c_cloth.Lexer.Scan.{skip_ignored}
use c_cloth.Lexer.Lex.{scan_token, lex_loop, lex, add_token}
use c_cloth.Lexer.Moves.{Moves, Text-cases, advances-rest, Moves-trans, Moves-advance, advance-rest}
use c_cloth.Lexer.Chain.{skip_ignored-Skips, scan_token-Moves, TokenOf, Moves-length}

-- The steps of a run over a text: what is ignored or reported, a token that is not empty, and the end
-- of the text, where the last token stands.
pub data Lexes (file : Bytes) : Cursor → List Token → Type 0 where
  end : (s : Cursor) → s.rest ≡ [] → Lexes file s (make_token file eof s s ∷ [])
  pass :
      (s t : Cursor) (tokens : List Token) → Moves s t → Lexes file t tokens → Lexes file s tokens
  read :
      (s t : Cursor) (token : Token) (tokens : List Token)
      → Moves s t
      → s.current < t.current
      → TokenOf file s t (some token)
      → Lexes file t tokens
      → Lexes file s (token ∷ tokens)

pub Moves-current : {s t : Cursor} → Moves s t → s.current ≤ t.current
Moves-current {s} {t} (n, h, e) = omega (arith, ap (λ x. x.current) e, (advances-rest n s h).1)

-- A round's token, or what it passes over.
round :
    (file : Bytes) (s t : Cursor) (o : Option Token) (tokens : List Token)
    → Moves s t
    → s.current < t.current
    → TokenOf file s t o
    → Lexes file t tokens
    → Lexes file s (add_token o tokens)
round file s t none tokens m lt k r = pass s t tokens m r
round file s t (some token) tokens m lt k r = read s t token tokens m lt k r

lex_loop-Lexes :
    (fuel : ℕ) (file : Bytes) (s : Cursor) (engine : DiagnosticEngine)
    → length s.rest < fuel
    → Lexes file s (lex_loop fuel file s engine).0
unfolding lex_loop
lex_loop-Lexes zero file s engine h = absurd (omega arith)
lex_loop-Lexes (suc fuel) file s engine h =
    let skipped = skip_ignored file s engine in
    let t = skipped.0 in
    let m = (skip_ignored-Skips file s engine).0 in
    elim (Text-cases t.rest) [
      | inl e ↦ rw (e, lex_loop) (pass s t _ m (end t e))
      | inr (c, text, e) ↦
          let k = scan_token-Moves file c t skipped.1 in
          let a = advance-rest t c text e in
          let u = (scan_token file c t skipped.1).cursor in
          rw (e, lex_loop)
            (pass s t _ m (
              round file t u _ _ (Moves-trans (Moves-advance t) k.0)
                (omega (arith, a.1, Moves-current k.0)) k.1
                (lex_loop-Lexes fuel file u _ (
                  omega (
                    arith,
                    Moves-length m,
                    Moves-length k.0,
                    ap (λ x. length x) e,
                    ap (λ x. length x) a.0,
                  )))))
    ]

pub lex-Lexes : (file input : Bytes) → Lexes file (start_cursor input) (lex file input).0
unfolding lex
lex-Lexes file input =
    lex_loop-Lexes (suc (length input)) file (start_cursor input) no_diagnostics (omega arith)
