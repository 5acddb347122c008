-- ===== src/Lexer/Chain/Trivia.antt =====
-- What `Lexer::skip_ignored` (src/lexer/lexer.cc) skips: blanks and comments, to the first character
-- that begins neither.
use mathlib.Core.Path.{subst}
use c_cloth.Base.{
  ℕ, zero, suc, ◌<◌, ◌≡◌, refl, ◌∙◌, sym, ◌⊎◌, inl, inr, Bool, true, false, ◌==◌, ◌&&◌, ◌||◌, [],
  ◌∷◌, ◌++◌, length, All, Bool-cases, arith,
}
use c_cloth.Base.Text.{Bytes}
use c_cloth.Source.{DiagnosticEngine}
use c_cloth.Lexer.{Cursor, advance}
use c_cloth.Lexer.Scan.{
  Ignored, nothing, blank, line_comment, block_comment, ignored, skip_loop, skip_ignored,
  line_comment_end, block_comment_end,
}
use c_cloth.Lexer.Moves.{Moves, advance-rest, Moves-advance, Moves-refl, Moves-twice, Moves-trans}
use c_cloth.Lexer.Moves.Scanners.{line_comment_end-Moves, block_comment_end-Moves}
use c_cloth.Lexer.Chain.{Moves-length, behind, skip_ignored-Skips}
use c_cloth.Lexer.Chain.Comments.{
  IsBreak, EndsLine, Closes, both_eq, not_both, advance_while-split, skip_block-split,
}

abbrev pub IsBlank : ℕ → Type 0
IsBlank c = (c ≡ b' ') ⊎ (c ≡ b'\t') ⊎ IsBreak c

-- The text begins with a blank or with what opens a comment.
abbrev pub BeginsTrivia : Bytes → Type 0
BeginsTrivia [] = ⊥
BeginsTrivia (c ∷ []) = IsBlank c
BeginsTrivia (c ∷ d ∷ text) = IsBlank c ⊎ ((c ≡ b'/') × ((d ≡ b'/') ⊎ (d ≡ b'*')))

-- From the first text to the second there are only blanks and comments, and the second begins with neither.
pub data Trivia : Bytes → Bytes → Type 0 where
  done : (text : Bytes) → ¬ BeginsTrivia text → Trivia text text
  blank_then :
      (c : ℕ) (text : Bytes) {rest : Bytes} → IsBlank c → Trivia text rest → Trivia (c ∷ text) rest
  line_then :
      (body text : Bytes) {rest : Bytes}
      → All (λ c. ¬ IsBreak c) body
      → EndsLine text
      → Trivia text rest
      → Trivia (b'/' ∷ b'/' ∷ body ++ text) rest
  block_then :
      (body text : Bytes) {rest : Bytes}
      → ¬ Closes (body ++ b'*' ∷ [])
      → Trivia text rest
      → Trivia (b'/' ∷ b'*' ∷ body ++ b'*' ∷ b'/' ∷ text) rest
  unterminated : (body : Bytes) → ¬ Closes body → Trivia (b'/' ∷ b'*' ∷ body) []

-- What the code finds at the beginning of a text.
data Begins : Bytes → Ignored → Type 0 where
  begins_nothing : (text : Bytes) → ¬ BeginsTrivia text → Begins text nothing
  begins_blank : (c : ℕ) (text : Bytes) → IsBlank c → Begins (c ∷ text) blank
  begins_line : (c d : ℕ) (text : Bytes) → c ≡ b'/' → d ≡ b'/' → Begins (c ∷ d ∷ text) line_comment
  begins_block :
      (c d : ℕ) (text : Bytes) → c ≡ b'/' → d ≡ b'*' → Begins (c ∷ d ∷ text) block_comment

is_blank : ℕ → Bool
is_blank c = c == b' ' || c == b'\t' || c == b'\r' || c == b'\n'

is_blank-IsBlank : (c : ℕ) → is_blank c ≡ true → IsBlank c
unfolding is_blank
is_blank-IsBlank c h = ground arith

not-is_blank : (c : ℕ) → is_blank c ≡ false → ¬ IsBlank c
unfolding is_blank
not-is_blank c h (inl e) = ground arith
not-is_blank c h (inr (inl e)) = ground arith
not-is_blank c h (inr (inr (inl e))) = ground arith
not-is_blank c h (inr (inr (inr e))) = ground arith

neither :
    (c d : ℕ)
    → is_blank c ≡ false
    → c == b'/' && d == b'/' ≡ false
    → c == b'/' && d == b'*' ≡ false
    → ¬ (IsBlank c ⊎ ((c ≡ b'/') × ((d ≡ b'/') ⊎ (d ≡ b'*'))))
neither c d b l k (inl e) = not-is_blank c b e
neither c d b l k (inr (e, inl x)) = not_both c d b'/' b'/' l e x
neither c d b l k (inr (e, inr x)) = not_both c d b'/' b'*' k e x

ignored-Begins : (text : Bytes) → Begins text (ignored text)
unfolding ignored is_blank
ignored-Begins [] = begins_nothing [] (λ h. h)
ignored-Begins (c ∷ []) = elim (Bool-cases (is_blank c)) [
  | inl b ↦ rw b (begins_blank c [] (is_blank-IsBlank c b))
  | inr b ↦ elim (Bool-cases (c == b'/')) [
    | inl e ↦ rw (b, e) (begins_nothing (c ∷ []) (not-is_blank c b))
    | inr e ↦ rw (b, e) (begins_nothing (c ∷ []) (not-is_blank c b))
  ]
]
ignored-Begins (c ∷ d ∷ text) = elim (Bool-cases (is_blank c)) [
  | inl b ↦ rw b (begins_blank c (d ∷ text) (is_blank-IsBlank c b))
  | inr b ↦ elim (Bool-cases (c == b'/' && d == b'/')) [
    | inl l ↦ let e = both_eq c d b'/' b'/' l in rw (b, l) (begins_line c d text e.0 e.1)
    | inr l ↦ elim (Bool-cases (c == b'/' && d == b'*')) [
      | inl k ↦ let e = both_eq c d b'/' b'*' k in rw (b, l, k) (begins_block c d text e.0 e.1)
      | inr k ↦ rw (b, l, k) (begins_nothing (c ∷ d ∷ text) (neither c d b l k))
    ]
  ]
]

module _ (fuel : ℕ) (file : Bytes) (s : Cursor) (engine : DiagnosticEngine)
    (h : length s.rest < suc fuel)
    (ih : (t : Cursor)
      → length t.rest < fuel
      → Trivia t.rest (skip_loop fuel file t engine).0.rest) where
  -- A round that goes on from a cursor behind the first character.
  goes_on :
      (t : Cursor) (c : ℕ) (text rest : Bytes)
      → s.rest ≡ c ∷ text
      → Moves (advance s) t
      → t.rest ≡ rest
      → Trivia rest (skip_loop fuel file t engine).0.rest
  goes_on t c text rest x m e =
      subst (λ r. Trivia r (skip_loop fuel file t engine).0.rest) e
        (ih t (omega (arith, behind s c text x, Moves-length m)))

  second : (c d : ℕ) (text : Bytes) → s.rest ≡ c ∷ d ∷ text → (advance (advance s)).rest ≡ text
  second c d text x = (advance-rest (advance s) d text (advance-rest s c (d ∷ text) x).0).0

  opened :
      {c d k : ℕ} {body text : Bytes}
      → c ≡ b'/'
      → d ≡ k
      → body ≡ text
      → b'/' ∷ k ∷ body ≡ c ∷ d ∷ text
  opened p q e = cc

  skip_round-Trivia :
      (text : Bytes) (i : Ignored)
      → s.rest ≡ text
      → ignored s.rest ≡ i
      → Begins text i
      → Trivia text (skip_loop (suc fuel) file s engine).0.rest
  unfolding skip_loop
  skip_round-Trivia _ _ x e (begins_nothing text n) = rw (e, skip_loop) (rw x (done text n))
  skip_round-Trivia _ _ x e (begins_blank c text b) =
      rw (e, skip_loop)
        (blank_then c text b
          (goes_on (advance s) c text text x (Moves-refl (advance s)) (advance-rest s c text x).0))
  skip_round-Trivia _ _ x e (begins_line c d text p q) =
      let u = advance (advance s) in
      let t = line_comment_end s in
      let (body, same, all, ends) = advance_while-split u.rest u refl in
      let m = Moves-trans (Moves-advance (advance s)) (line_comment_end-Moves s) in
      let from = line_then body t.rest all ends (goes_on t c (d ∷ text) t.rest x m refl) in
      rw (e, skip_loop)
        (subst (λ y. Trivia y (skip_loop fuel file t engine).0.rest)
          (opened p q (sym same ∙ second c d text x)) from)
  skip_round-Trivia _ _ x e (begins_block c d text p q) =
      let u = advance (advance s) in
      let t = block_comment_end s in
      let m = Moves-trans (Moves-advance (advance s)) (block_comment_end-Moves s) in
      elim (skip_block-split u.rest u refl) [
        | inl (n, g) ↦
            rw (e, skip_loop)
              (rw n (
                subst (λ r. Trivia (c ∷ d ∷ text) r) (sym n)
                  (subst (λ y. Trivia y []) (opened p q (second c d text x))
                    (unterminated u.rest g))))
        | inr (body, tail, r, same, g) ↦
            let v = advance (advance t) in
            let f =
              goes_on v c (d ∷ text) tail x (Moves-trans m (Moves-twice t))
                (advance-rest (advance t) b'/' tail (advance-rest t b'*' (b'/' ∷ tail) r).0).0 in
            rw (e, skip_loop)
              (rw r (
                subst (λ y. Trivia y (skip_loop fuel file v engine).0.rest)
                  (opened p q (sym same ∙ second c d text x)) (block_then body tail g f)))
      ]

skip_loop-Trivia :
    (fuel : ℕ) (file : Bytes) (s : Cursor) (engine : DiagnosticEngine)
    → length s.rest < fuel
    → Trivia s.rest (skip_loop fuel file s engine).0.rest
skip_loop-Trivia zero file s engine h = absurd (omega arith)
skip_loop-Trivia (suc fuel) file s engine h =
    skip_round-Trivia fuel file s engine h (λ t. skip_loop-Trivia fuel file t engine) s.rest
      (ignored s.rest) refl refl (ignored-Begins s.rest)

-- `skip_ignored` moves over the text by calls of `advance`, and what it moves over is exactly blanks (a
-- space, a tab, a carriage return, a line feed), comments from `//` to the end of the line or of the text,
-- and comments from `/*` to the first `*/`, or to the end of the text where there is none; it stops at the end
-- or where none of these begins. The fuel of the model is enough.
pub skip_ignored-Trivia :
    (file : Bytes) (s : Cursor) (engine : DiagnosticEngine)
    → let t = (skip_ignored file s engine).0 in Moves s t × Trivia s.rest t.rest
unfolding skip_ignored
skip_ignored-Trivia file s engine = (
  (skip_ignored-Skips file s engine).0,
  skip_loop-Trivia (suc (length s.rest)) file s engine (omega arith),
)
