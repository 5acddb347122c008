-- ===== src/Lexer/Chain/Places.antt =====
-- Where the tokens of `Lexer::lex` (src/lexer/lexer.cc) stand in the text.
use c_cloth.Base.{
  ℕ, zero, suc, ◌+◌, ◌-◌, ◌≤◌, ◌<◌, ◌≡◌, refl, ap, ◌∙◌, inl, inr, Bool, false, not, ◌&&◌, ◌==◌,
  List, [], ◌∷◌, ◌++◌, length, length-drop, take, drop, some, All, arith, ◌^◌, if◌then◌else◌,
}
use c_cloth.Base.Words.{u32}
use c_cloth.Base.Text.{Bytes}
use c_cloth.Token.{eof}
use c_cloth.Lexer.{Cursor, Token, start_cursor, advance, advance_over, make_token}
use c_cloth.Lexer.Lex.{lex}
use c_cloth.Lexer.Moves.{
  Moves, advances, Text-cases, advances-rest, advance-rest, advance-cons, Moves-refl, Moves-trans,
}
use c_cloth.Lexer.Chain.{TokenOf}
use c_cloth.Lexer.Chain.Tokens.{Lexes, end, pass, read, lex-Lexes, Moves-current}

-- The line breaks of a text: carriage returns, and line feeds that do not follow one. The flag is
-- whether a carriage return comes before.
abbrev pub breaks : Bool → Bytes → ℕ
breaks after_return [] = 0
breaks after_return (c ∷ text) =
    (if c == b'\r' then 1 else if c == b'\n' && not after_return then 1 else 0)
    + breaks (c == b'\r') text

advance_over-line :
    (c : ℕ) (text : Bytes) (s : Cursor)
    → s.line < 2 ^ 32
    → ((advance_over c text s).line
        ≡ u32 (
            s.line
            + (if c == b'\r'
                then 1
                else if c == b'\n' && not s.previous_was_carriage_return
                then 1
                else 0)))
      × ((advance_over c text s).previous_was_carriage_return ≡ (c == b'\r'))
unfolding advance_over
advance_over-line c text s h = ground arith

u32-add : (a b c : ℕ) → u32 (u32 (a + b) + c) ≡ u32 (a + (b + c))
u32-add a b c = ground arith

advances-line :
    (n : ℕ) (s : Cursor)
    → n ≤ length s.rest
    → s.line < 2 ^ 32
    → (advances n s).line ≡ u32 (s.line + breaks s.previous_was_carriage_return (take n s.rest))
advances-line zero s h l = ground arith
advances-line (suc n) s h l = elim (Text-cases s.rest) [
  | inl e ↦ absurd (omega (arith, ap (λ t. length t) e))
  | inr (c, text, e) ↦
      let a = advance_over-line c text s l in
      let r = advance-rest s c text e in
      let same = advance-cons s c text e in
      let line = ap (λ x. x.line) same ∙ a.0 in
      let return = ap (λ x. x.previous_was_carriage_return) same ∙ a.1 in
      let ih =
        advances-line n (advance s) (omega (arith, ap (λ t. length t) e, ap (λ t. length t) r.0))
          (omega (arith, line)) in
      ih ∙ rw (line, return, r.0, e) (u32-add s.line _ _)
]

-- A token is a piece of the text at its offsets, and its line is one more than the line breaks before
-- it, in 32 bits.
abbrev pub Placed : Bytes → Token → Type 0
Placed input token =
    (token.range.begin.byte_offset ≤ token.range.end.byte_offset)
    × (token.range.end.byte_offset ≤ length input)
    × (token.lexeme
        ≡ take (token.range.end.byte_offset - token.range.begin.byte_offset)
            (drop token.range.begin.byte_offset input))
    × (token.range.begin.line ≡ u32 (1 + breaks false (take token.range.begin.byte_offset input)))

token-Placed :
    (file input : Bytes) (s t : Cursor) (token : Token)
    → Moves (start_cursor input) s
    → Moves s t
    → TokenOf file s t (some token)
    → Placed input token
token-Placed file input s t token (n, h, e) m (lexeme, range) =
    let a = advances-rest n (start_cursor input) h in
    let rest = ap (λ x. x.rest) e ∙ a.0 in
    let offset : s.current ≡ n = ap (λ x. x.current) e ∙ a.1 ∙ omega arith in
    let line = ap (λ x. x.line) e ∙ advances-line n (start_cursor input) h (omega arith) in
    let (k, b, f) = Moves-trans {s = start_cursor input} {t = s} {u = t} (n, h, e) m in
    let c = advances-rest k (start_cursor input) b in
    rw range (
      Moves-current m,
      omega (arith, ap (λ x. x.current) f, c.1),
      lexeme ∙ rw (rest, offset) refl,
      line ∙ rw offset refl,
    )

Lexes-Placed :
    (file input : Bytes) (s : Cursor) (tokens : List Token)
    → Lexes file s tokens
    → Moves (start_cursor input) s
    → All (Placed input) tokens
Lexes-Placed file input _ _ (end s e) p =
    (token-Placed file input s s (make_token file eof s s) p (Moves-refl s) (refl, refl), tt)
Lexes-Placed file input _ _ (pass s t tokens m r) p =
    Lexes-Placed file input t tokens r (Moves-trans p m)
Lexes-Placed file input _ _ (read s t token ts m lt k r) p =
    (token-Placed file input s t token p m k, Lexes-Placed file input t ts r (Moves-trans p m))

-- Each token of a run of the lexer is the piece of the text between its two offsets, which lie within
-- the text, and its line is one more than the number of line breaks before it, modulo 2^32.
pub lex-Placed : (file input : Bytes) → All (Placed input) (lex file input).0
lex-Placed file input =
    Lexes-Placed file input (start_cursor input) (lex file input).0 (lex-Lexes file input)
      (Moves-refl (start_cursor input))

-- Tokens from an offset on, none before the end of the one before.
abbrev pub Ordered : ℕ → List Token → Type 0
Ordered offset [] = Unit
Ordered offset (token ∷ tokens) =
    (offset ≤ token.range.begin.byte_offset) × Ordered token.range.end.byte_offset tokens

Lexes-Ordered :
    (file : Bytes) (s : Cursor) (tokens : List Token) (offset : ℕ)
    → Lexes file s tokens
    → offset ≤ s.current
    → Ordered offset tokens
Lexes-Ordered file _ _ offset (end s e) h = (h, tt)
Lexes-Ordered file _ _ offset (pass s t tokens m r) h =
    Lexes-Ordered file t tokens offset r (omega (arith, Moves-current m))
Lexes-Ordered file _ _ offset (read s t token ts m lt (lexeme, range) r) h =
    rw range (h, Lexes-Ordered file t ts t.current r (omega arith))

-- The tokens are in the order of the text and do not overlap.
pub lex-Ordered : (file input : Bytes) → Ordered 0 (lex file input).0
lex-Ordered file input =
    Lexes-Ordered file (start_cursor input) (lex file input).0 0 (lex-Lexes file input)
      (omega arith)

-- The tokens before the last are not empty, and the last is the end of the file at this offset.
abbrev pub EndsAt : ℕ → List Token → Type 0
EndsAt offset tokens =
    (before : List Token) × (last : Token) × (tokens ≡ before ++ last ∷ [])
    × All (λ token. token.range.begin.byte_offset < token.range.end.byte_offset) before
    × (last.kind ≡ eof)
    × (last.lexeme ≡ [])
    × (last.range.begin.byte_offset ≡ offset)

-- A move keeps the offset of the end of the text.
Moves-end : {s t : Cursor} → Moves s t → t.current + length t.rest ≡ s.current + length s.rest
Moves-end {s} {t} (n, h, e) =
    let a = advances-rest n s h in
    omega (
      arith,
      ap (λ x. x.current) e,
      ap (λ x. length x.rest) e,
      a.1,
      ap (λ x. length x) a.0,
      length-drop n s.rest,
    )

empty_slice : (n : ℕ) (text : Bytes) → take (n - n) text ≡ []
empty_slice n text = let none_left : n - n ≡ 0 = omega arith in rw none_left refl

Lexes-EndsAt :
    (file : Bytes) (s : Cursor) (tokens : List Token) (offset : ℕ)
    → Lexes file s tokens
    → s.current + length s.rest ≡ offset
    → EndsAt offset tokens
Lexes-EndsAt file _ _ offset (end s e) h = (
  [],
  make_token file eof s s,
  refl,
  tt,
  refl,
  empty_slice s.current s.rest,
  omega (arith, ap (λ x. length x) e),
)
Lexes-EndsAt file _ _ offset (pass s t tokens m r) h =
    Lexes-EndsAt file t tokens offset r (omega (arith, Moves-end m))
Lexes-EndsAt file _ _ offset (read s t token ts m lt (lexeme, range) r) h =
    let (before, last, eq, full, kind, empty, place) =
      Lexes-EndsAt file t ts offset r (omega (arith, Moves-end m)) in
    (token ∷ before, last, ap (◌∷◌ token) eq, (rw range lt, full), kind, empty, place)

-- The lexer ends: its tokens before the last are not empty, and the last is the end of the file, at
-- the end of the text.
pub lex-EndsAt : (file input : Bytes) → EndsAt (length input) (lex file input).0
lex-EndsAt file input =
    Lexes-EndsAt file (start_cursor input) (lex file input).0 (length input) (lex-Lexes file input)
      (omega arith)
