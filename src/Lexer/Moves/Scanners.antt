-- ===== src/Lexer/Moves/Scanners.antt =====
-- The moves of the scanners of src/lexer/lexer.cc.
use c_cloth.Base.{
  ℕ, ◌≡◌, refl, inl, inr, Bool, true, false, ◌==◌, ◌&&◌, ◌||◌, [], ◌∷◌, Option, some, none,
  Bool-cases, if◌then◌else◌,
}
use c_cloth.Base.Text.{Bytes}
use c_cloth.Token.{TokenKind}
use c_cloth.Lexer.{Cursor, advance, is_digit, is_identifier_continue, is_newline, next_is, peek}
use c_cloth.Lexer.Scan.{
  skip_block, line_comment_end, block_comment_end, identifier_end, number_digits, fraction_end,
  sign_end, exponent_end, number_end, text_end,
}
use c_cloth.Lexer.Lex.{
  OperatorCase, unexpected, one, or_next, or_either, or_twice, operator, match_next,
}
use c_cloth.Lexer.Moves.{
  Moves, Moves-refl, Moves-trans, Moves-advance, Moves-twice, Moves-if, advance-rest,
  advance_while-Moves,
}

skip_block-Moves : (text : Bytes) (s : Cursor) → s.rest ≡ text → Moves s (skip_block text s)
unfolding skip_block
skip_block-Moves [] s e = Moves-refl s
skip_block-Moves (c ∷ []) s e = Moves-advance s
skip_block-Moves (c ∷ d ∷ text) s e = elim (Bool-cases (c == b'*' && d == b'/')) [
  | inl b ↦ rw (b, skip_block) (Moves-refl s)
  | inr b ↦
      rw (b, skip_block)
        (Moves-trans (Moves-advance s)
          (skip_block-Moves (d ∷ text) (advance s) (advance-rest s c (d ∷ text) e).0))
]

pub line_comment_end-Moves : (s : Cursor) → Moves (advance (advance s)) (line_comment_end s)
line_comment_end-Moves s =
    advance_while-Moves _ (advance (advance s)).rest (advance (advance s)) refl

pub block_comment_end-Moves : (s : Cursor) → Moves (advance (advance s)) (block_comment_end s)
block_comment_end-Moves s = skip_block-Moves (advance (advance s)).rest (advance (advance s)) refl

pub identifier_end-Moves : (s : Cursor) → Moves s (identifier_end s)
identifier_end-Moves s = advance_while-Moves is_identifier_continue s.rest s refl

number_digits-Moves : (s : Cursor) → Moves s (number_digits s)
number_digits-Moves s = advance_while-Moves _ s.rest s refl

fraction_end-Moves : (s : Cursor) → Moves s (fraction_end s)
fraction_end-Moves s =
    Moves-if (peek 0 s == b'.' && is_digit (peek 1 s))
      (Moves-trans (Moves-advance s) (number_digits-Moves (advance s))) (Moves-refl s)

sign_end-Moves : (s : Cursor) → Moves s (sign_end s)
sign_end-Moves s = Moves-if (peek 0 s == b'+' || peek 0 s == b'-') (Moves-advance s) (Moves-refl s)

exponent_end-Moves : (s : Cursor) → Moves s (exponent_end s)
exponent_end-Moves s =
    Moves-if (peek 0 s == b'e' || peek 0 s == b'E')
      (Moves-trans (Moves-advance s)
        (Moves-trans (sign_end-Moves (advance s)) (identifier_end-Moves (sign_end (advance s)))))
      (identifier_end-Moves s)

pub number_end-Moves : (c : ℕ) (s : Cursor) → Moves s (number_end c s)
unfolding number_end
number_end-Moves c s =
    Moves-if _ (Moves-trans (Moves-advance s) (identifier_end-Moves (advance s))) (
      Moves-trans (number_digits-Moves s) (
        Moves-trans (fraction_end-Moves (number_digits s))
          (exponent_end-Moves (fraction_end (number_digits s)))))

last_character :
    (a b : Bool) (s : Cursor)
    → let r : Cursor × Bool =
        if a then (advance s, true) else if b then (s, false) else (advance s, false) in
      Moves s r.0
last_character true b s = Moves-advance s
last_character false true s = Moves-refl s
last_character false false s = Moves-advance s

pub text_end-Moves :
    (delimiter : ℕ) (text : Bytes) (s : Cursor)
    → s.rest ≡ text
    → Moves s (text_end delimiter text s).0
unfolding text_end
text_end-Moves delimiter [] s e = Moves-refl s
text_end-Moves delimiter (c ∷ []) s e = last_character (c == delimiter) (is_newline c) s
text_end-Moves delimiter (c ∷ d ∷ text) s e =
    let after = advance-rest s c (d ∷ text) e in
    elim (Bool-cases (c == delimiter)) [
      | inl b ↦ rw (b, text_end) (Moves-advance s)
      | inr b ↦
          rw (b, text_end)
            (elim (Bool-cases (is_newline c)) [
              | inl n ↦ rw n (Moves-refl s)
              | inr n ↦ rw n (elim (Bool-cases (c == b'\\')) [
                | inr k ↦ rw k (
                    Moves-trans (Moves-advance s)
                      (text_end-Moves delimiter (d ∷ text) (advance s) after.0))
                | inl k ↦ rw k (elim (Bool-cases (is_newline d)) [
                  | inl l ↦ rw l (Moves-advance s)
                  | inr l ↦ rw l (
                      Moves-trans (Moves-twice s) (
                        text_end-Moves delimiter text (advance (advance s))
                          (advance-rest (advance s) d text after.0).0))
                ])
              ])
            ])
    ]

match_next-Moves :
    (c : ℕ) (matched kind : TokenKind) (s : Cursor) → Moves s (match_next c matched kind s).1
unfolding match_next
match_next-Moves c matched kind s = elim (Bool-cases (next_is c s)) [
  | inl b ↦ rw b (Moves-advance s)
  | inr b ↦ rw b (Moves-refl s)
]

-- The cursor behind an operator, if there is one.
abbrev pub Moved : Cursor → Option (TokenKind × Cursor) → Type 0
Moved s none = Unit
Moved s (some (kind, t)) = Moves s t

Moved-if :
    (s : Cursor) (b : Bool) (x y : TokenKind × Cursor)
    → Moves s x.1
    → Moves s y.1
    → Moved s (if b then some x else some y)
Moved-if s true x y f g = f
Moved-if s false x y f g = g

pub operator-Moves : (o : OperatorCase) (s : Cursor) → Moved s (operator o s)
unfolding operator
operator-Moves unexpected s = tt
operator-Moves (one kind) s = Moves-refl s
operator-Moves (or_next c matched kind) s = match_next-Moves c matched kind s
operator-Moves (or_either c first d second kind) s =
    Moved-if s (next_is c s) (first, advance s) (match_next d second kind s) (Moves-advance s)
      (match_next-Moves d second kind s)
operator-Moves (or_twice c shift_equal shift kind_equal kind) s =
    Moved-if s (next_is c s) (match_next b'=' shift_equal shift (advance s))
      (match_next b'=' kind_equal kind s)
      (Moves-trans (Moves-advance s) (match_next-Moves b'=' shift_equal shift (advance s)))
      (match_next-Moves b'=' kind_equal kind s)
