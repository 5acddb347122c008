-- ===== src/Lexer/Chain/Comments.antt =====
-- Where the loops of `Lexer::skip_ignored` (src/lexer/lexer.cc) over a comment end.
use c_cloth.Base.{
  ℕ, ◌≡◌, ◌≢◌, refl, ap, ◌∙◌, sym, ◌⊎◌, inl, inr, true, false, not, ◌==◌, ◌&&◌, [], ◌∷◌, ◌++◌, All,
  Bool-cases, arith,
}
use c_cloth.Base.Text.{Bytes}
use c_cloth.Lexer.{Cursor, advance, advance_while, is_newline}
use c_cloth.Lexer.Scan.{skip_block}
use c_cloth.Lexer.Moves.{advance-rest}

abbrev pub IsBreak : ℕ → Type 0
IsBreak c = (c ≡ b'\r') ⊎ (c ≡ b'\n')

-- The text is at its end or at the end of a line.
abbrev pub EndsLine : Bytes → Type 0
EndsLine [] = Unit
EndsLine (c ∷ text) = IsBreak c

-- An asterisk before a slash stands in the text.
pub data Closes : Bytes → Type 0 where
  here : (c d : ℕ) (text : Bytes) → c ≡ b'*' → d ≡ b'/' → Closes (c ∷ d ∷ text)
  later : (c : ℕ) (text : Bytes) → Closes text → Closes (c ∷ text)

pub both_eq : (a b x y : ℕ) → a == x && b == y ≡ true → (a ≡ x) × (b ≡ y)
both_eq a b x y h = ground arith

pub not_both : (a b x y : ℕ) → a == x && b == y ≡ false → a ≡ x → b ≡ y → ⊥
not_both a b x y h p q = ground arith

-- What a step over a character that begins no closing leaves of the search for one.
not-Closes-cons :
    (c d : ℕ) (text : Bytes)
    → (c ≡ b'*' → d ≡ b'/' → ⊥)
    → ¬ Closes (d ∷ text)
    → ¬ Closes (c ∷ d ∷ text)
not-Closes-cons c d text f g (here _ _ _ p q) = f p q
not-Closes-cons c d text f g (later _ _ h) = g h

not-Closes-nil : ¬ Closes []
not-Closes-nil h = not_closed [] h refl
  where
    not_closed : (text : Bytes) → Closes text → text ≡ [] → ⊥
    not_closed text (here c d rest p q) e = cc
    not_closed text (later c rest h) e = cc

not-Closes-one : (c : ℕ) → ¬ Closes (c ∷ [])
not-Closes-one c (later _ _ h) = not-Closes-nil h

-- Where the loop of a line comment ends.
pub advance_while-split :
    (text : Bytes) (s : Cursor)
    → s.rest ≡ text
    → let rest = (advance_while (λ c. not (is_newline c)) text s).rest in
      (body : Bytes) × (text ≡ body ++ rest) × All (λ c. ¬ IsBreak c) body × EndsLine rest
unfolding advance_while
advance_while-split [] s e = ([], sym e, tt, rw e tt)
advance_while-split (c ∷ text) s e = elim (Bool-cases (is_newline c)) [
  | inl b ↦ rw (b, advance_while) ([], sym e, tt, rw e (newline-IsBreak c b))
  | inr b ↦
      let (body, same, all, ends) =
        advance_while-split text (advance s) (advance-rest s c text e).0 in
      rw (b, advance_while) (c ∷ body, ap (λ x. c ∷ x) same, (not_newline c b, all), ends)
]
  where
    newline-IsBreak : (c : ℕ) → is_newline c ≡ true → IsBreak c
    newline-IsBreak c h = ground arith

    not_newline : (c : ℕ) → is_newline c ≡ false → ¬ IsBreak c
    not_newline c h (inl e) = ground arith
    not_newline c h (inr e) = ground arith

-- The second text is the end of the first, or what follows the comment up to its first closing.
abbrev pub ClosedBy : Bytes → Bytes → Type 0
ClosedBy text rest =
    ((rest ≡ []) × (¬ Closes text))
    ⊎ ((body : Bytes) × (tail : Bytes) × (rest ≡ b'*' ∷ b'/' ∷ tail)
        × (text ≡ body ++ b'*' ∷ b'/' ∷ tail)
        × (¬ Closes (body ++ b'*' ∷ [])))

distinct : (c : ℕ) → c ≡ b'*' → c ≢ b'/'
distinct c p q = omega (arith, p, q)

first_eq : {c d : ℕ} {text rest : Bytes} → c ∷ text ≡ d ∷ rest → c ≡ d
first_eq e = cc

-- A character more before what is searched.
first_closing :
    (c d : ℕ) (text body tail : Bytes)
    → (c ≡ b'*' → d ≡ b'/' → ⊥)
    → d ∷ text ≡ body ++ b'*' ∷ b'/' ∷ tail
    → ¬ Closes (body ++ b'*' ∷ [])
    → ¬ Closes (c ∷ body ++ b'*' ∷ [])
first_closing c d text [] tail f same g = not-Closes-cons c b'*' [] (λ p. distinct b'*' refl) g
first_closing c d text (x ∷ body) tail f same g =
    not-Closes-cons c x (body ++ b'*' ∷ []) (λ p q. f p (first_eq same ∙ q)) g

longer :
    (c d : ℕ) (text rest : Bytes)
    → (c ≡ b'*' → d ≡ b'/' → ⊥)
    → ClosedBy (d ∷ text) rest
    → ClosedBy (c ∷ d ∷ text) rest
longer c d text rest f (inl (e, g)) = inl (e, not-Closes-cons c d text f g)
longer c d text rest f (inr (body, tail, e, same, g)) =
    inr (c ∷ body, tail, e, ap (λ x. c ∷ x) same, first_closing c d text body tail f same g)

-- Where the loop of a block comment ends: at the first closing, or at the end.
pub skip_block-split :
    (text : Bytes) (s : Cursor) → s.rest ≡ text → ClosedBy text (skip_block text s).rest
unfolding skip_block
skip_block-split [] s e = inl (e, not-Closes-nil)
skip_block-split (c ∷ []) s e = inl ((advance-rest s c [] e).0, not-Closes-one c)
skip_block-split (c ∷ d ∷ text) s e = elim (Bool-cases (c == b'*' && d == b'/')) [
  | inl b ↦
      let k = both_eq c d b'*' b'/' b in
      rw (b, skip_block)
        (inr ([], text, e ∙ rw (k.0, k.1) refl, rw (k.0, k.1) refl, not-Closes-one b'*'))
  | inr b ↦
      let f = not_both c d b'*' b'/' b in
      rw (b, skip_block)
        (longer c d text _ f
          (skip_block-split (d ∷ text) (advance s) (advance-rest s c (d ∷ text) e).0))
]
