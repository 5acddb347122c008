-- ===== src/Lexer/Moves.antt =====
-- How the functions of src/lexer/lexer.cc move the cursor: by calls of `advance`, within the text.
pub mod Scanners
use c_cloth.Base.{
  ℕ, zero, suc, ◌+◌, ◌-◌, ◌≤◌, ◌<◌, ◌≡◌, refl, ap, ◌∙◌, sym, ◌⊎◌, inl, inr, Bool, true, false, ◌==◌,
  ◌&&◌, List, [], ◌∷◌, length, length-drop, drop, Bool-cases, arith, if◌then◌else◌,
}
use c_cloth.Base.Text.{Bytes}
use c_cloth.Lexer.{Cursor, advance, advance_over, advance_while}

abbrev pub advances : ℕ → Cursor → Cursor
advances zero s = s
advances (suc n) s = advances n (advance s)

-- From the first cursor to the second by so many calls of `advance`, each at a character.
abbrev pub Moves : Cursor → Cursor → Type 0
Moves s t = (n : ℕ) × (n ≤ length s.rest) × (t ≡ advances n s)

pub Text-cases : (text : Bytes) → (text ≡ []) ⊎ ((c : ℕ) × (rest : Bytes) × (text ≡ c ∷ rest))
Text-cases [] = inl refl
Text-cases (c ∷ rest) = inr (c, rest, refl)

pub advance-cons :
    (s : Cursor) (c : ℕ) (text : Bytes) → s.rest ≡ c ∷ text → advance s ≡ advance_over c text s
unfolding advance
advance-cons s c text e = rw e refl

advance_over-rest :
    (c : ℕ) (text : Bytes) (s : Cursor)
    → ((advance_over c text s).rest ≡ text) × ((advance_over c text s).current ≡ suc s.current)
unfolding advance_over
advance_over-rest c text s = ground arith

pub advance-rest :
    (s : Cursor) (c : ℕ) (text : Bytes)
    → s.rest ≡ c ∷ text
    → ((advance s).rest ≡ text) × ((advance s).current ≡ suc s.current)
advance-rest s c text e = rw (advance-cons s c text e) (advance_over-rest c text s)

pub advances-rest :
    (n : ℕ) (s : Cursor)
    → n ≤ length s.rest
    → ((advances n s).rest ≡ drop n s.rest) × ((advances n s).current ≡ s.current + n)
advances-rest zero s h = (refl, omega arith)
advances-rest (suc n) s h = elim (Text-cases s.rest) [
  | inl e ↦ absurd (omega (arith, ap (λ t. length t) e))
  | inr (c, text, e) ↦
      let a = advance-rest s c text e in
      let ih =
        advances-rest n (advance s) (omega (arith, ap (λ t. length t) e, ap (λ t. length t) a.0)) in
      (ih.0 ∙ rw (a.0, e) refl, ih.1 ∙ omega (arith, a.1))
]

advances-add : (m n : ℕ) (s : Cursor) → advances (m + n) s ≡ advances n (advances m s)
advances-add zero n s = rw (zero_add n) refl
  where
    zero_add : (n : ℕ) → zero + n ≡ n
    zero_add n = omega arith
advances-add (suc m) n s = rw (suc_add m n) (advances-add m n (advance s))
  where
    suc_add : (m n : ℕ) → suc m + n ≡ suc (m + n)
    suc_add m n = omega arith

pub Moves-refl : (s : Cursor) → Moves s s
Moves-refl s = (0, omega arith, refl)

pub Moves-trans : {s t u : Cursor} → Moves s t → Moves t u → Moves s u
Moves-trans {s} {t} {u} (m, hm, em) (n, hn, en) =
    let r = advances-rest m s hm in
    (
      m + n,
      omega (arith, length-drop m s.rest, ap (λ x. length x) r.0, ap (λ x. length x.rest) em),
      en ∙ ap (λ x. advances n x) em ∙ sym (advances-add m n s),
    )

pub Moves-advance : (s : Cursor) → Moves s (advance s)
Moves-advance s = elim (Text-cases s.rest) [
  | inl e ↦ (0, omega arith, unfold advance in rw e refl)
  | inr (c, text, e) ↦ (1, omega (arith, ap (λ t. length t) e), refl)
]

pub Moves-if : {s t u : Cursor} (b : Bool) → Moves s t → Moves s u → Moves s (if b then t else u)
Moves-if true f g = f
Moves-if false f g = g

pub Moves-twice : (s : Cursor) → Moves s (advance (advance s))
Moves-twice s = Moves-trans (Moves-advance s) (Moves-advance (advance s))

pub advance_while-Moves :
    (p : ℕ → Bool) (text : Bytes) (s : Cursor) → s.rest ≡ text → Moves s (advance_while p text s)
unfolding advance_while
advance_while-Moves p [] s e = Moves-refl s
advance_while-Moves p (c ∷ text) s e = elim (Bool-cases (p c)) [
  | inl b ↦
      rw (b, advance_while)
        (Moves-trans (Moves-advance s)
          (advance_while-Moves p text (advance s) (advance-rest s c text e).0))
  | inr b ↦ rw (b, advance_while) (Moves-refl s)
]
