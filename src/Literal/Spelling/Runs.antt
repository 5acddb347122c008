-- ===== src/Literal/Spelling/Runs.antt =====
-- The runs of digits that `parse_base_literal` (src/lexer/literal.cc) reads, and their values.
use c_cloth.Base.{
  ℕ, zero, suc, ◌+◌, ◌*◌, ◌≤◌, ◌<◌, ◌≡◌, refl, ◌∙◌, ◌⊎◌, inl, inr, Bool, true, false, ◌==◌, ◌&&◌,
  ltb, [], ◌∷◌, get_or, All, Bool-cases, arith, if◌then◌else◌,
}
use c_cloth.Base.Text.{Bytes, codes}
use c_cloth.Literal.Digits.{
  digit_value, digits_without_separators, separators_between, is_valid_separator_run,
}
use c_cloth.Literal.Spelling.{digit_word, in_digit_run}
use c_cloth.Literal.Spelling.Value.{value_on}

-- The character is the digit of a base at the position of its value, in either case.
abbrev pub IsDigit : ℕ → ℕ → ℕ → Type 0
IsDigit base c d =
    (d < base)
    × ((get_or (codes "0123456789abcdef") d 0 ≡ c) ⊎ (get_or (codes "0123456789ABCDEF") d 0 ≡ c))

-- Digits with single separators between them, read from left to right from a value on.
pub data Digits (base : ℕ) : ℕ → Bytes → ℕ → Type 0 where
  last_digit : (value c d : ℕ) → IsDigit base c d → Digits base value (c ∷ []) (value * base + d)
  digit :
      (value c d : ℕ) (text : Bytes) {result : ℕ}
      → IsDigit base c d
      → Digits base (value * base + d) text result
      → Digits base value (c ∷ text) result
  separated :
      (value c d : ℕ) (text : Bytes) {result : ℕ}
      → IsDigit base c d
      → Digits base (value * base + d) text result
      → Digits base value (c ∷ b'_' ∷ text) result

all_below : ℕ → (ℕ → Bool) → Bool
all_below zero p = true
all_below (suc n) p = p n && all_below n p

all_below-true : (n : ℕ) (p : ℕ → Bool) (d : ℕ) → all_below n p ≡ true → d < n → p d ≡ true
unfolding all_below
all_below-true zero p d h l = absurd (omega arith)
all_below-true (suc n) p d h l = elim (Bool-cases (d == n)) [
  | inl e ↦ let same : d ≡ n = ground arith in rw same (ground arith)
  | inr e ↦ all_below-true n p d (ground arith) (ground arith)
]

lower_digit : ℕ → ℕ
lower_digit d = if ltb d 10 then d + b'0' else d + 87

upper_digit : ℕ → ℕ
upper_digit d = if ltb d 10 then d + b'0' else d + 55

eq_of : (a b : ℕ) → a == b ≡ true → a ≡ b
eq_of a b h = ground arith

lower_table : (d : ℕ) → d < 16 → get_or (codes "0123456789abcdef") d 0 ≡ lower_digit d
unfolding lower_digit all_below
lower_table d h =
    eq_of _ _
      (all_below-true 16 (λ x. get_or (codes "0123456789abcdef") x 0 == lower_digit x) d refl h)

upper_table : (d : ℕ) → d < 16 → get_or (codes "0123456789ABCDEF") d 0 ≡ upper_digit d
unfolding upper_digit all_below
upper_table d h =
    eq_of _ _
      (all_below-true 16 (λ x. get_or (codes "0123456789ABCDEF") x 0 == upper_digit x) d refl h)

run_below :
    (base c : ℕ)
    → base ≤ 16
    → in_digit_run base c ≡ true
    → (c == b'_') ≡ false
    → digit_word (digit_value c) < base
unfolding in_digit_run digit_value
run_below base c h r n = ground arith

run_character :
    (base c : ℕ)
    → in_digit_run base c ≡ true
    → (c == b'_') ≡ false
    → (lower_digit (digit_word (digit_value c)) ≡ c)
      ⊎ (upper_digit (digit_word (digit_value c)) ≡ c)
unfolding in_digit_run digit_value lower_digit upper_digit
run_character base c r n = ground arith

run-IsDigit :
    (base c : ℕ)
    → base ≤ 16
    → in_digit_run base c ≡ true
    → (c == b'_') ≡ false
    → IsDigit base c (digit_word (digit_value c))
run-IsDigit base c h r n =
    let d = digit_word (digit_value c) in
    let below = run_below base c h r n in
    let small : d < 16 = omega arith in
    (
      below,
      elim (run_character base c r n) [
        | inl e ↦ inl (lower_table d small ∙ e)
        | inr e ↦ inr (upper_table d small ∙ e)
      ],
    )

-- What the check of the separators leaves of a separator: a digit follows it.
separator_then :
    (c e f : ℕ) (run : Bytes)
    → separators_between c (e ∷ f ∷ run) ≡ true
    → e == b'_' ≡ true
    → (f == b'_' ≡ false) × (separators_between f run ≡ true)
unfolding separators_between
separator_then c e f run h u = ground arith

digit_then :
    (c e : ℕ) (run : Bytes)
    → separators_between c (e ∷ run) ≡ true
    → separators_between e run ≡ true
unfolding separators_between
digit_then c e run h = ground arith

not_last : (c e : ℕ) → separators_between c (e ∷ []) ≡ true → e == b'_' ≡ false
unfolding separators_between
not_last c e h = ground arith

drop_digit :
    (c : ℕ) (run : Bytes)
    → c == b'_' ≡ false
    → digits_without_separators (c ∷ run) ≡ c ∷ digits_without_separators run
unfolding digits_without_separators
drop_digit c run h = rw h refl

drop_separator :
    (c : ℕ) (run : Bytes)
    → c == b'_' ≡ true
    → digits_without_separators (c ∷ run) ≡ digits_without_separators run
unfolding digits_without_separators
drop_separator c run h = rw h refl

module _ (base : ℕ) (h : base ≤ 16) where
  abbrev read : ℕ → Bytes → ℕ
  read value run = value_on base value (digits_without_separators run)

  spaced-Digits :
      (c value : ℕ) (run : Bytes)
      → All (λ x. in_digit_run base x ≡ true) (c ∷ run)
      → c == b'_' ≡ false
      → separators_between c run ≡ true
      → Digits base value (c ∷ run) (read value (c ∷ run))
  unfolding digits_without_separators
  spaced-Digits c value [] all n s =
      let d = run-IsDigit base c h all.0 n in
      rw (drop_digit c [] n) (last_digit value c (digit_word (digit_value c)) d)
  spaced-Digits c value (e ∷ []) all n s =
      let d = run-IsDigit base c h all.0 n in
      let next = value * base + digit_word (digit_value c) in
      rw (drop_digit c (e ∷ []) n) (
        digit value c (digit_word (digit_value c)) (e ∷ []) d
          (spaced-Digits e next [] all.1 (not_last c e s) (digit_then c e [] s)))
  spaced-Digits c value (e ∷ f ∷ run) all n s =
      let d = run-IsDigit base c h all.0 n in
      let next = value * base + digit_word (digit_value c) in
      rw (drop_digit c (e ∷ f ∷ run) n) (elim (Bool-cases (e == b'_')) [
        | inl u ↦
            let t = separator_then c e f run s u in
            let same : e ≡ b'_' = eq_of e b'_' u in
            rw (drop_separator e (f ∷ run) u, same)
              (separated value c (digit_word (digit_value c)) (f ∷ run) d
                (spaced-Digits f next run all.1.1 t.0 t.1))
        | inr u ↦
            digit value c (digit_word (digit_value c)) (e ∷ f ∷ run) d
              (spaced-Digits e next (f ∷ run) all.1 u (digit_then c e (f ∷ run) s))
      ])

  pub run-Digits :
      (run : Bytes)
      → All (λ x. in_digit_run base x ≡ true) run
      → is_valid_separator_run run ≡ true
      → Digits base 0 run (read 0 run)
  unfolding is_valid_separator_run
  run-Digits [] all v = cc
  run-Digits (c ∷ run) all v = spaced-Digits c 0 run all (ground arith) (ground arith)
