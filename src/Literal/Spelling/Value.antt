-- ===== src/Literal/Spelling/Value.antt =====
-- The value that a base-prefixed spelling stands for (src/lexer/literal.cc).
use native.Mathlib.Nat.{div-lt_iff_lt-mul}
use c_cloth.Base.{
  ℕ, ◌+◌, ◌-◌, ◌*◌, ◌/◌, ◌^◌, ◌≤◌, ◌<◌, ◌≡◌, refl, ap, ◌∙◌, true, false, ltb, [], ◌∷◌, some, none,
  arith, All, ◌==◌, min, drop, Bool-cases, inl, inr, if◌then◌else◌,
}
use c_cloth.Base.Words.{u64_max}
use c_cloth.Base.Text.{Bytes, to_string, to_string_loop}
use c_cloth.Literal.{NumericLiteralBase, radix, no_error}
use c_cloth.Literal.Digits.{digit_value, take_while, digits_without_separators}
use c_cloth.Literal.Spelling.{
  accumulate, digit_word, in_digit_run, parse_base_literal, parse_base_parts, base_core,
}

-- The value of digits in a base, on from a value read before them.
abbrev pub value_on : ℕ → ℕ → Bytes → ℕ
value_on base value [] = value
value_on base value (c ∷ digits) = value_on base (value * base + digit_word (digit_value c)) digits

value_on-le : (base value : ℕ) (digits : Bytes) → 0 < base → value ≤ value_on base value digits
value_on-le base value [] h = omega arith
value_on-le base value (c ∷ digits) h =
    let next = value * base + digit_word (digit_value c) in
    grind (arith, value_on-le base next digits h)

-- The check of the loop is that the next value does not fit 64 bits.
overflow_test :
    (base value digit : ℕ)
    → 0 < base
    → digit ≤ u64_max
    → ltb ((u64_max - digit) / base) value ≡ ltb u64_max (value * base + digit)
overflow_test base value digit h small =
    let e = div-lt_iff_lt-mul {k = base} {x = u64_max - digit} {y = value} h in
    compared ((u64_max - digit) / base) value u64_max (value * base + digit)
      (λ t. omega (arith, e.0 t)) (λ t. e.1 (omega arith))
  where
    compared : (a b c d : ℕ) → (a < b → c < d) → (c < d → a < b) → ltb a b ≡ ltb c d
    compared a b c d f g = ground arith

le_of_ltb : (a b : ℕ) → ltb a b ≡ false → b ≤ a
le_of_ltb a b h = ground arith

ltb-le : (a b c : ℕ) → ltb a b ≡ true → b ≤ c → ltb a c ≡ true
ltb-le a b c h l = ground arith

-- The loop gives the value of the digits, and reports an overflow exactly when it does not fit.
accumulate_value :
    (base value : ℕ) (digits : Bytes)
    → 0 < base
    → value ≤ u64_max
    → All (λ c. digit_word (digit_value c) ≤ u64_max) digits
    → accumulate base value digits ≡ (
        if ltb u64_max (value_on base value digits)
        then none
        else some (value_on base value digits))
unfolding accumulate
accumulate_value base value [] h v all = ground arith
accumulate_value base value (c ∷ digits) h v all =
    let digit = digit_word (digit_value c) in
    let next = value * base + digit in
    let le = value_on-le base next digits h in
    rw (overflow_test base value digit h all.0) (elim (Bool-cases (ltb u64_max next)) [
      | inl e ↦ rw (e, ltb-le u64_max next (value_on base next digits) e le) refl
      | inr e ↦ rw e (accumulate_value base next digits h (le_of_ltb u64_max next e) all.1)
    ])

run_word :
    (base c : ℕ)
    → base ≤ 16
    → in_digit_run base c ≡ true
    → (c == b'_') ≡ false
    → digit_word (digit_value c) ≤ u64_max
unfolding in_digit_run digit_value
run_word base c h r n = ground arith

run_digits :
    (base : ℕ) (text : Bytes)
    → base ≤ 16
    → All
        (λ c. digit_word (digit_value c) ≤ u64_max)
        (digits_without_separators (take_while (in_digit_run base) text))
unfolding digits_without_separators
run_digits base [] h = tt
run_digits base (c ∷ text) h =
    let ih = run_digits base text h in
    elim (Bool-cases (in_digit_run base c)) [
      | inr r ↦ rw r tt
      | inl r ↦ rw r (elim (Bool-cases (c == b'_')) [
        | inl u ↦ rw u ih
        | inr u ↦ rw u (run_word base c h r u, ih)
      ])
    ]

parts_core :
    (base : NumericLiteralBase) (digit_run tail : Bytes)
    → (parse_base_parts base digit_run tail).error ≡ no_error
    → (parse_base_parts base digit_run tail).core
      ≡ base_core (accumulate (radix base) 0 (digits_without_separators digit_run))
unfolding parse_base_parts
parts_core base digit_run tail h = ground arith

base_core_value :
    (v : ℕ) → base_core (if ltb u64_max v then none else some v) ≡ to_string (min v (2 ^ 64))
base_core_value v = elim (Bool-cases (ltb u64_max v)) [
  | inl e ↦ rw (e, large v e) (unfold to_string in unfold to_string_loop in refl)
  | inr e ↦ rw (e, within v e) refl
]
  where
    large : (v : ℕ) → ltb u64_max v ≡ true → min v (2 ^ 64) ≡ 2 ^ 64
    large v h = ground arith

    within : (v : ℕ) → ltb u64_max v ≡ false → min v (2 ^ 64) ≡ v
    within v h = ground arith

radix_bounds : (base : NumericLiteralBase) → (0 < radix base) × (radix base ≤ 16)
radix_bounds base = ground arith

-- A spelling in base two, eight or sixteen that has no error has for its core the decimal text of the
-- value of its digits, where 2^64 stands for every value that 64 bits do not hold.
pub parse_base_literal_value :
    (base : NumericLiteralBase) (spelling : Bytes)
    → (parse_base_literal base spelling).error ≡ no_error
    → (parse_base_literal base spelling).core
      ≡ to_string (
          min
            (value_on (radix base) 0 (
              digits_without_separators (take_while (in_digit_run (radix base)) (drop 2 spelling))))
            (2 ^ 64))
unfolding parse_base_literal
parse_base_literal_value base spelling h =
    let text = drop 2 spelling in
    let run = take_while (in_digit_run (radix base)) text in
    let bounds = radix_bounds base in
    parts_core base run _ h
    ∙ ap base_core (
        accumulate_value (radix base) 0 (digits_without_separators run) bounds.0 (omega arith)
          (run_digits (radix base) text bounds.1))
    ∙ base_core_value (value_on (radix base) 0 (digits_without_separators run))
