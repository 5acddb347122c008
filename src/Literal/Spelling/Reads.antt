-- ===== src/Literal/Spelling/Reads.antt =====
-- What a base-prefixed spelling that `parse_base_literal` (src/lexer/literal.cc) accepts is made of, and
-- the value of its digits.
use mathlib.Core.Path.{subst}
use c_cloth.Base.{
  ℕ, ◌^◌, ◌≤◌, ◌≡◌, refl, ap, sym, inl, inr, Bool, true, false, not, ◌&&◌, [], ◌∷◌, ◌++◌, drop, min,
  All, Bool-cases, arith,
}
use c_cloth.Base.Text.{Bytes, to_string}
use c_cloth.Literal.{
  NumericLiteralBase, binary, octal, decimal, hexadecimal, radix, NumericLiteralSpelling, no_error,
}
use c_cloth.Literal.Digits.{
  take_while, drop_while, digits_without_separators, parse_suffix, is_valid_separator_run,
  is_floating_suffix,
}
use c_cloth.Literal.Spelling.{
  in_digit_run, parse_base_literal, parse_base_parts, is_empty, is_no_suffix,
}
use c_cloth.Literal.Spelling.Value.{value_on, parse_base_literal_value}
use c_cloth.Literal.Spelling.Runs.{Digits, run-Digits}
use c_cloth.Literal.Spelling.Suffixes.{IsSuffix, parse_suffix-IsSuffix}

abbrev pub base_value : NumericLiteralBase → ℕ
base_value binary = 2
base_value octal = 8
base_value decimal = 10
base_value hexadecimal = 16

-- The text behind the prefix and what is read of it.
pub record Spells (base : NumericLiteralBase) (text : Bytes) (result : NumericLiteralSpelling)
    : Type 0 where
  pub run : Bytes
  pub tail : Bytes
  pub value : ℕ
  pub parts : text ≡ run ++ tail
  pub digits : Digits (base_value base) 0 run value
  pub suffix : IsSuffix result.suffix_kind tail
  pub core : result.core ≡ to_string (min value (2 ^ 64))

take_while-All : (p : ℕ → Bool) (text : Bytes) → All (λ c. p c ≡ true) (take_while p text)
take_while-All p [] = tt
take_while-All p (c ∷ text) = elim (Bool-cases (p c)) [
  | inl b ↦ rw b (b, take_while-All p text)
  | inr b ↦ rw b tt
]

take_while-drop_while :
    (p : ℕ → Bool) (text : Bytes) → text ≡ take_while p text ++ drop_while p text
take_while-drop_while p [] = refl
take_while-drop_while p (c ∷ text) = elim (Bool-cases (p c)) [
  | inl b ↦ rw b (ap (λ x. c ∷ x) (take_while-drop_while p text))
  | inr b ↦ rw b refl
]

parts_valid :
    (base : NumericLiteralBase) (digit_run tail : Bytes)
    → let r = parse_base_parts base digit_run tail in
      r.error ≡ no_error
      → (is_valid_separator_run digit_run ≡ true)
        × (r.suffix_kind ≡ parse_suffix tail)
        × (not (is_empty tail) && is_no_suffix (parse_suffix tail) ≡ false)
        × (is_floating_suffix (parse_suffix tail) ≡ false)
unfolding parse_base_parts
parts_valid base digit_run tail h = ground arith

base_value-radix : (base : NumericLiteralBase) → base_value base ≡ radix base
base_value-radix binary = refl
base_value-radix octal = refl
base_value-radix decimal = refl
base_value-radix hexadecimal = refl

base_value-le : (base : NumericLiteralBase) → base_value base ≤ 16
base_value-le base = ground arith

-- A spelling that `parse_base_literal` gives no error for is, behind its two first characters, a run of
-- digits of the base, with single underscores between digits at most, and no suffix or the name of an
-- integer type, which is the one it gives; a digit has its position among `0` to `9` and `a` to `f`, in
-- either case, for its value, and the core is the decimal text of what the digits stand for in the base, with
-- 2^64 for all that 64 bits do not hold.
pub parse_base_literal-Spells :
    (base : NumericLiteralBase) (spelling : Bytes)
    → (parse_base_literal base spelling).error ≡ no_error
    → Spells base (drop 2 spelling) (parse_base_literal base spelling)
unfolding parse_base_literal
parse_base_literal-Spells base spelling h =
    let text = drop 2 spelling in
    let p = in_digit_run (radix base) in
    let run = take_while p text in
    let tail = drop_while p text in
    let v = parts_valid base run tail h in
    let le : radix base ≤ 16 = subst (λ x. x ≤ 16) (base_value-radix base) (base_value-le base) in
    let digits = run-Digits (radix base) le run (take_while-All p text) v.0 in
    record {
      run = run;
      tail = tail;
      value = value_on (radix base) 0 (digits_without_separators run);
      parts = take_while-drop_while p text;
      digits = rw (base_value-radix base) digits;
      suffix = subst (λ k. IsSuffix k tail) (sym v.1) (parse_suffix-IsSuffix tail v.2 v.3);
      core = parse_base_literal_value base spelling h;
    }
