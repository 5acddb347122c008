-- ===== src/Base/Words/Digits.antt =====
-- The binary digits of the native bit operations.
use Prim.Native.Nat.{
  ℕ, zero, suc, ◌+◌, ◌*◌, ◌/◌, ◌%◌, ◌^◌, ◌<◌, min, max, differ, bit_and, bit_or, bit_xor,
  bit_xor-bitwise,
}
use mathlib.Core.Path.{◌≡◌}
use mathlib.Core.Bool.{Bool, true, false, ◌&&◌, ◌||◌, not}
use native.Mathlib.Nat.{pow-suc, div-div-eq-div-mul}
use native.Mathlib.Omega.{arith}
use c_cloth.Base.Tests.{◌==◌}
use c_cloth.Base.Words.{test_bit, bitwise_next, bit_and_next, bit_or_next}

bit_xor_next : (a b : ℕ) → bit_xor a b ≡ bit_xor (a / 2) (b / 2) * 2 + differ (a % 2) (b % 2)
bit_xor_next zero b = simp bit_xor-bitwise (omega arith)
bit_xor_next (suc a) b = simp bit_xor-bitwise (bitwise_next (λ y. y) differ a b)

test_bit_next : (x i : ℕ) → test_bit x (suc i) ≡ test_bit (x / 2) i
test_bit_next x i = rw (div-div-eq-div-mul x 2 (2 ^ i)) (ground (arith, pow-suc 2 i))

module _ (op digit : ℕ → ℕ → ℕ) (f : Bool → Bool → Bool)
    (next : (a b : ℕ) → op a b ≡ op (a / 2) (b / 2) * 2 + digit (a % 2) (b % 2))
    (small : (a b : ℕ) → digit (a % 2) (b % 2) < 2)
    (agree : (a b : ℕ) → (digit (a % 2) (b % 2) == 1) ≡ f (a % 2 == 1) (b % 2 == 1)) where
  test_bit-op : (i a b : ℕ) → test_bit (op a b) i ≡ f (test_bit a i) (test_bit b i)
  test_bit-op zero a b =
      let e : op a b / 2 ^ 0 % 2 ≡ digit (a % 2) (b % 2) = omega (arith, next a b, small a b) in
      let da : a / 2 ^ 0 ≡ a = omega arith in
      let db : b / 2 ^ 0 ≡ b = omega arith in rw (e, da, db) (agree a b)
  test_bit-op (suc i) a b =
      let e : op a b / 2 ≡ op (a / 2) (b / 2) = omega (arith, next a b, small a b) in
      rw (test_bit_next (op a b) i, test_bit_next a i, test_bit_next b i, e)
        (test_bit-op i (a / 2) (b / 2))

  op-lt : (w a b : ℕ) → a < 2 ^ w → b < 2 ^ w → op a b < 2 ^ w
  op-lt zero a b p q =
      let ea : a ≡ 0 = omega (arith, p) in
      let eb : b ≡ 0 = omega (arith, q) in rw (ea, eb) (omega (arith, next 0 0))
  op-lt (suc w) a b p q =
      let e = op-lt w (a / 2) (b / 2) (omega (arith, pow-suc 2 w)) (omega (arith, pow-suc 2 w)) in
      omega (arith, e, next a b, small a b, pow-suc 2 w)

abbrev pub xor : Bool → Bool → Bool
xor true t = not t
xor false t = t

differ_digit :
    (x y : ℕ) → x < 2 → y < 2 → (differ x y < 2) × ((differ x y == 1) ≡ xor (x == 1) (y == 1))
differ_digit zero zero p q = ground arith
differ_digit zero (suc zero) p q = ground arith
differ_digit zero (suc (suc y)) p q = absurd (omega arith)
differ_digit (suc zero) zero p q = ground arith
differ_digit (suc zero) (suc zero) p q = ground arith
differ_digit (suc zero) (suc (suc y)) p q = absurd (omega arith)
differ_digit (suc (suc x)) y p q = absurd (omega arith)

differ-lt : (a b : ℕ) → differ (a % 2) (b % 2) < 2
differ-lt a b = (differ_digit (a % 2) (b % 2) (omega arith) (omega arith)).0

differ-xor : (a b : ℕ) → (differ (a % 2) (b % 2) == 1) ≡ xor (a % 2 == 1) (b % 2 == 1)
differ-xor a b = (differ_digit (a % 2) (b % 2) (omega arith) (omega arith)).1

-- A number of at most `w` binary digits, each of which `f` gives from those of `a` and `b`.
abbrev pub Digitwise : (Bool → Bool → Bool) → ℕ → ℕ → ℕ → ℕ → Type 0
Digitwise f w a b r = (r < 2 ^ w) × ((i : ℕ) → test_bit r i ≡ f (test_bit a i) (test_bit b i))

module _ (w a b : ℕ) (p : a < 2 ^ w) (q : b < 2 ^ w) where
  pub bit_and-Digitwise : Digitwise (λ s t. s && t) w a b (bit_and a b)
  bit_and-Digitwise = (
    op-lt bit_and min (λ s t. s && t) bit_and_next (λ x y. ground arith) (λ x y. ground arith) w a b
        p q,
    λ i.
        test_bit-op bit_and min (λ s t. s && t) bit_and_next (λ x y. ground arith)
          (λ x y. ground arith) i a b,
  )

  pub bit_or-Digitwise : Digitwise (λ s t. s || t) w a b (bit_or a b)
  bit_or-Digitwise = (
    op-lt bit_or max (λ s t. s || t) bit_or_next (λ x y. ground arith) (λ x y. ground arith) w a b p
        q,
    λ i.
        test_bit-op bit_or max (λ s t. s || t) bit_or_next (λ x y. ground arith)
          (λ x y. ground arith) i a b,
  )

  pub bit_xor-Digitwise : Digitwise xor w a b (bit_xor a b)
  bit_xor-Digitwise = (
    op-lt bit_xor differ xor bit_xor_next differ-lt differ-xor w a b p q,
    λ i. test_bit-op bit_xor differ xor bit_xor_next differ-lt differ-xor i a b,
  )
