-- ===== src/Base/Words/Bits.antt =====
-- Laws of the native bit operations at every width: one binary digit at a time, then by induction
-- on the width. A mask of low ones is a remainder, and an `or` of disjoint fields is a sum.
use Prim.Native.Nat.{
  ℕ, zero, suc, ◌+◌, ◌-◌, ◌*◌, ◌/◌, ◌%◌, ◌^◌, ◌≤◌, ◌<◌, min, max, digits, bitwise, bit_and, bit_or,
  bit_and-bitwise, bit_or-bitwise,
}
use mathlib.Core.Path.{◌≡◌, refl, ap}
use native.Mathlib.Nat.{pow-suc, one-le-pow, le_refl, mod-eq_of_lt}
use native.Mathlib.Omega.{arith}

-- Any two amounts of fuel from the first operand on give the same digits.
module _ (rest : ℕ → ℕ) (digit : ℕ → ℕ → ℕ) where
  digits_enough : (n m a b : ℕ) → a ≤ n → a ≤ m → digits rest digit n a b ≡ digits rest digit m a b
  digits_enough zero zero a b p q = refl
  digits_enough (suc n) zero zero b p q = refl
  digits_enough zero (suc m) zero b p q = refl
  digits_enough (suc n) zero (suc a) b p q = absurd (omega arith)
  digits_enough zero (suc m) (suc a) b p q = absurd (omega arith)
  digits_enough (suc n) (suc m) zero b p q = refl
  digits_enough (suc n) (suc m) (suc a) b p q =
      rw (digits_enough n m (suc a / 2) (b / 2) (omega arith) (omega arith))

  pub bitwise_next :
      (a b : ℕ)
      → bitwise rest digit (suc a) b
        ≡ bitwise rest digit (suc a / 2) (b / 2) * 2 + digit (suc a % 2) (b % 2)
  bitwise_next a b =
      omega
        (arith, digits_enough a (suc a / 2) (suc a / 2) (b / 2) (omega arith) (le_refl (suc a / 2)))

pub bit_and_next : (a b : ℕ) → bit_and a b ≡ bit_and (a / 2) (b / 2) * 2 + min (a % 2) (b % 2)
bit_and_next zero b = simp bit_and-bitwise (omega arith)
bit_and_next (suc a) b = simp bit_and-bitwise (bitwise_next (λ y. 0) min a b)

pub bit_or_next : (a b : ℕ) → bit_or a b ≡ bit_or (a / 2) (b / 2) * 2 + max (a % 2) (b % 2)
bit_or_next zero b = simp bit_or-bitwise (omega arith)
bit_or_next (suc a) b = simp bit_or-bitwise (bitwise_next (λ y. y) max a b)

bit_and-zero_right : (n a : ℕ) → a ≤ n → bit_and a 0 ≡ 0
bit_and-zero_right zero zero h = refl
bit_and-zero_right zero (suc a) h = absurd (omega arith)
bit_and-zero_right (suc n) zero h = refl
bit_and-zero_right (suc n) (suc a) h =
    omega (arith, bit_and_next (suc a) 0, bit_and-zero_right n (suc a / 2) (omega arith))

-- The remainder by an even number, from its lowest binary digit on.
pub mod-double : (a m : ℕ) → 0 < m → a % (2 * m) ≡ a / 2 % m * 2 + a % 2
mod-double a m h = grind arith

-- `x & mask(w)`, for the mask of `w` low ones.
pub bit_and_mask : (w x : ℕ) → bit_and x (2 ^ w - 1) ≡ x % 2 ^ w
bit_and_mask zero x = omega (arith, bit_and-zero_right x x (le_refl x))
bit_and_mask (suc w) x = ground (
  arith,
  pow-suc 2 w,
  one-le-pow w 2,
  bit_and_next x (2 ^ suc w - 1),
  bit_and_mask w (x / 2),
  mod-double x (2 ^ w),
)

pub bit_and_self : (n a : ℕ) → a ≤ n → bit_and a a ≡ a
bit_and_self zero zero h = refl
bit_and_self zero (suc a) h = absurd (omega arith)
bit_and_self (suc n) zero h = refl
bit_and_self (suc n) (suc a) h =
    omega (arith, bit_and_next (suc a) (suc a), bit_and_self n (suc a / 2) (omega arith))

-- `x & ~mask(k)` of an `n`-bit word clears the low `k` bits.
pub bit_and_clear : (k n x : ℕ) → k ≤ n → x < 2 ^ n → bit_and x (2 ^ n - 2 ^ k) ≡ x - x % 2 ^ k
bit_and_clear zero n x le lt = ground (arith, bit_and_mask n x, mod-eq_of_lt lt)
bit_and_clear (suc k) zero x le lt = absurd (omega arith)
bit_and_clear (suc k) (suc n) x le lt = ground (
  arith,
  pow-suc 2 k,
  pow-suc 2 n,
  one-le-pow k 2,
  bit_and_next x (2 ^ suc n - 2 ^ suc k),
  bit_and_clear k n (x / 2),
  mod-double x (2 ^ k),
)

bit_or-zero_right : (n a : ℕ) → a ≤ n → bit_or a 0 ≡ a
bit_or-zero_right zero zero h = refl
bit_or-zero_right zero (suc a) h = absurd (omega arith)
bit_or-zero_right (suc n) zero h = refl
bit_or-zero_right (suc n) (suc a) h =
    omega (arith, bit_or_next (suc a) 0, bit_or-zero_right n (suc a / 2) (omega arith))

-- `(q << k) | r` is a sum where `r` has `k` bits.
pub bit_or_join : (k q r : ℕ) → r < 2 ^ k → bit_or (q * 2 ^ k) r ≡ q * 2 ^ k + r
bit_or_join zero q r lt = ground (arith, bit_or-zero_right q q (le_refl q))
bit_or_join (suc k) q r lt = ground (
  arith,
  bit_or_next (q * 2 ^ suc k) r,
  double_shift q k,
  pow-suc 2 k,
  bit_or_join k q (r / 2) (omega (arith, pow-suc 2 k)),
)
  where
    double_shift : (q k : ℕ) → q * 2 ^ suc k ≡ 2 * (q * 2 ^ k)
    double_shift q k = omega (arith, ap (λ (t : ℕ). q * t) (pow-suc 2 k))

bit_or_comm_below : (n a b : ℕ) → a ≤ n → b ≤ n → bit_or a b ≡ bit_or b a
bit_or_comm_below zero zero zero p q = refl
bit_or_comm_below zero (suc a) b p q = absurd (omega arith)
bit_or_comm_below zero zero (suc b) p q = absurd (omega arith)
bit_or_comm_below (suc n) a b p q = omega (
  arith,
  bit_or_next a b,
  bit_or_next b a,
  bit_or_comm_below n (a / 2) (b / 2) (omega arith) (omega arith),
)

pub bit_or_comm : (a b : ℕ) → bit_or a b ≡ bit_or b a
bit_or_comm a b = bit_or_comm_below (a + b) a b (omega arith) (omega arith)
