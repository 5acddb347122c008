-- ===== src/Target/Align.antt =====
-- `is_power_of_two` and `align_to` against powers and multiples.
use Prim.Native.Nat.{bit_and}
use native.Mathlib.Nat.{pow-suc, one-le-pow, pow-le-pow_right, le_refl, mod-lt}
use native.Mathlib.Decide.{dec_le}
use c_cloth.Base.{
  ℕ, zero, suc, ◌+◌, ◌-◌, ◌/◌, ◌%◌, ◌^◌, ◌≤◌, ◌<◌, ◌≡◌, refl, ◌↔◌, inl, inr, true, ◌==◌, arith,
  Bool-cases, ltb,
}
use c_cloth.Base.Words.{u64_max, bit_and_next, bit_and_self, bit_and_clear}
use c_cloth.Target.{is_power_of_two, align_to}

power_of_and-zero : (n v : ℕ) → v ≤ n → 0 < v → bit_and v (v - 1) ≡ 0 → (k : ℕ) × (v ≡ 2 ^ k)
power_of_and-zero zero v h p e = absurd (omega arith)
power_of_and-zero (suc n) v h p e = elim (Bool-cases (v % 2 == 0)) [
  | inl even ↦
      let half =
        power_of_and-zero n (v / 2) (omega arith) (ground arith)
          (ground (arith, bit_and_next v (v - 1))) in
      (suc (half.0), ground (arith, half.1, pow-suc 2 half.0))
  | inr odd ↦
      (0, ground (arith, bit_and_next v (v - 1), bit_and_self (v / 2) (v / 2) (le_refl (v / 2))))
]

and_pred-pow : (k : ℕ) → bit_and (2 ^ k) (2 ^ k - 1) ≡ 0
and_pred-pow zero = refl
and_pred-pow (suc k) =
    ground
      (arith, pow-suc 2 k, one-le-pow k 2, bit_and_next (2 ^ suc k) (2 ^ suc k - 1), and_pred-pow k)

-- `is_power_of_two` accepts exactly the powers of two.
pub is_power_of_two_iff : (v : ℕ) → (is_power_of_two v ≡ true) ↔ ((k : ℕ) × (v ≡ 2 ^ k))
unfolding is_power_of_two
is_power_of_two_iff v = (
  λ h. power_of_and-zero v v (le_refl v) (ground arith) (ground arith),
  λ (k, e). ground (arith, e, and_pred-pow k, one-le-pow k 2),
)

-- For an alignment of 2^k below 2^64, and a value that keeps the sum with the alignment less one in 64
-- bits, `align_to` gives the least multiple of the alignment at or above the value.
pub align_to_least :
    (value k : ℕ)
    → k < 64
    → value + (2 ^ k - 1) ≤ u64_max
    → (value ≤ align_to value (2 ^ k))
      × (align_to value (2 ^ k) < value + 2 ^ k)
      × (align_to value (2 ^ k) % 2 ^ k ≡ 0)
unfolding align_to
align_to_least value k hk fits = ground (
  arith,
  one-le-pow k 2,
  (is_power_of_two_iff (2 ^ k)).1 (k, refl),
  bit_and_clear k 64 (value + (2 ^ k - 1)) (omega arith) (omega arith),
  mod-lt (value + (2 ^ k - 1)) {m = 2 ^ k} (one-le-pow k 2 (omega arith)),
  cleared (value + (2 ^ k - 1)) (2 ^ k),
)
  where
    cleared : (x m : ℕ) → 0 < m → (x - x % m) % m ≡ 0
    cleared x m h = grind arith

-- On a value and an alignment of 64 bits, whatever they are, `align_to` never gives less than the value.
pub le-align_to :
    (value alignment : ℕ) → value ≤ u64_max → alignment ≤ u64_max → value ≤ align_to value alignment
le-align_to value alignment h fits = elim (Bool-cases (is_power_of_two alignment)) [
  | inl power ↦ powers ((is_power_of_two_iff alignment).0 power)
  | inr other ↦ unfold align_to in rw other (omega arith)
]
  where
    exponent-lt : (k : ℕ) → alignment ≡ 2 ^ k → k < 64
    exponent-lt k e = elim (dec_le 64 k) [
      | yes far ↦ absurd (omega (arith, pow-le-pow_right {n = 2} (omega arith) far))
      | no near ↦ omega arith
    ]

    powers : (k : ℕ) × (alignment ≡ 2 ^ k) → value ≤ align_to value alignment
    powers (k, e) = elim (Bool-cases (ltb (u64_max - (alignment - 1)) value)) [
      | inl far ↦ unfold align_to in ground arith
      | inr near ↦ rw e (align_to_least value k (exponent-lt k e) (ground (arith, e))).0
    ]
