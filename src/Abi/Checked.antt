-- ===== src/Abi/Checked.antt =====
-- The checked sums and alignments of src/abi/abi.cc.
use native.Mathlib.Nat.{pow-le-pow_right}
use native.Mathlib.Decide.{dec_le}
use c_cloth.Base.{ℕ, ◌+◌, ◌-◌, ◌%◌, ◌^◌, ◌≤◌, ◌<◌, ◌≡◌, true, some, arith}
use c_cloth.Base.Words.{u64_max}
use c_cloth.Target.{is_power_of_two, align_to}
use c_cloth.Target.Align.{is_power_of_two_iff, align_to_least}
use c_cloth.Abi.{checked_add, checked_align}

pub checked_add-eq :
    (left right : ℕ) {sum : ℕ}
    → checked_add left right ≡ some sum
    → right ≤ u64_max
    → (sum ≡ left + right) × (sum ≤ u64_max)
unfolding checked_add
checked_add-eq left right h k = ground arith

checked_align-align_to :
    (value alignment aligned : ℕ)
    → checked_align value alignment ≡ some aligned
    → alignment ≤ u64_max
    → (is_power_of_two alignment ≡ true)
      × (value + (alignment - 1) ≤ u64_max)
      × (align_to value alignment ≡ aligned)
unfolding checked_align align_to
checked_align-align_to value alignment aligned h fits = ground arith

exponent-lt : (k : ℕ) → 2 ^ k ≤ u64_max → k < 64
exponent-lt k e = elim (dec_le 64 k) [
  | yes far ↦ absurd (omega (arith, pow-le-pow_right {n = 2} (omega arith) far))
  | no near ↦ omega arith
]

-- An aligned value is the least multiple at or above the value.
pub checked_align-eq :
    (value alignment : ℕ) {aligned : ℕ}
    → checked_align value alignment ≡ some aligned
    → alignment ≤ u64_max
    → (value ≤ aligned) × (aligned < value + alignment) × (aligned % alignment ≡ 0)
checked_align-eq value alignment {aligned} h fits =
    let (power, small, e) = checked_align-align_to value alignment aligned h fits in
    let (k, f) = (is_power_of_two_iff alignment).0 power in
    let r = align_to_least value k (exponent-lt k (omega (arith, f))) (omega (arith, f, small)) in
    rw (← e, f) r
