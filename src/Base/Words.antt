-- ===== src/Base/Words.antt =====
-- Machine words as native numbers. `x & mask(w)` is `low_bits x w`, `(x & (1 << i)) != 0` is
-- `test_bit x i`, `x >> i` is `shr x i`, and `x << i` in 64 bits is `shl64 x i`. The children prove
-- that these are the native bit operations.
mod Bits
pub mod Digits
pub use Bits.*
use Prim.Native.Nat.{ℕ, ◌+◌, ◌-◌, ◌*◌, ◌/◌, ◌%◌, ◌^◌}
use mathlib.Core.Bool.{Bool}
use c_cloth.Base.Tests.{◌==◌}

abbrev pub low_bits : ℕ → ℕ → ℕ
low_bits x w = x % 2 ^ w

abbrev pub test_bit : ℕ → ℕ → Bool
test_bit x i = x / 2 ^ i % 2 == 1

abbrev pub shr : ℕ → ℕ → ℕ
shr x i = x / 2 ^ i

abbrev pub shl64 : ℕ → ℕ → ℕ
shl64 x i = x * 2 ^ i % 2 ^ 64

-- `x & ~mask(w)`.
abbrev pub high_bits : ℕ → ℕ → ℕ
high_bits x w = x - low_bits x w

-- Negation of a `uint64_t`, `0 - x`.
abbrev pub neg64 : ℕ → ℕ
neg64 x = (2 ^ 64 - x % 2 ^ 64) % 2 ^ 64

abbrev pub u32 : ℕ → ℕ
u32 x = x % 2 ^ 32

abbrev pub u64_max : ℕ
u64_max = 18446744073709551615
