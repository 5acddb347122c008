-- ===== src/Base/Order.antt =====
-- `<` on the native numbers is well founded, and powers of sums.
use mathlib.Core.WellFounded.{Acc, WellFounded}
use Prim.Native.Nat.{ℕ, zero, suc, ◌<◌}
use Prim.Native.Nat.{◌+◌, ◌*◌, ◌^◌}
use mathlib.Core.Path.{◌≡◌, ap}
use native.Mathlib.Nat.{add-zero, pow-zero, pow-suc}
use native.Mathlib.Omega.{arith}

Acc-below : (k n : ℕ) → n < k → Acc ◌<◌ n
Acc-below zero n h = absurd (omega arith)
Acc-below (suc k) n h = Acc.intro n (λ m hm. Acc-below k m (omega arith))

unfoldable pub lt_wf : WellFounded ◌<◌
unfolding Acc-below
lt_wf = record { apply = λ n. Acc-below (suc n) n (omega arith) }

pub pow-add : (b m n : ℕ) → b ^ (m + n) ≡ b ^ m * b ^ n
pow-add b m zero = rw (add-zero) (omega (arith, ap (λ (t : ℕ). b ^ m * t) (pow-zero b)))
pow-add b m (suc n) = rw (add_suc m n) (
    omega (
      arith,
      pow-suc b (m + n),
      pow-suc b n,
      pow-add b m n,
      ap (λ (t : ℕ). t * b) (pow-add b m n),
      ap (λ (t : ℕ). b ^ m * t) (pow-suc b n),
    ))
  where
    add_suc : (m n : ℕ) → m + suc n ≡ suc (m + n)
    add_suc m n = omega arith
