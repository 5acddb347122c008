-- ===== src/Scalar/Natural/Order.antt =====
-- `compare`, `width` and `low` of src/sema/scalar_constants.cc on the numbers.
use Prim.Native.Nat.{compare}
use native.Mathlib.Nat.{pow-suc}
use c_cloth.Base.Words.{bit_or_join}
use c_cloth.Base.Order.{pow-add}
use c_cloth.Base.{
  ℕ, zero, suc, ◌+◌, ◌*◌, ◌^◌, ◌<◌, ◌≡◌, refl, [], ◌∷◌, length, arith, ◌/◌, ◌%◌, ◌≤◌, Bool-cases,
  inl, inr, ◌==◌, ◌≢◌,
}
use c_cloth.Scalar.Natural.{Words, compare_words, compare_to, digits_below, width, low}
use c_cloth.Scalar.Natural.Value.{to_ℕ, Fits, Ends, IsNatural, to_ℕ_pos, Ends-tail, IsNatural-tail}

compare_words_value :
    (xs ys : Words)
    → length xs ≡ length ys
    → Fits xs
    → Fits ys
    → compare_words xs ys ≡ compare (to_ℕ xs) (to_ℕ ys)
unfolding compare_words to_ℕ
compare_words_value [] [] e hx hy = refl
compare_words_value [] (y ∷ ys) e hx hy = absurd (omega arith)
compare_words_value (x ∷ xs) [] e hx hy = absurd (omega arith)
compare_words_value (x ∷ xs) (y ∷ ys) e hx hy =
    ground (arith, compare_words_value xs ys (omega arith) hx.1 hy.1)

-- Fewer digits make a smaller number.
shorter-lt : (xs ys : Words) → Fits xs → Ends ys → length xs < length ys → to_ℕ xs < to_ℕ ys
unfolding to_ℕ
shorter-lt xs [] hx hy h = absurd (omega arith)
shorter-lt [] (y ∷ ys) hx hy h = to_ℕ_pos y ys hy
shorter-lt (x ∷ xs) (y ∷ ys) hx hy h =
    omega (arith, shorter-lt xs ys hx.1 (Ends-tail y ys hy) (omega arith))

-- On the digits of two numbers, `compare` gives the order of the numbers.
pub compare_value :
    (xs ys : Words) → IsNatural xs → IsNatural ys → compare_to xs ys ≡ compare (to_ℕ xs) (to_ℕ ys)
unfolding compare_to
compare_value xs ys hx hy = ground (
  arith,
  compare_words_value xs ys,
  shorter-lt xs ys hx.fits hy.ends,
  shorter-lt ys xs hy.fits hx.ends,
)

-- A positive number has `digits` binary digits.
pub record HasDigits (digits n : ℕ) : Type 0 where
  pub top : ℕ
  pub digits_eq : digits ≡ suc top
  pub lower : 2 ^ top ≤ n
  pub upper : n < 2 ^ suc top

digits_below-zero : (fuel : ℕ) → digits_below fuel 0 ≡ 0
unfolding digits_below
digits_below-zero zero = refl
digits_below-zero (suc fuel) = refl

digits_below_value : (fuel w : ℕ) → w < 2 ^ fuel → 0 < w → HasDigits (digits_below fuel w) w
unfolding digits_below
digits_below_value zero w h p = absurd (omega arith)
digits_below_value (suc fuel) w h p = elim (Bool-cases (w / 2 == 0)) [
  | inl one_ ↦
      let e : w / 2 ≡ 0 = ground arith in
      record {
        top = 0;
        digits_eq = rw e (ground (arith, digits_below-zero fuel));
        lower = omega arith;
        upper = omega arith;
      }
  | inr more ↦
      let half = digits_below_value fuel (w / 2) (omega (arith, pow-suc 2 fuel)) (ground arith) in
      record {
        top = suc half.top;
        digits_eq = ground (arith, half.digits_eq);
        lower = omega (arith, half.lower, pow-suc 2 half.top);
        upper = omega (arith, half.upper, pow-suc 2 (suc half.top));
      }
]

-- On the digits of a number other than zero, `width` is the number of its binary digits.
pub width_value : (ws : Words) → IsNatural ws → ws ≢ [] → HasDigits (width ws) (to_ℕ ws)
unfolding width to_ℕ
width_value [] h ne = absurd (ne refl)
width_value (w ∷ []) h ne =
    let d = digits_below_value 32 w h.fits.0 h.ends in
    record {
      top = d.top;
      digits_eq = d.digits_eq;
      lower = omega (arith, d.lower);
      upper = omega (arith, d.upper);
    }
width_value (w ∷ v ∷ ws) h ne =
    let d = width_value (v ∷ ws) (IsNatural-tail w (v ∷ ws) h) (λ e. cc) in
    record {
      top = 32 + d.top;
      digits_eq = omega (arith, d.digits_eq);
      lower = rw (pow-add) (omega (arith, d.lower));
      upper = upper_bound w (v + 2 ^ 32 * to_ℕ ws) d.top h.fits.0 d.upper;
    }
  where
    upper_bound : (w t k : ℕ) → w < 2 ^ 32 → t < 2 ^ suc k → w + 2 ^ 32 * t < 2 ^ suc (32 + k)
    upper_bound w t k hw ht = omega (arith, pow-suc 2 (32 + k), pow-suc 2 k, pow-add 2 32 k)

pub low_value : (ws : Words) → IsNatural ws → low ws ≡ to_ℕ ws % 2 ^ 64
unfolding low to_ℕ
low_value [] h = refl
low_value (w ∷ []) h = omega arith
low_value (w ∷ v ∷ ws) h = ground (arith, bit_or_join 32 v w h.fits.0)
