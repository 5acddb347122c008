-- ===== src/Scalar/Natural/Sum.antt =====
-- `add`, `subtract` and `shift` of src/sema/scalar_constants.cc on the numbers.
use c_cloth.Base.{ℕ, ◌+◌, ◌-◌, ◌/◌, ◌^◌, ◌≤◌, ◌≡◌, [], ◌∷◌, arith}
use c_cloth.Scalar.Natural.{Words, add_loop, add, subtract_loop, subtract}
use c_cloth.Scalar.Natural.Value.{
  to_ℕ, Fits, Ends, IsNatural, to_ℕ_pos, Ends-carry, IsNatural-tail, trim_lem,
}

add_loop_value :
    (c : ℕ) (xs ys : Words)
    → c ≤ 1
    → Fits xs
    → Fits ys
    → (to_ℕ (add_loop c xs ys) ≡ c + to_ℕ xs + to_ℕ ys) × Fits (add_loop c xs ys)
unfolding add_loop to_ℕ
add_loop_value c [] [] hc hx hy = ground arith
add_loop_value c (x ∷ xs) [] hc hx hy =
    ground (arith, add_loop_value ((x + c) / 2 ^ 32) xs [] (omega arith) hx.1 tt)
add_loop_value c [] (y ∷ ys) hc hx hy =
    ground (arith, add_loop_value ((0 + c + y) / 2 ^ 32) [] ys (omega arith) tt hy.1)
add_loop_value c (x ∷ xs) (y ∷ ys) hc hx hy =
    ground (arith, add_loop_value ((x + c + y) / 2 ^ 32) xs ys (omega arith) hx.1 hy.1)

subtract_loop_value :
    (b : ℕ) (xs ys : Words)
    → b ≤ 1
    → Fits xs
    → Fits ys
    → b + to_ℕ ys ≤ to_ℕ xs
    → (to_ℕ (subtract_loop b xs ys) + b + to_ℕ ys ≡ to_ℕ xs) × Fits (subtract_loop b xs ys)
unfolding subtract_loop to_ℕ
subtract_loop_value b [] ys hb hx hy h = ground arith
subtract_loop_value b (x ∷ xs) [] hb hx hy h =
    ground (arith, subtract_loop_value 0 xs [], subtract_loop_value 1 xs [])
subtract_loop_value b (x ∷ xs) (y ∷ ys) hb hx hy h =
    ground (arith, subtract_loop_value 0 xs ys, subtract_loop_value 1 xs ys)

-- A sum that is zero has no words, so the words of a sum end in one that is not zero.
add_loop-Ends :
    (c : ℕ) (xs ys : Words) → c ≤ 1 → IsNatural xs → IsNatural ys → Ends (add_loop c xs ys)
unfolding add_loop to_ℕ
add_loop-Ends c [] [] hc hx hy = ground arith
add_loop-Ends c (x ∷ xs) [] hc hx hy =
    let d = (x + c) / 2 ^ 32 in
    Ends-carry (x + c) (to_ℕ xs) (add_loop d xs [])
      (add_loop-Ends d xs [] (omega arith) (IsNatural-tail x xs hx) hy)
      (omega (arith, add_loop_value d xs [] (omega arith) hx.fits.1 tt))
      (omega (arith, to_ℕ_pos x xs hx.ends))
add_loop-Ends c [] (y ∷ ys) hc hx hy =
    let d = (0 + c + y) / 2 ^ 32 in
    Ends-carry (0 + c + y) (to_ℕ ys) (add_loop d [] ys)
      (add_loop-Ends d [] ys (omega arith) hx (IsNatural-tail y ys hy))
      (omega (arith, add_loop_value d [] ys (omega arith) tt hy.fits.1))
      (omega (arith, to_ℕ_pos y ys hy.ends))
add_loop-Ends c (x ∷ xs) (y ∷ ys) hc hx hy =
    let d = (x + c + y) / 2 ^ 32 in
    Ends-carry (x + c + y) (to_ℕ xs + to_ℕ ys) (add_loop d xs ys)
      (add_loop-Ends d xs ys (omega arith) (IsNatural-tail x xs hx) (IsNatural-tail y ys hy))
      (omega (arith, add_loop_value d xs ys (omega arith) hx.fits.1 hy.fits.1))
      (omega (arith, to_ℕ_pos x xs hx.ends, to_ℕ_pos y ys hy.ends))

-- On the digits of two numbers, `add` gives the digits of their sum.
pub add_value :
    (xs ys : Words)
    → IsNatural xs
    → IsNatural ys
    → (to_ℕ (add xs ys) ≡ to_ℕ xs + to_ℕ ys) × IsNatural (add xs ys)
unfolding add
add_value xs ys hx hy =
    let (e, f) = add_loop_value 0 xs ys (omega arith) hx.fits hy.fits in
    (omega arith, record { fits = f; ends = add_loop-Ends 0 xs ys (omega arith) hx hy })

-- On the digits of two numbers, the second not greater, `subtract` gives the digits of the difference.
pub subtract_value :
    (xs ys : Words)
    → IsNatural xs
    → IsNatural ys
    → to_ℕ ys ≤ to_ℕ xs
    → (to_ℕ (subtract xs ys) ≡ to_ℕ xs - to_ℕ ys) × IsNatural (subtract xs ys)
unfolding subtract
subtract_value xs ys hx hy le =
    let (e, f) = subtract_loop_value 0 xs ys (omega arith) hx.fits hy.fits (omega arith) in
    let (t, n) = trim_lem (subtract_loop 0 xs ys) f in (omega arith, n)
