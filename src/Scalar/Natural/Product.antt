-- ===== src/Scalar/Natural/Product.antt =====
-- `multiply` of src/sema/scalar_constants.cc is multiplication.
use mathlib.Core.List.{append-nil}
use native.Mathlib.Nat.{zero-add, add_comm}
use c_cloth.Base.{
  ℕ, zero, suc, ◌+◌, ◌*◌, ◌^◌, ◌<◌, ◌≡◌, refl, ap, [], ◌∷◌, ◌++◌, length, length-replicate,
  replicate, arith, ◌/◌, ◌%◌,
}
use c_cloth.Scalar.Natural.{Words, multiply_row, multiply_loop, multiply}
use c_cloth.Scalar.Natural.Value.{to_ℕ, Fits, IsNatural, trim_lem}

-- One row: it adds `x` times the other number and the carry to the words in front, and the carry
-- goes into the zero word behind them.
record Row (x c : ℕ) (ys front zs : Words) : Type 0 where
  first : ℕ
  rest : Words
  row_eq : multiply_row x ys c (front ++ (0 ∷ zs)) ≡ first ∷ (rest ++ zs)
  rest_length : length rest ≡ length ys
  first-lt : first < 2 ^ 32
  rest_fits : Fits rest
  row_value : first + 2 ^ 32 * to_ℕ rest ≡ x * to_ℕ ys + to_ℕ front + c

word_product-lt :
    (x y r c : ℕ)
    → x < 2 ^ 32
    → y < 2 ^ 32
    → r < 2 ^ 32
    → c < 2 ^ 32
    → (x * y + r + c) / 2 ^ 32 < 2 ^ 32
word_product-lt x y r c hx hy hr hc = grind arith

multiply_row_lem :
    (x c : ℕ) (ys front zs : Words)
    → length front ≡ length ys
    → x < 2 ^ 32
    → c < 2 ^ 32
    → Fits ys
    → Fits front
    → Row x c ys front zs
unfolding multiply_row to_ℕ
multiply_row_lem x c [] [] zs e hx hc hy hf = record {
  first = c % 2 ^ 32;
  rest = [];
  row_eq = refl;
  rest_length = refl;
  first-lt = omega arith;
  rest_fits = tt;
  row_value = omega arith;
}
multiply_row_lem x c [] (r ∷ front) zs e hx hc hy hf = absurd (omega arith)
multiply_row_lem x c (y ∷ ys) [] zs e hx hc hy hf = absurd (omega arith)
multiply_row_lem x c (y ∷ ys) (r ∷ front) zs e hx hc hy hf =
    let v = x * y + r + c in
    let row =
      multiply_row_lem x (v / 2 ^ 32) ys front zs (omega arith) hx
        (word_product-lt x y r c hx hy.0 hf.0 hc) hy.1 hf.1 in
    record {
      first = v % 2 ^ 32;
      rest = row.first ∷ row.rest;
      row_eq = ap (◌∷◌ (v % 2 ^ 32)) row.row_eq;
      rest_length = omega (arith, row.rest_length);
      first-lt = omega arith;
      rest_fits = (row.first-lt, row.rest_fits);
      row_value = omega (arith, row.row_value);
    }

multiply_loop_value :
    (xs ys front : Words)
    → length front ≡ length ys
    → Fits xs
    → Fits ys
    → Fits front
    → (to_ℕ (multiply_loop xs ys (front ++ replicate (length xs) 0))
        ≡ to_ℕ xs * to_ℕ ys + to_ℕ front)
      × Fits (multiply_loop xs ys (front ++ replicate (length xs) 0))
unfolding multiply_loop to_ℕ
multiply_loop_value [] ys front e hx hy hf = rw append-nil (omega arith, hf)
multiply_loop_value (x ∷ xs) ys front e hx hy hf =
    let row = multiply_row_lem x 0 ys front (replicate (length xs) 0) e hx.0 (omega arith) hy hf in
    let (value, fits) = multiply_loop_value xs ys row.rest row.rest_length hx.1 hy row.rest_fits in
    rw row.row_eq (omega (arith, row.row_value), (row.first-lt, fits))

zeros-append : (m n : ℕ) → replicate (m + n) 0 ≡ replicate m 0 ++ replicate {A = ℕ} n 0
zeros-append zero n = rw zero-add
zeros-append (suc m) n =
    let e : suc m + n ≡ suc (m + n) = omega arith in rw e (ap (◌∷◌ 0) (zeros-append m n))

zeros_value : (m : ℕ) → (to_ℕ (replicate m 0) ≡ 0) × Fits (replicate m 0)
unfolding to_ℕ
zeros_value zero = (refl, tt)
zeros_value (suc m) = let (v, f) = zeros_value m in (omega arith, (omega arith, f))

-- On the digits of two numbers, `multiply` gives the digits of their product.
pub multiply_value :
    (xs ys : Words)
    → IsNatural xs
    → IsNatural ys
    → (to_ℕ (multiply xs ys) ≡ to_ℕ xs * to_ℕ ys) × IsNatural (multiply xs ys)
unfolding multiply
multiply_value [] ys hx hy = unfold to_ℕ in (omega arith, hx)
multiply_value (x ∷ xs) [] hx hy = unfold to_ℕ in (omega arith, hy)
multiply_value (x ∷ xs) (y ∷ ys) hx hy =
    let m = length (y ∷ ys) in
    let n = length (x ∷ xs) in
    let (zv, zf) = zeros_value m in
    let (value, fits) =
      multiply_loop_value (x ∷ xs) (y ∷ ys) (replicate m 0) (length-replicate m 0) hx.fits hy.fits
        zf in
    let (trimmed, natural) =
      trim_lem (multiply_loop (x ∷ xs) (y ∷ ys) (replicate m 0 ++ replicate n 0)) fits in
    rw (add_comm n m, zeros-append m n) (omega arith, natural)
