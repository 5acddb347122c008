-- ===== src/Scalar/Operations/ShiftPatterns.antt =====
-- The patterns that the shifts of src/sema/scalar_constants.cc compute, against the integers.
use Prim.Native.Nat.{bit_or, bit_xor}
use native.Mathlib.Nat.{
  mul-add-mod_self_left, mod-eq_of_lt, one-le-pow, div-one, div-le_self, pow-suc, div-add-mod,
  mod-lt, mul-add-div, div-eq_of_lt, div-lt_iff_lt-mul,
}
use c_cloth.Base.{
  ℕ, zero, suc, ◌+◌, ◌-◌, ◌*◌, ◌/◌, ◌%◌, ◌^◌, ◌≤◌, ◌<◌, ◌≡◌, refl, ap, ◌∙◌, sym, Bool, true, false,
  ◌==◌, ◌/=◌, ◌&&◌, arith, if◌then◌else◌, ◌⊎◌, Bool-cases, inl, inr,
}
use c_cloth.Base.Order.{pow-add}
use c_cloth.Base.Words.{shr, shl64, low_bits, bit_or_join, bit_or_comm}
use c_cloth.Base.Int.{mod_ℤ, floor_div, ◌*ℤ◌, pos, negsuc}
use c_cloth.Numeric.Values.{Width, w8, w16, w32, w64, width_bits, shape, value_of}
use c_cloth.Numeric.{NumericTypeProperties}
use c_cloth.Scalar.Integer.{mask, integer_with}

-- The bits that a right shift of a negative integer fills, tested for every count below a number.
fills : ℕ → ℕ → Bool
unfolding mask
fills w zero = true
fills w (suc k) = bit_xor (mask w) (mask (w - k)) == 2 ^ w - 2 ^ (w - k) && fills w k

fills-below :
    (w n k : ℕ) → fills w n ≡ true → k < n → bit_xor (mask w) (mask (w - k)) ≡ 2 ^ w - 2 ^ (w - k)
unfolding fills
fills-below w zero k h l = absurd (omega arith)
fills-below w (suc n) k h l =
    let at_n = split (bit_xor (mask w) (mask (w - n)) == 2 ^ w - 2 ^ (w - n)) (fills w n) h in
    elim (Bool-cases (k == n)) [
      | inl e ↦ rw (equal k n e) (equal _ _ at_n.0)
      | inr e ↦ fills-below w n k at_n.1 (less k n l e)
    ]
  where
    split : (a b : Bool) → (a && b) ≡ true → (a ≡ true) × (b ≡ true)
    split a b h = ground arith

    equal : (a b : ℕ) → (a == b) ≡ true → a ≡ b
    equal a b h = ground arith

    less : (k n : ℕ) → k < suc n → (k == n) ≡ false → k < n
    less k n l e = ground arith

filled :
    (w : Width) (k : ℕ)
    → k < width_bits w
    → bit_xor (mask (width_bits w)) (mask (width_bits w - k))
      ≡ 2 ^ width_bits w - 2 ^ (width_bits w - k)
unfolding fills
filled w8 k h = fills-below 8 8 k refl h
filled w16 k h = fills-below 16 16 k refl h
filled w32 k h = fills-below 32 32 k refl h
filled w64 k h = fills-below 64 64 k refl h

expand :
    (p t r m q x : ℕ) → r < p → x ≡ p * t + r → q ≡ t + 1 + m → p * q - 1 - x ≡ p * m + (p - 1 - r)
expand p t r m q x h ex eq = rw (ex, eq) (multiplied p t r m h)
  where
    multiplied : (p t r m : ℕ) → r < p → p * (t + 1 + m) - 1 - (p * t + r) ≡ p * m + (p - 1 - r)
    multiplied p t r m h = grind arith

-- The complement of a quotient.
complement_div : (p q x : ℕ) → 0 < p → x < p * q → (p * q - 1 - x) / p ≡ q - 1 - x / p
complement_div p q x h l =
    let m = q - 1 - x / p in
    let r = x % p in
    let below : x / p < q = (div-lt_iff_lt-mul {k = p} {x = x} {y = q} h).1 (grind arith) in
    let whole : q ≡ x / p + 1 + m = omega arith in
    let small : r < p = mod-lt x h in
    ap (λ n. n / p) (expand p (x / p) r m q x small (sym (div-add-mod x p)) whole)
    ∙ mul-add-div h m (p - 1 - r)
    ∙ omega (arith, div-eq_of_lt {n = p - 1 - r} {m = p} (omega arith))

-- Powers of two on both sides of a shift.
record Powers (width k left : ℕ) : Type 0 where
  whole : 2 ^ k * 2 ^ (width - k) ≡ 2 ^ width
  below : left / 2 ^ k < 2 ^ (width - k)
  half : (k ≡ 0) ⊎ (2 * 2 ^ (width - k) ≤ 2 ^ width)
  same : k ≡ 0 → left / 2 ^ k ≡ left
  less : left / 2 ^ k ≤ left
  other : (2 ^ width - 1 - left) / 2 ^ k ≡ 2 ^ (width - k) - 1 - left / 2 ^ k

powers : (width k left : ℕ) → left < 2 ^ width → k < width → Powers width k left
powers width k left h l =
    let e : k + (width - k) ≡ width = omega arith in
    let product : 2 ^ k * 2 ^ (width - k) ≡ 2 ^ width =
      sym (pow-add 2 k (width - k)) ∙ ap (λ n. 2 ^ n) e in
    let p : 0 < 2 ^ k = one-le-pow k 2 (omega arith) in
    record {
      whole = product;
      below = (div-lt_iff_lt-mul {k = 2 ^ k} {x = left} {y = 2 ^ (width - k)} p).1 (grind arith);
      half = at_least_half k (2 ^ (width - k)) (2 ^ width) product;
      same = λ z. rw z (div-one left);
      less = div-le_self left (2 ^ k);
      other =
          ap (λ n. (n - 1 - left) / 2 ^ k) (sym product)
          ∙ complement_div (2 ^ k) (2 ^ (width - k)) left p (omega (arith, product));
    }
  where
    at_least_half : (k q w : ℕ) → 2 ^ k * q ≡ w → (k ≡ 0) ⊎ (2 * q ≤ w)
    at_least_half zero q w e = inl refl
    at_least_half (suc k) q w e = inr (grind (arith, pow-suc 2 k, one-le-pow k 2))

fill_value :
    (w : Width) (k left : ℕ)
    → left < 2 ^ width_bits w
    → k < width_bits w
    → bit_or (left / 2 ^ k) (bit_xor (mask (width_bits w)) (mask (width_bits w - k)))
      ≡ 2 ^ width_bits w - 2 ^ (width_bits w - k) + left / 2 ^ k
fill_value w k left h l =
    let f = powers (width_bits w) k left h l in
    let ones : (2 ^ k - 1) * 2 ^ (width_bits w - k) ≡ 2 ^ width_bits w - 2 ^ (width_bits w - k) =
      less_one (2 ^ k) (2 ^ (width_bits w - k)) ∙ ap (λ n. n - 2 ^ (width_bits w - k)) f.whole in
    rw (filled w k l) (
      bit_or_comm (left / 2 ^ k) (2 ^ width_bits w - 2 ^ (width_bits w - k))
      ∙ rw (← ones) (bit_or_join (width_bits w - k) (2 ^ k - 1) (left / 2 ^ k) f.below))
  where
    less_one : (p q : ℕ) → (p - 1) * q ≡ p * q - q
    less_one zero q = grind arith
    less_one (suc p) q = grind arith

-- The pattern of a right shift.
abbrev pub shifted : NumericTypeProperties → ℕ → ℕ → ℕ
shifted p left k =
    if k /= 0 && (integer_with p left).negative
    then bit_or (shr left k) (bit_xor (mask p.bit_width) (mask (p.bit_width - k)))
    else shr left k

pub shifted_value :
    (s : Bool) (w : Width) (left k : ℕ)
    → left < 2 ^ width_bits w
    → k < width_bits w
    → (shifted (shape s w) left k < 2 ^ width_bits w)
      × (value_of (shape s w) (shifted (shape s w) left k)
          ≡ floor_div (value_of (shape s w) left) (2 ^ k))
unfolding integer_with
shifted_value true w8 left k h l =
    let f = powers 8 k left h l in
    ground (arith, fill_value w8 k left h l, f.below, f.half, f.same, f.less, f.other)
shifted_value _ w left k h l =
    let f = powers (width_bits w) k left h l in
    ground (arith, fill_value w k left h l, f.below, f.half, f.same, f.less, f.other)

pos_times : (n p : ℕ) → pos n *ℤ pos p ≡ pos (n * p)
unfolding ◌*ℤ◌
pos_times n p = grind arith

negsuc_times : (n p : ℕ) → 0 < p → negsuc n *ℤ pos p ≡ negsuc (suc n * p - 1)
unfolding ◌*ℤ◌
negsuc_times n p h = grind arith

-- The remainder of a complement.
complement_mod : (p q x : ℕ) → 0 < p → x < p * q → (p * q - 1 - x) % p ≡ p - 1 - x % p
complement_mod p q x h l =
    let m = q - 1 - x / p in
    let r = x % p in
    let below : x / p < q = (div-lt_iff_lt-mul {k = p} {x = x} {y = q} h).1 (grind arith) in
    let whole : q ≡ x / p + 1 + m = omega arith in
    let small : r < p = mod-lt x h in
    ap (λ n. n % p) (expand p (x / p) r m q x small (sym (div-add-mod x p)) whole)
    ∙ mul-add-mod_self_left p m (p - 1 - r)
    ∙ mod-eq_of_lt {n = p - 1 - r} {m = p} (omega arith)

rest_times : (left d w p : ℕ) → w ≡ left + suc d → suc d * p - 1 ≡ w * p - 1 - left * p
rest_times left d w p e = rw e (multiplied left d p)
  where
    multiplied : (left d p : ℕ) → suc d * p - 1 ≡ (left + suc d) * p - 1 - left * p
    multiplied left d p = grind arith

negative_mod :
    (w left p : ℕ) → left < w → 0 < p → mod_ℤ (negsuc (w - left - 1) *ℤ pos p) w ≡ left * p % w
negative_mod w left p h l =
    let inside : left * p < w * p = grind arith in
    let taken : suc (w - left - 1) * p - 1 ≡ w * p - 1 - left * p =
      rest_times left (w - left - 1) w p (omega arith) in
    rw (negsuc_times (w - left - 1) p l) (
      rw (taken, complement_mod w p (left * p) (omega arith) inside)
        (omega (arith, mod-lt (left * p) {m = w} (omega arith))))

pub left_value :
    (s : Bool) (w : Width) (left k : ℕ)
    → left < 2 ^ width_bits w
    → low_bits (shl64 left k) (shape s w).bit_width
      ≡ mod_ℤ (value_of (shape s w) left *ℤ pos (2 ^ k)) (2 ^ (shape s w).bit_width)
left_value true w8 left k h =
    ground (arith, pos_times left (2 ^ k), negative_mod (2 ^ 8) left (2 ^ k), one-le-pow k 2)
left_value _ w left k h =
    ground
      (arith, pos_times left (2 ^ k), negative_mod (2 ^ width_bits w) left (2 ^ k), one-le-pow k 2)
