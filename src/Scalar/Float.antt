-- ===== src/Scalar/Float.antt =====
-- The binary floating-point part of src/sema/scalar_constants.cc: a finite value as a natural number
-- scaled by a power of two, and the rounding of a quotient to the nearest pattern, ties to even. The
-- exponents are `int`s, far from their bounds by the limits on literals; here they are integers.
use Prim.Native.Nat.{Ordering, lt, eq, gt, bit_or}
use c_cloth.Base.{ℕ, zero, suc, ◌+◌, ◌*◌, ◌%◌, ◌^◌, Bool, true, false, ◌==◌, leb, if◌then◌else◌}
use c_cloth.Base.Int.{ℤ, pos, negsuc, ◌+ℤ◌, ◌-ℤ◌, ltb_ℤ, pos_part}
use c_cloth.Base.Words.{low_bits, test_bit, shr, shl64}
use c_cloth.Numeric.{TypeKind, float32, float64}
use c_cloth.Scalar.{ConstantBits, ok, unexpected, out_of_range, non_finite}
use c_cloth.Scalar.Natural.{Words, from_u64, is_zero, width, compare_to, shift, subtract}

pub record FloatFormat : Type 0 where
  pub fraction : ℕ
  pub exponent : ℕ
  pub bias : ℕ

-- `format(type)`, which the source calls at the two floating types.
unfoldable pub format : TypeKind → FloatFormat
format float32 = record { fraction = 23; exponent = 8; bias = 127 }
format _ = record { fraction = 52; exponent = 11; bias = 1023 }

unfoldable pub floating : TypeKind → Bool
floating float32 = true
floating float64 = true
floating _ = false

unfoldable pub sign_bit : TypeKind → ℕ
unfolding format
sign_bit type = let f = format type in shl64 1 (f.fraction + f.exponent)

pub record Finite : Type 0 where
  pub negative : Bool
  pub magnitude : Words
  pub scale : ℤ

unfoldable pub unpack : ℕ → TypeKind → Finite
unfolding format from_u64 ◌-ℤ◌
unpack bits type =
    let f = format type in
    let exponent = low_bits (shr bits f.fraction) f.exponent in
    let hidden = if exponent == 0 then 0 else shl64 1 f.fraction in
    let stored = if exponent == 0 then 1 else exponent in
    record {
      negative = test_bit bits (f.fraction + f.exponent);
      magnitude = from_u64 (bit_or (low_bits bits f.fraction) hidden);
      scale = pos stored -ℤ pos f.bias -ℤ pos f.fraction;
    }

unfoldable pub scaled_compare : Words → Words → ℤ → Ordering
unfolding compare_to shift
scaled_compare left right (pos difference) = compare_to (shift left difference) right
scaled_compare left right (negsuc n) = compare_to left (shift right (suc n))

abbrev pub max_ℤ : ℤ → ℤ → ℤ
max_ℤ a b = if ltb_ℤ a b then b else a

-- `for (bit = …; bit >= 0; --bit)`, with the number of rounds left: it takes the denominator,
-- shifted, off the numerator where it fits, and sets the bit of the quotient.
pub divide_loop : ℕ → Words → Words → ℕ → Words × ℕ
unfolding compare_to shift subtract
divide_loop zero numerator denominator quotient = (numerator, quotient)
divide_loop (suc bit) numerator denominator quotient =
    let divisor = shift denominator bit in
    let fits : Bool = elim (compare_to numerator divisor) [ lt ↦ false | eq ↦ true | gt ↦ true ] in
    divide_loop bit (if fits then subtract numerator divisor else numerator) denominator
      (if fits then bit_or quotient (2 ^ bit) else quotient)

-- `bit >= 0` rounds for a first bit of `width(numerator) - width(denominator)`.
abbrev rounds : ℤ → ℕ
rounds (pos n) = suc n
rounds (negsuc n) = 0

-- To the nearest, and to the even quotient half way.
abbrev round_up : Ordering → ℕ → Bool
round_up gt quotient = true
round_up eq quotient = quotient % 2 == 1
round_up lt quotient = false

-- The end of `pack`: the quotient rounded, for the exponent of its leading bit.
unfoldable pub pack_quotient : FloatFormat → ℕ → ℕ → ℤ → Bool → ConstantBits
unfolding ◌+ℤ◌ ◌-ℤ◌
pack_quotient f sign quotient exponent literal =
    let carried = quotient == shl64 1 (f.fraction + 1) in
    let quotient' = if carried then shr quotient 1 else quotient in
    let exponent' = if carried then exponent +ℤ pos 1 else exponent in
    let normal = leb (shl64 1 f.fraction) quotient' in
    let stored =
      if normal then pos_part (max_ℤ exponent' (pos 1 -ℤ pos f.bias) +ℤ pos f.bias) else 0 in
    if quotient == 0
    then (if literal then unexpected out_of_range else ok sign)
    else if ltb_ℤ (pos f.bias) exponent'
    then unexpected non_finite
    else ok (bit_or (bit_or sign (stored * 2 ^ f.fraction)) (low_bits quotient' f.fraction))

-- The middle of `pack`: the division to the precision of the format, and the rounding.
unfoldable pub pack_rounded : FloatFormat → ℕ → Words → Words → ℤ → ℤ → Bool → ConstantBits
unfolding pack_quotient ◌+ℤ◌ ◌-ℤ◌ shift width compare_to divide_loop
pack_rounded f sign numerator denominator scale exponent literal =
    let quantum = max_ℤ exponent (pos 1 -ℤ pos f.bias) -ℤ pos f.fraction in
    let amount = scale -ℤ quantum in
    let n : Words = elim amount [ pos by ↦ shift numerator by | negsuc by ↦ numerator ] in
    let d : Words = elim amount [ pos by ↦ denominator | negsuc by ↦ shift denominator (suc by) ] in
    let (left, quotient) = divide_loop (rounds (pos (width n) -ℤ pos (width d))) n d 0 in
    let up = round_up (compare_to (shift left 1) d) quotient in
    pack_quotient f sign (if up then quotient + 1 else quotient) exponent literal

-- `pack`: numerator / denominator * 2^scale.
unfoldable pub pack : Bool → Words → Words → ℤ → TypeKind → Bool → ConstantBits
unfolding pack_rounded sign_bit format scaled_compare width is_zero ◌+ℤ◌ ◌-ℤ◌
pack negative numerator denominator scale type literal =
    let f = format type in
    let sign = if negative then sign_bit type else 0 in
    let estimate = pos (width numerator) -ℤ pos (width denominator) +ℤ scale in
    let below = scaled_compare numerator denominator (scale -ℤ estimate) in
    let exponent : ℤ = elim below [ lt ↦ estimate -ℤ pos 1 | eq ↦ estimate | gt ↦ estimate ] in
    if is_zero numerator
    then ok sign
    else if ltb_ℤ (pos f.bias) exponent
    then unexpected non_finite
    else if ltb_ℤ exponent (pos 1 -ℤ pos f.bias -ℤ pos f.fraction -ℤ pos 1)
    then (if literal then unexpected out_of_range else ok sign)
    else pack_rounded f sign numerator denominator scale exponent literal
