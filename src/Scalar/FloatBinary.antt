-- ===== src/Scalar/FloatBinary.antt =====
-- `float_binary` of src/sema/scalar_constants.cc: comparison and arithmetic of finite values.
use Prim.Native.Nat.{Ordering, lt, eq, gt}
use c_cloth.Base.{ℕ, Bool, true, false, not, ◌&&◌, if◌then◌else◌}
use c_cloth.Base.Int.{ℤ, ◌+ℤ◌, ◌-ℤ◌, ltb_ℤ, pos_part}
use c_cloth.Token.{TokenKind, plus, minus, star, slash}
use c_cloth.Numeric.{TypeKind}
use c_cloth.Scalar.{ConstantBits, ok, unexpected, zero_divisor, invalid_operation}
use c_cloth.Scalar.Natural.{from_u64, is_zero, compare_to, shift, add, subtract, multiply}
use c_cloth.Scalar.Float.{Finite, unpack, scaled_compare, pack}
use c_cloth.Scalar.Compare.{bit_of, same_bool, comparison, is_comparison}

abbrev reversed : Ordering → Ordering
reversed lt = gt
reversed eq = eq
reversed gt = lt

-- The order of two finite values, zeros of both signs equal.
unfoldable pub float_order : Finite → Finite → Ordering
unfolding scaled_compare is_zero ◌-ℤ◌
float_order a b =
    let order = scaled_compare a.magnitude b.magnitude (a.scale -ℤ b.scale) in
    if is_zero a.magnitude && is_zero b.magnitude
    then eq
    else if not (same_bool a.negative b.negative)
    then (if a.negative then lt else gt)
    else if a.negative
    then reversed order
    else order

abbrev min_ℤ : ℤ → ℤ → ℤ
min_ℤ a b = if ltb_ℤ b a then b else a

-- The sum of two finite values, both brought to the smaller scale.
unfoldable pub float_sum : Finite → Finite → TypeKind → ConstantBits
unfolding shift add subtract compare_to is_zero ◌-ℤ◌ pack
float_sum a b type =
    let scale = min_ℤ a.scale b.scale in
    let x = shift a.magnitude (pos_part (a.scale -ℤ scale)) in
    let y = shift b.magnitude (pos_part (b.scale -ℤ scale)) in
    let smaller : Bool = elim (compare_to x y) [ lt ↦ true | _ ↦ false ] in
    let difference = if smaller then subtract y x else subtract x y in
    let sign = if smaller then b.negative else a.negative in
    if same_bool a.negative b.negative
    then pack a.negative (add x y) (from_u64 1) scale type false
    else pack (if is_zero difference then false else sign) difference (from_u64 1) scale type false

-- The arithmetic of `float_binary`, on unpacked operands.
unfoldable pub float_arithmetic : TokenKind → TypeKind → Finite → Finite → ConstantBits
unfolding float_sum multiply is_zero pack ◌+ℤ◌ ◌-ℤ◌
float_arithmetic star type a b =
    pack (not (same_bool a.negative b.negative)) (multiply a.magnitude b.magnitude) (from_u64 1)
      (a.scale +ℤ b.scale) type false
float_arithmetic slash type a b =
    if is_zero b.magnitude
    then unexpected zero_divisor
    else pack (not (same_bool a.negative b.negative)) a.magnitude b.magnitude (a.scale -ℤ b.scale)
        type false
float_arithmetic plus type a b = float_sum a b type
float_arithmetic minus type a b = float_sum a (record b { negative = not b.negative }) type
float_arithmetic _ type a b = unexpected invalid_operation

unfoldable pub float_binary : TokenKind → TypeKind → ℕ → ℕ → ConstantBits
unfolding unpack float_order float_arithmetic is_comparison comparison
float_binary operation type left right =
    let a = unpack left type in
    let b = unpack right type in
    if is_comparison operation
    then ok (bit_of (comparison operation (float_order a b)))
    else float_arithmetic operation type a b
