-- ===== src/Scalar.antt =====
-- src/sema/scalar_constants.cc and include/cloth/sema/scalar_constants.h: constants of scalar types
-- as bit patterns. This module has the error codes and the results that the parts share.
pub mod Natural
pub mod Float
pub mod Integer
pub mod Compare
pub mod FloatBinary
pub mod Operations
pub mod Decimal
pub mod Conversions
pub mod Literals
use Prim.Native.String.{String}
use c_cloth.Base.{ℕ, Bool, true, false, ◌≡◌, refl}

pub data ConstantError : Type 0 where
  invalid_literal out_of_range overflow zero_divisor : ConstantError
  invalid_shift non_finite invalid_operation : ConstantError

-- `std::expected<_, ConstantError>`.
pub data Expected {ℓ} (A : Type ℓ) : Type ℓ where
  ok : A → Expected A
  unexpected : ConstantError → Expected A

infixl 5 ◌>>=◌
abbrev pub ◌>>=◌ {ℓ κ} : {A : Type ℓ} {B : Type κ} → Expected A → (A → Expected B) → Expected B
ok a >>= f = f a
unexpected e >>= f = unexpected e

abbrev pub ConstantBits : Type 0
ConstantBits = Expected ℕ

unfoldable pub constant_error_message : ConstantError → String
constant_error_message invalid_literal = "invalid scalar constant literal"
constant_error_message out_of_range = "constant value is out of range for its type"
constant_error_message overflow = "constant arithmetic overflow"
constant_error_message zero_divisor = "constant division or remainder by zero"
constant_error_message invalid_shift = "constant shift count is out of range"
constant_error_message non_finite = "constant floating-point result is not finite"
constant_error_message invalid_operation = "invalid scalar constant operation"
