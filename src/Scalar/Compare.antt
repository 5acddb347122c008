-- ===== src/Scalar/Compare.antt =====
-- The comparison operators of src/sema/scalar_constants.cc on the order of two constants.
use Prim.Native.Nat.{Ordering, lt, eq, gt}
use c_cloth.Base.{ℕ, Bool, true, false, not}
use c_cloth.Token.{TokenKind, equal_equal, bang_equal, less, less_equal, greater, greater_equal}

abbrev pub bit_of : Bool → ℕ
bit_of true = 1
bit_of false = 0

abbrev pub same_bool : Bool → Bool → Bool
same_bool true b = b
same_bool false b = not b

-- The order as the `int` that the source compares with 0: `lt`, `eq` and `gt` for -1, 0 and 1.
unfoldable pub comparison : TokenKind → Ordering → Bool
comparison equal_equal order = elim order [ eq ↦ true | _ ↦ false ]
comparison bang_equal order = elim order [ eq ↦ false | _ ↦ true ]
comparison less order = elim order [ lt ↦ true | _ ↦ false ]
comparison less_equal order = elim order [ gt ↦ false | _ ↦ true ]
comparison greater order = elim order [ gt ↦ true | _ ↦ false ]
comparison greater_equal order = elim order [ lt ↦ false | _ ↦ true ]
comparison _ order = false

unfoldable pub is_comparison : TokenKind → Bool
is_comparison equal_equal = true
is_comparison bang_equal = true
is_comparison less = true
is_comparison less_equal = true
is_comparison greater = true
is_comparison greater_equal = true
is_comparison _ = false
