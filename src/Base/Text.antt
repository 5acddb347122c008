-- ===== src/Base/Text.antt =====
-- Text as bytes: a `std::string_view` is the list of its bytes.
use Prim.Native.Char.{code}
use Prim.Native.String.{String}
use Prim.Native.Nat.{ℕ, zero, suc, ◌+◌, ◌/◌, ◌%◌}
use mathlib.Core.Path.{◌≡◌}
use mathlib.Core.Bool.{Bool, true, false, ◌&&◌}
use mathlib.Core.Logic.{◌↔◌}
use mathlib.Core.List.{List, [], ◌∷◌}
use native.Mathlib.Omega.{arith}
use c_cloth.Base.Tests.{◌==◌, ltb, if◌then◌else◌}

abbrev pub Bytes : Type 0
Bytes = List ℕ

-- The code points of a text literal: its bytes, since every literal here is ASCII.
abbrev pub codes : String → Bytes
codes String.[] = []
codes (String.◌∷◌ c s) = code c ∷ codes s

-- `==` of two `std::string_view`s.
unfoldable pub text_eq : Bytes → Bytes → Bool
text_eq [] [] = true
text_eq (x ∷ xs) (y ∷ ys) = x == y && text_eq xs ys
text_eq _ _ = false

pub text_eq_iff : (a b : Bytes) → (text_eq a b ≡ true) ↔ (a ≡ b)
unfolding text_eq
text_eq_iff (x ∷ a) (y ∷ b) = ground (arith, text_eq_iff a b)
text_eq_iff _ _ = ground arith

-- `std::to_string` of an unsigned number. A number below 2^64 has at most 20 digits, the fuel.
unfoldable pub to_string_loop : ℕ → ℕ → Bytes → Bytes
to_string_loop zero n digits = digits
to_string_loop (suc fuel) n digits =
    let more = (b'0' + n % 10) ∷ digits in
    let rest = to_string_loop fuel (n / 10) more in if ltb n 10 then more else rest

unfoldable pub to_string : ℕ → Bytes
unfolding to_string_loop
to_string n = to_string_loop 20 n []
