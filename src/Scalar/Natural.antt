-- ===== src/Scalar/Natural.antt =====
-- The class `Natural` of src/sema/scalar_constants.cc: natural numbers of any size as their digits
-- in base 2^32, lowest first. A loop over word positions is a recursion on the words.
pub mod Value
pub mod Product
pub mod Order
pub mod Sum
pub mod Shift
use Prim.Native.Nat.{compare, Ordering, lt, eq, gt, bit_or}
use c_cloth.Base.{
  ℕ, zero, suc, ◌+◌, ◌-◌, ◌*◌, ◌/◌, ◌%◌, ◌^◌, Bool, true, false, ◌||◌, ◌==◌, ltb, List, [], ◌∷◌,
  ◌++◌, length, replicate, max, if◌then◌else◌,
}
use c_cloth.Base.Words.{u32, shr}

abbrev pub Words : Type 0
Words = List ℕ

abbrev pub word : ℕ → Words → Words
word w rest = w ∷ rest

-- `Natural(std::uint64_t value)`.
unfoldable pub from_u64 : ℕ → Words
from_u64 value =
    if value == 0
    then []
    else if shr value 32 == 0
    then u32 value ∷ []
    else u32 value ∷ u32 (shr value 32) ∷ []

unfoldable pub is_zero : Words → Bool
is_zero [] = true
is_zero (w ∷ ws) = false

-- `32 - std::countl_zero(word)`: the number of binary digits of a word.
pub digits_below : ℕ → ℕ → ℕ
digits_below zero w = 0
digits_below (suc fuel) w = let rest = digits_below fuel (w / 2) in if w == 0 then 0 else suc rest

-- `width()`: 32 for each word but the last, and the digits of that one.
unfoldable pub width : Words → ℕ
unfolding digits_below
width [] = 0
width (w ∷ []) = digits_below 32 w
width (w ∷ v ∷ ws) = 32 + width (v ∷ ws)

unfoldable pub low : Words → ℕ
low [] = 0
low (w ∷ []) = w
low (w ∷ v ∷ ws) = bit_or (v * 2 ^ 32) w

-- Words of one size, from the highest that differs.
unfoldable pub compare_words : Words → Words → Ordering
compare_words [] ys = eq
compare_words (x ∷ xs) [] = eq
compare_words (x ∷ xs) (y ∷ ys) = elim (compare_words xs ys) [
  | eq ↦ compare x y
  | lt ↦ lt
  | gt ↦ gt
]

-- `compare(other)`, whose -1, 0 and 1 are `lt`, `eq` and `gt`.
unfoldable pub compare_to : Words → Words → Ordering
unfolding compare_words
compare_to xs ys = elim (compare (length xs) (length ys)) [
  | eq ↦ compare_words xs ys
  | lt ↦ lt
  | gt ↦ gt
]

abbrev push_carry : ℕ → Words
push_carry carry = if carry == 0 then [] else u32 carry ∷ []

pub shift_loop : ℕ → ℕ → Words → Words
shift_loop part carry [] = push_carry carry
shift_loop part carry (w ∷ ws) =
    let value = bit_or (w * 2 ^ part) carry in u32 value ∷ shift_loop part (shr value 32) ws

-- `shift(bits)`.
unfoldable pub shift : Words → ℕ → Words
unfolding shift_loop is_zero
shift ws bits =
    if is_zero ws || bits == 0 then ws else replicate (bits / 32) 0 ++ shift_loop (bits % 32) 0 ws

-- The loop of `add`, the shorter number taken as filled up with zeros.
pub add_loop : ℕ → Words → Words → Words
add_loop carry [] [] = push_carry carry
add_loop carry (x ∷ xs) [] = let value = x + carry in u32 value ∷ add_loop (shr value 32) xs []
add_loop carry [] (y ∷ ys) = let value = 0 + carry + y in u32 value ∷ add_loop (shr value 32) [] ys
add_loop carry (x ∷ xs) (y ∷ ys) =
    let value = x + carry + y in u32 value ∷ add_loop (shr value 32) xs ys

unfoldable pub add : Words → Words → Words
unfolding add_loop
add xs ys = add_loop 0 xs ys

-- `while (!words_.empty() && words_.back() == 0) words_.pop_back()`.
pub cons_trimmed : ℕ → Words → Words
cons_trimmed w [] = if w == 0 then [] else w ∷ []
cons_trimmed w (v ∷ ws) = w ∷ v ∷ ws

pub trim : Words → Words
unfolding cons_trimmed
trim [] = []
trim (w ∷ ws) = cons_trimmed w (trim ws)

-- The loop of `subtract` over the words of the minuend; `value - sub` wraps in 64 bits before the
-- cut to 32.
pub subtract_loop : ℕ → Words → Words → Words
subtract_loop borrow [] ys = []
subtract_loop borrow (x ∷ xs) [] =
    u32 (x + 2 ^ 64 - borrow) ∷ subtract_loop (if ltb x borrow then 1 else 0) xs []
subtract_loop borrow (x ∷ xs) (y ∷ ys) =
    let sub = borrow + y in
    u32 (x + 2 ^ 64 - sub) ∷ subtract_loop (if ltb x sub then 1 else 0) xs ys

unfoldable pub subtract : Words → Words → Words
unfolding subtract_loop trim
subtract xs ys = trim (subtract_loop 0 xs ys)

-- The inner loop of `multiply` for one word `x`, on the words of the result from position `i` on;
-- behind the last word of the other number it stores the carry.
pub multiply_row : ℕ → Words → ℕ → Words → Words
multiply_row x [] carry [] = []
multiply_row x [] carry (r ∷ rs) = u32 carry ∷ rs
multiply_row x (y ∷ ys) carry [] = []
multiply_row x (y ∷ ys) carry (r ∷ rs) =
    let value = x * y + r + carry in u32 value ∷ multiply_row x ys (shr value 32) rs

-- The outer loop: the next word's row begins one position further on.
pub multiply_next : Words → (Words → Words) → Words
multiply_next [] next = []
multiply_next (r ∷ rs) next = r ∷ next rs

pub multiply_loop : Words → Words → Words → Words
unfolding multiply_row multiply_next
multiply_loop [] ys result = result
multiply_loop (x ∷ xs) ys result = multiply_next (multiply_row x ys 0 result) (multiply_loop xs ys)

unfoldable pub multiply : Words → Words → Words
unfolding multiply_loop trim is_zero
multiply xs ys =
    if is_zero xs || is_zero ys
    then []
    else trim (multiply_loop xs ys (replicate (length xs + length ys) 0))
