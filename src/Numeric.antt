-- ===== src/Numeric.antt =====
-- src/sema/numeric_types.cc, include/cloth/sema/numeric_types.h and the `TypeKind` of
-- include/cloth/sema/semantic_model.h: the numeric types, the widening relation, and integer
-- constants as zero-extended bit patterns.
pub mod Values
pub mod Widen
use Prim.Native.Nat.{bit_or}
use c_cloth.Base.{
  List, [], get_elem?, ◌≡◌, refl, sym, ap, ◌∙◌, arith, ℕ, ◌+◌, ◌-◌, ◌*◌, Bool, true, false, not,
  ◌&&◌, ◌||◌, ◌==◌, ltb, leb, [], ◌∷◌, Option, none, some, if◌then◌else◌,
}
use c_cloth.Base.Text.{Bytes}
use c_cloth.Base.Words.{low_bits, test_bit, shl64, neg64, u64_max}

pub data TypeKind : Type 0 where
  error bottom void null bool char byte int8 int16 int32 int64 : TypeKind
  uint8 uint16 uint32 uint64 float32 float64 string object error_class file_class : TypeKind
  interface array nullable enum struct : TypeKind

pub data NumericCategory : Type 0 where
  signed_integer unsigned_integer floating_point : NumericCategory

pub record NumericTypeProperties : Type 0 where
  pub category : NumericCategory
  pub bit_width : ℕ

abbrev pub properties : NumericCategory → ℕ → Option NumericTypeProperties
properties category width = some (record { category = category; bit_width = width })

unfoldable pub numeric_type_properties : TypeKind → Option NumericTypeProperties
numeric_type_properties byte = properties unsigned_integer 8
numeric_type_properties uint8 = properties unsigned_integer 8
numeric_type_properties int8 = properties signed_integer 8
numeric_type_properties uint16 = properties unsigned_integer 16
numeric_type_properties int16 = properties signed_integer 16
numeric_type_properties uint32 = properties unsigned_integer 32
numeric_type_properties int32 = properties signed_integer 32
numeric_type_properties uint64 = properties unsigned_integer 64
numeric_type_properties int64 = properties signed_integer 64
numeric_type_properties float32 = properties floating_point 32
numeric_type_properties float64 = properties floating_point 64
numeric_type_properties _ = none

-- The value of `f` at the properties of a type, and `default` at a type that has none.
abbrev pub with_properties {ℓ} :
    {A : Type ℓ} → (NumericTypeProperties → A) → A → Option NumericTypeProperties → A
with_properties f default none = default
with_properties f default (some p) = f p

-- `==` on the enumerations.
abbrev pub is_floating_category : NumericCategory → Bool
is_floating_category floating_point = true
is_floating_category _ = false

abbrev pub is_signed_category : NumericCategory → Bool
is_signed_category signed_integer = true
is_signed_category _ = false

abbrev pub is_unsigned_category : NumericCategory → Bool
is_unsigned_category unsigned_integer = true
is_unsigned_category _ = false

-- The position of a kind in the enumeration, by which two kinds are compared.
abbrev pub kind_code : TypeKind → ℕ
kind_code error = 0
kind_code bottom = 1
kind_code void = 2
kind_code null = 3
kind_code bool = 4
kind_code char = 5
kind_code byte = 6
kind_code int8 = 7
kind_code int16 = 8
kind_code int32 = 9
kind_code int64 = 10
kind_code uint8 = 11
kind_code uint16 = 12
kind_code uint32 = 13
kind_code uint64 = 14
kind_code float32 = 15
kind_code float64 = 16
kind_code string = 17
kind_code object = 18
kind_code error_class = 19
kind_code file_class = 20
kind_code interface = 21
kind_code array = 22
kind_code nullable = 23
kind_code enum = 24
kind_code struct = 25

abbrev pub same_kind : TypeKind → TypeKind → Bool
same_kind a b = kind_code a == kind_code b

abbrev all_kinds : List TypeKind
all_kinds =
    error ∷ bottom ∷ void ∷ null ∷ bool ∷ char ∷ byte ∷ int8 ∷ int16 ∷ int32 ∷ int64 ∷ uint8
    ∷ uint16 ∷ uint32 ∷ uint64 ∷ float32 ∷ float64 ∷ string ∷ object ∷ error_class ∷ file_class
    ∷ interface ∷ array ∷ nullable ∷ enum ∷ struct ∷ []

kind_at_code : (kind : TypeKind) → get_elem? all_kinds (kind_code kind) ≡ some kind
kind_at_code error = refl
kind_at_code _ = refl

pub same_kind→eq : (a b : TypeKind) → same_kind a b ≡ true → a ≡ b
same_kind→eq a b h =
    let codes_eq : kind_code a ≡ kind_code b = ground arith in
    cc (sym (kind_at_code a) ∙ ap (get_elem? all_kinds) codes_eq ∙ kind_at_code b)

pub same_kind_self : (a : TypeKind) → same_kind a a ≡ true
same_kind_self a = ground arith

unfoldable pub is_integer_type : TypeKind → Bool
is_integer_type kind =
    with_properties (λ p. not (is_floating_category p.category)) false
      (numeric_type_properties kind)

unfoldable pub is_numeric_type : TypeKind → Bool
is_numeric_type kind = elim (numeric_type_properties kind) [ some p ↦ true | none ↦ false ]

-- The comparison of `can_widen_numeric` on the properties of two types that differ.
unfoldable pub can_widen_properties : NumericTypeProperties → NumericTypeProperties → Bool
can_widen_properties source target =
    if is_floating_category source.category || is_floating_category target.category
    then is_floating_category source.category
      && is_floating_category target.category
      && ltb source.bit_width target.bit_width
    else if is_signed_category source.category && is_unsigned_category target.category
    then false
    else ltb source.bit_width target.bit_width

-- With the properties looked up: a type that has none does not widen.
unfoldable pub can_widen_looked_up :
    Option NumericTypeProperties → Option NumericTypeProperties → Bool
unfolding can_widen_properties
can_widen_looked_up (some source) (some target) = can_widen_properties source target
can_widen_looked_up _ _ = false

unfoldable pub can_widen_numeric : TypeKind → TypeKind → Bool
unfolding can_widen_looked_up
can_widen_numeric source target =
    if same_kind source target
    then false
    else can_widen_looked_up (numeric_type_properties source) (numeric_type_properties target)

unfoldable pub integer_mask : ℕ → ℕ
integer_mask width = if width == 64 then u64_max else shl64 1 width - 1

abbrev is_digit : ℕ → Bool
is_digit c = leb b'0' c && leb c b'9'

-- `std::from_chars` on a `uint64_t` in base ten, of the language's library: it reads the digits at
-- the front, and reports a text with none and a value above 2^64 - 1. The result is the value and
-- what follows the digits.
pub from_chars_loop : ℕ → Bytes → ℕ × Bytes
from_chars_loop value [] = (value, [])
from_chars_loop value (c ∷ rest) =
    let more = from_chars_loop (value * 10 + (c - b'0')) rest in
    if is_digit c then more else (value, c ∷ rest)

pub from_chars : Bytes → Option (ℕ × Bytes)
from_chars [] = none
from_chars (c ∷ rest) =
    let (value, after) = from_chars_loop 0 (c ∷ rest) in
    if not (is_digit c) then none else if ltb u64_max value then none else some (value, after)

starts_with_digit : Bytes → Bool
starts_with_digit [] = false
starts_with_digit (c ∷ rest) = is_digit c

-- The bounds check and the encoding of `integer_constant_bits`, on a magnitude read whole.
unfoldable pub constant_bits_of : ℕ → Bool → NumericTypeProperties → Option ℕ
unfolding integer_mask
constant_bits_of value negative p =
    let maximum =
      if is_signed_category p.category
      then shl64 1 (p.bit_width - 1) - (if negative then 0 else 1)
      else integer_mask p.bit_width in
    if ltb maximum value
    then none
    else some (low_bits (if negative then neg64 value else value) p.bit_width)

read_constant_bits : Option (ℕ × Bytes) → Bool → NumericTypeProperties → Option ℕ
unfolding constant_bits_of
read_constant_bits (some (value, [])) negative p = constant_bits_of value negative p
read_constant_bits _ negative p = none

unfoldable pub integer_constant_bits : Bytes → Bool → TypeKind → Option ℕ
unfolding read_constant_bits starts_with_digit from_chars from_chars_loop
integer_constant_bits magnitude negative type = elim (numeric_type_properties type) [
  | none ↦ none
  | some p ↦
      if not (is_integer_type type)
        || not (starts_with_digit magnitude)
        || (negative && is_unsigned_category p.category)
      then none
      else read_constant_bits (from_chars magnitude) negative p
]

unfoldable pub is_valid_integer_bits : ℕ → TypeKind → Bool
unfolding integer_mask
is_valid_integer_bits bits type =
    with_properties (λ p. is_integer_type type && leb bits (integer_mask p.bit_width)) false
      (numeric_type_properties type)

-- `widen_integer_constant` behind its guard, on the properties of the two types.
unfoldable pub widen_bits : ℕ → NumericTypeProperties → NumericTypeProperties → ℕ
unfolding integer_mask
widen_bits bits source target =
    let extended =
      if is_signed_category source.category && test_bit bits (source.bit_width - 1)
      then bit_or bits (u64_max - integer_mask source.bit_width)
      else bits in
    low_bits extended target.bit_width

widen_looked_up : ℕ → Option NumericTypeProperties → Option NumericTypeProperties → Option ℕ
unfolding widen_bits
widen_looked_up bits (some source) (some target) = some (widen_bits bits source target)
widen_looked_up bits _ _ = none

unfoldable pub widen_integer_constant : ℕ → TypeKind → TypeKind → Option ℕ
unfolding widen_looked_up is_valid_integer_bits is_integer_type can_widen_numeric
widen_integer_constant bits source target =
    if not (is_valid_integer_bits bits source)
      || not (is_integer_type target)
      || (not (same_kind source target) && not (can_widen_numeric source target))
    then none
    else widen_looked_up bits (numeric_type_properties source) (numeric_type_properties target)
