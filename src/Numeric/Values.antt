-- ===== src/Numeric/Values.antt =====
-- The integers that the bit patterns of src/sema/numeric_types.cc stand for, in two's complement,
-- and the range of each integer type. A proof splits an integer type into signedness and width.
use c_cloth.Base.{
  ℕ, ◌-◌, ◌^◌, ◌≡◌, refl, ap, ◌∙◌, ◌&&◌, Bool, true, false, ltb, leb, not, some, arith,
  if◌then◌else◌,
}
use c_cloth.Base.Int.{ℤ, pos, negsuc}
use c_cloth.Numeric.{
  TypeKind, byte, int8, int16, int32, int64, uint8, uint16, uint32, uint64, NumericTypeProperties,
  signed_integer, unsigned_integer, is_signed_category, numeric_type_properties, is_integer_type,
  is_valid_integer_bits, is_floating_category, with_properties, integer_mask,
}

-- A pattern with the sign bit set stands for itself less 2^width.
abbrev pub value_of : NumericTypeProperties → ℕ → ℤ
value_of p bits =
    if is_signed_category p.category
    then (if ltb bits (2 ^ (p.bit_width - 1))
        then pos bits
        else negsuc (2 ^ p.bit_width - bits - 1))
    else pos bits

abbrev pub min_of : NumericTypeProperties → ℤ
min_of p = if is_signed_category p.category then negsuc (2 ^ (p.bit_width - 1) - 1) else pos 0

abbrev pub max_of : NumericTypeProperties → ℤ
max_of p =
    pos (if is_signed_category p.category then 2 ^ (p.bit_width - 1) - 1 else 2 ^ p.bit_width - 1)

abbrev on_type : (NumericTypeProperties → ℤ) → TypeKind → ℤ
on_type f type = with_properties f (pos 0) (numeric_type_properties type)

-- The same for a type; it matters only at integer types.
pub value : TypeKind → ℕ → ℤ
value type bits = on_type (λ p. value_of p bits) type

pub min_value : TypeKind → ℤ
min_value = on_type min_of

pub max_value : TypeKind → ℤ
max_value = on_type max_of

pub data Width : Type 0 where
  w8 w16 w32 w64 : Width

abbrev pub width_bits : Width → ℕ
width_bits w8 = 8
width_bits w16 = 16
width_bits w32 = 32
width_bits w64 = 64

abbrev pub shape : Bool → Width → NumericTypeProperties
shape true w = record { category = signed_integer; bit_width = width_bits w }
shape false w = record { category = unsigned_integer; bit_width = width_bits w }

-- What an integer type is.
pub record Shape (type : TypeKind) : Type 0 where
  pub signed : Bool
  pub width : Width
  pub properties_eq : numeric_type_properties type ≡ some (shape signed width)

abbrev shaped :
    {type : TypeKind} (s : Bool) (w : Width)
    → numeric_type_properties type ≡ some (shape s w)
    → Shape type
shaped s w e = record { signed = s; width = w; properties_eq = e }

pub integer_shape : (type : TypeKind) → is_integer_type type ≡ true → Shape type
unfolding numeric_type_properties is_integer_type
integer_shape byte h = shaped false w8 refl
integer_shape uint8 h = shaped false w8 refl
integer_shape uint16 h = shaped false w16 refl
integer_shape uint32 h = shaped false w32 refl
integer_shape uint64 h = shaped false w64 refl
integer_shape int8 h = shaped true w8 refl
integer_shape int16 h = shaped true w16 refl
integer_shape int32 h = shaped true w32 refl
integer_shape int64 h = shaped true w64 refl
integer_shape _ h = cc

masks :
    (b : Bool) (w : Width) (bits : ℕ)
    → leb bits (integer_mask (shape b w).bit_width) ≡ ltb bits (2 ^ width_bits w)
unfolding integer_mask
masks true w8 bits = ground arith
masks true w16 bits = ground arith
masks true w32 bits = ground arith
masks true w64 bits = ground arith
masks false w8 bits = ground arith
masks false w16 bits = ground arith
masks false w32 bits = ground arith
masks false w64 bits = ground arith

module _ {type : TypeKind} (s : Shape type) where
  pub value-shape : (bits : ℕ) → value type bits ≡ value_of (shape s.signed s.width) bits
  unfolding value
  value-shape bits = ap (with_properties (λ p. value_of p bits) (pos 0)) s.properties_eq

  pub min_value-shape : min_value type ≡ min_of (shape s.signed s.width)
  unfolding min_value
  min_value-shape = ap (with_properties min_of (pos 0)) s.properties_eq

  pub max_value-shape : max_value type ≡ max_of (shape s.signed s.width)
  unfolding max_value
  max_value-shape = ap (with_properties max_of (pos 0)) s.properties_eq

  pub is_integer_type-shape : is_integer_type type ≡ true
  unfolding is_integer_type
  is_integer_type-shape =
      ap (with_properties (λ p. not (is_floating_category p.category)) false) s.properties_eq
      ∙ not_floating s.signed s.width
    where
      not_floating : (b : Bool) (w : Width) → not (is_floating_category (shape b w).category) ≡ true
      not_floating true w = refl
      not_floating false w = refl

  pub is_valid_integer_bits-shape :
      (bits : ℕ) → is_valid_integer_bits bits type ≡ ltb bits (2 ^ width_bits s.width)
  unfolding is_valid_integer_bits
  is_valid_integer_bits-shape bits =
      ap (with_properties (λ p. is_integer_type type && leb bits (integer_mask p.bit_width)) false)
        s.properties_eq
      ∙ rw is_integer_type-shape (masks s.signed s.width bits)
