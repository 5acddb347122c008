-- ===== src/Unicode.antt =====
-- The UTF-8 part of src/lexer/literal.cc: which numbers are scalar values, the decoding of one at a
-- position, the encoding of one, and the count of those in a text. A text is the list of its bytes,
-- and a position with a limit is the list from the position up to the limit.
pub mod RoundTrip
pub mod Sequences
pub mod Canonical
use Prim.Native.Nat.{bit_and, bit_or}
use c_cloth.Base.{
  ℕ, zero, suc, ◌+◌, ◌-◌, ◌*◌, ◌/◌, ◌%◌, ◌^◌, Bool, not, ◌&&◌, ◌||◌, ◌==◌, ◌/=◌, leb, ltb, List, [],
  ◌∷◌, length, drop, Option, none, some, if◌then◌else◌,
}
use c_cloth.Base.Text.{Bytes}
use c_cloth.Base.Words.{shr}

unfoldable pub is_unicode_scalar : ℕ → Bool
is_unicode_scalar value = leb value 0x10FFFF && not (leb 0xD800 value && leb value 0xDFFF)

pub record Utf8Scalar : Type 0 where
  pub value : ℕ
  pub width : ℕ

-- The width that the first byte announces, and the bits of the value in it.
pub lead_byte : ℕ → Option (ℕ × ℕ)
lead_byte first =
    if leb first 0x7F
    then some (1, first)
    else if leb 0xC2 first && leb first 0xDF
    then some (2, bit_and first 0x1F)
    else if leb 0xE0 first && leb first 0xEF
    then some (3, bit_and first 0x0F)
    else if leb 0xF0 first && leb first 0xF4
    then some (4, bit_and first 0x07)
    else none

-- The loop over the continuation bytes; the count is of those left. `value << 6` stays below 2^32,
-- since a width is at most 4.
pub continuation_loop : ℕ → ℕ → Bytes → Option ℕ
continuation_loop zero value text = some value
continuation_loop (suc left) value [] = none
continuation_loop (suc left) value (c ∷ rest) =
    let more = continuation_loop left (bit_or (value * 2 ^ 6) (bit_and c 0x3F)) rest in
    if bit_and c 0xC0 /= 0x80 then none else more

-- The checks behind the loop: no overlong form, and a scalar value.
pub checked_scalar : ℕ → Option ℕ → Option Utf8Scalar
unfolding is_unicode_scalar
checked_scalar width none = none
checked_scalar width (some value) =
    if (width == 3 && ltb value 0x800)
      || (width == 4 && ltb value 0x10000)
      || not (is_unicode_scalar value)
    then none
    else some (record { value = value; width = width })

pub decode_lead : Option (ℕ × ℕ) → Bytes → Option Utf8Scalar
unfolding continuation_loop checked_scalar
decode_lead none rest = none
decode_lead (some (width, value)) rest =
    if ltb (length rest + 1) width
    then none
    else checked_scalar width (continuation_loop (width - 1) value rest)

unfoldable pub decode_utf8_scalar : Bytes → Option Utf8Scalar
unfolding lead_byte decode_lead
decode_utf8_scalar [] = none
decode_utf8_scalar (first ∷ rest) = decode_lead (lead_byte first) rest

-- `append_utf8`: the bytes that it appends; a `char` cast keeps a byte, since each is below 256
-- for a scalar value.
unfoldable pub utf8_bytes : ℕ → Bytes
utf8_bytes value =
    if leb value 0x7F
    then value ∷ []
    else if leb value 0x7FF
    then bit_or 0xC0 (shr value 6) ∷ bit_or 0x80 (bit_and value 0x3F) ∷ []
    else if leb value 0xFFFF
    then bit_or 0xE0 (shr value 12)
      ∷ bit_or 0x80 (bit_and (shr value 6) 0x3F)
      ∷ bit_or 0x80 (bit_and value 0x3F)
      ∷ []
    else bit_or 0xF0 (shr value 18)
      ∷ bit_or 0x80 (bit_and (shr value 12) 0x3F)
      ∷ bit_or 0x80 (bit_and (shr value 6) 0x3F)
      ∷ bit_or 0x80 (bit_and value 0x3F)
      ∷ []

-- The loop of `utf8_scalar_count`. A decoded scalar is at least a byte wide, so the length of the
-- text is enough fuel; `none` for the fuel is not reached.
pub count_loop : ℕ → ℕ → Bytes → Option ℕ
count_loop fuel scalar_count [] = some scalar_count
count_loop zero scalar_count (c ∷ rest) = none
count_loop (suc fuel) scalar_count (c ∷ rest) = elim (decode_utf8_scalar (c ∷ rest)) [
  | none ↦ none
  | some decoded ↦ count_loop fuel (suc scalar_count) (drop decoded.width (c ∷ rest))
]

unfoldable pub utf8_scalar_count : Bytes → Option ℕ
unfolding count_loop decode_utf8_scalar
utf8_scalar_count text = count_loop (length text) 0 text
