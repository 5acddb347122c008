-- ===== src/Unicode/RoundTrip.antt =====
-- Decoding inverts encoding (src/lexer/literal.cc), and the count of what was encoded.
use Prim.Native.Nat.{bit_and, bit_or}
use native.Mathlib.Nat.{add-zero}
use c_cloth.Base.{
  ap, ℕ, zero, suc, ◌+◌, ◌*◌, ◌/◌, ◌%◌, ◌≤◌, ◌<◌, ◌≡◌, refl, ◌∙◌, true, List, [], ◌∷◌, ◌++◌, length,
  some, arith, length-append, drop, All,
}
use c_cloth.Base.Words.{bit_and_mask, bit_and_clear, bit_or_join}
use c_cloth.Base.Text.{Bytes}
use c_cloth.Unicode.{
  is_unicode_scalar, lead_byte, continuation_loop, decode_utf8_scalar, utf8_bytes, count_loop,
  utf8_scalar_count,
}

-- A continuation byte carries six bits.
abbrev pub continuation : ℕ → ℕ
continuation x = bit_or 0x80 (bit_and x 0x3F)

pub continuation_eq : (x : ℕ) → continuation x ≡ 128 + x % 64
continuation_eq x = ground (arith, bit_and_mask 6 x, bit_or_join 6 2 (x % 64) (omega arith))

continuation_step :
    (left v x : ℕ) (rest : Bytes)
    → continuation_loop (suc left) v (continuation x ∷ rest)
      ≡ continuation_loop left (v * 64 + x % 64) rest
unfolding continuation_loop
continuation_step left v x rest =
    let head : bit_and (128 + x % 64) 0xC0 ≡ 128 =
      omega (arith, bit_and_clear 6 8 (128 + x % 64) (omega arith) (omega arith)) in
    let low : bit_and (128 + x % 64) 0x3F ≡ x % 64 = omega (arith, bit_and_mask 6 (128 + x % 64)) in
    rw (continuation_eq x) (rw (head, low) (rw (bit_or_join 6 v (x % 64) (omega arith)) refl))

lead_two : (x : ℕ) → 2 ≤ x → x < 32 → lead_byte (bit_or 0xC0 x) ≡ some (2, x)
unfolding lead_byte
lead_two x lo hi = rw (bit_or_join 5 6 x hi) (ground (arith, bit_and_mask 5 (192 + x)))

lead_three : (x : ℕ) → x < 16 → lead_byte (bit_or 0xE0 x) ≡ some (3, x)
unfolding lead_byte
lead_three x hi = rw (bit_or_join 4 14 x hi) (ground (arith, bit_and_mask 4 (224 + x)))

lead_four : (x : ℕ) → x < 5 → lead_byte (bit_or 0xF0 x) ≡ some (4, x)
unfolding lead_byte
lead_four x hi = rw (bit_or_join 4 15 x (omega arith)) (ground (arith, bit_and_mask 3 (240 + x)))

pub checked_four : (value : ℕ) → is_unicode_scalar value ≡ true → value < 0x110000
unfolding is_unicode_scalar
checked_four value h = ground arith

-- The bytes that `append_utf8` writes for a scalar value, whatever follows them, decode to that value
-- with the number of those bytes as its width.
pub decode-utf8_bytes :
    (value : ℕ) (rest : Bytes)
    → is_unicode_scalar value ≡ true
    → decode_utf8_scalar (utf8_bytes value ++ rest)
      ≡ some (record { value = value; width = length (utf8_bytes value) })
unfolding decode_utf8_scalar utf8_bytes
decode-utf8_bytes value rest h = ground (
  arith,
  checked_four value h,
  lead_two (value / 64),
  lead_three (value / 4096),
  lead_four (value / 262144),
  continuation_step 0 (value / 64) value rest,
  continuation_step 1 (value / 4096) (value / 64) (continuation value ∷ rest),
  continuation_step 0 (value / 4096 * 64 + value / 64 % 64) value rest,
  continuation_step 2 (value / 262144) (value / 4096)
      (continuation (value / 64) ∷ continuation value ∷ rest),
  continuation_step 1 (value / 262144 * 64 + value / 4096 % 64) (value / 64)
      (continuation value ∷ rest),
  continuation_step 0 ((value / 262144 * 64 + value / 4096 % 64) * 64 + value / 64 % 64) value rest,
)

abbrev pub encode_all : List ℕ → Bytes
encode_all [] = []
encode_all (v ∷ vs) = utf8_bytes v ++ encode_all vs

abbrev pub Scalars : List ℕ → Type 0
Scalars = All (λ v. is_unicode_scalar v ≡ true)

pub length-utf8_bytes : (v : ℕ) → 0 < length (utf8_bytes v)
unfolding utf8_bytes
length-utf8_bytes v = ground arith

pub drop-length : (xs ys : Bytes) → drop (length xs) (xs ++ ys) ≡ ys
drop-length [] ys = refl
drop-length (x ∷ xs) ys = drop-length xs ys

-- One round of the loop takes the bytes that decode to a scalar.
count_loop_step :
    (fuel n value : ℕ) (taken rest : Bytes)
    → 0 < length taken
    → decode_utf8_scalar (taken ++ rest) ≡ some (record { value = value; width = length taken })
    → count_loop (suc fuel) n (taken ++ rest) ≡ count_loop fuel (suc n) rest
unfolding count_loop
count_loop_step fuel n value [] rest h e = absurd (omega arith)
count_loop_step fuel n value (c ∷ cs) rest h e = rw (e, count_loop) (rw (drop-length cs rest))

count_loop-nil : (fuel n : ℕ) → count_loop fuel n [] ≡ some n
unfolding count_loop
count_loop-nil zero n = refl
count_loop-nil (suc fuel) n = refl

count_loop-encode_all :
    (vs : List ℕ) (fuel n : ℕ)
    → Scalars vs
    → length (encode_all vs) ≤ fuel
    → count_loop fuel n (encode_all vs) ≡ some (n + length vs)
count_loop-encode_all [] fuel n h f = rw add-zero (count_loop-nil fuel n)
count_loop-encode_all (v ∷ vs) zero n h f =
    absurd (omega (arith, length-utf8_bytes v, length-append (utf8_bytes v) (encode_all vs)))
count_loop-encode_all (v ∷ vs) (suc fuel) n h f =
    count_loop_step fuel n v (utf8_bytes v) (encode_all vs) (length-utf8_bytes v)
      (decode-utf8_bytes v (encode_all vs) h.0)
    ∙ count_loop-encode_all vs fuel (suc n) h.1
        (omega (arith, length-utf8_bytes v, length-append (utf8_bytes v) (encode_all vs)))
    ∙ ap some (omega arith)

-- The count of the encodings of scalar values is the number of values.
pub count-encode_all :
    (vs : List ℕ) → Scalars vs → utf8_scalar_count (encode_all vs) ≡ some (length vs)
unfolding utf8_scalar_count
count-encode_all vs h =
    count_loop-encode_all vs (length (encode_all vs)) 0 h (omega arith) ∙ ap some (omega arith)
