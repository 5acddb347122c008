-- ===== src/Unicode/Sequences.antt =====
-- The parts of `decode_utf8_scalar` (src/lexer/literal.cc): lead byte, continuation bytes, guards.
use Prim.Native.Nat.{bit_and}
use c_cloth.Base.{
  ap, ℕ, suc, ◌+◌, ◌-◌, ◌*◌, ◌/◌, ◌%◌, ◌≤◌, ◌<◌, ◌≡◌, refl, ◌∙◌, sym, true, false, ◌/=◌, [], ◌∷◌,
  Option, some, none, arith, All, ◌⊎◌, Bool-cases, inl, inr,
}
use c_cloth.Base.Words.{bit_and_mask, bit_and_clear, bit_or_join}
use c_cloth.Base.Text.{Bytes}
use c_cloth.Unicode.{
  Utf8Scalar, is_unicode_scalar, lead_byte, continuation_loop, checked_scalar, utf8_bytes,
}
use c_cloth.Unicode.RoundTrip.{continuation_eq}

abbrev pub AreBytes : Bytes → Type 0
AreBytes = All (λ c. c < 256)

-- A continuation byte that the loop accepts.
continuation_test :
    (c : ℕ)
    → c < 256
    → (bit_and c 0xC0 /= 0x80) ≡ false
    → (c ≡ 128 + c % 64) × (bit_and c 0x3F ≡ c % 64)
continuation_test c b h =
    let clear : bit_and c 0xC0 ≡ c - c % 64 =
      omega (arith, bit_and_clear 6 8 c (omega arith) (omega arith)) in
    ground (arith, clear, bit_and_mask 6 c)

continuation_loop-step :
    (left v c : ℕ) (rest : Bytes)
    → (bit_and c 0xC0 /= 0x80) ≡ false
    → bit_and c 0x3F ≡ c % 64
    → continuation_loop (suc left) v (c ∷ rest) ≡ continuation_loop left (v * 64 + c % 64) rest
unfolding continuation_loop
continuation_loop-step left v c rest t e =
    rw (t, continuation_loop) (rw e (rw (bit_or_join 6 v (c % 64) (omega arith)) refl))

-- What the loop read, if it went through.
pub continuation_loop-inv :
    (left v w : ℕ) (text : Bytes)
    → AreBytes text
    → continuation_loop (suc left) v text ≡ some w
    → (y : ℕ) × (rest : Bytes) × (text ≡ (128 + y) ∷ rest)
      × (y < 64)
      × AreBytes rest
      × (continuation_loop left (v * 64 + y) rest ≡ some w)
unfolding continuation_loop
continuation_loop-inv left v w [] b e = cc
continuation_loop-inv left v w (c ∷ rest) b e = elim (Bool-cases (bit_and c 0xC0 /= 0x80)) [
  | inl t ↦ cc (rw t at e)
  | inr t ↦
      let r = continuation_test c b.0 t in
      (
        c % 64,
        rest,
        ap (λ x. x ∷ rest) r.0,
        omega arith,
        b.1,
        sym (continuation_loop-step left v c rest t r.1) ∙ e,
      )
]

pub utf8_bytes-two :
    (a y : ℕ) → 2 ≤ a → a < 32 → y < 64 → utf8_bytes (a * 64 + y) ≡ (192 + a) ∷ (128 + y) ∷ []
unfolding utf8_bytes
utf8_bytes-two a y l h k = ground (arith, continuation_eq (a * 64 + y), bit_or_join 5 6 a)

pub utf8_bytes-three :
    (a y z : ℕ)
    → a < 16
    → y < 64
    → z < 64
    → 0x800 ≤ (a * 64 + y) * 64 + z
    → utf8_bytes ((a * 64 + y) * 64 + z) ≡ (224 + a) ∷ (128 + y) ∷ (128 + z) ∷ []
unfolding utf8_bytes
utf8_bytes-three a y z h k l m =
    let v = (a * 64 + y) * 64 + z in
    ground (arith, continuation_eq v, continuation_eq (v / 64), bit_or_join 4 14 a)

pub utf8_bytes-four :
    (a y z u : ℕ)
    → a < 5
    → y < 64
    → z < 64
    → u < 64
    → 0x10000 ≤ ((a * 64 + y) * 64 + z) * 64 + u
    → utf8_bytes (((a * 64 + y) * 64 + z) * 64 + u)
      ≡ (240 + a) ∷ (128 + y) ∷ (128 + z) ∷ (128 + u) ∷ []
unfolding utf8_bytes
utf8_bytes-four a y z u h k l m n =
    let v = ((a * 64 + y) * 64 + z) * 64 + u in
    ground (
      arith,
      continuation_eq v,
      continuation_eq (v / 64),
      continuation_eq (v / 4096),
      bit_or_join 3 30 a,
    )

pub checked_scalar-inv :
    (width : ℕ) (value : Option ℕ) (d : Utf8Scalar)
    → checked_scalar width value ≡ some d
    → (value ≡ some d.value)
      × (d.width ≡ width)
      × (is_unicode_scalar d.value ≡ true)
      × (width ≡ 3 → 0x800 ≤ d.value)
      × (width ≡ 4 → 0x10000 ≤ d.value)
unfolding checked_scalar
checked_scalar-inv width none d e = cc
checked_scalar-inv width (some value) d e = ground arith

-- The first byte tells the width.
pub lead_byte-inv :
    (c width value : ℕ)
    → lead_byte c ≡ some (width, value)
    → c < 256
    → ((width ≡ 1) × (value ≡ c) × (c < 128))
      ⊎ ((width ≡ 2) × (c ≡ 192 + value) × (2 ≤ value) × (value < 32))
      ⊎ ((width ≡ 3) × (c ≡ 224 + value) × (value < 16))
      ⊎ ((width ≡ 4) × (c ≡ 240 + value) × (value < 5))
unfolding lead_byte
lead_byte-inv c width value e b =
    ground (arith, bit_and_mask 5 c, bit_and_mask 4 c, bit_and_mask 3 c)
