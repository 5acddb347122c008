-- ===== src/Unicode/Canonical.antt =====
-- What `decode_utf8_scalar` (src/lexer/literal.cc) accepts: only the encodings of scalar values.
use c_cloth.Base.{
  ℕ, ◌+◌, ◌-◌, ◌*◌, ◌≤◌, ◌<◌, ◌≡◌, refl, true, ltb, [], ◌∷◌, ◌++◌, length, Option, some, none,
  arith, drop, Bool-cases, inl, inr,
}
use c_cloth.Base.Text.{Bytes}
use c_cloth.Unicode.{
  Utf8Scalar, is_unicode_scalar, lead_byte, decode_lead, continuation_loop, checked_scalar,
  decode_utf8_scalar, utf8_bytes,
}
use c_cloth.Unicode.RoundTrip.{drop-length}
use c_cloth.Unicode.Sequences.{
  AreBytes, continuation_loop-inv, utf8_bytes-two, utf8_bytes-three, utf8_bytes-four,
  checked_scalar-inv, lead_byte-inv,
}

decode_lead-inv :
    (width value : ℕ) (rest : Bytes) (d : Utf8Scalar)
    → decode_lead (some (width, value)) rest ≡ some d
    → checked_scalar width (continuation_loop (width - 1) value rest) ≡ some d
unfolding decode_lead
decode_lead-inv width value rest d e = elim (Bool-cases (ltb (length rest + 1) width)) [
  | inl t ↦ cc (rw t at e)
  | inr t ↦ rw t at e
]

-- A text that begins with the encoding of a scalar value, which is the one decoded.
abbrev pub Encodes : Bytes → Utf8Scalar → Type 0
Encodes text d =
    (is_unicode_scalar d.value ≡ true)
    × (d.width ≡ length (utf8_bytes d.value))
    × (text ≡ utf8_bytes d.value ++ drop d.width text)

module _ (d : Utf8Scalar) where
  encodes :
      (bytes rest : Bytes)
      → is_unicode_scalar d.value ≡ true
      → d.width ≡ length bytes
      → utf8_bytes d.value ≡ bytes
      → Encodes (bytes ++ rest) d
  encodes bytes rest s w e = rw (e, w) (s, refl, rw (drop-length bytes rest) refl)

  one :
      (c : ℕ) (rest : Bytes)
      → c < 128
      → checked_scalar 1 (continuation_loop 0 c rest) ≡ some d
      → Encodes (c ∷ rest) d
  unfolding continuation_loop
  one c rest h e =
      let r = checked_scalar-inv 1 (some c) d e in
      let v : d.value ≡ c = cc (r.0) in encodes (c ∷ []) rest r.2 r.1 (rw v (single c h))
    where
      single : (c : ℕ) → c < 128 → utf8_bytes c ≡ c ∷ []
      single c h = unfold utf8_bytes in ground arith

  two :
      (a : ℕ) (rest : Bytes)
      → 2 ≤ a
      → a < 32
      → AreBytes rest
      → checked_scalar 2 (continuation_loop 1 a rest) ≡ some d
      → Encodes ((192 + a) ∷ rest) d
  unfolding continuation_loop
  two a rest l h b e =
      let r = checked_scalar-inv 2 (continuation_loop 1 a rest) d e in
      let (y, rest1, t1, k1, b1, e1) = continuation_loop-inv 0 a d.value rest b r.0 in
      let v : d.value ≡ a * 64 + y = cc (e1) in
      rw t1 (encodes ((192 + a) ∷ (128 + y) ∷ []) rest1 r.2 r.1 (rw v (utf8_bytes-two a y l h k1)))

  three :
      (a : ℕ) (rest : Bytes)
      → a < 16
      → AreBytes rest
      → checked_scalar 3 (continuation_loop 2 a rest) ≡ some d
      → Encodes ((224 + a) ∷ rest) d
  unfolding continuation_loop
  three a rest h b e =
      let r = checked_scalar-inv 3 (continuation_loop 2 a rest) d e in
      let (y, rest1, t1, k1, b1, e1) = continuation_loop-inv 1 a d.value rest b r.0 in
      let (z, rest2, t2, k2, b2, e2) = continuation_loop-inv 0 (a * 64 + y) d.value rest1 b1 e1 in
      let v : d.value ≡ (a * 64 + y) * 64 + z = cc (e2) in
      rw (t1, t2)
        (encodes ((224 + a) ∷ (128 + y) ∷ (128 + z) ∷ []) rest2 r.2 r.1
          (rw v (utf8_bytes-three a y z h k1 k2 (omega (arith, v, r.3 refl)))))

  four :
      (a : ℕ) (rest : Bytes)
      → a < 5
      → AreBytes rest
      → checked_scalar 4 (continuation_loop 3 a rest) ≡ some d
      → Encodes ((240 + a) ∷ rest) d
  unfolding continuation_loop
  four a rest h b e =
      let r = checked_scalar-inv 4 (continuation_loop 3 a rest) d e in
      let (y, rest1, t1, k1, b1, e1) = continuation_loop-inv 2 a d.value rest b r.0 in
      let (z, rest2, t2, k2, b2, e2) = continuation_loop-inv 1 (a * 64 + y) d.value rest1 b1 e1 in
      let (u, rest3, t3, k3, b3, e3) =
        continuation_loop-inv 0 ((a * 64 + y) * 64 + z) d.value rest2 b2 e2 in
      let v : d.value ≡ ((a * 64 + y) * 64 + z) * 64 + u = cc (e3) in
      rw (t1, t2, t3)
        (encodes ((240 + a) ∷ (128 + y) ∷ (128 + z) ∷ (128 + u) ∷ []) rest3 r.2 r.1
          (rw v (utf8_bytes-four a y z u h k1 k2 k3 (omega (arith, v, r.4 refl)))))

decode_lead-Encodes :
    (c : ℕ) (rest : Bytes) (lead : Option (ℕ × ℕ)) (d : Utf8Scalar)
    → lead_byte c ≡ lead
    → c < 256
    → AreBytes rest
    → decode_lead lead rest ≡ some d
    → Encodes (c ∷ rest) d
decode_lead-Encodes c rest none d l h b e = unfold decode_lead in cc
decode_lead-Encodes c rest (some (width, value)) d l h b e =
    let f = decode_lead-inv width value rest d e in
    elim (lead_byte-inv c width value l h) [
      | inl (w, v, k) ↦ one d c rest k (rw (w, v) at f)
      | inr (inl (w, v, k, m)) ↦ rw v (two d value rest k m b (rw w at f))
      | inr (inr (inl (w, v, k))) ↦ rw v (three d value rest k b (rw w at f))
      | inr (inr (inr (w, v, k))) ↦ rw v (four d value rest k b (rw w at f))
    ]

-- A text of bytes from which `decode_utf8_scalar` reads a value begins with the bytes that
-- `append_utf8` writes for that value, which is a scalar value, and the width is the number of those
-- bytes: overlong forms, surrogates and other sequences are rejected.
pub decode_utf8_scalar-Encodes :
    (text : Bytes) (d : Utf8Scalar)
    → AreBytes text
    → decode_utf8_scalar text ≡ some d
    → Encodes text d
unfolding decode_utf8_scalar
decode_utf8_scalar-Encodes [] d b e = cc
decode_utf8_scalar-Encodes (c ∷ rest) d b e =
    decode_lead-Encodes c rest (lead_byte c) d refl b.0 b.1 e
