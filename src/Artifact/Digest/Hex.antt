-- ===== src/Artifact/Digest/Hex.antt =====
-- The hexadecimal form of a digest (src/artifact/sha256.cc): written and read back, each way.
use c_cloth.Base.{
  ==_iff, ℕ, zero, suc, ◌+◌, ◌*◌, ◌/◌, ◌%◌, ◌<◌, ◌≡◌, refl, sym, ◌∙◌, ap, ◌↔◌, true, ◌==◌,
  Bool-cases, inl, inr, [], ◌∷◌, length, Option, some, none, arith,
}
use c_cloth.Base.Text.{Bytes}
use c_cloth.Unicode.Sequences.{AreBytes}
use c_cloth.Artifact.Digest.{
  lowercase_hex_digit, lowercase_hex_value, artifact_digest_hex, parsed_byte, parse_bytes,
  parse_artifact_digest,
}

value-digit : (n : ℕ) → n < 16 → lowercase_hex_value (lowercase_hex_digit n) ≡ some n
unfolding lowercase_hex_value lowercase_hex_digit
value-digit n h = ground arith

digit-value : (c n : ℕ) → lowercase_hex_value c ≡ some n → (lowercase_hex_digit n ≡ c) × (n < 16)
unfolding lowercase_hex_value lowercase_hex_digit
digit-value c n h = ground arith

length-artifact_digest_hex : (bytes : Bytes) → length (artifact_digest_hex bytes) ≡ 2 * length bytes
unfolding artifact_digest_hex
length-artifact_digest_hex [] = refl
length-artifact_digest_hex (b ∷ bytes) = omega (arith, length-artifact_digest_hex bytes)

parse_bytes-hex :
    (bytes : Bytes)
    → AreBytes bytes
    → parse_bytes (length bytes) (artifact_digest_hex bytes) ≡ some bytes
unfolding parse_bytes artifact_digest_hex
parse_bytes-hex [] h = refl
parse_bytes-hex (b ∷ bytes) h =
    let e : b / 16 * 16 + b % 16 ≡ b = omega arith in
    rw (value-digit (b / 16) (omega (arith, h.0)), value-digit (b % 16) (omega arith))
      (rw (parse_bytes-hex bytes h.1) (ap (λ x. some (x ∷ bytes)) e))

parsed_byte-inv :
    (u l : Option ℕ) (r : Option Bytes) {bytes : Bytes}
    → parsed_byte u l r ≡ some bytes
    → (a : ℕ) × (b : ℕ) × (t : Bytes) × (u ≡ some a)
      × (l ≡ some b)
      × (r ≡ some t)
      × ((a * 16 + b) ∷ t ≡ bytes)
parsed_byte-inv (some a) (some b) (some t) h = (a, b, t, refl, refl, refl, cc)
parsed_byte-inv _ _ _ h = cc

hex-byte :
    (a b c d : ℕ) (t text : Bytes)
    → (lowercase_hex_digit a ≡ c) × (a < 16)
    → (lowercase_hex_digit b ≡ d) × (b < 16)
    → artifact_digest_hex t ≡ text
    → artifact_digest_hex ((a * 16 + b) ∷ t) ≡ c ∷ d ∷ text
unfolding artifact_digest_hex
hex-byte a b c d t text p q h =
    let x : (a * 16 + b) / 16 ≡ a = omega (arith, p.1, q.1) in
    let y : (a * 16 + b) % 16 ≡ b = omega (arith, p.1, q.1) in rw (x, y, p.0, q.0, h) refl

hex-parse_bytes :
    (n : ℕ) (text bytes : Bytes)
    → length text ≡ n * 2
    → parse_bytes n text ≡ some bytes
    → (artifact_digest_hex bytes ≡ text) × (length bytes ≡ n) × AreBytes bytes
unfolding parse_bytes
hex-parse_bytes zero [] [] l h = (unfold artifact_digest_hex in refl, refl, tt)
hex-parse_bytes zero [] (b ∷ bytes) l h = cc
hex-parse_bytes zero (c ∷ text) bytes l h = absurd (omega arith)
hex-parse_bytes (suc n) [] bytes l h = absurd (omega arith)
hex-parse_bytes (suc n) (c ∷ []) bytes l h = absurd (omega arith)
hex-parse_bytes (suc n) (c ∷ d ∷ text) bytes l h =
    let (a, b, t, u, v, w, e) =
      parsed_byte-inv (lowercase_hex_value c) (lowercase_hex_value d) (parse_bytes n text) h in
    let p = digit-value c a u in
    let q = digit-value d b v in
    let (x, y, z) = hex-parse_bytes n text t (omega arith) w in
    rw (← e) (hex-byte a b c d t text p q x, ap suc y, (omega (arith, p.1, q.1), z))

-- A text is read as a digest exactly where it is the hexadecimal form of the digest, a text of 32
-- bytes.
pub parse_artifact_digest_iff :
    (text bytes : Bytes)
    → (parse_artifact_digest text ≡ some bytes)
      ↔ ((artifact_digest_hex bytes ≡ text) × (length bytes ≡ 32) × AreBytes bytes)
unfolding parse_artifact_digest
parse_artifact_digest_iff text bytes = (
  λ h. elim (Bool-cases (length text == 64)) [
    | inl t ↦ hex-parse_bytes 32 text bytes ((==_iff (length text) 64).0 t) (rw t at h)
    | inr t ↦ let bad : none ≡ some bytes = rw t at h in cc
  ],
  λ h.
      let l : length text ≡ 64 =
        rw (← h.0) (length-artifact_digest_hex bytes ∙ ap (λ n. 2 * n) h.1) in
      let t : (length text == 64) ≡ true = (==_iff (length text) 64).1 l in
      rw t (
        rw (← h.0) (
          rw (ap (λ n. parse_bytes n (artifact_digest_hex bytes)) (sym h.1))
            (parse_bytes-hex bytes h.2))),
)
