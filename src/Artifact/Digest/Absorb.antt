-- ===== src/Artifact/Digest/Absorb.antt =====
-- The loop over whole blocks of src/artifact/sha256.cc: its fuel is enough, and it can be cut anywhere.
use c_cloth.Base.{
  ℕ, zero, suc, ◌%◌, ◌≤◌, ◌<◌, ◌⊎◌, ◌≡◌, refl, sym, ap, ◌∙◌, true, false, ltb, Bool-cases, inl, inr,
  [], ◌∷◌, ◌++◌, length, take, drop, length-append, length-drop, arith,
}
use c_cloth.Base.Text.{Bytes}
use c_cloth.Artifact.Digest.{HashState, process_block, blocks_loop}

-- The state after the whole blocks of a text, and the rest of it.
unfoldable pub absorb : HashState → Bytes → HashState × Bytes
unfolding blocks_loop
absorb s bytes = blocks_loop (length bytes) s bytes

blocks_loop-short :
    (n : ℕ) (s : HashState) (bytes : Bytes) → length bytes < 64 → blocks_loop n s bytes ≡ (s, bytes)
unfolding blocks_loop
blocks_loop-short zero s bytes h = refl
blocks_loop-short (suc n) s bytes h = let t : ltb (length bytes) 64 ≡ true = ground arith in rw t

blocks_loop-block :
    (n : ℕ) (s : HashState) (bytes : Bytes)
    → 64 ≤ length bytes
    → blocks_loop (suc n) s bytes ≡ blocks_loop n (process_block s (take 64 bytes)) (drop 64 bytes)
unfolding blocks_loop
blocks_loop-block n s bytes h = let t : ltb (length bytes) 64 ≡ false = ground arith in rw t

short-or-block : (bytes : Bytes) → (length bytes < 64) ⊎ (64 ≤ length bytes)
short-or-block bytes = elim (Bool-cases (ltb (length bytes) 64)) [
  | inl t ↦ inl (ground arith)
  | inr t ↦ inr (ground arith)
]

-- Any two amounts of fuel that are not below the length give the same.
blocks_loop-fuel :
    (m n : ℕ) (s : HashState) (bytes : Bytes)
    → length bytes ≤ m
    → length bytes ≤ n
    → blocks_loop m s bytes ≡ blocks_loop n s bytes
blocks_loop-fuel zero n s bytes p q =
    blocks_loop-short zero s bytes (omega arith) ∙ sym (blocks_loop-short n s bytes (omega arith))
blocks_loop-fuel (suc m) zero s bytes p q =
    blocks_loop-short (suc m) s bytes (omega arith)
    ∙ sym (blocks_loop-short zero s bytes (omega arith))
blocks_loop-fuel (suc m) (suc n) s bytes p q = elim (short-or-block bytes) [
  | inl h ↦ blocks_loop-short (suc m) s bytes h ∙ sym (blocks_loop-short (suc n) s bytes h)
  | inr h ↦
      let l = length-drop 64 bytes in
      blocks_loop-block m s bytes h
      ∙ blocks_loop-fuel m n (process_block s (take 64 bytes)) (drop 64 bytes) (omega (arith, l))
          (omega (arith, l))
      ∙ sym (blocks_loop-block n s bytes h)
]

pub absorb-short : (s : HashState) (bytes : Bytes) → length bytes < 64 → absorb s bytes ≡ (s, bytes)
unfolding absorb
absorb-short s bytes h = blocks_loop-short (length bytes) s bytes h

pub absorb-block :
    (s : HashState) (bytes : Bytes)
    → 64 ≤ length bytes
    → absorb s bytes ≡ absorb (process_block s (take 64 bytes)) (drop 64 bytes)
unfolding absorb
absorb-block s bytes h =
    let l = length-drop 64 bytes in
    blocks_loop-fuel (length bytes) (suc (length bytes)) s bytes (omega arith) (omega arith)
    ∙ blocks_loop-block (length bytes) s bytes h
    ∙ blocks_loop-fuel (length bytes) (length (drop 64 bytes)) (process_block s (take 64 bytes))
        (drop 64 bytes) (omega (arith, l)) (omega arith)

take-append : (n : ℕ) (a b : Bytes) → n ≤ length a → take n (a ++ b) ≡ take n a
take-append zero a b h = refl
take-append (suc n) [] b h = absurd (omega arith)
take-append (suc n) (x ∷ a) b h = ap (λ t. x ∷ t) (take-append n a b (omega arith))

drop-append : (n : ℕ) (a b : Bytes) → n ≤ length a → drop n (a ++ b) ≡ drop n a ++ b
drop-append zero a b h = refl
drop-append (suc n) [] b h = absurd (omega arith)
drop-append (suc n) (x ∷ a) b h = drop-append n a b (omega arith)

pub take_all : (n : ℕ) (a : Bytes) → length a ≤ n → take n a ≡ a
take_all zero [] h = refl
take_all zero (x ∷ a) h = absurd (omega arith)
take_all (suc n) [] h = refl
take_all (suc n) (x ∷ a) h = ap (λ t. x ∷ t) (take_all n a (omega arith))

pub drop_all : (n : ℕ) (a : Bytes) → length a ≤ n → drop n a ≡ []
drop_all zero [] h = refl
drop_all zero (x ∷ a) h = absurd (omega arith)
drop_all (suc n) [] h = refl
drop_all (suc n) (x ∷ a) h = drop_all n a (omega arith)

-- A block at the start of a text.
pub absorb-block_append :
    (s : HashState) (block rest : Bytes)
    → length block ≡ 64
    → absorb s (block ++ rest) ≡ absorb (process_block s block) rest
absorb-block_append s block rest h =
    absorb-block s (block ++ rest) (omega (arith, length-append block rest))
    ∙ rw (take-append 64 block rest (omega arith), drop-append 64 block rest (omega arith))
        (rw (take_all 64 block (omega arith), drop_all 64 block (omega arith)) refl)

-- The blocks of a text in two parts: those of the first, then those of its rest with the second.
absorb_below :
    (n : ℕ) (s : HashState) (a b : Bytes)
    → length a ≤ n
    → absorb s (a ++ b) ≡ absorb (absorb s a).0 ((absorb s a).1 ++ b)
absorb_below zero s a b h = rw (absorb-short s a (omega arith)) refl
absorb_below (suc n) s a b h = elim (short-or-block a) [
  | inl l ↦ rw (absorb-short s a l) refl
  | inr l ↦ rw (absorb-block s a l) (
      absorb-block s (a ++ b) (omega (arith, length-append a b))
      ∙ rw (take-append 64 a b l, drop-append 64 a b l)
          (absorb_below n (process_block s (take 64 a)) (drop 64 a) b
            (omega (arith, length-drop 64 a))))
]

pub absorb-append :
    (s : HashState) (a b : Bytes) → absorb s (a ++ b) ≡ absorb (absorb s a).0 ((absorb s a).1 ++ b)
absorb-append s a b = absorb_below (length a) s a b (omega arith)

rest_below : (n : ℕ) (s : HashState) (a : Bytes) → length a ≤ n → length (absorb s a).1 < 64
rest_below zero s a h = rw (absorb-short s a (omega arith)) (omega arith)
rest_below (suc n) s a h = elim (short-or-block a) [
  | inl l ↦ rw (absorb-short s a l) l
  | inr l ↦
      rw (absorb-block s a l)
        (rest_below n (process_block s (take 64 a)) (drop 64 a) (omega (arith, length-drop 64 a)))
]

pub length-absorb-lt : (s : HashState) (a : Bytes) → length (absorb s a).1 < 64
length-absorb-lt s a = rest_below (length a) s a (omega arith)

rest_size :
    (n : ℕ) (s : HashState) (a : Bytes) → length a ≤ n → length (absorb s a).1 ≡ length a % 64
rest_size zero s a h = rw (absorb-short s a (omega arith)) (omega arith)
rest_size (suc n) s a h = elim (short-or-block a) [
  | inl l ↦ rw (absorb-short s a l) (omega arith)
  | inr l ↦
      rw (absorb-block s a l)
        (omega (arith, rest_size n (process_block s (take 64 a)) (drop 64 a), length-drop 64 a))
]

pub length-absorb : (s : HashState) (a : Bytes) → length (absorb s a).1 ≡ length a % 64
length-absorb s a = rest_size (length a) s a (omega arith)
