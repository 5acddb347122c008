-- ===== src/Artifact/Digest/Stream.antt =====
-- The hasher of src/artifact/sha256.cc gives the digest of all that it was given, in whatever pieces.
use c_cloth.Base.{
  ℕ, zero, suc, ◌+◌, ◌-◌, ◌*◌, ◌%◌, ◌^◌, ◌≤◌, ◌<◌, ◌≡◌, refl, sym, ap, ◌∙◌, true, false, ltb, ◌==◌,
  Bool-cases, inl, inr, List, [], ◌∷◌, ◌++◌, length, take, drop, length-append, length-take,
  length-replicate, take-append-drop, min, arith,
}
use native.Mathlib.Nat.{zero-add}
use mathlib.Core.List.{append_assoc, append-nil}
use c_cloth.Base.Text.{Bytes}
use c_cloth.Artifact.Digest.{
  HashState, process_block, blocks_loop, Sha256Hasher, new_hasher, initial_state, fill_pending,
  keep_pending, update, finish, finish_state, bit_count_bytes, zeros, digest_bytes,
}
use c_cloth.Artifact.Digest.Absorb.{
  absorb, absorb-short, absorb-block_append, take_all, drop_all, absorb-append, length-absorb-lt,
  length-absorb,
}

-- The padding of a text: the mark, zeros up to eight bytes before the end of a block, and the count of
-- the bits.
pub padding : ℕ → Bytes
padding n = 0x80 ∷ (zeros ((119 - n % 64) % 64) ++ bit_count_bytes 8 (n * 8 % 2 ^ 64))

-- The digest of a text by its definition: the blocks of the padded text, one after the other.
pub digest_of : Bytes → Bytes
unfolding padding
digest_of text = digest_bytes (absorb initial_state (text ++ padding (length text))).0

-- What a hasher has taken in.
pub record HasTaken (text : Bytes) (hasher : Sha256Hasher) : Type 0 where
  pub absorbed : absorb initial_state text ≡ (hasher.state, hasher.pending)
  pub counted : hasher.byte_count ≡ length text % 2 ^ 64
  pub open_hasher : hasher.finished ≡ false

-- The pending bytes and the blocks of a call of `update`.
pub advance_blocks : HashState → Bytes → Bytes → HashState × Bytes
advance_blocks s pending bytes =
    let filled = fill_pending s pending bytes in
    let done = blocks_loop (length filled.2) filled.0 filled.2 in
    (done.0, keep_pending filled.1 done.1)

keep_rest : (rest : Bytes) → keep_pending [] rest ≡ rest
keep_rest [] = refl
keep_rest (b ∷ rest) = refl

-- A block that is filled up is processed.
fill-full :
    (s : HashState) (p : ℕ) (pending bytes : Bytes)
    → length (p ∷ pending) < 64
    → 64 ≤ length (p ∷ pending) + length bytes
    → let n = 64 - length (p ∷ pending) in
      let block = (p ∷ pending) ++ take n bytes in
      (fill_pending s (p ∷ pending) bytes ≡ (process_block s block, [], drop n bytes))
      × (length block ≡ 64)
unfolding fill_pending
fill-full s p pending bytes h k =
    let n = 64 - length (p ∷ pending) in
    let c : min (length bytes) n ≡ n = omega (arith, h, k) in
    let l : length ((p ∷ pending) ++ take n bytes) ≡ 64 =
      omega (arith, h, k, length-append (p ∷ pending) (take n bytes), length-take n bytes) in
    let t : (length ((p ∷ pending) ++ take n bytes) == 64) ≡ true = ground (arith, l) in
    (rw (c, t) refl, l)

-- A block that is not filled up waits.
fill-part :
    (s : HashState) (p : ℕ) (pending bytes : Bytes)
    → length (p ∷ pending) + length bytes < 64
    → fill_pending s (p ∷ pending) bytes ≡ (s, (p ∷ pending) ++ bytes, [])
unfolding fill_pending
fill-part s p pending bytes h =
    let n = 64 - length (p ∷ pending) in
    let c : min (length bytes) n ≡ length bytes = omega (arith, h) in
    let t : (length ((p ∷ pending) ++ bytes) == 64) ≡ false =
      ground (arith, length-append (p ∷ pending) bytes) in
    rw (c, take_all (length bytes) bytes (omega arith), drop_all (length bytes) bytes (omega arith))
      (rw t refl)

kept : (x : HashState × Bytes) → (x.0, keep_pending [] x.1) ≡ x
kept x = rw (keep_rest x.1) refl

advance_blocks-absorb :
    (s : HashState) (pending bytes : Bytes)
    → length pending < 64
    → advance_blocks s pending bytes ≡ absorb s (pending ++ bytes)
unfolding advance_blocks absorb
advance_blocks-absorb s [] bytes h = unfold fill_pending in kept (absorb s bytes)
advance_blocks-absorb s (p ∷ pending) bytes h =
    elim (Bool-cases (ltb (length (p ∷ pending) + length bytes) 64)) [
      | inl t ↦
          let k : length (p ∷ pending) + length bytes < 64 = ground arith in
          rw (fill-part s p pending bytes k) (
            sym (
              absorb-short s ((p ∷ pending) ++ bytes)
                (omega (arith, k, length-append (p ∷ pending) bytes))))
      | inr t ↦
          let f = fill-full s p pending bytes h (ground arith) in
          let n = 64 - length (p ∷ pending) in
          let block = (p ∷ pending) ++ take n bytes in
          let e : block ++ drop n bytes ≡ (p ∷ pending) ++ bytes =
            append_assoc (p ∷ pending) (take n bytes) (drop n bytes)
            ∙ ap (λ x. (p ∷ pending) ++ x) (take-append-drop n bytes) in
          rw f.0 (
            kept (absorb (process_block s block) (drop n bytes))
            ∙ sym (absorb-block_append s block (drop n bytes) f.1)
            ∙ ap (absorb s) e)
    ]

-- `update` takes in what it is given.
update-HasTaken :
    (text bytes : Bytes) (hasher : Sha256Hasher)
    → HasTaken text hasher
    → HasTaken (text ++ bytes) (update hasher bytes)
unfolding update advance_blocks
update-HasTaken text [] hasher h = rw (append-nil text) h
update-HasTaken text (b ∷ bytes) hasher h =
    let short : length hasher.pending < 64 =
      rw (ap (λ x. x.1) (sym h.absorbed)) (length-absorb-lt initial_state text) in
    rw h.open_hasher (record {
      absorbed =
          absorb-append initial_state text (b ∷ bytes)
          ∙ ap (λ x. absorb x.0 (x.1 ++ b ∷ bytes)) h.absorbed
          ∙ sym (advance_blocks-absorb hasher.state hasher.pending (b ∷ bytes) short);
      counted = omega (arith, h.counted, length-append text (b ∷ bytes));
      open_hasher = refl;
    })

length-bit_count_bytes : (n bits : ℕ) → length (bit_count_bytes n bits) ≡ n
unfolding bit_count_bytes
length-bit_count_bytes zero bits = refl
length-bit_count_bytes (suc n) bits = ap suc (length-bit_count_bytes n bits)

zeros-add : (m n : ℕ) → zeros (m + n) ≡ zeros m ++ zeros n
zeros-add zero n = rw (zero-add n) refl
zeros-add (suc m) n =
    let e : suc m + n ≡ suc (m + n) = omega arith in rw e (ap (λ z. 0 ∷ z) (zeros-add m n))

absorb-one :
    (s : HashState) (block : Bytes) → length block ≡ 64 → (absorb s block).0 ≡ process_block s block
absorb-one s block h =
    ap (λ x. (absorb s x).0) (sym (append-nil block))
    ∙ ap (λ x. x.0) (absorb-block_append s block [] h)
    ∙ ap (λ x. x.0) (absorb-short (process_block s block) [] (omega arith))

length-zeros : (n : ℕ) → length (zeros n) ≡ n
length-zeros n = length-replicate {A = ℕ} n 0

module _ (s : HashState) (pending bits : Bytes) (eight : length bits ≡ 8) where
  -- The mark, the zeros and the count in one block.
  one_block :
      length pending < 56
      → let marked = pending ++ 0x80 ∷ [] in
        process_block s (marked ++ (zeros (56 - length marked) ++ bits))
        ≡ (absorb s (pending ++ 0x80 ∷ (zeros (55 - length pending) ++ bits))).0
  one_block h =
      let marked = pending ++ 0x80 ∷ [] in
      let n = 56 - length marked in
      let lm : length marked ≡ length pending + 1 = length-append pending (0x80 ∷ []) in
      let z : 55 - length pending ≡ n = omega (arith, lm) in
      let l : length (marked ++ (zeros n ++ bits)) ≡ 64 = omega (
        arith,
        lm,
        eight,
        h,
        length-append marked (zeros n ++ bits),
        length-append (zeros n) bits,
        length-zeros n,
      ) in
      rw z (
        sym (absorb-one s (marked ++ (zeros n ++ bits)) l)
        ∙ ap (λ x. (absorb s x).0) (append_assoc pending (0x80 ∷ []) (zeros n ++ bits)))

  -- The count in a block of its own.
  two_blocks :
      56 ≤ length pending
      → length pending < 64
      → let marked = pending ++ 0x80 ∷ [] in
        process_block (process_block s (marked ++ zeros (64 - length marked))) (zeros 56 ++ bits)
        ≡ (absorb s (pending ++ 0x80 ∷ (zeros (119 - length pending) ++ bits))).0
  two_blocks h k =
      let marked = pending ++ 0x80 ∷ [] in
      let n = 64 - length marked in
      let lm : length marked ≡ length pending + 1 = length-append pending (0x80 ∷ []) in
      let z : 119 - length pending ≡ n + 56 = omega (arith, lm, h, k) in
      let l1 : length (marked ++ zeros n) ≡ 64 =
        omega (arith, lm, k, length-append marked (zeros n), length-zeros n) in
      let l2 : length (zeros 56 ++ bits) ≡ 64 = omega (arith, eight) in
      let e : (marked ++ zeros n) ++ (zeros 56 ++ bits)
          ≡ pending ++ 0x80 ∷ (zeros (n + 56) ++ bits) =
        append_assoc marked (zeros n) (zeros 56 ++ bits)
        ∙ append_assoc pending (0x80 ∷ []) (zeros n ++ (zeros 56 ++ bits))
        ∙ ap (λ x. pending ++ 0x80 ∷ x)
            (sym (append_assoc (zeros n) (zeros 56) bits)
              ∙ ap (λ x. x ++ bits) (sym (zeros-add n 56))) in
      rw z (
        sym (absorb-one (process_block s (marked ++ zeros n)) (zeros 56 ++ bits) l2)
        ∙ ap (λ x. x.0) (sym (absorb-block_append s (marked ++ zeros n) (zeros 56 ++ bits) l1))
        ∙ ap (λ x. (absorb s x).0) e)

-- The last blocks are those of the pending bytes and the padding.
finish_state-absorb :
    (s : HashState) (pending : Bytes) (n count : ℕ)
    → length pending ≡ n % 64
    → count ≡ n % 2 ^ 64
    → finish_state s pending count ≡ (absorb s (pending ++ padding n)).0
unfolding finish_state padding
finish_state-absorb s pending n count h k =
    let bits = bit_count_bytes 8 (n * 8 % 2 ^ 64) in
    let lb = length-bit_count_bytes 8 (n * 8 % 2 ^ 64) in
    let lm : length (pending ++ 0x80 ∷ []) ≡ length pending + 1 =
      length-append pending (0x80 ∷ []) in
    let same : count * 8 % 2 ^ 64 ≡ n * 8 % 2 ^ 64 = omega (arith, k) in
    rw same (elim (Bool-cases (ltb 56 (length (pending ++ 0x80 ∷ [])))) [
      | inl t ↦
          let z : (119 - n % 64) % 64 ≡ 119 - length pending = ground (arith, lm, h) in
          rw (t, z) (two_blocks s pending bits lb (ground (arith, lm)) (omega (arith, h)))
      | inr t ↦
          let z : (119 - n % 64) % 64 ≡ 55 - length pending = ground (arith, lm, h) in
          rw (t, z) (one_block s pending bits lb (ground (arith, lm)))
    ])

finish-HasTaken :
    (text : Bytes) (hasher : Sha256Hasher)
    → HasTaken text hasher
    → (finish hasher).0 ≡ digest_of text
unfolding finish digest_of
finish-HasTaken text hasher h =
    let size : length hasher.pending ≡ length text % 64 =
      rw (ap (λ x. x.1) (sym h.absorbed)) (length-absorb initial_state text) in
    rw h.open_hasher (
      ap digest_bytes (
        finish_state-absorb hasher.state hasher.pending (length text) hasher.byte_count size
          h.counted
        ∙ sym (
            ap (λ x. x.0) (absorb-append initial_state text (padding (length text)))
            ∙ ap (λ x. (absorb x.0 (x.1 ++ padding (length text))).0) h.absorbed)))

-- The calls of `update` with the pieces of a text, one after the other.
pub update_all : Sha256Hasher → List Bytes → Sha256Hasher
update_all hasher [] = hasher
update_all hasher (piece ∷ pieces) = update_all (update hasher piece) pieces

pub concat : List Bytes → Bytes
concat [] = []
concat (piece ∷ pieces) = piece ++ concat pieces

update_all-HasTaken :
    (pieces : List Bytes) (text : Bytes) (hasher : Sha256Hasher)
    → HasTaken text hasher
    → HasTaken (text ++ concat pieces) (update_all hasher pieces)
unfolding update_all concat
update_all-HasTaken [] text hasher h = rw (append-nil text) h
update_all-HasTaken (piece ∷ pieces) text hasher h =
    rw (← append_assoc text piece (concat pieces)) (
      update_all-HasTaken pieces (text ++ piece) (update hasher piece)
        (update-HasTaken text piece hasher h))

-- A new hasher that is given a text in any pieces gives the digest of the text by its definition: the
-- compression of the 64-byte blocks of the text with its padding, from the initial state.
pub finish-update_all :
    (pieces : List Bytes) → (finish (update_all new_hasher pieces)).0 ≡ digest_of (concat pieces)
finish-update_all pieces = finish-HasTaken (concat pieces) (update_all new_hasher pieces) (
    update_all-HasTaken pieces [] new_hasher (record {
      absorbed = absorb-short initial_state [] (omega arith);
      counted = omega arith;
      open_hasher = refl;
    }))
