-- ===== src/Artifact/Digest.antt =====
-- src/artifact/sha256.cc and sha256.h: the digest of a text, and its hexadecimal form. The bytes of
-- `pending_` past `pending_size_` are not read before they are written, so the array is the list of the
-- pending bytes. The Windows provider is not modelled: the hasher serves where it fails or is absent.
pub mod Absorb
pub mod Stream
pub mod Hex
use Prim.Native.Nat.{bit_and, bit_or, bit_xor}
use c_cloth.Base.{
  ℕ, zero, suc, ◌+◌, ◌-◌, ◌*◌, ◌/◌, ◌%◌, ◌^◌, min, Bool, true, false, ◌==◌, ltb, leb, ◌||◌, ◌&&◌,
  if◌then◌else◌, List, [], ◌∷◌, ◌++◌, length, get_or, take, drop, replicate, Option, none, some,
  map,
}
use c_cloth.Base.Text.{Bytes}
use c_cloth.Base.Words.{shr, low_bits, u32}

abbrev pub round_constants : List ℕ
round_constants =
    0x428a2f98 ∷ 0x71374491 ∷ 0xb5c0fbcf ∷ 0xe9b5dba5 ∷ 0x3956c25b ∷ 0x59f111f1 ∷ 0x923f82a4
    ∷ 0xab1c5ed5 ∷ 0xd807aa98 ∷ 0x12835b01 ∷ 0x243185be ∷ 0x550c7dc3 ∷ 0x72be5d74 ∷ 0x80deb1fe
    ∷ 0x9bdc06a7 ∷ 0xc19bf174 ∷ 0xe49b69c1 ∷ 0xefbe4786 ∷ 0x0fc19dc6 ∷ 0x240ca1cc ∷ 0x2de92c6f
    ∷ 0x4a7484aa ∷ 0x5cb0a9dc ∷ 0x76f988da ∷ 0x983e5152 ∷ 0xa831c66d ∷ 0xb00327c8 ∷ 0xbf597fc7
    ∷ 0xc6e00bf3 ∷ 0xd5a79147 ∷ 0x06ca6351 ∷ 0x14292967 ∷ 0x27b70a85 ∷ 0x2e1b2138 ∷ 0x4d2c6dfc
    ∷ 0x53380d13 ∷ 0x650a7354 ∷ 0x766a0abb ∷ 0x81c2c92e ∷ 0x92722c85 ∷ 0xa2bfe8a1 ∷ 0xa81a664b
    ∷ 0xc24b8b70 ∷ 0xc76c51a3 ∷ 0xd192e819 ∷ 0xd6990624 ∷ 0xf40e3585 ∷ 0x106aa070 ∷ 0x19a4c116
    ∷ 0x1e376c08 ∷ 0x2748774c ∷ 0x34b0bcb5 ∷ 0x391c0cb3 ∷ 0x4ed8aa4a ∷ 0x5b9cca4f ∷ 0x682e6ff3
    ∷ 0x748f82ee ∷ 0x78a5636f ∷ 0x84c87814 ∷ 0x8cc70208 ∷ 0x90befffa ∷ 0xa4506ceb ∷ 0xbef9a3f7
    ∷ 0xc67178f2 ∷ []

-- A word of 32 bits from its bytes, the highest first.
unfoldable pub read_big_endian : Bytes → ℕ
read_big_endian bytes =
    get_or bytes 0 0 * 2 ^ 24
    + get_or bytes 1 0 * 2 ^ 16
    + get_or bytes 2 0 * 2 ^ 8
    + get_or bytes 3 0

unfoldable pub write_big_endian : ℕ → Bytes
write_big_endian value =
    low_bits (shr value 24) 8
    ∷ low_bits (shr value 16) 8
    ∷ low_bits (shr value 8) 8
    ∷ low_bits value 8
    ∷ []

abbrev pub u32_max : ℕ
u32_max = 4294967295

-- `std::rotr` on 32 bits.
abbrev pub rotr : ℕ → ℕ → ℕ
rotr x n = bit_or (shr x n) (u32 (x * 2 ^ (32 - n)))

abbrev xor3 : ℕ → ℕ → ℕ → ℕ
xor3 a b c = bit_xor (bit_xor a b) c

unfoldable pub read_words : ℕ → Bytes → List ℕ
unfolding read_big_endian
read_words zero block = []
read_words (suc n) block = read_big_endian block ∷ read_words n (drop 4 block)

-- The words after the first sixteen, from the one at `index`.
unfoldable pub extend_words : ℕ → ℕ → List ℕ → List ℕ
extend_words zero index words = words
extend_words (suc n) index words =
    let w15 = get_or words (index - 15) 0 in
    let w2 = get_or words (index - 2) 0 in
    let first = xor3 (rotr w15 7) (rotr w15 18) (shr w15 3) in
    let second = xor3 (rotr w2 17) (rotr w2 19) (shr w2 10) in
    let next = u32 (get_or words (index - 16) 0 + first + get_or words (index - 7) 0 + second) in
    extend_words n (index + 1) (words ++ next ∷ [])

-- The eight words of the state.
pub record HashState : Type 0 where
  pub a : ℕ
  pub b : ℕ
  pub c : ℕ
  pub d : ℕ
  pub e : ℕ
  pub f : ℕ
  pub g : ℕ
  pub h : ℕ

unfoldable pub round : ℕ → ℕ → HashState → HashState
round constant word s =
    let upper_e = xor3 (rotr s.e 6) (rotr s.e 11) (rotr s.e 25) in
    let choice = bit_xor (bit_and s.e s.f) (bit_and (u32_max - s.e) s.g) in
    let first = u32 (s.h + upper_e + choice + constant + word) in
    let upper_a = xor3 (rotr s.a 2) (rotr s.a 13) (rotr s.a 22) in
    let majority = xor3 (bit_and s.a s.b) (bit_and s.a s.c) (bit_and s.b s.c) in
    let second = u32 (upper_a + majority) in
    record {
      a = u32 (first + second);
      b = s.a;
      c = s.b;
      d = s.c;
      e = u32 (s.d + first);
      f = s.e;
      g = s.f;
      h = s.g;
    }

unfoldable pub rounds : List ℕ → List ℕ → HashState → HashState
unfolding round
rounds (constant ∷ constants) (word ∷ words) s = rounds constants words (round constant word s)
rounds _ _ s = s

unfoldable pub process_block : HashState → Bytes → HashState
unfolding read_words extend_words rounds
process_block s block =
    let r = rounds round_constants (extend_words 48 16 (read_words 16 block)) s in
    record {
      a = u32 (s.a + r.a);
      b = u32 (s.b + r.b);
      c = u32 (s.c + r.c);
      d = u32 (s.d + r.d);
      e = u32 (s.e + r.e);
      f = u32 (s.f + r.f);
      g = u32 (s.g + r.g);
      h = u32 (s.h + r.h);
    }

pub record Sha256Hasher : Type 0 where
  pub state : HashState
  pub pending : Bytes
  pub byte_count : ℕ
  pub finished : Bool

abbrev pub initial_state : HashState
initial_state = record {
  a = 0x6a09e667;
  b = 0xbb67ae85;
  c = 0x3c6ef372;
  d = 0xa54ff53a;
  e = 0x510e527f;
  f = 0x9b05688c;
  g = 0x1f83d9ab;
  h = 0x5be0cd19;
}

abbrev pub new_hasher : Sha256Hasher
new_hasher = record { state = initial_state; pending = []; byte_count = 0; finished = false }

-- The loop over whole blocks, with the bytes left as fuel.
unfoldable pub blocks_loop : ℕ → HashState → Bytes → HashState × Bytes
blocks_loop zero s bytes = (s, bytes)
blocks_loop (suc fuel) s bytes =
    let rest = blocks_loop fuel (process_block s (take 64 bytes)) (drop 64 bytes) in
    if ltb (length bytes) 64 then (s, bytes) else rest

-- Where bytes are pending, the block that they begin is filled first.
unfoldable pub fill_pending : HashState → Bytes → Bytes → HashState × Bytes × Bytes
fill_pending s [] bytes = (s, [], bytes)
fill_pending s (p ∷ pending) bytes =
    let count = min (length bytes) (64 - length (p ∷ pending)) in
    let filled = (p ∷ pending) ++ take count bytes in
    if length filled == 64
    then (process_block s filled, [], drop count bytes)
    else (s, filled, drop count bytes)

-- What is left of the bytes replaces the pending ones.
abbrev pub keep_pending : Bytes → Bytes → Bytes
keep_pending pending [] = pending
keep_pending pending (b ∷ bytes) = b ∷ bytes

unfoldable pub update : Sha256Hasher → Bytes → Sha256Hasher
unfolding fill_pending blocks_loop
update hasher [] = hasher
update hasher (byte ∷ bytes) =
    let filled = fill_pending hasher.state hasher.pending (byte ∷ bytes) in
    let done = blocks_loop (length filled.2) filled.0 filled.2 in
    if hasher.finished then hasher else record {
      state = done.0;
      pending = keep_pending filled.1 done.1;
      byte_count = (hasher.byte_count + length (byte ∷ bytes)) % 2 ^ 64;
      finished = false;
    }

-- The eight bytes of the count of bits, the highest first.
unfoldable pub bit_count_bytes : ℕ → ℕ → Bytes
bit_count_bytes zero bit_count = []
bit_count_bytes (suc n) bit_count = low_bits (shr bit_count (n * 8)) 8 ∷ bit_count_bytes n bit_count

abbrev pub zeros : ℕ → Bytes
zeros n = replicate n 0

-- The last blocks: the pending bytes with the mark, and the count.
unfoldable pub finish_state : HashState → Bytes → ℕ → HashState
unfolding bit_count_bytes
finish_state s pending byte_count =
    let bits = bit_count_bytes 8 (byte_count * 8 % 2 ^ 64) in
    let marked = pending ++ 0x80 ∷ [] in
    if ltb 56 (length marked)
    then process_block (process_block s (marked ++ zeros (64 - length marked))) (zeros 56 ++ bits)
    else process_block s (marked ++ (zeros (56 - length marked) ++ bits))

unfoldable pub digest_bytes : HashState → Bytes
unfolding write_big_endian
digest_bytes s =
    write_big_endian s.a
    ++ (write_big_endian s.b
        ++ (write_big_endian s.c
            ++ (write_big_endian s.d
                ++ (write_big_endian s.e
                    ++ (write_big_endian s.f ++ (write_big_endian s.g ++ write_big_endian s.h))))))

-- A hasher that has finished gives its digest again.
unfoldable pub finish : Sha256Hasher → Bytes × Sha256Hasher
unfolding finish_state digest_bytes
finish hasher =
    let s =
      if hasher.finished
      then hasher.state
      else finish_state hasher.state hasher.pending hasher.byte_count in
    (digest_bytes s, record hasher { state = s; finished = true })

unfoldable pub sha256 : Bytes → Bytes
unfolding update finish
sha256 bytes = (finish (update new_hasher bytes)).0

-- The digit at a position below 16 of `kHex`.
unfoldable pub lowercase_hex_digit : ℕ → ℕ
lowercase_hex_digit n = if ltb n 10 then b'0' + n else b'a' + (n - 10)

unfoldable pub lowercase_hex_value : ℕ → Option ℕ
lowercase_hex_value c =
    if leb b'0' c && leb c b'9'
    then some (c - b'0')
    else if leb b'a' c && leb c b'f'
    then some (c - b'a' + 10)
    else none

unfoldable pub artifact_digest_hex : Bytes → Bytes
unfolding lowercase_hex_digit
artifact_digest_hex [] = []
artifact_digest_hex (byte ∷ bytes) =
    lowercase_hex_digit (shr byte 4)
    ∷ lowercase_hex_digit (low_bits byte 4)
    ∷ artifact_digest_hex bytes

abbrev pub parsed_byte : Option ℕ → Option ℕ → Option Bytes → Option Bytes
parsed_byte (some upper) (some lower) (some bytes) = some ((upper * 16 + lower) ∷ bytes)
parsed_byte _ _ _ = none

-- The loop over the bytes of the digest.
unfoldable pub parse_bytes : ℕ → Bytes → Option Bytes
unfolding lowercase_hex_value
parse_bytes zero text = some []
parse_bytes (suc n) text =
    parsed_byte (lowercase_hex_value (get_or text 0 0)) (lowercase_hex_value (get_or text 1 0))
      (parse_bytes n (drop 2 text))

unfoldable pub parse_artifact_digest : Bytes → Option Bytes
unfolding parse_bytes
parse_artifact_digest text = if length text == 64 then parse_bytes 32 text else none
