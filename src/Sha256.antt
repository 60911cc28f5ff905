-- ===== src/Sha256.antt =====
-- clients/cpp/src/sha256.cpp and clients/cpp/include/sha256.hpp: the streaming hash.
-- An array is a list. `state_[8]`, and the locals `a` to `h` of `process_block`, are eight words.
-- A call `update(data, len)` is `update s data` on the `len` bytes that `data` points to.
pub mod Buffer
pub mod Blocks
pub mod Stream
pub mod Rotate
pub mod Fips
pub mod Digest
pub mod Hex
pub mod Schedule
pub mod Rounds
pub mod Constants
pub mod Standard
pub mod Words32
pub mod Conforms
use polyfetch.Base.{
  ℕ, zero, suc, ◌+◌, ◌-◌, ◌*◌, ◌/◌, ◌^◌, bit_and, bit_or, bit_xor, true, false, List, [], ◌∷◌, ◌++◌,
  length, get_or, take, drop, replicate, ltb, leb, ◌==◌, if◌then◌else◌, Bytes, codes, u8, u32, u64,
}

-- `K`
abbrev pub k_table : List ℕ
k_table =
    0x428a2f98 ∷ 0x71374491 ∷ 0xb5c0fbcf ∷ 0xe9b5dba5 ∷ 0x3956c25b ∷ 0x59f111f1 ∷ 0x923f82a4
    ∷ 0xab1c5ed5 ∷ 0xd807aa98 ∷ 0x12835b01 ∷ 0x243185be ∷ 0x550c7dc3 ∷ 0x72be5d74 ∷ 0x80deb1fe
    ∷ 0x9bdc06a7 ∷ 0xc19bf174 ∷ 0xe49b69c1 ∷ 0xefbe4786 ∷ 0x0fc19dc6 ∷ 0x240ca1cc ∷ 0x2de92c6f
    ∷ 0x4a7484aa ∷ 0x5cb0a9dc ∷ 0x76f988da ∷ 0x983e5152 ∷ 0xa831c66d ∷ 0xb00327c8 ∷ 0xbf597fc7
    ∷ 0xc6e00bf3 ∷ 0xd5a79147 ∷ 0x06ca6351 ∷ 0x14292967 ∷ 0x27b70a85 ∷ 0x2e1b2138 ∷ 0x4d2c6dfc
    ∷ 0x53380d13 ∷ 0x650a7354 ∷ 0x766a0abb ∷ 0x81c2c92e ∷ 0x92722c85 ∷ 0xa2bfe8a1 ∷ 0xa81a664b
    ∷ 0xc24b8b70 ∷ 0xc76c51a3 ∷ 0xd192e819 ∷ 0xd6990624 ∷ 0xf40e3585 ∷ 0x106aa070 ∷ 0x19a4c116
    ∷ 0x1e376c08 ∷ 0x2748774c ∷ 0x34b0bcb5 ∷ 0x391c0cb3 ∷ 0x4ed8aa4a ∷ 0x5b9cca4f ∷ 0x682e6ff3
    ∷ 0x748f82ee ∷ 0x78a5636f ∷ 0x84c87814 ∷ 0x8cc70208 ∷ 0x90befffa ∷ 0xa4506ceb ∷ 0xbef9a3f7
    ∷ 0xc67178f2 ∷ []

abbrev pub shr : ℕ → ℕ → ℕ
shr x n = x / 2 ^ n

-- `x << n` in `std::uint32_t`
abbrev pub shl : ℕ → ℕ → ℕ
shl x n = u32 (x * 2 ^ n)

-- `~x` in `std::uint32_t`
abbrev pub complement : ℕ → ℕ
complement x = 2 ^ 32 - 1 - x

unfoldable pub rotr : ℕ → ℕ → ℕ
rotr x n = bit_or (shr x n) (shl x (32 - n))

-- `state_[0]` to `state_[7]`
pub record Words : Type 0 where
  pub a : ℕ
  pub b : ℕ
  pub c : ℕ
  pub d : ℕ
  pub e : ℕ
  pub f : ℕ
  pub g : ℕ
  pub h : ℕ

pub record Sha256 : Type 0 where
  pub state : Words
  pub bit_len : ℕ
  pub buffer : Bytes
  pub buffer_len : ℕ

abbrev pub initial_state : Words
initial_state = record {
  a = 0x6a09e667;
  b = 0xbb67ae85;
  c = 0x3c6ef372;
  d = 0xa54ff53a;
  e = 0x510e527f;
  f = 0x9b05688c;
  g = 0x1f83d9ab;
  h = 0x5be0cd19;
}

-- `reset`, which leaves the bytes of `buffer_` as they are
unfoldable pub reset : Sha256 → Sha256
reset s = record { state = initial_state; bit_len = 0; buffer = s.buffer; buffer_len = 0 }

-- `block[i * 4]` to `block[i * 4 + 3]` as a word
unfoldable pub load_word : Bytes → ℕ → ℕ
load_word block i =
    bit_or
      (bit_or (bit_or (shl (get_or block (i * 4) 0) 24) (shl (get_or block (i * 4 + 1) 0) 16))
        (shl (get_or block (i * 4 + 2) 0) 8))
      (get_or block (i * 4 + 3) 0)

-- The first loop, from `i` with `n` rounds left; `w` holds `w[0]` to `w[i - 1]`.
unfoldable pub load_words : ℕ → ℕ → Bytes → List ℕ → List ℕ
load_words zero i block w = w
load_words (suc n) i block w = load_words n (i + 1) block (w ++ load_word block i ∷ [])

unfoldable pub small_sigma0 : ℕ → ℕ
small_sigma0 x = bit_xor (bit_xor (rotr x 7) (rotr x 18)) (shr x 3)

unfoldable pub small_sigma1 : ℕ → ℕ
small_sigma1 x = bit_xor (bit_xor (rotr x 17) (rotr x 19)) (shr x 10)

-- `w[i]` in the second loop
unfoldable pub next_word : List ℕ → ℕ → ℕ
next_word w i =
    let s0 = small_sigma0 (get_or w (i - 15) 0) in
    let s1 = small_sigma1 (get_or w (i - 2) 0) in
    u32 (u32 (u32 (get_or w (i - 16) 0 + s0) + get_or w (i - 7) 0) + s1)

unfoldable pub extend_words : ℕ → ℕ → List ℕ → List ℕ
extend_words zero i w = w
extend_words (suc n) i w = extend_words n (i + 1) (w ++ next_word w i ∷ [])

-- `w` after both loops
unfoldable pub schedule : Bytes → List ℕ
schedule block = extend_words 48 16 (load_words 16 0 block [])

-- One round of the third loop.
unfoldable pub round : ℕ → ℕ → Words → Words
round k w v =
    let s1 = bit_xor (bit_xor (rotr v.e 6) (rotr v.e 11)) (rotr v.e 25) in
    let ch = bit_xor (bit_and v.e v.f) (bit_and (complement v.e) v.g) in
    let temp1 = u32 (u32 (u32 (u32 (v.h + s1) + ch) + k) + w) in
    let s0 = bit_xor (bit_xor (rotr v.a 2) (rotr v.a 13)) (rotr v.a 22) in
    let maj = bit_xor (bit_xor (bit_and v.a v.b) (bit_and v.a v.c)) (bit_and v.b v.c) in
    let temp2 = u32 (s0 + maj) in
    record {
      a = u32 (temp1 + temp2);
      b = v.a;
      c = v.b;
      d = v.c;
      e = u32 (v.d + temp1);
      f = v.e;
      g = v.f;
      h = v.g;
    }

unfoldable pub rounds : ℕ → ℕ → List ℕ → Words → Words
rounds zero i w v = v
rounds (suc n) i w v = rounds n (i + 1) w (round (get_or k_table i 0) (get_or w i 0) v)

-- `state_[i] += …`
abbrev pub add_words : Words → Words → Words
add_words s v = record {
  a = u32 (s.a + v.a);
  b = u32 (s.b + v.b);
  c = u32 (s.c + v.c);
  d = u32 (s.d + v.d);
  e = u32 (s.e + v.e);
  f = u32 (s.f + v.f);
  g = u32 (s.g + v.g);
  h = u32 (s.h + v.h);
}

unfoldable pub process_block : Words → Bytes → Words
process_block s block = add_words s (rounds 64 0 (schedule block) s)

-- `memcpy(buf + off, data, n)`; a copy past the end of `buf` would make it longer.
abbrev pub memcpy : Bytes → ℕ → Bytes → ℕ → Bytes
memcpy buf off bytes n = take off buf ++ take n bytes ++ drop (off + n) buf

-- What the first part of `update` leaves: the object, and the bytes not yet read.
abbrev pub Progress : Type 0
Progress = Sha256 × Bytes

-- `if (buffer_len_ > 0) { … }`
unfoldable pub fill_buffer : Sha256 → Bytes → Progress
fill_buffer s bytes =
    if ltb 0 s.buffer_len
    then (let space = 64 - s.buffer_len in
        let copy = if ltb (length bytes) space then length bytes else space in
        let buf = memcpy s.buffer s.buffer_len bytes copy in
        let filled = s.buffer_len + copy in
        (
          record s {
            state = if filled == 64 then process_block s.state buf else s.state;
            buffer = buf;
            buffer_len = if filled == 64 then 0 else filled;
          },
          drop copy bytes,
        ))
    else (s, bytes)

-- `while (len >= 64) { … }`, with fuel
unfoldable pub process_blocks : ℕ → Words → Bytes → Words × Bytes
process_blocks zero s bytes = (s, bytes)
process_blocks (suc fuel) s bytes = elim (leb 64 (length bytes)) [
  | true ↦ process_blocks fuel (process_block s (take 64 bytes)) (drop 64 bytes)
  | false ↦ (s, bytes)
]

-- `if (len > 0) { … }`
unfoldable pub store_rest : Sha256 → Bytes → Sha256
store_rest s rest =
    if ltb 0 (length rest)
    then record s { buffer = memcpy s.buffer 0 rest (length rest); buffer_len = length rest }
    else s

unfoldable pub update : Sha256 → Bytes → Sha256
update s bytes =
    let counted = record s { bit_len = u64 (s.bit_len + u64 (length bytes * 8)) } in
    let (filled, rest) = fill_buffer counted bytes in
    let (state, tail) = process_blocks (length rest) filled.state rest in
    store_rest (record filled { state = state }) tail

-- `while (buffer_len_ != 56) update(&zero, 1);`, with fuel
unfoldable pub pad_zeros : ℕ → Sha256 → Sha256
pad_zeros zero s = s
pad_zeros (suc fuel) s = elim (s.buffer_len == 56) [
  | true ↦ s
  | false ↦ pad_zeros fuel (update s (0x00 ∷ []))
]

-- The loop that appends the length: `n` rounds left, so `i` is `n - 1`.
unfoldable pub append_length : ℕ → ℕ → Sha256 → Sha256
append_length zero total_bits s = s
append_length (suc i) total_bits s = append_length i total_bits (record s {
  buffer = memcpy s.buffer s.buffer_len (u8 (bit_and (shr total_bits (i * 8)) 0xff) ∷ []) 1;
  buffer_len = s.buffer_len + 1;
})

abbrev pub hexchars : Bytes
hexchars = codes "0123456789abcdef"

-- Two digits for each byte of a word, `n` bytes left, the high byte first.
unfoldable pub hex_word : ℕ → ℕ → Bytes
hex_word zero w = []
hex_word (suc j) w =
    let byte = u8 (bit_and (shr w (j * 8)) 0xff) in
    get_or hexchars (shr byte 4) 0 ∷ get_or hexchars (bit_and byte 0x0f) 0 ∷ hex_word j w

unfoldable pub hex_words : Words → Bytes
hex_words s =
    hex_word 4 s.a
    ++ (hex_word 4 s.b
        ++ (hex_word 4 s.c
            ++ (hex_word 4 s.d
                ++ (hex_word 4 s.e ++ (hex_word 4 s.f ++ (hex_word 4 s.g ++ hex_word 4 s.h))))))

-- The part of `hex_digest` before the digits are written.
unfoldable pub finish : Sha256 → Sha256
finish s =
    let padded = pad_zeros 64 (update s (0x80 ∷ [])) in
    let full = append_length 8 s.bit_len padded in
    record full { state = process_block full.state full.buffer; buffer_len = 0 }

unfoldable pub hex_digest : Sha256 → Bytes × Sha256
hex_digest s = let done = finish s in (hex_words done.state, done)
