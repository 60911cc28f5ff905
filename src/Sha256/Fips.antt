-- ===== src/Sha256/Fips.antt =====
-- FIPS 180-4 for whole messages: the padding of section 5.1.1 and the hash of section 6.2.
-- The compression of one block is `process_block`.
use polyfetch.Base.{
  ℕ, zero, suc, ◌-◌, ◌*◌, ◌/◌, ◌%◌, ◌^◌, ◌≡◌, arith, [], ◌∷◌, ◌++◌, foldl, get_or, length,
  replicate, Bytes, length-append, length-replicate,
}
use polyfetch.Sha256.{Words, initial_state, process_block, hexchars}
use polyfetch.Sha256.Blocks.{blocks}

-- `n` bytes of a number, the high byte first.
abbrev pub be_bytes : ℕ → ℕ → Bytes
be_bytes zero v = []
be_bytes (suc i) v = v / 2 ^ (i * 8) % 256 ∷ be_bytes i v

-- The number of zero bytes behind the byte 0x80.
abbrev pub zero_count : ℕ → ℕ
zero_count n = (119 - n % 64) % 64

-- What is put behind a message of `n` bytes.
abbrev pub padding : ℕ → Bytes
padding n = 0x80 ∷ (replicate (zero_count n) 0x00 ++ be_bytes 8 (n * 8))

abbrev pub pad : Bytes → Bytes
pad m = m ++ padding (length m)

pub length-be_bytes : (n v : ℕ) → length (be_bytes n v) ≡ n
length-be_bytes zero v = omega arith
length-be_bytes (suc n) v = omega (arith, length-be_bytes n v)

-- A padded message is a whole number of blocks.
pub length-pad : (m : Bytes) → length (pad m) % 64 ≡ 0
length-pad m = omega (
  arith,
  length-append m (padding (length m)),
  length-append (replicate (zero_count (length m)) 0x00) (be_bytes 8 (length m * 8)),
  length-replicate {A = ℕ} (zero_count (length m)) 0,
  length-be_bytes 8 (length m * 8),
)

unfoldable pub hash : Bytes → Words
hash m = foldl process_block initial_state (blocks (pad m))

-- Two digits for each byte.
abbrev pub hex : Bytes → Bytes
hex [] = []
hex (b ∷ bs) = get_or hexchars (b / 16) 0 ∷ get_or hexchars (b % 16) 0 ∷ hex bs

-- The eight words of a hash value, as bytes.
abbrev pub words_bytes : Words → Bytes
words_bytes s =
    be_bytes 4 s.a
    ++ be_bytes 4 s.b
    ++ be_bytes 4 s.c
    ++ be_bytes 4 s.d
    ++ be_bytes 4 s.e
    ++ be_bytes 4 s.f
    ++ be_bytes 4 s.g
    ++ be_bytes 4 s.h

unfoldable pub digest : Bytes → Bytes
digest m = hex (words_bytes (hash m))
