-- ===== src/Sha256/Standard.antt =====
-- SHA-256 as FIPS 180-4 states it, in its own terms: of the code, only the type of eight words and the
-- sixteen characters of the digits stand in it.
use polyfetch.Base.{
  ℕ, zero, suc, ◌+◌, ◌-◌, ◌*◌, ◌/◌, ◌%◌, ◌^◌, bit_xor, List, [], ◌∷◌, ◌++◌, foldl, get_or, ltb,
  if◌then◌else◌, Bytes,
}
use polyfetch.Sha256.{Words}
use polyfetch.Sha256.Blocks.{blocks}
use polyfetch.Sha256.Constants.{fips_constants, fips_initial}
use polyfetch.Sha256.Fips.{pad, hex, words_bytes}
use polyfetch.Sha256.Rotate.{rotated}
use polyfetch.Sha256.Rounds.{fips_round}

-- The two functions of section 4.1.2 for the schedule.
abbrev pub sigma0 : ℕ → ℕ
sigma0 x = bit_xor (bit_xor (rotated x 7) (rotated x 18)) (x / 2 ^ 3)

abbrev pub sigma1 : ℕ → ℕ
sigma1 x = bit_xor (bit_xor (rotated x 17) (rotated x 19)) (x / 2 ^ 10)

-- Word `t` of a block.
abbrev pub block_word : Bytes → ℕ → ℕ
block_word block t =
    get_or block (t * 4) 0 * 2 ^ 24
    + get_or block (t * 4 + 1) 0 * 2 ^ 16
    + get_or block (t * 4 + 2) 0 * 2 ^ 8
    + get_or block (t * 4 + 3) 0

-- Step 1 of section 6.2.2: word `t` of the schedule, from those before it.
abbrev pub schedule_word : Bytes → List ℕ → ℕ → ℕ
schedule_word block w t =
    if ltb t 16
    then block_word block t
    else (sigma1 (get_or w (t - 2) 0)
        + get_or w (t - 7) 0
        + sigma0 (get_or w (t - 15) 0)
        + get_or w (t - 16) 0)
      % 2 ^ 32

-- The first `t` words.
unfoldable pub fips_words : Bytes → ℕ → List ℕ
fips_words block zero = []
fips_words block (suc t) = fips_words block t ++ schedule_word block (fips_words block t) t ∷ []

-- Step 3: `n` rounds from round `i` on.
unfoldable pub standard_rounds : ℕ → ℕ → List ℕ → Words → Words
standard_rounds zero i w v = v
standard_rounds (suc n) i w v =
    standard_rounds n (i + 1) w (fips_round (get_or fips_constants i 0) (get_or w i 0) v)

-- Step 4.
abbrev pub fips_add : Words → Words → Words
fips_add s v = record {
  a = (s.a + v.a) % 2 ^ 32;
  b = (s.b + v.b) % 2 ^ 32;
  c = (s.c + v.c) % 2 ^ 32;
  d = (s.d + v.d) % 2 ^ 32;
  e = (s.e + v.e) % 2 ^ 32;
  f = (s.f + v.f) % 2 ^ 32;
  g = (s.g + v.g) % 2 ^ 32;
  h = (s.h + v.h) % 2 ^ 32;
}

unfoldable pub fips_compress : Words → Bytes → Words
fips_compress s block = fips_add s (standard_rounds 64 0 (fips_words block 64) s)

unfoldable pub fips_hash : Bytes → Words
fips_hash m = foldl fips_compress fips_initial (blocks (pad m))

-- The hash value as text.
unfoldable pub fips_digest : Bytes → Bytes
fips_digest m = hex (words_bytes (fips_hash m))
