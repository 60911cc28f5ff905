-- ===== src/Sha256/Conforms.antt =====
-- The whole object beside SHA-256 of FIPS 180-4: schedule, rounds, padding and digits.
use polyfetch.Base.{
  ℕ, zero, suc, ◌+◌, ◌*◌, ◌/◌, ◌%◌, ◌^◌, ◌<◌, ◌≡◌, refl, ◌∙◌, ap, arith, List, [], ◌∷◌, foldl,
  length, get_or, replicate, take, drop, Bytes, IsByte, All, All-append, flatten,
}
use polyfetch.Sha256.{Words, Sha256, initial_state, process_block, reset, update, hex_digest}
use polyfetch.Sha256.Blocks.{split_blocks, blocks}
use polyfetch.Sha256.Constants.{fips_constants, k_table-fips, initial_state-fips}
use polyfetch.Sha256.Fips.{be_bytes, padding, pad, hash, hex, words_bytes, digest, zero_count}
use polyfetch.Sha256.Rounds.{fips_round, fips_rounds, process_block_lem}
use polyfetch.Sha256.Standard.{
  standard_rounds, fips_words, fips_add, fips_compress, fips_hash, fips_digest,
}
use polyfetch.Sha256.Words32.{IsWord, schedule-fips}
use polyfetch.Sha256.Hex.{hex_digest-updates}

-- The words that a round rotates have 32 bits.
abbrev IsState : Words → Type 0
IsState s = IsWord s.a × IsWord s.e

fips_rounds-standard :
    (n i : ℕ) (w : List ℕ) (v : Words) → fips_rounds n i w v ≡ standard_rounds n i w v
unfolding standard_rounds
fips_rounds-standard zero i w v = refl
fips_rounds-standard (suc n) i w v =
    ap (λ (ks : List ℕ). fips_rounds n (i + 1) w (fips_round (get_or ks i 0) (get_or w i 0) v))
      k_table-fips
    ∙ fips_rounds-standard n (i + 1) w (fips_round (get_or fips_constants i 0) (get_or w i 0) v)

process_block-fips :
    (s : Words) (block : Bytes)
    → IsState s
    → All IsByte block
    → process_block s block ≡ fips_compress s block
unfolding fips_compress
process_block-fips s block (a_lt, e_lt) bytes =
    process_block_lem s block a_lt e_lt
    ∙ ap (λ w. fips_add s (fips_rounds 64 0 w s)) (schedule-fips block bytes)
    ∙ ap (fips_add s) (fips_rounds-standard 64 0 (fips_words block 64) s)

word_lt : (n : ℕ) → n % 2 ^ 32 < 2 ^ 32
word_lt n = omega arith

fips_compress-IsState : (s : Words) (block : Bytes) → IsState (fips_compress s block)
unfolding fips_compress
fips_compress-IsState s block = (word_lt _, word_lt _)

foldl-fips :
    (bs : List Bytes) (s : Words)
    → IsState s
    → All (All IsByte) bs
    → foldl process_block s bs ≡ foldl fips_compress s bs
foldl-fips [] s state bytes = refl
foldl-fips (b ∷ bs) s state (first, rest) =
    ap (λ h. foldl process_block h bs) (process_block-fips s b state first)
    ∙ foldl-fips bs (fips_compress s b) (fips_compress-IsState s b) rest

take-IsByte : (n : ℕ) (m : Bytes) → All IsByte m → All IsByte (take n m)
take-IsByte zero m h = tt
take-IsByte (suc n) [] h = tt
take-IsByte (suc n) (x ∷ m) (lt, h) = (lt, take-IsByte n m h)

drop-IsByte : (n : ℕ) (m : Bytes) → All IsByte m → All IsByte (drop n m)
drop-IsByte zero m h = h
drop-IsByte (suc n) [] h = tt
drop-IsByte (suc n) (x ∷ m) (lt, h) = drop-IsByte n m h

split_blocks-IsByte : (n : ℕ) (m : Bytes) → All IsByte m → All (All IsByte) (split_blocks n m)
unfolding split_blocks
split_blocks-IsByte zero m h = tt
split_blocks-IsByte (suc n) m h =
    (take-IsByte 64 m h, split_blocks-IsByte n (drop 64 m) (drop-IsByte 64 m h))

replicate-IsByte : (n : ℕ) → All IsByte (replicate n 0x00)
replicate-IsByte zero = tt
replicate-IsByte (suc n) = (omega arith, replicate-IsByte n)

be_bytes-IsByte : (n v : ℕ) → All IsByte (be_bytes n v)
be_bytes-IsByte zero v = tt
be_bytes-IsByte (suc n) v = (omega arith, be_bytes-IsByte n v)

pad-IsByte : (m : Bytes) → All IsByte m → All IsByte (pad m)
pad-IsByte m h = All-append IsByte m (padding (length m)) h (
  omega arith,
  All-append IsByte (replicate (zero_count (length m)) 0x00) (be_bytes 8 (length m * 8))
      (replicate-IsByte (zero_count (length m))) (be_bytes-IsByte 8 (length m * 8)),
)

hash-fips_hash : (m : Bytes) → All IsByte m → hash m ≡ fips_hash m
unfolding hash fips_hash blocks
hash-fips_hash m h =
    foldl-fips (blocks (pad m)) initial_state (omega arith)
      (split_blocks-IsByte (length (pad m) / 64) (pad m) (pad-IsByte m h))
    ∙ ap (λ s. foldl fips_compress s (blocks (pad m))) initial_state-fips

pub digest-fips_digest : (m : Bytes) → All IsByte m → digest m ≡ fips_digest m
unfolding digest fips_digest
digest-fips_digest m h = ap (λ s. hex (words_bytes s)) (hash-fips_hash m h)

-- An object with its buffer of 64 bytes that is reset and fed the chunks of a message of bytes,
-- of less than 2 ^ 64 bits, gives as its text the SHA-256 of the whole message as FIPS 180-4 defines
-- it: its constants, its padding, its schedule of 64 words, its 64 rounds, its additions modulo 2 ^ 32 and its
-- hexadecimal digits, however the message is cut and whatever the buffer held before.
pub hex_digest-fips_digest :
    (s : Sha256) (chunks : List Bytes)
    → length s.buffer ≡ 64
    → All IsByte (flatten chunks)
    → length (flatten chunks) * 8 < 2 ^ 64
    → (hex_digest (foldl update (reset s) chunks)).0 ≡ fips_digest (flatten chunks)
hex_digest-fips_digest s chunks size bytes fits =
    hex_digest-updates s chunks size fits ∙ digest-fips_digest (flatten chunks) bytes
