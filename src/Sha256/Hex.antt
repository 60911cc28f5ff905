-- ===== src/Sha256/Hex.antt =====
-- The digits that `hex_digest` writes.
use polyfetch.Base.{
  ℕ, zero, suc, ◌*◌, ◌/◌, ◌%◌, ◌^◌, ◌≤◌, ◌<◌, ◌≡◌, refl, ◌∙◌, ap, ap₂, arith, ◌⊎◌, List, [], ◌∷◌,
  ◌++◌, foldl, flatten, length, get_or, Bytes, IsByte, u8, bit_and, All, All-get_or,
}
use polyfetch.Base.Bits.{and_byte, and_nibble}
use polyfetch.Sha256.{
  Words, Sha256, hexchars, shr, reset, update, finish, hex_word, hex_words, hex_digest,
}
use polyfetch.Sha256.Fips.{be_bytes, hex, words_bytes, digest, hash}
use polyfetch.Sha256.Digest.{HasRead, finish-hash, reset-HasRead, updates-HasRead}

hex-append : (xs ys : Bytes) → hex (xs ++ ys) ≡ hex xs ++ hex ys
hex-append [] ys = refl
hex-append (x ∷ xs) ys =
    ap (λ l. get_or hexchars (x / 16) 0 ∷ get_or hexchars (x % 16) 0 ∷ l) (hex-append xs ys)

hex_word-hex : (n w : ℕ) → hex_word n w ≡ hex (be_bytes n w)
unfolding hex_word
hex_word-hex zero w = refl
hex_word-hex (suc j) w =
    let byte = u8 (bit_and (shr w (j * 8)) 0xff) in
    let low_byte : byte ≡ w / 2 ^ (j * 8) % 256 = omega (arith, and_byte (shr w (j * 8))) in
    ap₂ (λ (d e : ℕ). get_or hexchars d 0 ∷ get_or hexchars e 0 ∷ hex_word j w)
      (ap (λ (t : ℕ). t / 16) low_byte) (and_nibble byte ∙ ap (λ (t : ℕ). t % 16) low_byte)
    ∙ ap
        (λ l.
          get_or hexchars (w / 2 ^ (j * 8) % 256 / 16) 0
          ∷ get_or hexchars (w / 2 ^ (j * 8) % 256 % 16) 0
          ∷ l)
        (hex_word-hex j w)

-- The two loops over the words and their bytes write the bytes of the hash value.
hex_words-hex : (s : Words) → hex_words s ≡ hex (words_bytes s)
unfolding hex_words
hex_words-hex s = simp (hex-append, hex_word-hex)

-- The text is the digest of all that was read.
pub hex_digest-digest :
    {s : Sha256} {m : Bytes} → HasRead s m → length m * 8 < 2 ^ 64 → (hex_digest s).0 ≡ digest m
unfolding hex_digest digest
hex_digest-digest {s} {m} r fits =
    hex_words-hex (finish s).state ∙ ap (λ h. hex (words_bytes h)) (finish-hash r fits)

-- An object with its buffer of 64 bytes that is reset and fed the chunks of a message gives the
-- digest of the whole message, with the padding and the iteration of FIPS 180-4 around the compression
-- `process_block`, as hexadecimal digits: however the message is cut and whatever the buffer held
-- before, for messages of less than 2 ^ 64 bits.
pub hex_digest-updates :
    (s : Sha256) (chunks : List Bytes)
    → length s.buffer ≡ 64
    → length (flatten chunks) * 8 < 2 ^ 64
    → (hex_digest (foldl update (reset s) chunks)).0 ≡ digest (flatten chunks)
hex_digest-updates s chunks size fits =
    hex_digest-digest (updates-HasRead (reset-HasRead s size) chunks) fits

abbrev pub IsHexDigit : ℕ → Type 0
IsHexDigit c = ((b'0' ≤ c) × (c ≤ b'9')) ⊎ ((b'a' ≤ c) × (c ≤ b'f'))

hexchar-IsHexDigit : (d : ℕ) → d < 16 → IsHexDigit (get_or hexchars d 0)
hexchar-IsHexDigit d lt = All-get_or IsHexDigit hexchars d 0 (omega arith) lt

hex-IsHexDigit : (bs : Bytes) → All IsByte bs → All IsHexDigit (hex bs)
hex-IsHexDigit [] h = tt
hex-IsHexDigit (b ∷ bs) (lt, h) = (
  hexchar-IsHexDigit (b / 16) (omega arith),
  (hexchar-IsHexDigit (b % 16) (omega arith), hex-IsHexDigit bs h),
)

length-hex : (bs : Bytes) → length (hex bs) ≡ 2 * length bs
length-hex [] = refl
length-hex (b ∷ bs) = omega (arith, length-hex bs)

words_bytes-IsByte : (s : Words) → All IsByte (words_bytes s)
words_bytes-IsByte s = omega arith

pub hex-words_bytes-IsHexDigit : (s : Words) → All IsHexDigit (hex (words_bytes s))
hex-words_bytes-IsHexDigit s = hex-IsHexDigit (words_bytes s) (words_bytes-IsByte s)

pub digest-IsHexDigit : (m : Bytes) → (length (digest m) ≡ 64) × All IsHexDigit (digest m)
unfolding digest
digest-IsHexDigit m = (
  length-hex (words_bytes (hash m)),
  hex-IsHexDigit (words_bytes (hash m)) (words_bytes-IsByte (hash m)),
)

-- For every object, the text of `hex_digest` has 64 characters, each a lowercase hexadecimal digit.
pub hex_digest-IsHexDigit :
    (s : Sha256) → (length (hex_digest s).0 ≡ 64) × All IsHexDigit (hex_digest s).0
unfolding hex_digest
hex_digest-IsHexDigit s = rw (hex_words-hex (finish s).state) (
  length-hex (words_bytes (finish s).state),
  hex-IsHexDigit (words_bytes (finish s).state) (words_bytes-IsByte (finish s).state),
)
