-- ===== src/Tests/Sha256.antt =====
-- The hash of the model on a test vector of FIPS 180-4, and examples for its theorems.
use polyfetch.Base.{◌≡◌, refl, arith, codes, Bytes, foldl, flatten}
use polyfetch.Sha256.{
  reset, update, finish, hex_digest, pad_zeros, append_length, hex_words, hex_word, process_block,
  rounds, round, schedule, load_words, load_word, extend_words, next_word, small_sigma0,
  small_sigma1, rotr, fill_buffer, process_blocks, store_rest,
}
use polyfetch.Sha256.Conforms.{hex_digest-fips_digest}
use polyfetch.Sha256.Standard.{fips_digest}
use polyfetch.Tests.Samples.{fresh, chunks}

digest_of : Bytes → Bytes
digest_of m = (hex_digest (update fresh m)).0

digest_abc :
    digest_of (codes "abc")
    ≡ codes "ba7816bf8f01cfea414140de5dae2223b00361a396177a9cb410ff61f20015ad"
unfolding digest_of update hex_digest finish pad_zeros append_length hex_words hex_word
    process_block rounds round schedule load_words load_word extend_words next_word small_sigma0
    small_sigma1 rotr fill_buffer process_blocks store_rest
digest_abc = refl

hex_digest-fips_digest_example :
    (hex_digest (foldl update (reset fresh) chunks)).0 ≡ fips_digest (flatten chunks)
unfolding flatten
hex_digest-fips_digest_example =
    hex_digest-fips_digest fresh chunks refl (omega arith) (omega arith)
