-- ===== src/Sha256/Rounds.antt =====
-- The rounds of `process_block`, as FIPS 180-4 writes them: with rotations of words in place of shifts,
-- and sums that are reduced modulo 2 ^ 32 once.
use polyfetch.Base.{
  ℕ, zero, suc, ◌+◌, ◌-◌, ◌%◌, ◌^◌, ◌<◌, ◌≡◌, refl, ◌∙◌, ap, ap₂, arith, bit_and, bit_xor, List,
  get_or, Bytes,
}
use polyfetch.Sha256.{Words, k_table, rotr, schedule, round, rounds, add_words, process_block}
use polyfetch.Sha256.Rotate.{rotated, rotr_lem}

-- The functions of section 4.1.2.
abbrev pub ch : ℕ → ℕ → ℕ → ℕ
ch x y z = bit_xor (bit_and x y) (bit_and (2 ^ 32 - 1 - x) z)

abbrev pub maj : ℕ → ℕ → ℕ → ℕ
maj x y z = bit_xor (bit_xor (bit_and x y) (bit_and x z)) (bit_and y z)

abbrev pub big_sigma0 : ℕ → ℕ
big_sigma0 x = bit_xor (bit_xor (rotated x 2) (rotated x 13)) (rotated x 22)

abbrev pub big_sigma1 : ℕ → ℕ
big_sigma1 x = bit_xor (bit_xor (rotated x 6) (rotated x 11)) (rotated x 25)

-- Step 3 of section 6.2.2, for the constant `k` and the word `w`.
abbrev pub fips_round : ℕ → ℕ → Words → Words
fips_round k w v = record {
  a = (v.h + big_sigma1 v.e + ch v.e v.f v.g + k + w + (big_sigma0 v.a + maj v.a v.b v.c)) % 2 ^ 32;
  b = v.a;
  c = v.b;
  d = v.c;
  e = (v.d + (v.h + big_sigma1 v.e + ch v.e v.f v.g + k + w)) % 2 ^ 32;
  f = v.e;
  g = v.f;
  h = v.g;
}

-- `n` rounds from round `i` on.
abbrev pub fips_rounds : ℕ → ℕ → List ℕ → Words → Words
fips_rounds zero i w v = v
fips_rounds (suc n) i w v =
    fips_rounds n (i + 1) w (fips_round (get_or k_table i 0) (get_or w i 0) v)

big_sigma1_lem :
    (x : ℕ) → x < 2 ^ 32 → bit_xor (bit_xor (rotr x 6) (rotr x 11)) (rotr x 25) ≡ big_sigma1 x
big_sigma1_lem x lt =
    rw (
      rotr_lem x 6 lt (omega arith),
      rotr_lem x 11 lt (omega arith),
      rotr_lem x 25 lt (omega arith),
    )

big_sigma0_lem :
    (x : ℕ) → x < 2 ^ 32 → bit_xor (bit_xor (rotr x 2) (rotr x 13)) (rotr x 22) ≡ big_sigma0 x
big_sigma0_lem x lt =
    rw (
      rotr_lem x 2 lt (omega arith),
      rotr_lem x 13 lt (omega arith),
      rotr_lem x 22 lt (omega arith),
    )

-- The words behind a round that computes `x` and `y`.
shifted : Words → ℕ → ℕ → Words
shifted v x y = record { a = x; b = v.a; c = v.b; d = v.c; e = y; f = v.e; g = v.f; h = v.g }

round_lem : (k w : ℕ) (v : Words) → v.a < 2 ^ 32 → v.e < 2 ^ 32 → round k w v ≡ fips_round k w v
unfolding round shifted
round_lem k w v a_lt e_lt =
    ap₂ (shifted v) (omega (arith, big_sigma0_lem v.a a_lt, big_sigma1_lem v.e e_lt))
      (omega (arith, big_sigma1_lem v.e e_lt))

rounds_lem :
    (n i : ℕ) (w : List ℕ) (v : Words)
    → v.a < 2 ^ 32
    → v.e < 2 ^ 32
    → rounds n i w v ≡ fips_rounds n i w v
unfolding rounds
rounds_lem zero i w v a_lt e_lt = refl
rounds_lem (suc n) i w v a_lt e_lt =
    ap (rounds n (i + 1) w) (round_lem (get_or k_table i 0) (get_or w i 0) v a_lt e_lt)
    ∙ rounds_lem n (i + 1) w (fips_round (get_or k_table i 0) (get_or w i 0) v) (omega arith)
        (omega arith)

-- For a hash value whose words `a` and `e` have 32 bits, `process_block` makes the 64 rounds of FIPS
-- 180-4 with the schedule of the block, and adds the result to the hash value word by word.
pub process_block_lem :
    (s : Words) (block : Bytes)
    → s.a < 2 ^ 32
    → s.e < 2 ^ 32
    → process_block s block ≡ add_words s (fips_rounds 64 0 (schedule block) s)
unfolding process_block
process_block_lem s block a_lt e_lt =
    ap (add_words s) (rounds_lem 64 0 (schedule block) s a_lt e_lt)
