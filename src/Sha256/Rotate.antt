-- ===== src/Sha256/Rotate.antt =====
-- `rotr` and the words of a block, as arithmetic.
use native.Mathlib.Nat.{
  mod-lt, div-add-mod', one-le-pow, div-lt_iff_lt-mul, mul-lt-mul_of_pos_right,
}
use polyfetch.Base.{
  ℕ, ◌+◌, ◌-◌, ◌*◌, ◌/◌, ◌%◌, ◌^◌, ◌≤◌, ◌<◌, ◌≡◌, ◌∙◌, ap, ap₂, arith, bit_or, get_or, Bytes,
}
use polyfetch.Base.Bits.{or_high_low, or_low_high, pow_add}
use polyfetch.Sha256.{rotr, load_word, shl}

-- The low `n` digits of `x`, in front of the others.
abbrev pub rotated : ℕ → ℕ → ℕ
rotated x n = x % 2 ^ n * 2 ^ (32 - n) + x / 2 ^ n

module _ (x n : ℕ) (x_lt : x < 2 ^ 32) (n_le : n ≤ 32) where
  halves : 2 ^ (32 - n) * 2 ^ n ≡ 2 ^ 32
  halves = let e : 32 - n + n ≡ 32 = omega arith in rw (← pow_add (32 - n) n, e)

  low_lt : x % 2 ^ n < 2 ^ n
  low_lt = mod-lt x (one-le-pow n 2 (omega arith))

  high_lt : x / 2 ^ n < 2 ^ (32 - n)
  high_lt = (div-lt_iff_lt-mul (one-le-pow n 2 (omega arith))).1 (omega (arith, halves))

  -- What `<<` keeps in 32 bits.
  shl_low : shl x (32 - n) ≡ x % 2 ^ n * 2 ^ (32 - n)
  shl_low = omega (
    arith,
    halves,
    ap (λ (t : ℕ). t * 2 ^ (32 - n)) (div-add-mod' x (2 ^ n)),
    ap (λ (t : ℕ). x / 2 ^ n * t) halves,
    mul-lt-mul_of_pos_right {k = 2 ^ (32 - n)} low_lt (one-le-pow (32 - n) 2 (omega arith)),
  )

  -- For a 32-bit word and a distance of at most 32, `rotr` puts the low digits of the word in front of
  -- the others.
  pub rotr_lem : rotr x n ≡ rotated x n
  unfolding rotr
  rotr_lem = rw shl_low (or_low_high (32 - n) (x % 2 ^ n) (x / 2 ^ n) high_lt)

  pub rotr-lt : rotr x n < 2 ^ 32
  rotr-lt = rw rotr_lem (omega (arith, halves, high_lt, ap (λ (t : ℕ). t) halves, whole_low))
    where
      whole_low : x % 2 ^ n * 2 ^ (32 - n) + 2 ^ (32 - n) ≤ 2 ^ n * 2 ^ (32 - n)
      whole_low = grind (arith, low_lt)

-- A division whose quotient and remainder are at hand.
split_unique : (m q r : ℕ) → r < m → ((q * m + r) / m ≡ q) × ((q * m + r) % m ≡ r)
split_unique m q r h = (grind arith, grind arith)

-- If the four bytes of a block from `i * 4` are `b0` to `b3`, word `i` of the block is the number that
-- they spell, the first the highest.
pub load_word_lem :
    (block : Bytes) (i : ℕ)
    → (b0 b1 b2 b3 : ℕ) → get_or block (i * 4) 0 ≡ b0
    → get_or block (i * 4 + 1) 0 ≡ b1
    → get_or block (i * 4 + 2) 0 ≡ b2
    → get_or block (i * 4 + 3) 0 ≡ b3
    → b0 < 256
    → b1 < 256
    → b2 < 256
    → b3 < 256
    → load_word block i ≡ b0 * 2 ^ 24 + b1 * 2 ^ 16 + b2 * 2 ^ 8 + b3
unfolding load_word
load_word_lem block i b0 b1 b2 b3 e0 e1 e2 e3 h0 h1 h2 h3 =
    rw (e0, e1, e2, e3)
      (ap (λ (t : ℕ). bit_or (bit_or t (b2 * 2 ^ 8 % 2 ^ 32)) b3) first
        ∙ ap (λ (t : ℕ). bit_or t b3) second
        ∙ or_high_low 8 (b0 * 2 ^ 16 + b1 * 2 ^ 8 + b2) b3 h3
        ∙ omega arith)
  where
    first : bit_or (b0 * 2 ^ 24 % 2 ^ 32) (b1 * 2 ^ 16 % 2 ^ 32) ≡ (b0 * 2 ^ 8 + b1) * 2 ^ 16
    first =
        ap₂ bit_or (omega arith) (omega arith)
        ∙ or_high_low 24 b0 (b1 * 2 ^ 16) (omega arith)
        ∙ omega arith

    second :
        bit_or ((b0 * 2 ^ 8 + b1) * 2 ^ 16) (b2 * 2 ^ 8 % 2 ^ 32)
        ≡ (b0 * 2 ^ 16 + b1 * 2 ^ 8 + b2) * 2 ^ 8
    second =
        ap (bit_or ((b0 * 2 ^ 8 + b1) * 2 ^ 16)) (omega arith)
        ∙ or_high_low 16 (b0 * 2 ^ 8 + b1) (b2 * 2 ^ 8) (omega arith)
        ∙ omega arith

-- For a 32-bit word and a distance `n` of at most 32, turning by `n` and then by what is left of 32
-- gives the word back.
pub rotr-rotr : (x n : ℕ) → x < 2 ^ 32 → n ≤ 32 → rotr (rotr x n) (32 - n) ≡ x
rotr-rotr x n x_lt n_le =
    let (quotient, remainder) =
      split_unique (2 ^ (32 - n)) (x % 2 ^ n) (x / 2 ^ n) (high_lt x n x_lt n_le) in
    let turned : rotr x n < 2 ^ 32 = rotr-lt x n x_lt n_le in
    let back : 32 - (32 - n) ≡ n = omega arith in
    rotr_lem (rotr x n) (32 - n) turned (omega arith)
    ∙ rw (rotr_lem x n x_lt n_le, quotient, remainder, back) (div-add-mod' x (2 ^ n))
