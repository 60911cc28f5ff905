-- ===== src/Sha256/Words32.antt =====
-- The schedule of a block of bytes beside that of FIPS 180-4, word by word.
use polyfetch.Base.{
  ℕ, zero, suc, ◌+◌, ◌-◌, ◌*◌, ◌^◌, ◌≤◌, ◌<◌, ◌≡◌, refl, ◌∙◌, ap, arith, true, false, inl, inr,
  List, [], ◌∷◌, ◌++◌, get_or, ltb, Bool-cases, Bytes, IsByte, All, All-append,
}
use polyfetch.Sha256.{
  load_word, load_words, small_sigma0, small_sigma1, next_word, extend_words, schedule,
}
use polyfetch.Sha256.Rotate.{rotr_lem, load_word_lem}
use polyfetch.Sha256.Standard.{sigma0, sigma1, block_word, schedule_word, fips_words}

suc_lem : (t : ℕ) → t + 1 ≡ suc t
suc_lem t = omega arith

abbrev pub IsWord : ℕ → Type 0
IsWord x = x < 2 ^ 32

-- Behind the end of a list stands a 0.
pub get_or-zero : (n : ℕ) → 0 < n → (xs : List ℕ) (i : ℕ) → All (λ x. x < n) xs → get_or xs i 0 < n
get_or-zero n pos [] i h = pos
get_or-zero n pos (x ∷ xs) zero h = h.0
get_or-zero n pos (x ∷ xs) (suc i) h = get_or-zero n pos xs i h.1

small_sigma0_lem : (x : ℕ) → IsWord x → small_sigma0 x ≡ sigma0 x
unfolding small_sigma0
small_sigma0_lem x lt = rw (rotr_lem x 7 lt (omega arith), rotr_lem x 18 lt (omega arith)) refl

small_sigma1_lem : (x : ℕ) → IsWord x → small_sigma1 x ≡ sigma1 x
unfolding small_sigma1
small_sigma1_lem x lt = rw (rotr_lem x 17 lt (omega arith), rotr_lem x 19 lt (omega arith)) refl

module _ (block : Bytes) (bytes : All IsByte block) where
  byte : (i : ℕ) → get_or block i 0 < 256
  byte i = get_or-zero 256 (omega arith) block i bytes

  load_word-block_word : (t : ℕ) → load_word block t ≡ block_word block t
  load_word-block_word t =
      load_word_lem block t _ _ _ _ refl refl refl refl (byte (t * 4)) (byte (t * 4 + 1))
        (byte (t * 4 + 2)) (byte (t * 4 + 3))

  schedule_word-IsWord : (w : List ℕ) (t : ℕ) → IsWord (schedule_word block w t)
  schedule_word-IsWord w t = elim (Bool-cases (ltb t 16)) [
    | inl early ↦
        rw early (omega (arith, byte (t * 4), byte (t * 4 + 1), byte (t * 4 + 2), byte (t * 4 + 3)))
    | inr late ↦ rw late (omega arith)
  ]

  pub fips_words-IsWord : (t : ℕ) → All IsWord (fips_words block t)
  unfolding fips_words
  fips_words-IsWord zero = tt
  fips_words-IsWord (suc t) =
      All-append IsWord (fips_words block t) (schedule_word block (fips_words block t) t ∷ [])
        (fips_words-IsWord t) (schedule_word-IsWord (fips_words block t) t, tt)

  fips_words-step :
      (t : ℕ)
      → fips_words block (t + 1)
        ≡ fips_words block t ++ schedule_word block (fips_words block t) t ∷ []
  unfolding fips_words
  fips_words-step t = ap (fips_words block) (suc_lem t)

  load_words-fips :
      (n i j : ℕ) (w : List ℕ)
      → w ≡ fips_words block i
      → j ≡ i + n
      → j ≤ 16
      → load_words n i block w ≡ fips_words block j
  unfolding load_words
  load_words-fips zero i j w e size le = e ∙ ap (fips_words block) (omega arith)
  load_words-fips (suc n) i j w e size le =
      load_words-fips n (i + 1) j (w ++ load_word block i ∷ [])
        (let early : ltb i 16 ≡ true = ground arith in
          rw (e, load_word-block_word i, fips_words-step i, early) refl)
        (omega arith) le

  next_word-fips :
      (i : ℕ)
      → 16 ≤ i
      → next_word (fips_words block i) i ≡ schedule_word block (fips_words block i) i
  unfolding next_word
  next_word-fips i le =
      let late : ltb i 16 ≡ false = ground arith in
      rw late (
        omega (
          arith,
          small_sigma0_lem _ (
              get_or-zero (2 ^ 32) (omega arith) (fips_words block i) (i - 15)
                (fips_words-IsWord i)),
          small_sigma1_lem _ (
              get_or-zero (2 ^ 32) (omega arith) (fips_words block i) (i - 2)
                (fips_words-IsWord i)),
        ))

  extend_words-fips :
      (n i j : ℕ) (w : List ℕ)
      → w ≡ fips_words block i
      → 16 ≤ i
      → j ≡ i + n
      → extend_words n i w ≡ fips_words block j
  unfolding extend_words
  extend_words-fips zero i j w e le size = e ∙ ap (fips_words block) (omega arith)
  extend_words-fips (suc n) i j w e le size =
      extend_words-fips n (i + 1) j (w ++ next_word w i ∷ [])
        (rw (e, next_word-fips i le, fips_words-step i) refl) (omega arith) (omega arith)

  pub schedule-fips : schedule block ≡ fips_words block 64
  unfolding schedule
  schedule-fips =
      extend_words-fips 48 16 64 (load_words 16 0 block [])
        (load_words-fips 16 0 16 [] (unfold fips_words in refl) (omega arith) (omega arith))
        (omega arith) (omega arith)
