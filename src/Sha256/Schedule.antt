-- ===== src/Sha256/Schedule.antt =====
-- The 64 words of the message schedule meet the recurrence of FIPS 180-4, section 6.2.2.
use native.Mathlib.Decide.{dec_le}
use polyfetch.Base.{
  ℕ, zero, suc, ◌+◌, ◌-◌, ◌%◌, ◌^◌, ◌≤◌, ◌<◌, ◌≡◌, refl, sym, ◌∙◌, arith, List, [], ◌∷◌, ◌++◌,
  length, get_or, Bytes, length-append, get_or-append_lt, get_or-append_length,
}
use polyfetch.Sha256.{
  load_word, load_words, small_sigma0, small_sigma1, next_word, extend_words, schedule,
}

length-snoc : (w : List ℕ) (x i : ℕ) → length w ≡ i → length (w ++ x ∷ []) ≡ i + 1
length-snoc w x i e = omega (arith, length-append w (x ∷ []))

load_words-lt :
    (n i : ℕ) (block : Bytes) (w : List ℕ) (j : ℕ)
    → length w ≡ i
    → j < i
    → get_or (load_words n i block w) j 0 ≡ get_or w j 0
unfolding load_words
load_words-lt zero i block w j e lt = refl
load_words-lt (suc n) i block w j e lt =
    load_words-lt n (i + 1) block (w ++ load_word block i ∷ []) j (length-snoc w _ i e)
      (omega arith)
    ∙ get_or-append_lt w (load_word block i ∷ []) j 0 (omega arith)

length-load_words :
    (n i : ℕ) (block : Bytes) (w : List ℕ) → length w ≡ i → length (load_words n i block w) ≡ i + n
unfolding load_words
length-load_words zero i block w e = omega arith
length-load_words (suc n) i block w e =
    omega
      (arith, length-load_words n (i + 1) block (w ++ load_word block i ∷ []) (length-snoc w _ i e))

load_words_lem :
    (n i : ℕ) (block : Bytes) (w : List ℕ) (j : ℕ)
    → length w ≡ i
    → i ≤ j
    → j < i + n
    → get_or (load_words n i block w) j 0 ≡ load_word block j
unfolding load_words
load_words_lem zero i block w j e le lt = absurd (omega arith)
load_words_lem (suc n) i block w j e le lt = elim (dec_le (i + 1) j) [
  | yes later ↦
      load_words_lem n (i + 1) block (w ++ load_word block i ∷ []) j (length-snoc w _ i e) later
        (omega arith)
  | no now ↦
      let same : j ≡ i = omega arith in
      rw same (
        load_words-lt n (i + 1) block (w ++ load_word block i ∷ []) i (length-snoc w _ i e)
          (omega arith)
        ∙ get_or-append_length w [] (load_word block i) 0 i (omega arith))
]

extend_words-lt :
    (n i : ℕ) (w : List ℕ) (j : ℕ)
    → length w ≡ i
    → j < i
    → get_or (extend_words n i w) j 0 ≡ get_or w j 0
unfolding extend_words
extend_words-lt zero i w j e lt = refl
extend_words-lt (suc n) i w j e lt =
    extend_words-lt n (i + 1) (w ++ next_word w i ∷ []) j (length-snoc w _ i e) (omega arith)
    ∙ get_or-append_lt w (next_word w i ∷ []) j 0 (omega arith)

length-extend_words : (n i : ℕ) (w : List ℕ) → length w ≡ i → length (extend_words n i w) ≡ i + n
unfolding extend_words
length-extend_words zero i w e = omega arith
length-extend_words (suc n) i w e =
    omega (arith, length-extend_words n (i + 1) (w ++ next_word w i ∷ []) (length-snoc w _ i e))

-- `next_word` reads earlier words only.
next_word-agree :
    (w w' : List ℕ) (i : ℕ)
    → 16 ≤ i
    → ((j : ℕ) → j < i → get_or w j 0 ≡ get_or w' j 0)
    → next_word w i ≡ next_word w' i
unfolding next_word
next_word-agree w w' i le h = rw (
  h (i - 2) (omega arith),
  h (i - 7) (omega arith),
  h (i - 15) (omega arith),
  h (i - 16) (omega arith),
)

extend_words_lem :
    (n i : ℕ) (w : List ℕ) (j : ℕ)
    → length w ≡ i
    → 16 ≤ i
    → i ≤ j
    → j < i + n
    → get_or (extend_words n i w) j 0 ≡ next_word (extend_words n i w) j
unfolding extend_words
extend_words_lem zero i w j e le₁ le lt = absurd (omega arith)
extend_words_lem (suc n) i w j e le₁ le lt = elim (dec_le (i + 1) j) [
  | yes later ↦
      extend_words_lem n (i + 1) (w ++ next_word w i ∷ []) j (length-snoc w _ i e) (omega arith)
        later (omega arith)
  | no now ↦
      let same : j ≡ i = omega arith in
      rw same (
        extend_words-lt n (i + 1) (w ++ next_word w i ∷ []) i (length-snoc w _ i e) (omega arith)
        ∙ get_or-append_length w [] (next_word w i) 0 i (omega arith)
        ∙ next_word-agree w (extend_words n (i + 1) (w ++ next_word w i ∷ [])) i le₁
            (λ k k_lt. sym (extend_words-lt (suc n) i w k e k_lt)))
]

first_words : (block : Bytes) → length (load_words 16 0 block []) ≡ 16
first_words block = length-load_words 16 0 block [] refl

-- The schedule has 64 words.
pub length-schedule : (block : Bytes) → length (schedule block) ≡ 64
unfolding schedule
length-schedule block = length-extend_words 48 16 (load_words 16 0 block []) (first_words block)

-- Its first 16 words are those of the block.
pub schedule_block :
    (block : Bytes) (t : ℕ) → t < 16 → get_or (schedule block) t 0 ≡ load_word block t
unfolding schedule
schedule_block block t lt =
    extend_words-lt 48 16 (load_words 16 0 block []) t (first_words block) lt
    ∙ load_words_lem 16 0 block [] t refl (omega arith) lt

abbrev pub word_at : Bytes → ℕ → ℕ
word_at block t = get_or (schedule block) t 0

-- For `t` from 16 to 63, word `t` of the schedule of a block is the sum modulo 2 ^ 32 that FIPS 180-4
-- gives, of four words that stand before it.
pub schedule_recurrence :
    (block : Bytes) (t : ℕ)
    → 16 ≤ t
    → t < 64
    → word_at block t
      ≡ (small_sigma1 (word_at block (t - 2))
          + word_at block (t - 7)
          + small_sigma0 (word_at block (t - 15))
          + word_at block (t - 16))
        % 2 ^ 32
unfolding schedule
schedule_recurrence block t le lt =
    extend_words_lem 48 16 (load_words 16 0 block []) t (first_words block) (omega arith) le lt
    ∙ unfold next_word in omega arith
