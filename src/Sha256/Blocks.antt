-- ===== src/Sha256/Blocks.antt =====
-- The `while (len >= 64)` loop: enough fuel, and what it does to a message that comes in two parts.
use polyfetch.Base.{
  ℕ, zero, suc, ◌+◌, ◌*◌, ◌/◌, ◌%◌, ◌≤◌, ◌<◌, ◌≡◌, refl, sym, ◌∙◌, arith, true, inl, inr, List, [],
  ◌∷◌, ◌++◌, foldl, length, take, drop, leb, Bytes, Bool-cases, le→leb, length-append, length-drop,
  take-append_le, drop-append_le,
}
use polyfetch.Sha256.{Words, process_block, process_blocks}

-- The first `n` blocks of 64 bytes.
unfoldable pub split_blocks : ℕ → Bytes → List Bytes
split_blocks zero m = []
split_blocks (suc n) m = take 64 m ∷ split_blocks n (drop 64 m)

-- The whole blocks of a message, and what is behind them.
unfoldable pub blocks : Bytes → List Bytes
unfolding split_blocks
blocks m = split_blocks (length m / 64) m

pub process_blocks_small :
    (fuel : ℕ) (s : Words) (m : Bytes) → length m < 64 → process_blocks fuel s m ≡ (s, m)
unfolding process_blocks
process_blocks_small zero s m h = refl
process_blocks_small (suc fuel) s m h = ground arith

pub process_blocks_step :
    (fuel : ℕ) (s : Words) (m : Bytes)
    → 64 ≤ length m
    → process_blocks (suc fuel) s m ≡ process_blocks fuel (process_block s (take 64 m)) (drop 64 m)
unfolding process_blocks
process_blocks_step fuel s m h = rw (le→leb 64 (length m) h, process_blocks)

-- Any two fuels that cover the message give the same result.
pub process_blocks_fuel :
    (f g : ℕ) (s : Words) (m : Bytes)
    → length m ≤ f
    → length m ≤ g
    → process_blocks f s m ≡ process_blocks g s m
unfolding process_blocks
process_blocks_fuel zero g s m hf hg = sym (process_blocks_small g s m (omega arith))
process_blocks_fuel (suc f) zero s m hf hg = process_blocks_small (suc f) s m (omega arith)
process_blocks_fuel (suc f) (suc g) s m hf hg = elim (Bool-cases (leb 64 (length m))) [
  | inl long ↦
      process_blocks_step f s m (ground arith)
      ∙ process_blocks_fuel f g (process_block s (take 64 m)) (drop 64 m)
          (omega (arith, length-drop 64 m)) (omega (arith, length-drop 64 m))
      ∙ sym (process_blocks_step g s m (ground arith))
  | inr short ↦
      process_blocks_small (suc f) s m (ground arith)
      ∙ sym (process_blocks_small (suc g) s m (ground arith))
]

-- The loop with the fuel that `update` gives it.
abbrev pub absorb : Words → Bytes → Words × Bytes
absorb s m = process_blocks (length m) s m

pub absorb_step :
    (s : Words) (m : Bytes)
    → 64 ≤ length m
    → absorb s m ≡ absorb (process_block s (take 64 m)) (drop 64 m)
absorb_step s m h =
    process_blocks_fuel (length m) (suc (length m)) s m (omega arith) (omega arith)
    ∙ process_blocks_step (length m) s m h
    ∙ process_blocks_fuel (length m) (length (drop 64 m)) _ (drop 64 m)
        (omega (arith, length-drop 64 m)) (omega arith)

-- A message in two parts: the rest of the first is read in front of the second.
absorb-append_fuel :
    (f : ℕ) (s : Words) (m d : Bytes)
    → length m ≤ f
    → absorb s (m ++ d) ≡ absorb (process_blocks f s m).0 ((process_blocks f s m).1 ++ d)
absorb-append_fuel zero s m d h = rw (process_blocks_small zero s m (omega arith))
absorb-append_fuel (suc f) s m d h = elim (Bool-cases (leb 64 (length m))) [
  | inl long ↦
      let le : 64 ≤ length m = ground arith in
      rw (process_blocks_step f s m le) (
        absorb_step s (m ++ d) (omega (arith, length-append m d))
        ∙ rw (take-append_le 64 m d le, drop-append_le 64 m d le)
            (absorb-append_fuel f (process_block s (take 64 m)) (drop 64 m) d
              (omega (arith, length-drop 64 m))))
  | inr short ↦ rw (process_blocks_small (suc f) s m (ground arith))
]

pub absorb-append :
    (s : Words) (m d : Bytes) → absorb s (m ++ d) ≡ absorb (absorb s m).0 ((absorb s m).1 ++ d)
absorb-append s m d = absorb-append_fuel (length m) s m d (omega arith)

-- `n` counts the whole blocks; `r` is what is left.
process_blocks-split :
    (n r f : ℕ) (s : Words) (m : Bytes)
    → length m ≡ n * 64 + r
    → r < 64
    → length m ≤ f
    → (process_blocks f s m).0 ≡ foldl process_block s (split_blocks n m)
unfolding split_blocks
process_blocks-split zero r f s m e lt h = rw (process_blocks_small f s m (omega arith))
process_blocks-split (suc n) r zero s m e lt h = absurd (omega arith)
process_blocks-split (suc n) r (suc f) s m e lt h = rw (process_blocks_step f s m (omega arith)) (
    process_blocks-split n r f (process_block s (take 64 m)) (drop 64 m)
      (omega (arith, length-drop 64 m)) lt (omega (arith, length-drop 64 m)))

-- The loop compresses exactly the whole blocks of its input, in order.
pub absorb-blocks : (s : Words) (m : Bytes) → (absorb s m).0 ≡ foldl process_block s (blocks m)
unfolding blocks
absorb-blocks s m =
    process_blocks-split (length m / 64) (length m % 64) (length m) s m (omega arith) (omega arith)
      (omega arith)

-- What is left is shorter than a block.
length-absorb_fuel :
    (f : ℕ) (s : Words) (m : Bytes) → length m ≤ f → length (process_blocks f s m).1 ≡ length m % 64
length-absorb_fuel zero s m h = rw (process_blocks_small zero s m (omega arith)) (omega arith)
length-absorb_fuel (suc f) s m h = elim (Bool-cases (leb 64 (length m))) [
  | inl long ↦ rw (process_blocks_step f s m (ground arith)) (
      omega (
        arith,
        length-drop 64 m,
        length-absorb_fuel f (process_block s (take 64 m)) (drop 64 m)
            (ground (arith, length-drop 64 m)),
        ltb_long long,
      ))
  | inr short ↦ rw (process_blocks_small (suc f) s m (ground arith)) (ground arith)
]
  where
    ltb_long : leb 64 (length m) ≡ true → 64 ≤ length m
    ltb_long e = ground arith

pub length-absorb : (s : Words) (m : Bytes) → length (absorb s m).1 ≡ length m % 64
length-absorb s m = length-absorb_fuel (length m) s m (omega arith)

-- With as much fuel as the input is long, or more, the loop ends: it compresses exactly the whole
-- blocks, in order, and leaves the remainder of the length.
pub process_blocks_terminates :
    (fuel : ℕ) (s : Words) (m : Bytes)
    → length m ≤ fuel
    → ((process_blocks fuel s m).0 ≡ foldl process_block s (blocks m))
      × (length (process_blocks fuel s m).1 ≡ length m % 64)
process_blocks_terminates fuel s m enough =
    rw (process_blocks_fuel fuel (length m) s m enough (omega arith))
      (absorb-blocks s m, length-absorb s m)
