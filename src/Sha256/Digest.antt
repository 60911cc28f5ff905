-- ===== src/Sha256/Digest.antt =====
-- `hex_digest`: the padding loop ends, and the result is the hash of the whole message.
use mathlib.Core.List.{flatten}
use native.Mathlib.Nat.{add-zero, mod-eq_of_lt}
use polyfetch.Base.{
  ℕ, zero, suc, ◌+◌, ◌*◌, ◌/◌, ◌%◌, ◌^◌, ◌≤◌, ◌<◌, ◌≡◌, refl, sym, ◌∙◌, ap, ap₂, arith, true, false,
  List, [], ◌∷◌, ◌++◌, foldl, append-nil, append_assoc, length, take, replicate, ◌==◌, Bytes, u8,
  u64, bit_and, length-append, length-replicate, take_all, drop_all,
}
use polyfetch.Base.Bits.{and_byte}
use polyfetch.Sha256.{
  Words, Sha256, initial_state, memcpy, shr, process_block, reset, update, fill_buffer, store_rest,
  pad_zeros, append_length, finish,
}
use polyfetch.Sha256.Blocks.{
  blocks, absorb, absorb_step, absorb-append, absorb-blocks, length-absorb, process_blocks_small,
}
use polyfetch.Sha256.Buffer.{length-memcpy, take-memcpy}
use polyfetch.Sha256.Fips.{be_bytes, zero_count, pad, hash, length-be_bytes}
use polyfetch.Sha256.Stream.{Shows, update-Shows}

-- The object behind which a message `m` has been read.
pub record HasRead (s : Sha256) (m : Bytes) : Type 0 where
  pub shown : Shows s (absorb initial_state m).0 (absorb initial_state m).1
  pub counted : s.bit_len ≡ u64 (length m * 8)

bit_len-update :
    (s : Sha256) (d : Bytes) → (update s d).bit_len ≡ u64 (s.bit_len + u64 (length d * 8))
unfolding update fill_buffer store_rest
bit_len-update s d = ground arith

-- When an object has read a message, `update` with more bytes makes it an object that has read the
-- message followed by these bytes: hash value, waiting bytes and bit count.
pub update-HasRead :
    {s : Sha256} {m : Bytes} → HasRead s m → (d : Bytes) → HasRead (update s d) (m ++ d)
update-HasRead {s} {m} r d = record {
  shown = rw (absorb-append initial_state m d) (update-Shows r.shown d);
  counted = omega (arith, bit_len-update s d, r.counted, length-append m d);
}

pub reset-HasRead : (s : Sha256) → length s.buffer ≡ 64 → HasRead (reset s) []
unfolding reset
reset-HasRead s size = record {
  shown =
      rw (process_blocks_small 0 initial_state [] (omega arith))
        (record { size = size; room = omega arith; state = refl; count = refl; waiting = refl });
  counted = refl;
}

pub updates-HasRead :
    {s : Sha256} {m : Bytes}
    → HasRead s m
    → (chunks : List Bytes) → HasRead (foldl update s chunks) (m ++ flatten chunks)
unfolding flatten
updates-HasRead {s} {m} r [] = rw append-nil r
updates-HasRead {s} {m} r (d ∷ ds) =
    rw (← append_assoc m d (flatten ds))
      (updates-HasRead {s = update s d} {m = m ++ d} (update-HasRead r d) ds)

-- The zero bytes that bring the buffer to 56.
pad_zeros-Shows :
    (z fuel : ℕ) {s : Sha256} {h : Words} {t : Bytes}
    → Shows s h t
    → z < fuel
    → z < 64
    → (length t + z) % 64 ≡ 56
    → Shows
        (pad_zeros fuel s)
        (absorb h (t ++ replicate z 0x00)).0
        (absorb h (t ++ replicate z 0x00)).1
unfolding pad_zeros
pad_zeros-Shows z zero v lt small e = absurd (omega arith)
pad_zeros-Shows zero (suc fuel) {s} {h} {t} v lt small e =
    let full : (s.buffer_len == 56) ≡ true = ground (arith, v.count, v.room) in
    rw (full, pad_zeros, append-nil, process_blocks_small (length t) h t v.room) v
pad_zeros-Shows (suc z) (suc fuel) {s} {h} {t} v lt small e =
    let more : (s.buffer_len == 56) ≡ false = ground (arith, v.count, v.room) in
    rw
      (
        more,
        pad_zeros,
        ← append_assoc t (0 ∷ []) (replicate z 0),
        absorb-append h (t ++ 0 ∷ []) (replicate z 0),
      )
      (pad_zeros-Shows z fuel (update-Shows v (0 ∷ [])) (omega arith) (omega arith)
        (omega (arith, length-absorb h (t ++ 0 ∷ []), length-append t (0 ∷ []))))

-- The bytes of the length, written one after the other.
append_length_lem :
    (n total : ℕ) (s : Sha256)
    → s.buffer_len + n ≤ length s.buffer
    → (length (append_length n total s).buffer ≡ length s.buffer)
      × ((append_length n total s).state ≡ s.state)
      × (take (s.buffer_len + n) (append_length n total s).buffer
          ≡ take s.buffer_len s.buffer ++ be_bytes n total)
unfolding append_length
append_length_lem zero total s fits = (refl, refl, rw (add-zero s.buffer_len, append-nil))
append_length_lem (suc n) total s fits =
    let byte = u8 (bit_and (shr total (n * 8)) 0xff) in
    let s' = record s {
      buffer = memcpy s.buffer s.buffer_len (byte ∷ []) 1;
      buffer_len = s.buffer_len + 1;
    } in
    let size : length s'.buffer ≡ length s.buffer =
      length-memcpy s.buffer (byte ∷ []) s.buffer_len 1 (omega arith) (omega arith) in
    let moved : s.buffer_len + suc n ≡ s.buffer_len + 1 + n = omega arith in
    let low_byte : byte ≡ total / 2 ^ (n * 8) % 256 = omega (arith, and_byte (shr total (n * 8))) in
    let (same_length, same_state, written) = append_length_lem n total s' (omega arith) in
    (
      same_length ∙ size,
      same_state,
      rw moved (
          written
          ∙ ap (λ l. l ++ be_bytes n total)
              (take-memcpy s.buffer (byte ∷ []) s.buffer_len 1 (omega arith) (omega arith))
          ∙ append_assoc (take s.buffer_len s.buffer) (byte ∷ []) (be_bytes n total)
          ∙ ap (λ b. take s.buffer_len s.buffer ++ b ∷ be_bytes n total) low_byte),
    )

absorb_block : (h : Words) (b : Bytes) → length b ≡ 64 → (absorb h b).0 ≡ process_block h b
absorb_block h b e =
    ap (λ (p : Words × Bytes). p.0) (absorb_step h b (omega arith))
    ∙ rw (
      drop_all 64 b (omega arith),
      take_all 64 b (omega arith),
      process_blocks_small 0 (process_block h b) [] (omega arith),
    )

-- Behind a buffer of 56 bytes the length fills the block, which is compressed.
last_block :
    {s : Sha256} {h : Words} {t : Bytes} (total : ℕ)
    → Shows s h t
    → length t ≡ 56
    → let full = append_length 8 total s in
      process_block full.state full.buffer ≡ (absorb h (t ++ be_bytes 8 total)).0
last_block {s} {h} {t} total v e =
    let (size, state, written) = append_length_lem 8 total s (omega (arith, v.count, v.size)) in
    let whole : (append_length 8 total s).buffer ≡ t ++ be_bytes 8 total =
      sym (
        take_all (s.buffer_len + 8) (append_length 8 total s).buffer
          (omega (arith, v.count, v.size)))
      ∙ written
      ∙ ap (λ l. l ++ be_bytes 8 total) v.waiting in
    ap₂ process_block (state ∙ v.state) whole
    ∙ sym (
        absorb_block h (t ++ be_bytes 8 total)
          (omega (arith, length-append t (be_bytes 8 total), length-be_bytes 8 total)))

-- When an object has read a message of less than 2 ^ 64 bits, the padding loop and the last block
-- leave in `state_` its hash value, with the padding and the iteration of FIPS 180-4 around the
-- compression `process_block`.
pub finish-hash :
    {s : Sha256} {m : Bytes} → HasRead s m → length m * 8 < 2 ^ 64 → (finish s).state ≡ hash m
unfolding finish hash
finish-hash {s} {m} r fits =
    last_block s.bit_len padded (omega (arith, length-absorb initial_state q, q_length))
    ∙ rw (← absorb-append initial_state q (be_bytes 8 s.bit_len), r.counted, mod-eq_of_lt fits)
        (absorb-blocks initial_state (q ++ be_bytes 8 (length m * 8))
          ∙ ap (λ l. foldl process_block initial_state (blocks l)) whole)
  where
    z : ℕ
    z = zero_count (length m)

    p : Bytes
    p = m ++ 0x80 ∷ []

    q : Bytes
    q = p ++ replicate z 0x00

    p_length : length p ≡ length m + 1
    p_length = omega (arith, length-append m (0x80 ∷ []))

    q_length : length q % 64 ≡ 56
    q_length =
        omega (arith, p_length, length-append p (replicate z 0x00), length-replicate {A = ℕ} z 0x00)

    padded :
        Shows
          (pad_zeros 64 (update s (0x80 ∷ [])))
          (absorb initial_state q).0
          (absorb initial_state q).1
    padded = rw (absorb-append initial_state p (replicate z 0x00)) (
        pad_zeros-Shows z 64 (update-HasRead r (0x80 ∷ [])).shown (omega arith) (omega arith)
          (omega (arith, length-absorb initial_state p, p_length)))

    whole : q ++ be_bytes 8 (length m * 8) ≡ pad m
    whole =
        append_assoc p (replicate z 0x00) (be_bytes 8 (length m * 8))
        ∙ append_assoc m (0x80 ∷ []) (replicate z 0x00 ++ be_bytes 8 (length m * 8))
