-- ===== src/Sha256/Stream.antt =====
-- `update`: whatever stands in the unused part of the buffer, the object stands for a hash value
-- and the bytes that are not yet compressed.
use polyfetch.Base.{
  ◌+◌, ◌-◌, ◌*◌, ◌≤◌, ◌<◌, ◌≡◌, refl, ◌∙◌, ap₂, arith, inl, inr, [], ◌∷◌, ◌++◌, append-nil, length,
  take, drop, ltb, Bytes, u64, Bool-cases, ltb→lt, ltb-false→le, length-append, length-eq-zero,
  take_all, drop_all, take-append_ge, drop-append_ge,
}
use polyfetch.Sha256.{Words, Sha256, memcpy, process_block, fill_buffer, store_rest, update}
use polyfetch.Sha256.Blocks.{absorb, absorb_step, process_blocks_small, length-absorb}
use polyfetch.Sha256.Buffer.{length-memcpy, take-memcpy, take-memcpy_zero}

-- `s` has the hash value `h`, and the bytes `t` wait in its buffer.
pub record Shows (s : Sha256) (h : Words) (t : Bytes) : Type 0 where
  pub size : length s.buffer ≡ 64
  pub room : length t < 64
  pub state : s.state ≡ h
  pub count : s.buffer_len ≡ length t
  pub waiting : take s.buffer_len s.buffer ≡ t

fill_buffer_none : (s : Sha256) (d : Bytes) → s.buffer_len ≡ 0 → fill_buffer s d ≡ (s, d)
unfolding fill_buffer
fill_buffer_none s d e = ground arith

fill_buffer_part :
    (s : Sha256) (d : Bytes)
    → 0 < s.buffer_len
    → s.buffer_len + length d < 64
    → fill_buffer s d ≡ (
      record s {
        buffer = memcpy s.buffer s.buffer_len d (length d);
        buffer_len = s.buffer_len + length d;
      },
      drop (length d) d,
    )
unfolding fill_buffer
fill_buffer_part s d some_waiting fits = ground arith

fill_buffer_full :
    (s : Sha256) (d : Bytes)
    → 0 < s.buffer_len
    → s.buffer_len < 64
    → 64 ≤ s.buffer_len + length d
    → fill_buffer s d ≡ (
      record s {
        state = process_block s.state (memcpy s.buffer s.buffer_len d (64 - s.buffer_len));
        buffer = memcpy s.buffer s.buffer_len d (64 - s.buffer_len);
        buffer_len = 0;
      },
      drop (64 - s.buffer_len) d,
    )
unfolding fill_buffer
fill_buffer_full s d some_waiting room fits = ground arith

-- What `update` does after `fill_buffer`.
abbrev finish_update : Sha256 → Bytes → Sha256
finish_update s d =
    let (state, tail) = absorb s.state d in store_rest (record s { state = state }) tail

store_rest_some :
    (s : Sha256) (t : Bytes)
    → 0 < length t
    → store_rest s t ≡ record s { buffer = memcpy s.buffer 0 t (length t); buffer_len = length t }
unfolding store_rest
store_rest_some s t h = ground arith

store_rest-Shows :
    (s : Sha256) (t : Bytes)
    → length s.buffer ≡ 64
    → s.buffer_len ≡ 0
    → length t < 64
    → Shows (store_rest s t) s.state t
store_rest-Shows s [] size empty small = record {
  size = unfold store_rest in size;
  room = omega arith;
  state = unfold store_rest in refl;
  count = unfold store_rest in empty;
  waiting = unfold store_rest in rw empty;
}
store_rest-Shows s (x ∷ t) size empty small = rw (store_rest_some s (x ∷ t) (omega arith)) (record {
  size = length-memcpy s.buffer (x ∷ t) 0 (length (x ∷ t)) (omega arith) (omega arith) ∙ size;
  room = small;
  state = refl;
  count = refl;
  waiting = take-memcpy_zero s.buffer (x ∷ t) (omega arith);
})

finish_update-Shows :
    (s : Sha256) (d : Bytes)
    → length s.buffer ≡ 64
    → s.buffer_len ≡ 0
    → Shows (finish_update s d) (absorb s.state d).0 (absorb s.state d).1
finish_update-Shows s d size empty =
    store_rest-Shows (record s { state = (absorb s.state d).0 }) (absorb s.state d).1 size empty
      (omega (arith, length-absorb s.state d))

module _ {s : Sha256} {h : Words} {t : Bytes} (v : Shows s h t) (d : Bytes) where
  open v use {size, room, state, count, waiting}

  -- The first bytes complete the waiting ones to a block.
  block_filled :
      0 < s.buffer_len
      → 64 ≤ s.buffer_len + length d
      → memcpy s.buffer s.buffer_len d (64 - s.buffer_len) ≡ take 64 (t ++ d)
  block_filled some_waiting full =
      rw (waiting, drop_all (s.buffer_len + (64 - s.buffer_len)) s.buffer (omega arith), append-nil)
        (rw (take-append_ge 64 t d (omega arith), count))

  finish_update-full :
      0 < s.buffer_len
      → 64 ≤ s.buffer_len + length d
      → absorb h (t ++ d)
        ≡ absorb
            (process_block s.state (memcpy s.buffer s.buffer_len d (64 - s.buffer_len)))
            (drop (64 - s.buffer_len) d)
  finish_update-full some_waiting full =
      absorb_step h (t ++ d) (omega (arith, length-append t d))
      ∙ rw (block_filled some_waiting full, state) (rw (drop-append_ge 64 t d (omega arith), count))

abbrev counted : Sha256 → Bytes → Sha256
counted s d = record s { bit_len = u64 (s.bit_len + u64 (length d * 8)) }

update_parts :
    (s : Sha256) (d : Bytes)
    → let p = fill_buffer (counted s d) d in update s d ≡ finish_update p.0 p.1
unfolding update
update_parts s d = refl

-- The three ways through `update`: an empty buffer, bytes that do not fill it, bytes that do.
module _ {s : Sha256} {h : Words} {t : Bytes} (v : Shows s h t) (d : Bytes) where
  open v use {size, room, state, count, waiting}

  update_empty : s.buffer_len ≡ 0 → Shows (update s d) (absorb h (t ++ d)).0 (absorb h (t ++ d)).1
  update_empty none =
      rw (update_parts s d, fill_buffer_none (counted s d) d none)
        (rw (length-eq-zero t (omega arith), ← state)
          (finish_update-Shows (counted s d) d size none))

  update_part :
      0 < s.buffer_len
      → s.buffer_len + length d < 64
      → Shows (update s d) (absorb h (t ++ d)).0 (absorb h (t ++ d)).1
  update_part some_waiting fits =
      rw
        (
          update_parts s d,
          fill_buffer_part (counted s d) d some_waiting fits,
          drop_all (length d) d (omega arith),
          process_blocks_small (length (t ++ d)) h (t ++ d) (omega (arith, length-append t d)),
          process_blocks_small 0 s.state [] (omega arith),
        )
        (record {
          size =
              unfold store_rest in
              (length-memcpy s.buffer d s.buffer_len (length d) (omega arith) (omega arith) ∙ size);
          room = omega (arith, length-append t d);
          state = unfold store_rest in state;
          count = unfold store_rest in omega (arith, length-append t d);
          waiting =
              unfold store_rest in
              (take-memcpy s.buffer d s.buffer_len (length d) (omega arith) (omega arith)
                ∙ ap₂ ◌++◌ waiting (take_all (length d) d (omega arith)));
        })

  update_full :
      0 < s.buffer_len
      → 64 ≤ s.buffer_len + length d
      → Shows (update s d) (absorb h (t ++ d)).0 (absorb h (t ++ d)).1
  update_full some_waiting full =
      rw
        (
          update_parts s d,
          fill_buffer_full (counted s d) d some_waiting (omega arith) full,
          finish_update-full v d some_waiting full,
        )
        (finish_update-Shows _ (drop (64 - s.buffer_len) d)
          (length-memcpy s.buffer d s.buffer_len (64 - s.buffer_len) (omega arith) (omega arith)
            ∙ size)
          refl)

  pub update-Shows : Shows (update s d) (absorb h (t ++ d)).0 (absorb h (t ++ d)).1
  update-Shows = elim (Bool-cases (ltb 0 s.buffer_len)) [
    | inl some_waiting ↦ elim (Bool-cases (ltb (s.buffer_len + length d) 64)) [
      | inl fits ↦ update_part (ltb→lt 0 s.buffer_len some_waiting) (ltb→lt _ 64 fits)
      | inr full ↦ update_full (ltb→lt 0 s.buffer_len some_waiting) (ltb-false→le _ 64 full)
    ]
    | inr none ↦ update_empty (ground arith)
  ]
