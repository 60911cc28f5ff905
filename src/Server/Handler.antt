-- ===== src/Server/Handler.antt =====
-- The answer of the server to a request with valid parameters.
use polyfetch.Base.{
  ℕ, ◌<◌, ◌≤◌, ◌≡◌, refl, ◌∙◌, ap, ◌+◌, ◌*◌, arith, ◌⊎◌, inl, inr, Bool, true, false, some, min,
  length, get_or, Bytes,
}
use polyfetch.Base.Int.{ℤ, pos, pos_part, ◌≤ℤ◌}
use polyfetch.Server.{
  Library, chunk_size, seed_from_id, write_body, size_of, delay_of, status_of, answer_payload,
  handle_payload,
}
use polyfetch.Server.Payload.{drawn_byte, Drawn, write_body-Drawn}

answered :
    (lib : Library) (accepts : ℕ → Bool) (id : Bytes) (size delay status : Bytes) (n d s : ℤ)
    → size_of lib size ≡ some n
    → delay_of lib delay ≡ some d
    → status_of lib status ≡ some s
    → handle_payload lib accepts id size delay status ≡ answer_payload lib accepts id n d s
unfolding handle_payload
answered lib accepts id size delay status n d s es ed et = rw (handle_payload, es, ed, et) refl

answer_success :
    (lib : Library) (accepts : ℕ → Bool) (id : Bytes) (n d s : ℤ)
    → pos 200 ≤ℤ s
    → s ≤ℤ pos 299
    → answer_payload lib accepts id n d s ≡ record {
      delay = d;
      status = s;
      body =
          write_body
            (pos_part n)
            accepts
            0
            (lib.uint64 (seed_from_id lib id).0 (seed_from_id lib id).1)
            0
            (pos_part n);
    }
unfolding answer_payload
answer_success lib accepts id n d s low high = ground arith

-- For a request with three valid parameters and a status from 200 to 299, the handler gives
-- `WriteHeader` that status. Where the first `f` calls of `Write` succeed, and the one behind them
-- fails or is not needed, it gives `Write` as many bytes as the size says, or `f + 1` chunks of 32 KiB
-- if these are fewer. Byte `i` is byte `i % 8`, from the low end, of draw `i / 8` of the generator
-- with the two seeds of the id.
pub handle_payload-Drawn :
    (lib : Library) (accepts : ℕ → Bool) (id : Bytes) (size delay status : Bytes) (n d s : ℤ)
    (f : ℕ)
    → size_of lib size ≡ some n
    → delay_of lib delay ≡ some d
    → status_of lib status ≡ some s
    → pos 200 ≤ℤ s
    → s ≤ℤ pos 299
    → ((j : ℕ) → j < f → accepts j ≡ true)
    → (accepts f ≡ false) ⊎ (pos_part n ≤ f * 32768)
    → let response = handle_payload lib accepts id size delay status in
      let (seed1, seed2) = seed_from_id lib id in
      let given = min (pos_part n) ((f + 1) * 32768) in
      (response.status ≡ s)
      × (length response.body ≡ given)
      × ((i : ℕ) → i < given → get_or response.body i 0 ≡ drawn_byte (lib.uint64 seed1 seed2) i)
handle_payload-Drawn lib accepts id size delay status n d s f es ed et low high went ends =
    rw
      (
        answered lib accepts id size delay status n d s es ed et,
        answer_success lib accepts id n d s low high,
      )
      (
        refl,
        drawn.size,
        λ i lt.
            let start : 0 * 8 + i ≡ i = omega arith in drawn.each i lt ∙ ap (drawn_byte draw) start,
      )
  where
    draw : ℕ → ℕ
    draw = lib.uint64 (seed_from_id lib id).0 (seed_from_id lib id).1

    from_0 : (j : ℕ) {b : Bool} → accepts j ≡ b → accepts (0 + j) ≡ b
    from_0 j h = let same : 0 + j ≡ j = omega arith in ap accepts same ∙ h

    last :
        (accepts f ≡ false) ⊎ (pos_part n ≤ f * 32768)
        → (accepts (0 + f) ≡ false) ⊎ (pos_part n ≤ f * chunk_size)
    last (inl failed) = inl (from_0 f failed)
    last (inr few) = inr (omega (arith, few))

    drawn :
        Drawn draw 0
          (min (pos_part n) ((f + 1) * 32768))
          (write_body (pos_part n) accepts 0 draw 0 (pos_part n))
    drawn =
        write_body-Drawn (pos_part n) accepts 0 draw 0 (pos_part n) f (omega arith)
          (λ j lt. from_0 j (went j lt)) (last ends)
