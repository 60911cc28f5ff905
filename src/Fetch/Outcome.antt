-- ===== src/Fetch/Outcome.antt =====
-- What `fetch_and_process` returns for every way a transfer can end.
use polyfetch.Base.{
  ℕ, ◌+◌, ◌*◌, ◌%◌, ◌^◌, ◌<◌, ◌≡◌, ◌≢◌, refl, ◌∙◌, arith, true, List, [], ◌∷◌, ◌++◌, foldl,
  append-nil, append_assoc, Option, some, length, Bytes, codes, All, length-append, take_all,
}
use polyfetch.Base.Int.{ℤ, pos, ◌≤ℤ◌}
use polyfetch.Base.Decimal.{show_ℤ}
use polyfetch.Sha256.{Sha256}
use polyfetch.Sha256.Fips.{digest}
use polyfetch.Sha256.Hex.{hex_digest-digest}
use polyfetch.Process.{StreamProcessor, new, count, sha_hex}
use polyfetch.Process.Stream.{HasSeen, new-HasSeen, consume-HasSeen}
use polyfetch.Fetch.{
  Record, Delivery, Exchange, Curl, curle_ok, ms_since, write_cb, deliver, error_record, ok_record,
  request_url, request_options, classify, fetch_and_process,
}

-- libcurl gives the write function as many bytes as it says.
abbrev pub IsWhole : Delivery → Type 0
IsWhole d = length d.ptr ≡ d.size * d.nmemb

abbrev pub body : List Delivery → Bytes
body [] = []
body (d ∷ ds) = d.ptr ++ body ds

write_cb-HasSeen :
    {p : StreamProcessor} {m : Bytes}
    → HasSeen p m
    → (d : Delivery) → IsWhole d
    → length m + length d.ptr < 2 ^ 63
    → (p' : StreamProcessor) × (write_cb p d ≡ some (p', d.size * d.nmemb))
      × HasSeen p' (m ++ d.ptr)
unfolding write_cb
write_cb-HasSeen {p} {m} seen d whole fits =
    let (p', eq, seen') = consume-HasSeen seen d.ptr fits in
    let no_wrap : d.size * d.nmemb % 2 ^ 64 ≡ d.size * d.nmemb = omega arith in
    (p', rw (no_wrap, take_all (d.size * d.nmemb) d.ptr (omega arith), eq), seen')

deliver_step :
    (p : StreamProcessor) (d : Delivery) (ds : List Delivery) {p' p'' : StreamProcessor}
    → write_cb p d ≡ some (p', d.size * d.nmemb)
    → deliver p' ds ≡ some (p'', true)
    → deliver p (d ∷ ds) ≡ some (p'', true)
unfolding deliver
deliver_step p d ds eq eq' = ground arith

-- Every delivery is accepted, and all of the body is seen.
deliver-HasSeen :
    {p : StreamProcessor} {m : Bytes}
    → HasSeen p m
    → (ds : List Delivery) → All IsWhole ds
    → length m + length (body ds) < 2 ^ 63
    → (p' : StreamProcessor) × (deliver p ds ≡ some (p', true)) × HasSeen p' (m ++ body ds)
deliver-HasSeen {p} {m} seen [] whole fits = (p, unfold deliver in refl, rw append-nil seen)
deliver-HasSeen {p} {m} seen (d ∷ ds) (whole, wholes) fits =
    let (p', eq, seen') =
      write_cb-HasSeen seen d whole (omega (arith, length-append d.ptr (body ds))) in
    let (p'', eq', seen'') =
      deliver-HasSeen {p = p'} {m = m ++ d.ptr} seen' ds wholes
        (omega (arith, length-append d.ptr (body ds), length-append m d.ptr)) in
    (p'', deliver_step p d ds eq eq', rw (← append_assoc m d.ptr (body ds)) seen'')

module _ (rc : ℕ) (reason : Bytes) (http : ℤ) (proc : StreamProcessor) (target : Bytes)
    (ms : ℤ) where
  classify_ok :
      rc ≡ curle_ok
      → pos 200 ≤ℤ http
      → http ≤ℤ pos 299
      → classify rc reason http proc target ms ≡ ok_record target ms proc
  unfolding classify
  classify_ok done above below = ground arith

  classify_status :
      rc ≡ curle_ok
      → ¬ ((pos 200 ≤ℤ http) × (http ≤ℤ pos 299))
      → classify rc reason http proc target ms
        ≡ error_record target ms (codes "status " ++ show_ℤ http)
  unfolding classify
  classify_status done outside = ground arith

  classify_failed :
      rc ≢ curle_ok
      → classify rc reason http proc target ms ≡ error_record target ms (codes "fetch: " ++ reason)
  unfolding classify
  classify_failed failed = ground arith

-- The transfer that the request for one target makes.
module _ (c : Curl) (handle : c.Handle) (base_url target : Bytes) (timeout : ℤ) where
  abbrev pub transfer : Exchange × c.Handle
  transfer = c.easy_perform (
      foldl c.easy_setopt (c.easy_reset handle)
        (request_options (request_url base_url target) timeout))

  -- A body shorter than 2 ^ 61 bytes that comes in whole deliveries.
  module _ (memory : Sha256) (start now : ℕ) (size : length memory.buffer ≡ 64)
      (whole : All IsWhole transfer.0.deliveries)
      (fits : length (body transfer.0.deliveries) * 8 < 2 ^ 64) where
    abbrev result : Option (Record × c.Handle)
    result = fetch_and_process c memory start now handle base_url target timeout

    delivered :
        (p : StreamProcessor) × (deliver (new memory) transfer.0.deliveries ≡ some (p, true))
        × HasSeen p (body transfer.0.deliveries)
    delivered = deliver-HasSeen (new-HasSeen memory size) transfer.0.deliveries whole (omega arith)

    result_classified :
        result
        ≡ some (
          classify transfer.0.code
              (c.easy_strerror transfer.0.code)
              (c.response_code transfer.1)
              delivered.0
              target
              (ms_since start now),
          transfer.1,
        )
    unfolding fetch_and_process
    result_classified = rw delivered.1

    -- When the transfer returns `CURLE_OK` and the status is from 200 to 299, the record is "ok", with
    -- the size, the line count and the digest of the whole body, and without an error. The handle is
    -- the one that the transfer leaves. Conditions: 64 bytes of buffer, deliveries as long as they
    -- say, and a body of less than 2 ^ 64 bits.
    pub fetch_and_process_ok :
        transfer.0.code ≡ curle_ok
        → pos 200 ≤ℤ c.response_code transfer.1
        → c.response_code transfer.1 ≤ℤ pos 299
        → result
          ≡ some (
            record {
              target = target;
              status = codes "ok";
              size_bytes = pos (length (body transfer.0.deliveries));
              line_count = pos (count b'\n' (body transfer.0.deliveries));
              sha256 = digest (body transfer.0.deliveries);
              fetch_ms = ms_since start now;
              error = [];
            },
            transfer.1,
          )
    fetch_and_process_ok done above below =
        result_classified
        ∙ rw (classify_ok _ _ _ _ _ _ done above below) (
            unfold ok_record sha_hex in
            rw (delivered.2.size, delivered.2.lines, hex_digest-digest delivered.2.read fits))

    -- When the transfer returns `CURLE_OK` and the status is not from 200 to 299, the record is the
    -- error record whose reason is "status " and the status in decimal, whatever body came. Conditions:
    -- 64 bytes of buffer, deliveries as long as they say, and a body of less than 2 ^ 64 bits.
    pub fetch_and_process_status :
        transfer.0.code ≡ curle_ok
        → ¬ ((pos 200 ≤ℤ c.response_code transfer.1) × (c.response_code transfer.1 ≤ℤ pos 299))
        → result
          ≡ some (
            error_record target
                (ms_since start now)
                (codes "status " ++ show_ℤ (c.response_code transfer.1)),
            transfer.1,
          )
    fetch_and_process_status done outside =
        result_classified ∙ rw (classify_status _ _ _ _ _ _ done outside)

    -- When the transfer returns another code than `CURLE_OK`, the record is the error record whose
    -- reason is "fetch: " and libcurl's text for the code, whatever body came. Conditions: 64 bytes of
    -- buffer, deliveries as long as they say, and a body of less than 2 ^ 64 bits.
    pub fetch_and_process_failed :
        transfer.0.code ≢ curle_ok
        → result
          ≡ some (
            error_record target
                (ms_since start now)
                (codes "fetch: " ++ c.easy_strerror transfer.0.code),
            transfer.1,
          )
    fetch_and_process_failed failed = result_classified ∙ rw (classify_failed _ _ _ _ _ _ failed)
