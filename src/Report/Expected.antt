-- ===== src/Report/Expected.antt =====
-- The record of a target whose transfer is known, apart from its time.
use native.Mathlib.Decide.{ℕ_discrete}
use polyfetch.Base.{
  ℕ, ◌*◌, ◌^◌, ◌<◌, ◌≡◌, ◌≢◌, refl, sym, arith, inl, inr, Bool, true, false, not, ◌&&◌, [], ◌++◌,
  some, length, ◌==◌, if◌then◌else◌, Bytes, IsByte, codes, All, Bool-cases,
}
use polyfetch.Base.Int.{ℤ, pos, ltb_ℤ}
use polyfetch.Base.Decimal.{show_ℤ}
use polyfetch.Sha256.{Sha256}
use polyfetch.Sha256.Standard.{fips_digest}
use polyfetch.Sha256.Conforms.{digest-fips_digest}
use polyfetch.Process.{count}
use polyfetch.Fetch.{Record, Curl, curle_ok, error_record, fetch_and_process}
use polyfetch.Fetch.Outcome.{
  IsWhole, body, transfer, fetch_and_process_ok, fetch_and_process_status, fetch_and_process_failed,
}
use polyfetch.Report.Sorted.{untimed}

-- How a server answers a request, as libcurl tells it.
pub record Reply : Type 0 where
  pub code : ℕ
  pub reason : Bytes
  pub status : ℤ
  pub payload : Bytes

-- A status from 200 to 299.
abbrev pub is_success : ℤ → Bool
is_success status = not (ltb_ℤ status (pos 200)) && ltb_ℤ status (pos 300)

abbrev pub failure : Bytes → Bytes → Record
failure target reason = record {
  target = target;
  status = codes "error";
  size_bytes = pos 0;
  line_count = pos 0;
  sha256 = [];
  fetch_ms = pos 0;
  error = reason;
}

-- The record that the contract asks for, with a time of 0.
abbrev pub expected : Bytes → Reply → Record
expected target reply =
    if reply.code == curle_ok
    then (if is_success reply.status
        then record {
          target = target;
          status = codes "ok";
          size_bytes = pos (length reply.payload);
          line_count = pos (count b'\n' reply.payload);
          sha256 = fips_digest reply.payload;
          fetch_ms = pos 0;
          error = [];
        }
        else failure target (codes "status " ++ show_ℤ reply.status))
    else failure target (codes "fetch: " ++ reply.reason)

-- The records that a server's replies ask for.
abbrev pub answer : (Bytes → Reply) → Bytes → Record
answer serve t = expected t (serve t)

-- The answer to a request for `target`, in the state of the handle.
abbrev pub reply_of : (c : Curl) (handle : c.Handle) (base_url target : Bytes) (timeout : ℤ) → Reply
reply_of c handle base_url target timeout =
    let (exchange, after) = transfer c handle base_url target timeout in
    record {
      code = exchange.code;
      reason = c.easy_strerror exchange.code;
      status = c.response_code after;
      payload = body exchange.deliveries;
    }

module _ (c : Curl) (handle : c.Handle) (base_url target : Bytes) (timeout : ℤ) where
  abbrev reply : Reply
  reply = reply_of c handle base_url target timeout

  expected_failed :
      reply.code ≢ curle_ok
      → expected target reply ≡ failure target (codes "fetch: " ++ reply.reason)
  expected_failed failed =
      let other : (reply.code == curle_ok) ≡ false = ground arith in rw other refl

  expected_done :
      reply.code ≡ curle_ok
      → (b : Bool) → is_success reply.status ≡ b
      → expected target reply ≡ (
          if b
          then record {
            target = target;
            status = codes "ok";
            size_bytes = pos (length reply.payload);
            line_count = pos (count b'\n' reply.payload);
            sha256 = fips_digest reply.payload;
            fetch_ms = pos 0;
            error = [];
          }
          else failure target (codes "status " ++ show_ℤ reply.status))
  expected_done done b e =
      let same : (reply.code == curle_ok) ≡ true = ground arith in rw (same, e) refl

  -- The record that `fetch_and_process` returns is the one that the contract asks for, but for its
  -- time. Conditions: 64 bytes of buffer, deliveries as long as they say, and a body of bytes, of less
  -- than 2 ^ 64 bits.
  pub fetch_and_process-expected :
      (memory : Sha256) (start now : ℕ)
      → length memory.buffer ≡ 64
      → All IsWhole (transfer c handle base_url target timeout).0.deliveries
      → length (body (transfer c handle base_url target timeout).0.deliveries) * 8 < 2 ^ 64
      → All IsByte (body (transfer c handle base_url target timeout).0.deliveries)
      → (r : Record) × (fetch_and_process c memory start now handle base_url target timeout
          ≡ some (r, (transfer c handle base_url target timeout).1))
        × (untimed r ≡ expected target reply)
  fetch_and_process-expected memory start now size whole fits bytes =
      elim (ℕ_discrete reply.code curle_ok) [
        | no failed ↦ (
          _,
          fetch_and_process_failed c handle base_url target timeout memory start now size whole fits
              failed,
          unfold error_record in sym (expected_failed failed),
        )
        | yes done ↦ elim (Bool-cases (is_success reply.status)) [
          | inl success ↦ (
            _,
            fetch_and_process_ok c handle base_url target timeout memory start now size whole fits
                done (ground arith) (ground arith),
            rw (digest-fips_digest reply.payload bytes) (sym (expected_done done true success)),
          )
          | inr refused ↦ (
            _,
            fetch_and_process_status c handle base_url target timeout memory start now size whole
                fits done (λ h. ground (arith, h)),
            unfold error_record in sym (expected_done done false refused),
          )
        ]
      ]
