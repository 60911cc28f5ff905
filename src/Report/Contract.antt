-- ===== src/Report/Contract.antt =====
-- The records of `fetch_and_process` meet what the report asks of a record.
use native.Mathlib.Decide.{ℕ_discrete}
use polyfetch.Base.{
  ℕ, ◌≤◌, ◌*◌, ◌^◌, ◌<◌, ◌≡◌, refl, arith, ◌⊎◌, inl, inr, true, not, ◌||◌, [], ◌∷◌, ◌++◌, some,
  length, Bytes, codes, All, Bool-cases,
}
use polyfetch.Base.Int.{ℤ, pos, ltb_ℤ, ◌≤ℤ◌}
use polyfetch.Base.Decimal.{show_ℤ}
use polyfetch.Sha256.{Sha256}
use polyfetch.Sha256.Fips.{digest}
use polyfetch.Sha256.Hex.{IsHexDigit, digest-IsHexDigit}
use polyfetch.Process.{count}
use polyfetch.Fetch.{Record, Curl, curle_ok, ms_since, error_record, fetch_and_process}
use polyfetch.Fetch.Outcome.{
  IsWhole, body, transfer, fetch_and_process_ok, fetch_and_process_status, fetch_and_process_failed,
}
use polyfetch.Report.Escape.{IsClean}
use polyfetch.Report.Line.{IsPrintable}
use polyfetch.Report.Summary.{IsSized, ok_size}

pub hex-IsClean : (s : Bytes) → All IsHexDigit s → IsClean s
hex-IsClean [] h = tt
hex-IsClean (c ∷ s) (inl d, h) =
    ((omega arith, λ e. omega arith, λ e. omega arith), hex-IsClean s h)
hex-IsClean (c ∷ s) (inr d, h) =
    ((omega arith, λ e. omega arith, λ e. omega arith), hex-IsClean s h)

-- What the report asks of a record, with a status of the contract, and with 64 digits if it is ok.
abbrev pub MeetsContract : Record → Type 0
MeetsContract r =
    IsSized r
    × IsPrintable r
    × (((r.status ≡ codes "ok") × (length r.sha256 ≡ 64)) ⊎ (r.status ≡ codes "error"))

error_record-IsPrintable :
    (target : Bytes) (ms : ℤ) (reason : Bytes) → IsPrintable (error_record target ms reason)
unfolding error_record
error_record-IsPrintable target ms reason = record {
  status_clean = ground arith;
  sha_clean = tt;
  no_error = λ e. cc;
}

error_record-MeetsContract :
    (target : Bytes) (ms : ℤ) (reason : Bytes) → MeetsContract (error_record target ms reason)
unfolding error_record
error_record-MeetsContract target ms reason =
    (refl, error_record-IsPrintable target ms reason, inr refl)

module _ (c : Curl) (handle : c.Handle) (base_url target : Bytes) (timeout : ℤ) where
  abbrev done : ℕ
  done = (transfer c handle base_url target timeout).0.code

  abbrev http : ℤ
  http = c.response_code (transfer c handle base_url target timeout).1

  abbrev payload : Bytes
  payload = body (transfer c handle base_url target timeout).0.deliveries

  outside :
      (ltb_ℤ http (pos 200) || not (ltb_ℤ http (pos 300))) ≡ true
      → ¬ ((pos 200 ≤ℤ http) × (http ≤ℤ pos 299))
  outside e h = ground (arith, h)

  -- However the transfer ends, `fetch_and_process` returns a record for its target that meets the
  -- contract of the report: a size that is not negative, texts that need no escapes where none are
  -- written, status "ok" with a digest of 64 characters or status "error", and no more bytes than came.
  -- Conditions: 64 bytes of buffer, deliveries as long as they say, and a body of less than 2 ^ 64 bits.
  pub fetch_and_process-MeetsContract :
      (memory : Sha256) (start now : ℕ)
      → length memory.buffer ≡ 64
      → All IsWhole (transfer c handle base_url target timeout).0.deliveries
      → length payload * 8 < 2 ^ 64
      → (r : Record) × (fetch_and_process c memory start now handle base_url target timeout
          ≡ some (r, (transfer c handle base_url target timeout).1))
        × MeetsContract r
        × (r.target ≡ target)
        × (ok_size r ≤ length payload)
  fetch_and_process-MeetsContract memory start now size whole fits =
      elim (ℕ_discrete done curle_ok) [
        | no failed ↦ (
          error_record target (ms_since start now) (codes "fetch: " ++ c.easy_strerror done),
          fetch_and_process_failed c handle base_url target timeout memory start now size whole fits
              failed,
          error_record-MeetsContract target (ms_since start now) _,
          unfold error_record in refl,
          unfold error_record in omega arith,
        )
        | yes ended ↦ elim (Bool-cases (ltb_ℤ http (pos 200) || not (ltb_ℤ http (pos 300)))) [
          | inl refused ↦ (
            error_record target (ms_since start now) (codes "status " ++ show_ℤ http),
            fetch_and_process_status c handle base_url target timeout memory start now size whole
                fits ended (outside refused),
            error_record-MeetsContract target (ms_since start now) _,
            unfold error_record in refl,
            unfold error_record in omega arith,
          )
          | inr accepted ↦ (
            record {
              target = target;
              status = codes "ok";
              size_bytes = pos (length payload);
              line_count = pos (count b'\n' payload);
              sha256 = digest payload;
              fetch_ms = ms_since start now;
              error = [];
            },
            fetch_and_process_ok c handle base_url target timeout memory start now size whole fits
                ended (ground arith) (ground arith),
            (
              refl,
              record {
                status_clean = ground arith;
                sha_clean = hex-IsClean (digest payload) (digest-IsHexDigit payload).1;
                no_error = λ e. refl;
              },
              inl (refl, (digest-IsHexDigit payload).0),
            ),
            refl,
            omega arith,
          )
        ]
      ]
