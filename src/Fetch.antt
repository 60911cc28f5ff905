-- ===== src/Fetch.antt =====
-- clients/cpp/src/fetch.cpp and clients/cpp/include/fetch.hpp: one target, from its line to its
-- record. libcurl is the parameter `Curl`: a handle holds the options, the connections and what the
-- network is about to send. The two readings of the clock, in nanoseconds, and the storage in which
-- the `StreamProcessor` is made are arguments.
pub mod Outcome
use polyfetch.Base.{
  ℕ, suc, ◌+◌, ◌-◌, ◌*◌, ◌/◌, ◌^◌, Bool, true, false, ◌||◌, not, List, [], ◌∷◌, ◌++◌, foldl, Option,
  some, take, ◌==◌, if◌then◌else◌, Bytes, codes, u64,
}
use polyfetch.Base.Int.{ℤ, pos, negsuc, sub_ℕ, ltb_ℤ}
use polyfetch.Base.Decimal.{show_ℤ}
use polyfetch.Base.Result.{◌>>=◌}
use polyfetch.Sha256.{Sha256}
use polyfetch.Process.{StreamProcessor, new, consume, sha_hex}

pub record Record : Type 0 where
  pub target : Bytes
  pub status : Bytes
  pub size_bytes : ℤ
  pub line_count : ℤ
  pub sha256 : Bytes
  pub fetch_ms : ℤ
  pub error : Bytes

-- The options that `fetch_and_process` sets. The function and its data are always `write_cb` and the
-- processor of this request.
pub data CurlOption : Type 0 where
  url : Bytes → CurlOption
  write_function : CurlOption
  write_data : CurlOption
  timeout_ms : ℤ → CurlOption
  nosignal : ℤ → CurlOption
  follow_location : ℤ → CurlOption

-- The arguments of one call of the write function.
pub record Delivery : Type 0 where
  pub ptr : Bytes
  pub size : ℕ
  pub nmemb : ℕ

-- What a transfer brings: the deliveries in order, and its code if all of them are accepted.
pub record Exchange : Type 0 where
  pub deliveries : List Delivery
  pub code : ℕ

pub record Curl : Type 1 where
  pub Handle : Type 0
  pub easy_reset : Handle → Handle
  pub easy_setopt : Handle → CurlOption → Handle
  pub easy_perform : Handle → Exchange × Handle
  pub response_code : Handle → ℤ
  pub easy_strerror : ℕ → Bytes

-- `CURLE_OK`, and `CURLE_WRITE_ERROR`, which a transfer returns whose write function does not accept
-- all that it is given.
abbrev pub curle_ok : ℕ
curle_ok = 0

abbrev pub curle_write_error : ℕ
curle_write_error = 23

-- `duration_cast` rounds towards 0.
unfoldable pub to_ms : ℤ → ℤ
to_ms (pos n) = pos (n / 1_000_000)
to_ms (negsuc n) = sub_ℕ 0 (suc n / 1_000_000)

unfoldable pub ms_since : ℕ → ℕ → ℤ
ms_since start now = to_ms (sub_ℕ now start)

-- The callback, with the processor that `userdata` points to.
unfoldable pub write_cb : StreamProcessor → Delivery → Option (StreamProcessor × ℕ)
write_cb proc d = do
  let n = u64 (d.size * d.nmemb)
  proc' ← consume proc (take n d.ptr)
  some (proc', n)

-- The calls that a transfer makes, up to the first that is not accepted.
unfoldable pub deliver : StreamProcessor → List Delivery → Option (StreamProcessor × Bool)
deliver proc [] = some (proc, true)
deliver proc (d ∷ ds) = do
  (proc', n) ← write_cb proc d
  let rest = deliver proc' ds
  if n == d.size * d.nmemb then rest else some (proc', false)

unfoldable pub error_record : Bytes → ℤ → Bytes → Record
error_record target fetch_ms reason = record {
  target = target;
  status = codes "error";
  size_bytes = pos 0;
  line_count = pos 0;
  sha256 = [];
  fetch_ms = fetch_ms;
  error = reason;
}

unfoldable pub ok_record : Bytes → ℤ → StreamProcessor → Record
ok_record target fetch_ms proc = record {
  target = target;
  status = codes "ok";
  size_bytes = proc.size_bytes;
  line_count = proc.line_count;
  sha256 = (sha_hex proc).0;
  fetch_ms = fetch_ms;
  error = [];
}

unfoldable pub request_url : Bytes → Bytes → Bytes
request_url base_url target = base_url ++ codes "/payload/" ++ target

abbrev pub request_options : Bytes → ℤ → List CurlOption
request_options address timeout =
    url address
    ∷ write_function
    ∷ write_data
    ∷ timeout_ms timeout
    ∷ nosignal (pos 1)
    ∷ follow_location (pos 0)
    ∷ []

-- The part behind `curl_easy_perform`.
unfoldable pub classify : ℕ → Bytes → ℤ → StreamProcessor → Bytes → ℤ → Record
classify rc strerror http_code proc target fetch_ms =
    if rc == curle_ok
    then (if ltb_ℤ http_code (pos 200) || not (ltb_ℤ http_code (pos 300))
        then error_record target fetch_ms (codes "status " ++ show_ℤ http_code)
        else ok_record target fetch_ms proc)
    else error_record target fetch_ms (codes "fetch: " ++ strerror)

module _ (c : Curl) where
  open c use {Handle, easy_reset, easy_setopt, easy_perform, response_code, easy_strerror}

  unfoldable pub fetch_and_process :
      Sha256 → ℕ → ℕ → Handle → (base_url target : Bytes) (timeout : ℤ) → Option (Record × Handle)
  fetch_and_process memory start now handle base_url target timeout = do
    let options = request_options (request_url base_url target) timeout
    let (exchange, after) = easy_perform (foldl easy_setopt (easy_reset handle) options)
    (proc, accepted) ← deliver (new memory) exchange.deliveries
    let rc = if accepted then exchange.code else curle_write_error
    let fetch_ms = ms_since start now
    some (classify rc (easy_strerror rc) (response_code after) proc target fetch_ms, after)
