-- ===== src/Tests/Samples.antt =====
-- Data for the examples.
use polyfetch.Base.{ℕ, true, List, [], ◌∷◌, Bytes, codes, replicate, length, leb, if◌then◌else◌}
use polyfetch.Base.Int.{ℤ, pos}
use polyfetch.Sha256.{Sha256, initial_state}
use polyfetch.Fetch.{
  Record, CurlOption, url, write_function, write_data, timeout_ms, nosignal, follow_location,
  Delivery, Exchange, Curl,
}
use polyfetch.Run.{Fetches}

-- An object whose buffer holds zero bytes.
abbrev pub fresh : Sha256
fresh = record { state = initial_state; bit_len = 0; buffer = replicate 64 0; buffer_len = 0 }

abbrev pub chunk_a : Bytes
chunk_a = codes "a\n"

abbrev pub chunk_bc : Bytes
chunk_bc = codes "bc"

abbrev pub chunks : List Bytes
chunks = chunk_a ∷ chunk_bc ∷ []

-- A library whose handle says what the next transfer brings, and with which status.
abbrev pub scripted : Curl
scripted = record {
  Handle = Exchange × ℤ;
  easy_reset = λ h. h;
  easy_setopt = λ h o. h;
  easy_perform = λ h. (h.0, h);
  response_code = λ h. h.1;
  easy_strerror = λ code. codes "Timeout was reached";
}

-- A library whose handle remembers the address, for a server that does not have short addresses.
abbrev remember : Bytes → CurlOption → Bytes
remember h (url address) = address
remember h write_function = h
remember h write_data = h
remember h (timeout_ms ms) = h
remember h (nosignal on) = h
remember h (follow_location on) = h

abbrev pub status_for : Bytes → ℤ
status_for address = if leb (length address) 33 then pos 404 else pos 200

abbrev pub two_deliveries : List Delivery
two_deliveries =
    record { ptr = chunk_a; size = 1; nmemb = 2 }
    ∷ record { ptr = chunk_bc; size = 1; nmemb = 2 }
    ∷ []

abbrev pub steady : Curl
steady = record {
  Handle = Bytes;
  easy_reset = λ h. [];
  easy_setopt = remember;
  easy_perform = λ h. (record { deliveries = two_deliveries; code = 0 }, h);
  response_code = status_for;
  easy_strerror = λ code. codes "No error";
}

abbrev pub good_transfer : Exchange × ℤ
good_transfer = (record { deliveries = two_deliveries; code = 0 }, pos 200)

abbrev pub missing_transfer : Exchange × ℤ
missing_transfer = (record { deliveries = two_deliveries; code = 0 }, pos 404)

abbrev pub late_transfer : Exchange × ℤ
late_transfer = (record { deliveries = two_deliveries; code = 28 }, pos 200)

abbrev pub small_record : Record
small_record = record {
  target = codes "t/1?q=\"x\"";
  status = codes "ok";
  size_bytes = pos 7;
  line_count = pos 1;
  sha256 = codes "00ff";
  fetch_ms = pos 12;
  error = [];
}

abbrev pub large_record : Record
large_record = record {
  target = codes "t/2";
  status = codes "ok";
  size_bytes = pos 40;
  line_count = pos 0;
  sha256 = codes "11ee";
  fetch_ms = pos 3;
  error = [];
}

abbrev pub failed_record : Record
failed_record = record {
  target = codes "t/3";
  status = codes "error";
  size_bytes = pos 0;
  line_count = pos 0;
  sha256 = [];
  fetch_ms = pos 5;
  error = codes "status 404";
}

abbrev pub records : List Record
records = small_record ∷ failed_record ∷ large_record ∷ []

abbrev pub two_targets : List Bytes
two_targets = codes "t/1" ∷ codes "t/2" ∷ []

-- Every thread gets a handle, and each fetch of a target gives the same record.
abbrev pub same_fetches : Fetches
same_fetches = record {
  has_handle = λ w. true;
  fetched = λ w i target. record {
    target = target;
    status = codes "ok";
    size_bytes = pos i;
    line_count = pos 0;
    sha256 = codes "00";
    fetch_ms = pos w;
    error = [];
  };
}

-- Two threads in turn.
abbrev pub in_turn : List ℕ
in_turn = 0 ∷ 1 ∷ 0 ∷ 1 ∷ 0 ∷ 1 ∷ []

-- One thread after the other.
abbrev pub in_sequence : List ℕ
in_sequence = 0 ∷ 0 ∷ 0 ∷ 0 ∷ 0 ∷ 1 ∷ []

abbrev pub targets_file : Bytes
targets_file = codes "# all\n t/1?delay=5 \r\n\n\tt/2"

-- Every fetch brings five bytes.
abbrev pub flat_fetches : Fetches
flat_fetches = record {
  has_handle = λ w. true;
  fetched = λ w i target. record {
    target = target;
    status = codes "ok";
    size_bytes = pos 5;
    line_count = pos 0;
    sha256 = codes "00";
    fetch_ms = pos w;
    error = [];
  };
}
