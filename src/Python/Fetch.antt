-- ===== src/Python/Fetch.antt =====
-- clients/python/fetch.py and clients/python/process.py: one target, from the response to its record, and
-- the connection that a worker keeps. `http.client` is a parameter, and so is the text that `hashlib` gives
-- for the bytes that are fed to it. Integers have no bounds.
use polyfetch.Base.{
  not, ◌&&◌, List, [], ◌++◌, foldl, Option, none, some, length, if◌then◌else◌, Bytes, codes,
}
use polyfetch.Base.Int.{ℤ, pos, ◌+ℤ◌, ltb_ℤ}
use polyfetch.Base.Decimal.{show_ℤ}
use polyfetch.Process.{count}
use polyfetch.Fetch.{Record}

-- How a request can end: an exception before the response, or a response with a status and a body, which
-- is read in chunks and may break off with an exception.
pub data Answer : Type 0 where
  raised : (e : Bytes) → Answer
  answered : (status : ℤ) → (chunks : List Bytes) → (broken : Option Bytes) → Answer

-- `http.client`, for one server: a new connection, and what a request for a path brings on one.
pub record HttpClient : Type 1 where
  pub Connection : Type 0
  pub connect : Connection
  pub request : Connection → Bytes → Answer × Connection

-- `StreamProcessor`, with the bytes that were fed to the hash.
pub record StreamProcessor : Type 0 where
  pub hashed : Bytes
  pub size : ℤ
  pub lines : ℤ

unfoldable pub consume : StreamProcessor → Bytes → StreamProcessor
consume proc chunk = record {
  hashed = proc.hashed ++ chunk;
  size = proc.size +ℤ pos (length chunk);
  lines = proc.lines +ℤ pos (count b'\n' chunk);
}

unfoldable pub error_record : Bytes → ℤ → Bytes → Record
error_record target fetch_ms reason = record {
  target = target;
  status = codes "error";
  size_bytes = pos 0;
  line_count = pos 0;
  sha256 = [];
  fetch_ms = fetch_ms;
  error = reason;
}

module _ (http : HttpClient) where
  -- `except`: the connection is discarded.
  unfoldable pub caught : Bytes → ℤ → Bytes → Record × Option http.Connection
  caught target fetch_ms e = (error_record target fetch_ms (codes "fetch: " ++ e), none)

  -- The connection of the worker, or a new one.
  unfoldable pub connection : Option http.Connection → http.Connection
  connection none = http.connect
  connection (some conn) = conn

  module _ (sha256_hex : Bytes → Bytes) where
    unfoldable pub ok_record : Bytes → ℤ → List Bytes → Record
    ok_record target fetch_ms chunks =
        let proc = foldl consume (record { hashed = []; size = pos 0; lines = pos 0 }) chunks in
        record {
          target = target;
          status = codes "ok";
          size_bytes = proc.size;
          line_count = proc.lines;
          sha256 = sha256_hex proc.hashed;
          fetch_ms = fetch_ms;
          error = [];
        }

    -- The record of an answer, with the connection behind it. The body of an error is read, too.
    unfoldable pub finish : Bytes → ℤ → Answer × http.Connection → Record × Option http.Connection
    finish target fetch_ms (raised e, conn) = caught target fetch_ms e
    finish target fetch_ms (answered status chunks (some e), conn) = caught target fetch_ms e
    finish target fetch_ms (answered status chunks none, conn) =
        if not (not (ltb_ℤ status (pos 200)) && ltb_ℤ status (pos 300))
        then (error_record target fetch_ms (codes "status " ++ show_ℤ status), some conn)
        else (ok_record target fetch_ms chunks, some conn)

    -- `Fetcher.fetch`
    unfoldable pub fetch :
        Option http.Connection → (target : Bytes) (fetch_ms : ℤ) → Record × Option http.Connection
    fetch conn target fetch_ms =
        finish target fetch_ms (http.request (connection conn) (codes "/payload/" ++ target))
