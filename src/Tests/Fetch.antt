-- ===== src/Tests/Fetch.antt =====
-- Examples for the theorems on one request and on the payload that it streams.
use polyfetch.Base.{◌≡◌, refl, arith, [], ◌++◌, some, codes}
use polyfetch.Base.Int.{pos}
use polyfetch.Process.{StreamProcessor, new, consume}
use polyfetch.Process.Stream.{HasSeen, new-HasSeen, consume-HasSeen}
use polyfetch.Fetch.{Record, fetch_and_process}
use polyfetch.Report.Expected.{expected, fetch_and_process-expected}
use polyfetch.Report.Sorted.{untimed}
use polyfetch.Tests.Samples.{fresh, chunk_a, scripted, missing_transfer}

consume-HasSeen_example :
    (p : StreamProcessor) × (consume (new fresh) chunk_a ≡ some p) × HasSeen p ([] ++ chunk_a)
consume-HasSeen_example = consume-HasSeen (new-HasSeen fresh refl) chunk_a (omega arith)

fetch_and_process-expected_example :
    (r : Record) × (fetch_and_process scripted fresh 1_000_000 9_500_000 missing_transfer
        (codes "http://h")
        (codes "t/1")
        (pos 30000)
      ≡ some (r, missing_transfer))
    × (untimed r
        ≡ expected (codes "t/1") (record {
          code = 0;
          reason = codes "Timeout was reached";
          status = pos 404;
          payload = codes "a\nbc";
        }))
fetch_and_process-expected_example =
    fetch_and_process-expected scripted missing_transfer (codes "http://h") (codes "t/1")
      (pos 30000) fresh 1_000_000 9_500_000 refl (refl, (refl, tt)) (omega arith) (omega arith)
