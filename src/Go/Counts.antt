-- ===== src/Go/Counts.antt =====
-- The counts of the footer as numbers without a wrap.
use polyfetch.Base.{ℕ, ◌+◌, ◌^◌, ◌<◌, ◌≡◌, ◌∙◌, ap, arith, List, [], ◌∷◌, foldl, length, All}
use polyfetch.Base.Int.{pos, pos_part, to_i64, to_i64_small}
use polyfetch.Fetch.{Record}
use polyfetch.Report.Summary.{ok_one, error_one, ok_size, total, IsSized}
use polyfetch.Go.Report.{wrap_add, Summary, tally, summarize}

wrap_add_small : (a b : ℕ) → a + b < 2 ^ 63 → wrap_add (pos a) (pos b) ≡ pos (a + b)
unfolding wrap_add
wrap_add_small a b lt = ap to_i64 (omega arith) ∙ to_i64_small (a + b) lt

abbrev summary_of : (n a b c : ℕ) → Summary
summary_of n a b c = record { total = n; ok = pos a; errors = pos b; total_bytes = pos c }

tally_lem :
    (n a b c : ℕ) (r : Record)
    → IsSized r
    → a + ok_one r < 2 ^ 63
    → b + error_one r < 2 ^ 63
    → c + ok_size r < 2 ^ 63
    → tally (summary_of n a b c) r ≡ summary_of n (a + ok_one r) (b + error_one r) (c + ok_size r)
unfolding tally
tally_lem n a b c r sized ha hb hc = ground (
  arith,
  wrap_add_small a 1,
  wrap_add_small b 1,
  wrap_add_small c (pos_part r.size_bytes),
  ap (wrap_add (pos c)) sized,
)

tallies_lem :
    (rs : List Record) (n a b c : ℕ)
    → All IsSized rs
    → a + total ok_one rs < 2 ^ 63
    → b + total error_one rs < 2 ^ 63
    → c + total ok_size rs < 2 ^ 63
    → foldl tally (summary_of n a b c) rs
      ≡ summary_of n (a + total ok_one rs) (b + total error_one rs) (c + total ok_size rs)
tallies_lem [] n a b c sized ha hb hc = ground arith
tallies_lem (r ∷ rs) n a b c sized ha hb hc =
    ap (λ s. foldl tally s rs)
      (tally_lem n a b c r sized.0 (omega arith) (omega arith) (omega arith))
    ∙ tallies_lem rs n (a + ok_one r) (b + error_one r) (c + ok_size r) sized.1 (omega arith)
        (omega arith) (omega arith)
    ∙ ground arith

-- For fewer than 2 ^ 63 records with sizes that are not negative, of less than 2 ^ 63 bytes together,
-- the footer has the number of records, of those that are ok, of the others, and the bytes of those
-- that are ok.
pub summarize_lem :
    (rs : List Record)
    → All IsSized rs
    → total ok_one rs < 2 ^ 63
    → total error_one rs < 2 ^ 63
    → total ok_size rs < 2 ^ 63
    → summarize rs ≡ record {
      total = length rs;
      ok = pos (total ok_one rs);
      errors = pos (total error_one rs);
      total_bytes = pos (total ok_size rs);
    }
unfolding summarize
summarize_lem rs sized ones errors sizes =
    tallies_lem rs (length rs) 0 0 0 sized (omega arith) (omega arith) (omega arith) ∙ ground arith
