-- ===== src/Python/Counts.antt =====
-- The lines and counts of the Python client, over the records one by one.
use polyfetch.Base.{
  ℕ, ◌+◌, ◌≡◌, refl, sym, ◌∙◌, ap, arith, inl, inr, List, [], ◌∷◌, ◌++◌, append-nil, append_assoc,
  map, foldl, Bytes, codes, All, Bool-cases,
}
use polyfetch.Base.Int.{pos, ◌+ℤ◌}
use polyfetch.Fetch.{Record}
use polyfetch.Json.{Quote}
use polyfetch.Report.{str_eq}
use polyfetch.Report.Summary.{ok_one, error_one, ok_size, total, IsSized}
use polyfetch.Python.Report.{Tally, record_to_json, report_step}
use polyfetch.Python.Agree.{add_pos}

module _ (quote : Quote) where
  abbrev pub tally_of : List Bytes → ℕ → ℕ → ℕ → Tally
  tally_of lines a b c = record { lines = lines; ok = pos a; errors = pos b; total_bytes = pos c }

  tally_eq :
      {l l' : List Bytes} {a a' b b' c c' : ℕ}
      → l ≡ l'
      → a ≡ a'
      → b ≡ b'
      → c ≡ c'
      → tally_of l a b c ≡ tally_of l' a' b' c'
  tally_eq l a b c = rw (l, a, b, c) refl

  report_step_lem :
      (lines : List Bytes) (a b c : ℕ) (r : Record)
      → IsSized r
      → report_step quote (tally_of lines a b c) r
        ≡ tally_of
            (lines ++ record_to_json quote r ∷ [])
            (a + ok_one r)
            (b + error_one r)
            (c + ok_size r)
  unfolding report_step
  report_step_lem lines a b c r sized = elim (Bool-cases (str_eq r.status (codes "ok"))) [
    | inl ok ↦
        rw (ok, add_pos a 1, ap (λ z. pos c +ℤ z) sized, add_pos c)
          (tally_eq refl refl (omega arith) refl)
    | inr failed ↦ rw (failed, add_pos b 1) (tally_eq refl (omega arith) refl (omega arith))
  ]

  report_steps_lem :
      (rs : List Record) (lines : List Bytes) (a b c : ℕ)
      → All IsSized rs
      → foldl (report_step quote) (tally_of lines a b c) rs
        ≡ tally_of
            (lines ++ map (record_to_json quote) rs)
            (a + total ok_one rs)
            (b + total error_one rs)
            (c + total ok_size rs)
  report_steps_lem [] lines a b c sized =
      tally_eq (sym (append-nil lines)) (omega arith) (omega arith) (omega arith)
  report_steps_lem (r ∷ rs) lines a b c sized =
      ap (λ t. foldl (report_step quote) t rs) (report_step_lem lines a b c r sized.0)
      ∙ report_steps_lem rs (lines ++ record_to_json quote r ∷ []) (a + ok_one r) (b + error_one r)
          (c + ok_size r) sized.1
      ∙ tally_eq (append_assoc lines (record_to_json quote r ∷ []) (map (record_to_json quote) rs))
          (omega arith) (omega arith) (omega arith)

  -- The lines and the counts of all records.
  pub report_lem :
      (rs : List Record)
      → All IsSized rs
      → foldl (report_step quote) (tally_of [] 0 0 0) rs
        ≡ tally_of
            (map (record_to_json quote) rs)
            (total ok_one rs)
            (total error_one rs)
            (total ok_size rs)
  report_lem rs sized =
      report_steps_lem rs [] 0 0 0 sized ∙ tally_eq refl (omega arith) (omega arith) (omega arith)
