-- ===== src/TypeScript/Counts.antt =====
-- The lines and counts of the TypeScript client, over the records one by one.
use polyfetch.Base.{
  ℕ, ◌≤◌, ◌+◌, ◌^◌, ◌≡◌, refl, sym, ◌∙◌, ap, arith, inl, inr, List, [], ◌∷◌, ◌++◌, append-nil,
  append_assoc, map, foldl, length, Bytes, codes, All, Bool-cases,
}
use polyfetch.Base.Int.{ℤ, pos, pos_part}
use polyfetch.Fetch.{Record}
use polyfetch.Json.{Quote}
use polyfetch.Report.{str_eq}
use polyfetch.Report.Summary.{ok_one, error_one, ok_size, total, IsSized, length-total}
use polyfetch.TypeScript.Fetch.{Numbers, IsDouble}
use polyfetch.TypeScript.Report.{Tally, record_to_json, report_step}

module _ (numbers : Numbers) (double : IsDouble numbers) where
  module _ (quote : Quote) where
    abbrev pub tally_of : List Bytes → ℕ → ℕ → ℕ → Tally
    tally_of lines a b c = record { lines = lines; ok = pos a; errors = pos b; total_bytes = pos c }

    tally_eq :
        {l l' : List Bytes} {a a' b b' c c' : ℤ}
        → l ≡ l'
        → a ≡ a'
        → b ≡ b'
        → c ≡ c'
        → ◌≡◌ {A = Tally}
            (record { lines = l; ok = a; errors = b; total_bytes = c })
            (record { lines = l'; ok = a'; errors = b'; total_bytes = c' })
    tally_eq l a b c = rw (l, a, b, c) refl

    report_step_lem :
        (lines : List Bytes) (a b c : ℕ) (r : Record)
        → IsSized r
        → a + ok_one r ≤ 2 ^ 53
        → b + error_one r ≤ 2 ^ 53
        → c + ok_size r ≤ 2 ^ 53
        → report_step numbers quote (tally_of lines a b c) r
          ≡ tally_of
              (lines ++ record_to_json quote r ∷ [])
              (a + ok_one r)
              (b + error_one r)
              (c + ok_size r)
    unfolding report_step
    report_step_lem lines a b c r sized ha hb hc =
        elim (Bool-cases (str_eq r.status (codes "ok"))) [
          | inl ok ↦ rw ok (
              tally_eq refl (double.exact a 1 (ground (arith, ok, ha))) (ap pos (omega arith)) (
                ap (numbers.add (pos c)) sized
                ∙ double.exact c (pos_part r.size_bytes) (ground (arith, ok, hc))))
          | inr failed ↦ rw failed (
              tally_eq refl (ap pos (omega arith)) (double.exact b 1 (ground (arith, failed, hb)))
                (ap pos (omega arith)))
        ]

    report_steps_lem :
        (rs : List Record) (lines : List Bytes) (a b c : ℕ)
        → All IsSized rs
        → a + total ok_one rs ≤ 2 ^ 53
        → b + total error_one rs ≤ 2 ^ 53
        → c + total ok_size rs ≤ 2 ^ 53
        → foldl (report_step numbers quote) (tally_of lines a b c) rs
          ≡ tally_of
              (lines ++ map (record_to_json quote) rs)
              (a + total ok_one rs)
              (b + total error_one rs)
              (c + total ok_size rs)
    report_steps_lem [] lines a b c sized ha hb hc =
        tally_eq (sym (append-nil lines)) (ap pos (omega arith)) (ap pos (omega arith))
          (ap pos (omega arith))
    report_steps_lem (r ∷ rs) lines a b c sized ha hb hc =
        ap (λ t. foldl (report_step numbers quote) t rs)
          (report_step_lem lines a b c r sized.0 (omega arith) (omega arith) (omega arith))
        ∙ report_steps_lem rs (lines ++ record_to_json quote r ∷ []) (a + ok_one r)
            (b + error_one r) (c + ok_size r) sized.1 (omega arith) (omega arith) (omega arith)
        ∙ tally_eq
            (append_assoc lines (record_to_json quote r ∷ []) (map (record_to_json quote) rs))
            (ap pos (omega arith)) (ap pos (omega arith)) (ap pos (omega arith))

    -- The lines and the counts of all records, when the counts are exact.
    pub report_lem :
        (rs : List Record)
        → All IsSized rs
        → length rs ≤ 2 ^ 53
        → total ok_size rs ≤ 2 ^ 53
        → foldl (report_step numbers quote) (tally_of [] 0 0 0) rs
          ≡ tally_of
              (map (record_to_json quote) rs)
              (total ok_one rs)
              (total error_one rs)
              (total ok_size rs)
    report_lem rs sized few small =
        report_steps_lem rs [] 0 0 0 sized (omega (arith, length-total rs, few))
          (omega (arith, length-total rs, few)) (omega (arith, small))
        ∙ tally_eq refl (ap pos (omega arith)) (ap pos (omega arith)) (ap pos (omega arith))
