-- ===== src/Contract/Joined.antt =====
-- Reports that are joined from their lines.
use polyfetch.Base.{
  ◌≡◌, refl, ◌∙◌, ap, ap₂, List, [], ◌∷◌, ◌++◌, append_assoc, map, Bytes, codes, All,
}
use polyfetch.Fetch.{Record}
use polyfetch.Json.{Quote, IsEncoder, print_object, join}
use polyfetch.Contract.{record_object, footer_object, record_lines, report_text}
use polyfetch.Contract.Plain.{IsPlainRecord, encode-record_object, encode-footer_object}

abbrev ended : List Bytes → Bytes
ended [] = []
ended (s ∷ ls) = (s ++ codes "\n") ++ ended ls

join_ended :
    (ls : List Bytes) (last : Bytes)
    → join (codes "\n") (ls ++ last ∷ []) ++ codes "\n" ≡ ended ls ++ (last ++ codes "\n")
join_ended [] last = refl
join_ended (s ∷ []) last = simp append_assoc
join_ended (s ∷ (t ∷ ls)) last =
    (simp append_assoc)
    ∙ ap (λ u. (s ++ codes "\n") ++ u) (join_ended (t ∷ ls) last)
    ∙ (simp append_assoc)

module _ (quote : Quote) (encoder : IsEncoder quote) where
  ended_lines :
      (rs : List Record)
      → All IsPlainRecord rs
      → ended (map (λ r. print_object quote (record_object r)) rs) ≡ record_lines rs
  ended_lines [] h = refl
  ended_lines (r ∷ rs) h = ap₂ ◌++◌ (encode-record_object quote encoder r h.0) (ended_lines rs h.1)

  -- The lines of plain records and their footer, as any encoder writes them.
  pub join-report_text :
      (rs : List Record)
      → All IsPlainRecord rs
      → join (codes "\n") (
            map (λ r. print_object quote (record_object r)) rs
            ++ print_object quote (footer_object rs) ∷ [])
          ++ codes "\n"
        ≡ report_text rs
  join-report_text rs plain =
      join_ended (map (λ r. print_object quote (record_object r)) rs) _
      ∙ ap₂ ◌++◌ (ended_lines rs plain) (encode-footer_object quote encoder rs)
