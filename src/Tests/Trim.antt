-- ===== src/Tests/Trim.antt =====
-- A function that trims lines.
use polyfetch.Base.{
  ℕ, ◌≡◌, refl, sym, ◌∙◌, ap, subst, append-nil, append_assoc, arith, false, ◌&&◌, [], ◌∷◌, ◌++◌,
  if◌then◌else◌, Bytes, All, Bool-cases, inl, inr,
}
use polyfetch.Targets.{is_space}
use polyfetch.Targets.Lines.{IsBlank}
use polyfetch.Targets.Split.{IsVisible, IsTrim}
use polyfetch.TypeScript.Targets.{is_empty}

abbrev trim_start : Bytes → Bytes
trim_start [] = []
trim_start (c ∷ s) = let rest = trim_start s in if is_space c then rest else c ∷ s

abbrev trim_end : Bytes → Bytes
trim_end [] = []
trim_end (c ∷ s) = let rest = trim_end s in if is_empty rest && is_space c then [] else c ∷ rest

abbrev pub trim : Bytes → Bytes
trim s = trim_end (trim_start s)

visible : (c : ℕ) → IsVisible c → is_space c ≡ false
unfolding is_space
visible c h = ground (arith, h)

start-blank : (w s : Bytes) → All IsBlank w → trim_start (w ++ s) ≡ trim_start s
start-blank [] s h = refl
start-blank (c ∷ w) s (b, h) = rw b.0 (start-blank w s h)

start-visible : (c : ℕ) (s : Bytes) → IsVisible c → trim_start (c ∷ s) ≡ c ∷ s
start-visible c s h = rw (visible c h) refl

end-blank : (v : Bytes) → All IsBlank v → trim_end v ≡ []
end-blank [] h = refl
end-blank (c ∷ v) (b, h) = rw (end-blank v h, b.0) refl

end-last :
    (before : Bytes) (last : ℕ) (v : Bytes)
    → IsVisible last
    → All IsBlank v
    → trim_end (before ++ last ∷ v) ≡ before ++ last ∷ []
end-last [] last v h hv = rw (end-blank v hv, visible last h) refl
end-last (c ∷ []) last v h hv = rw (end-last [] last v h hv) refl
end-last (c ∷ (d ∷ before)) last v h hv = rw (end-last (d ∷ before) last v h hv) refl

end-visible : (c : ℕ) (s : Bytes) → IsVisible c → (t : Bytes) × (trim_end (c ∷ s) ≡ c ∷ t)
end-visible c s h = elim (Bool-cases (is_empty (trim_end s))) [
  | inl empty ↦ (trim_end s, rw (empty, visible c h) refl)
  | inr more ↦ (trim_end s, rw more refl)
]

pub trim-IsTrim : IsTrim trim
trim-IsTrim = record {
  blank_line = λ w h. ap trim (sym (append-nil w)) ∙ ap trim_end (start-blank w [] h);
  leading = λ w c s h vis.
      let (t, e) = end-visible c s vis in
      (t, ap trim_end (start-blank w (c ∷ s) h ∙ start-visible c s vis) ∙ e);
  both = λ w t v hw hv first behind starts vis last before ends vis_last.
      let starts_visible : trim_start (t ++ v) ≡ t ++ v =
        subst (λ t. trim_start (t ++ v) ≡ t ++ v) (sym starts)
          (start-visible first (behind ++ v) vis) in
      let ends_visible : trim_end (t ++ v) ≡ t =
        subst (λ t. trim_end (t ++ v) ≡ t) (sym ends)
          (ap trim_end (append_assoc before (last ∷ []) v) ∙ end-last before last v vis_last hv) in
      ap trim_end (start-blank w (t ++ v) hw ∙ starts_visible) ∙ ends_visible;
}
