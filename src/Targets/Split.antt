-- ===== src/Targets/Split.antt =====
-- Reading a targets file by splitting it at its line feeds and trimming each line, as the clients in
-- other languages than C++ do.
use polyfetch.Base.{
  ℕ, ◌≤◌, ◌≡◌, refl, ◌∙◌, ap, arith, inl, inr, ◌⊎◌, true, false, List, [], ◌∷◌, ◌++◌, append_assoc,
  foldl, ◌==◌, if◌then◌else◌, Bytes, All,
}
use polyfetch.Targets.{is_space}
use polyfetch.Targets.Lines.{IsBlank, Line, text, IsLine, targets_of, file, targets}
use polyfetch.Targets.Read.{IsOneLine, text-IsOneLine}

-- A character in front of the first piece.
abbrev into_first : ℕ → List Bytes → List Bytes
into_first c [] = (c ∷ []) ∷ []
into_first c (s ∷ pieces) = (c ∷ s) ∷ pieces

-- The pieces between the line feeds.
abbrev pub split : Bytes → List Bytes
split [] = [] ∷ []
split (c ∷ s) = let pieces = split s in if c == b'\n' then [] ∷ pieces else into_first c pieces

split_last : (s : Bytes) → IsOneLine s → split s ≡ s ∷ []
split_last [] h = refl
split_last (c ∷ s) (other, h) =
    let no_feed : (c == b'\n') ≡ false = ground arith in rw (no_feed, split_last s h) refl

split_line : (s rest : Bytes) → IsOneLine s → split (s ++ b'\n' ∷ rest) ≡ s ∷ split rest
split_line [] rest h = refl
split_line (c ∷ s) rest (other, h) =
    let no_feed : (c == b'\n') ≡ false = ground arith in rw (no_feed, split_line s rest h) refl

-- Printable ASCII, or white space.
abbrev pub IsPrintable : ℕ → Type 0
IsPrintable c = ((0x20 ≤ c) × (c ≤ 0x7e)) ⊎ (is_space c ≡ true)

-- Printable ASCII, and no space.
abbrev pub IsVisible : ℕ → Type 0
IsVisible c = (0x21 ≤ c) × (c ≤ 0x7e)

-- `trim` takes white space from both ends of a line, and nothing else.
pub record IsTrim (trim : Bytes → Bytes) : Type 0 where
  pub blank_line : (w : Bytes) → All IsBlank w → trim w ≡ []
  pub leading :
      (w : Bytes) (c : ℕ) (s : Bytes)
      → All IsBlank w
      → IsVisible c
      → (t : Bytes) × (trim (w ++ c ∷ s) ≡ c ∷ t)
  pub both :
      (w : Bytes) (t : Bytes) (v : Bytes)
      → All IsBlank w
      → All IsBlank v
      → (first : ℕ) (behind : Bytes) → t ≡ first ∷ behind
      → IsVisible first
      → (last : ℕ) (before : Bytes) → t ≡ before ++ last ∷ []
      → IsVisible last
      → trim (w ++ (t ++ v)) ≡ t

pub All-left : (P : ℕ → Type 0) (s t : Bytes) → All P (s ++ t) → All P s
All-left P [] t h = tt
All-left P (c ∷ s) t (p, h) = (p, All-left P s t h)

pub All-right : (P : ℕ → Type 0) (s t : Bytes) → All P (s ++ t) → All P t
All-right P [] t h = h
All-right P (c ∷ s) t (p, h) = All-right P s t h

pub printable-IsVisible : (c : ℕ) → IsPrintable c → is_space c ≡ false → IsVisible c
unfolding is_space
printable-IsVisible c (inl range) h = ground (arith, range, h)
printable-IsVisible c (inr space) h = absurd (cc (space, h))

-- A loop over the lines that takes of each line what `read_targets` takes.
module _ (push : List Bytes → Bytes → List Bytes)
    (takes : (out : List Bytes) (l : Line)
      → IsLine l
      → All IsPrintable (text l)
      → push out (text l) ≡ out ++ targets_of l) where
  pub foldl-split :
      (ls : List Line) (last : Line) (out : List Bytes)
      → All IsLine ls
      → IsLine last
      → All IsPrintable (file ls last)
      → foldl push out (split (file ls last)) ≡ out ++ targets ls last
  foldl-split [] last out hs h printable =
      ap (foldl push out) (split_last (text last) (text-IsOneLine last h))
      ∙ takes out last h printable
  foldl-split (l ∷ ls) last out (hl, hs) h printable =
      ap (foldl push out) (split_line (text l) (file ls last) (text-IsOneLine l hl))
      ∙ ap (λ o. foldl push o (split (file ls last)))
          (takes out l hl (All-left IsPrintable (text l) (b'\n' ∷ file ls last) printable))
      ∙ foldl-split ls last (out ++ targets_of l) hs h
          (All-right IsPrintable (text l) (b'\n' ∷ file ls last) printable).1
      ∙ append_assoc out (targets_of l) (targets ls last)
