-- ===== src/Targets/Lines.antt =====
-- What a targets file is made of, and what `read_targets` takes from it.
use polyfetch.Base.{
  ℕ, suc, ◌+◌, ◌-◌, ◌^◌, ◌%◌, ◌≤◌, ◌<◌, ◌≡◌, ◌≢◌, refl, sym, ◌∙◌, ap, arith, true, false, List, [],
  ◌∷◌, ◌++◌, append-nil, Option, none, some, length, take, drop, if◌then◌else◌, Bytes, All,
  Bool-cases, inl, inr, length-append, take-append_length,
}
use polyfetch.Targets.{is_space, find_first_not_of, find_last_not_of, substr, is_skipped, add_line}

-- White space within a line.
abbrev pub IsBlank : ℕ → Type 0
IsBlank c = (is_space c ≡ true) × (c ≢ b'\n')

-- A text without line feeds that starts and ends with other characters than white space, and does
-- not start with `#`.
pub record IsTarget (t : Bytes) : Type 0 where
  pub first : ℕ
  pub behind : Bytes
  pub starts : t ≡ first ∷ behind
  pub first_visible : is_space first ≡ false
  pub no_comment : first ≢ b'#'
  pub last : ℕ
  pub before : Bytes
  pub ends : t ≡ before ++ last ∷ []
  pub last_visible : is_space last ≡ false
  pub one_line : All (λ c. c ≢ b'\n') t

pub data Line : Type 0 where
  blank : Bytes → Line
  comment : Bytes → Bytes → Line
  target : Bytes → Bytes → Bytes → Line

abbrev pub text : Line → Bytes
text (blank w) = w
text (comment w s) = w ++ b'#' ∷ s
text (target w t v) = w ++ (t ++ v)

abbrev pub IsLine : Line → Type 0
IsLine (blank w) = All IsBlank w
IsLine (comment w s) = All IsBlank w × All (λ c. c ≢ b'\n') s
IsLine (target w t v) = All IsBlank w × IsTarget t × All IsBlank v

abbrev pub targets_of : Line → List Bytes
targets_of (blank w) = []
targets_of (comment w s) = []
targets_of (target w t v) = t ∷ []

-- Lines that a line feed ends, and a last one.
abbrev pub file : List Line → Line → Bytes
file [] last = text last
file (l ∷ ls) last = text l ++ b'\n' ∷ file ls last

abbrev pub targets : List Line → Line → List Bytes
targets [] last = targets_of last
targets (l ∷ ls) last = targets_of l ++ targets ls last

first-blank :
    (i n : ℕ) (w s : Bytes)
    → All IsBlank w
    → n ≡ i + length w
    → find_first_not_of i (w ++ s) ≡ find_first_not_of n s
unfolding find_first_not_of
first-blank i n [] s h e = ap (λ (k : ℕ). find_first_not_of k s) (omega arith)
first-blank i n (c ∷ w) s (b, h) e =
    rw (b.0, find_first_not_of) (first-blank (i + 1) n w s h (omega arith))

first-visible : (i c : ℕ) (s : Bytes) → is_space c ≡ false → find_first_not_of i (c ∷ s) ≡ some i
unfolding find_first_not_of
first-visible i c s h = rw (h, find_first_not_of)

last-append :
    (i n : ℕ) (xs ys : Bytes) (found : Option ℕ)
    → n ≡ i + length xs
    → find_last_not_of i (xs ++ ys) found ≡ find_last_not_of n ys (find_last_not_of i xs found)
unfolding find_last_not_of
last-append i n [] ys found e = ap (λ (k : ℕ). find_last_not_of k ys found) (omega arith)
last-append i n (x ∷ xs) ys found e =
    last-append (i + 1) n xs ys (if is_space x then found else some i) (omega arith)

last-blank :
    (i : ℕ) (w : Bytes) (found : Option ℕ) → All IsBlank w → find_last_not_of i w found ≡ found
unfolding find_last_not_of
last-blank i [] found h = refl
last-blank i (c ∷ w) found (b, h) = rw b.0 (last-blank (i + 1) w found h)

last-visible :
    (i c : ℕ) (s : Bytes) (found : Option ℕ)
    → is_space c ≡ false
    → find_last_not_of i (c ∷ s) found ≡ find_last_not_of (i + 1) s (some i)
unfolding find_last_not_of
last-visible i c s found h = rw h

-- Once a position is found, the last is not before it.
last-bounds :
    (i : ℕ) (s : Bytes) (j : ℕ)
    → j < i
    → (e : ℕ) × (find_last_not_of i s (some j) ≡ some e) × (j ≤ e) × (e < i + length s)
unfolding find_last_not_of
last-bounds i [] j le = (j, refl, omega arith, omega arith)
last-bounds i (c ∷ s) j le = elim (Bool-cases (is_space c)) [
  | inl space ↦
      let (e, eq, lo, hi) = last-bounds (i + 1) s j (omega arith) in
      (e, rw space eq, lo, omega arith)
  | inr visible ↦
      let (e, eq, lo, hi) = last-bounds (i + 1) s i (omega arith) in
      (e, rw visible eq, omega arith, omega arith)
]

drop-length : (xs ys : Bytes) → drop (length xs) (xs ++ ys) ≡ ys
drop-length [] ys = refl
drop-length (x ∷ xs) ys = drop-length xs ys

-- The body of the loop, when the two searches are known.
add_line_found :
    (out : List Bytes) (line t : Bytes) (b e : ℕ)
    → find_first_not_of 0 line ≡ some b
    → find_last_not_of 0 line none ≡ some e
    → b ≤ e
    → e < 2 ^ 64 - 1
    → take (e - b + 1) (drop b line) ≡ t
    → add_line out line ≡ (if is_skipped t then out else out ++ t ∷ [])
unfolding add_line substr
add_line_found out line t b e first last le small cut =
    let count : (e + 2 ^ 64 - b + 1) % 2 ^ 64 ≡ e - b + 1 = omega arith in
    rw (first, add_line, last, count, cut)

not_skipped : (t : Bytes) → IsTarget t → is_skipped t ≡ false
unfolding is_skipped
not_skipped t h = rw h.starts (ground (arith, h.no_comment))

add_line-blank : (out : List Bytes) (w : Bytes) → All IsBlank w → add_line out w ≡ out
unfolding add_line
add_line-blank out w h = rw (nothing, add_line)
  where
    nothing : find_first_not_of 0 w ≡ none
    nothing =
        ap (find_first_not_of 0) (sym (append-nil w))
        ∙ first-blank 0 (length w) w [] h (omega arith)
        ∙ unfold find_first_not_of in refl

module _ (out : List Bytes) (w : Bytes) (blank_w : All IsBlank w) where
  add_line-comment :
      (s : Bytes) → length (text (comment w s)) < 2 ^ 64 → add_line out (text (comment w s)) ≡ out
  add_line-comment s small =
      let (e, eq, lo, hi) = last-bounds (length w + 1) s (length w) (omega arith) in
      let one_more : e - length w + 1 ≡ suc (e - length w) = omega arith in
      add_line_found out (text (comment w s)) (b'#' ∷ take (e - length w) s) (length w) e
        (first-blank 0 (length w) w (b'#' ∷ s) blank_w (omega arith)
          ∙ first-visible (length w) b'#' s (unfold is_space in refl))
        (last-append 0 (length w) w (b'#' ∷ s) none (omega arith)
          ∙ last-visible (length w) b'#' s _ (unfold is_space in refl)
          ∙ eq)
        lo (omega (arith, length-append w (b'#' ∷ s))) (rw (drop-length w (b'#' ∷ s), one_more))
      ∙ unfold is_skipped in refl

  add_line-target :
      (t v : Bytes)
      → IsTarget t
      → All IsBlank v
      → length (text (target w t v)) < 2 ^ 64
      → add_line out (text (target w t v)) ≡ out ++ t ∷ []
  add_line-target t v h blank_v small =
      add_line_found out (text (target w t v)) t (length w) (length w + length h.before) found_first
        found_last (omega arith) (omega (arith, length-append w (t ++ v), length-append t v, size))
        (rw (drop-length w (t ++ v)) (
          take-append_length (length w + length h.before - length w + 1) t v (omega (arith, size))))
      ∙ rw (not_skipped t h)
    where
      size : length t ≡ length h.before + 1
      size = ap length h.ends ∙ omega (arith, length-append h.before (h.last ∷ []))

      found_first : find_first_not_of 0 (w ++ (t ++ v)) ≡ some (length w)
      found_first =
          first-blank 0 (length w) w (t ++ v) blank_w (omega arith)
          ∙ rw h.starts (first-visible (length w) h.first (h.behind ++ v) h.first_visible)

      in_target :
          (found : Option ℕ)
          → find_last_not_of (length w) t found ≡ some (length w + length h.before)
      in_target found =
          ap (λ l. find_last_not_of (length w) l found) h.ends
          ∙ last-append (length w) (length w + length h.before) h.before (h.last ∷ []) found refl
          ∙ last-visible (length w + length h.before) h.last [] _ h.last_visible
          ∙ unfold find_last_not_of in refl

      found_last : find_last_not_of 0 (w ++ (t ++ v)) none ≡ some (length w + length h.before)
      found_last =
          last-append 0 (length w) w (t ++ v) none (omega arith)
          ∙ last-append (length w) (length w + length t) t v (find_last_not_of 0 w none) refl
          ∙ last-blank (length w + length t) v
              (find_last_not_of (length w) t (find_last_not_of 0 w none)) blank_v
          ∙ in_target (find_last_not_of 0 w none)

-- What the body of the loop does with a line.
pub add_line-IsLine :
    (out : List Bytes) (l : Line)
    → IsLine l
    → length (text l) < 2 ^ 64
    → add_line out (text l) ≡ out ++ targets_of l
add_line-IsLine out (blank w) h small = rw (append-nil out) (add_line-blank out w h)
add_line-IsLine out (comment w s) h small = rw (append-nil out) (add_line-comment out w h.0 s small)
add_line-IsLine out (target w t v) h small = add_line-target out w h.0 t v h.1 h.2 small
