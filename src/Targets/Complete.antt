-- ===== src/Targets/Complete.antt =====
-- Every file is a list of lines, so that the result of `read_targets` is known for every file.
use native.Mathlib.Decide.{ℕ_discrete}
use polyfetch.Base.{
  ℕ, ◌^◌, ◌<◌, ◌≡◌, ◌≢◌, refl, sym, ◌∙◌, ap, ap₂, ◌⊎◌, inl, inr, true, false, List, [], ◌∷◌, ◌++◌,
  some, length, Bytes, All, Bool-cases, All-append,
}
use polyfetch.Targets.{is_space, read_targets}
use polyfetch.Targets.Lines.{
  IsBlank, IsTarget, Line, blank, comment, target, text, IsLine, targets_of, file, targets,
}
use polyfetch.Targets.Read.{IsOneLine, read_targets-file}

-- What follows a visible character `c`, cut where the white space at its end starts.
record Ending (c : ℕ) (s : Bytes) : Type 0 where
  behind : Bytes
  spaces : Bytes
  cut : s ≡ behind ++ spaces
  before : Bytes
  last : ℕ
  ends : c ∷ behind ≡ before ++ last ∷ []
  visible : is_space last ≡ false
  blanks : All IsBlank spaces

Ending-blank : (c : ℕ) (s : Bytes) → is_space c ≡ false → All IsBlank s → Ending c s
Ending-blank c s v h = record {
  behind = [];
  spaces = s;
  cut = refl;
  before = [];
  last = c;
  ends = refl;
  visible = v;
  blanks = h;
}

Ending-cons : (c d : ℕ) (s : Bytes) → Ending d s → Ending c (d ∷ s)
Ending-cons c d s e = record {
  behind = d ∷ e.behind;
  spaces = e.spaces;
  cut = ap (◌∷◌ d) e.cut;
  before = c ∷ e.before;
  last = e.last;
  ends = ap (◌∷◌ c) e.ends;
  visible = e.visible;
  blanks = e.blanks;
}

-- Either all of a text is white space, or it has a last visible character.
Ending-cases : (s : Bytes) → IsOneLine s → All IsBlank s ⊎ ((c : ℕ) → Ending c s)
Ending-cases [] h = inl tt
Ending-cases (d ∷ s) (ne, h) = elim (Ending-cases s h) [
  | inr later ↦ inr (λ c. Ending-cons c d s (later d))
  | inl blanks ↦ elim (Bool-cases (is_space d)) [
    | inl space ↦ inl ((space, ne), blanks)
    | inr visible ↦ inr (λ c. Ending-cons c d s (Ending-blank d s visible blanks))
  ]
]

ending : (c : ℕ) (s : Bytes) → is_space c ≡ false → IsOneLine s → Ending c s
ending c s v h = elim (Ending-cases s h) [ inl blanks ↦ Ending-blank c s v blanks | inr e ↦ e c ]

IsOneLine-left : (xs ys : Bytes) → IsOneLine (xs ++ ys) → IsOneLine xs
IsOneLine-left [] ys h = tt
IsOneLine-left (x ∷ xs) ys (ne, h) = (ne, IsOneLine-left xs ys h)

-- A text without line feeds, as a line.
AsLine : Bytes → Type 0
AsLine s = (l : Line) × IsLine l × (text l ≡ s)

AsLine-cons : (c : ℕ) (s : Bytes) → IsBlank c → AsLine s → AsLine (c ∷ s)
unfolding AsLine
AsLine-cons c s b (blank w, h, e) = (blank (c ∷ w), (b, h), ap (◌∷◌ c) e)
AsLine-cons c s b (comment w r, h, e) = (comment (c ∷ w) r, ((b, h.0), h.1), ap (◌∷◌ c) e)
AsLine-cons c s b (target w t v, h, e) = (target (c ∷ w) t v, ((b, h.0), h.1, h.2), ap (◌∷◌ c) e)

AsLine-visible : (c : ℕ) (s : Bytes) → is_space c ≡ false → c ≢ b'\n' → IsOneLine s → AsLine (c ∷ s)
unfolding AsLine
AsLine-visible c s v ne h = elim (ℕ_discrete c b'#') [
  | yes hash ↦ (comment [] s, (tt, h), ap (λ (d : ℕ). d ∷ s) (sym hash))
  | no other ↦
      let e = ending c s v h in
      (
        target [] (c ∷ e.behind) e.spaces,
        (
          tt,
          record {
            first = c;
            behind = e.behind;
            starts = refl;
            first_visible = v;
            no_comment = other;
            last = e.last;
            before = e.before;
            ends = e.ends;
            last_visible = e.visible;
            one_line = (ne, IsOneLine-left e.behind e.spaces (rw (← e.cut) h));
          },
          e.blanks,
        ),
        ap (◌∷◌ c) (sym e.cut),
      )
]

as_line : (s : Bytes) → IsOneLine s → AsLine s
as_line [] h = unfold AsLine in (blank [], tt, refl)
as_line (c ∷ s) (ne, h) = elim (Bool-cases (is_space c)) [
  | inl space ↦ AsLine-cons c s (space, ne) (as_line s h)
  | inr visible ↦ AsLine-visible c s visible ne h
]

-- A text, cut at its line feeds.
join : List Bytes → Bytes → Bytes
join [] last = last
join (r ∷ rs) last = r ++ b'\n' ∷ join rs last

record Cut (s : Bytes) : Type 0 where
  pieces : List Bytes
  rest : Bytes
  pieces_one_line : All IsOneLine pieces
  rest_one_line : IsOneLine rest
  same : join pieces rest ≡ s

Cut-cons : (c : ℕ) (s : Bytes) → c ≢ b'\n' → Cut s → Cut (c ∷ s)
unfolding join
Cut-cons c s ne k = by_pieces k.pieces k.pieces_one_line k.same
  where
    by_pieces : (ps : List Bytes) → All IsOneLine ps → join ps k.rest ≡ s → Cut (c ∷ s)
    by_pieces [] h e = record {
      pieces = [];
      rest = c ∷ k.rest;
      pieces_one_line = tt;
      rest_one_line = (ne, k.rest_one_line);
      same = ap (◌∷◌ c) e;
    }
    by_pieces (p ∷ ps) (hp, h) e = record {
      pieces = (c ∷ p) ∷ ps;
      rest = k.rest;
      pieces_one_line = ((ne, hp), h);
      rest_one_line = k.rest_one_line;
      same = ap (◌∷◌ c) e;
    }

cut : (s : Bytes) → Cut s
unfolding join
cut [] = record { pieces = []; rest = []; pieces_one_line = tt; rest_one_line = tt; same = refl }
cut (c ∷ s) = elim (ℕ_discrete c b'\n') [
  | no other ↦ Cut-cons c s other (cut s)
  | yes feed ↦
      let k = cut s in
      record {
        pieces = [] ∷ k.pieces;
        rest = k.rest;
        pieces_one_line = (tt, k.pieces_one_line);
        rest_one_line = k.rest_one_line;
        same = ap₂ (λ (d : ℕ) (r : Bytes). d ∷ r) (sym feed) k.same;
      }
]

as_file :
    (ps : List Bytes) (rest : Bytes)
    → All IsOneLine ps
    → IsOneLine rest
    → (ls : List Line) × (last : Line) × All IsLine ls × IsLine last × (file ls last ≡ join ps rest)
unfolding AsLine join
as_file [] rest hs h = let (l, good, same) = as_line rest h in ([], l, tt, good, same)
as_file (p ∷ ps) rest (hp, hs) h =
    let (l, good, same) = as_line p hp in
    let (ls, last, goods, good_last, same_file) = as_file ps rest hs h in
    (l ∷ ls, last, (good, goods), good_last, ap₂ (λ (a b : Bytes). a ++ b'\n' ∷ b) same same_file)

-- Every file of less than 2 ^ 64 bytes is a list of blank lines, comments and targets with white
-- space around them, and `read_targets` appends exactly these targets, in order.
pub read_targets_complete :
    (content : Bytes) (out : List Bytes)
    → length content < 2 ^ 64
    → (ls : List Line) × (last : Line) × (file ls last ≡ content)
      × All IsLine ls
      × IsLine last
      × (read_targets (some content) out ≡ (true, out ++ targets ls last))
read_targets_complete content out small =
    let k = cut content in
    let (ls, last, goods, good, same) = as_file k.pieces k.rest k.pieces_one_line k.rest_one_line in
    let whole : file ls last ≡ content = same ∙ k.same in
    (
      ls,
      last,
      whole,
      goods,
      good,
      ap (λ (s : Bytes). read_targets (some s) out) (sym whole)
          ∙ read_targets-file ls last out goods good (rw whole small),
    )

targets_of-IsTarget : (l : Line) → IsLine l → All IsTarget (targets_of l)
targets_of-IsTarget (blank w) h = tt
targets_of-IsTarget (comment w s) h = tt
targets_of-IsTarget (target w t v) h = (h.1, tt)

targets-IsTarget :
    (ls : List Line) (last : Line) → All IsLine ls → IsLine last → All IsTarget (targets ls last)
targets-IsTarget [] last hs h = targets_of-IsTarget last h
targets-IsTarget (l ∷ ls) last (hl, hs) h =
    All-append IsTarget (targets_of l) (targets ls last) (targets_of-IsTarget l hl)
      (targets-IsTarget ls last hs h)

-- Every file of less than 2 ^ 64 bytes is read, and each text that it adds to the targets is free of
-- line feeds, is not empty, has no white space at its ends and does not start with `#`.
pub read_targets-IsTarget :
    (content : Bytes) (out : List Bytes)
    → length content < 2 ^ 64
    → (ts : List Bytes) × (read_targets (some content) out ≡ (true, out ++ ts)) × All IsTarget ts
read_targets-IsTarget content out small =
    let (ls, last, same, goods, good, read) = read_targets_complete content out small in
    (targets ls last, read, targets-IsTarget ls last goods good)
