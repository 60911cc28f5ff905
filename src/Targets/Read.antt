-- ===== src/Targets/Read.antt =====
-- The loop of `read_targets`, on a file that is written as a list of lines.
use polyfetch.Base.{
  ℕ, zero, suc, ◌+◌, ◌^◌, ◌≤◌, ◌<◌, ◌≡◌, ◌≢◌, refl, sym, ◌∙◌, ap, arith, true, false, List, [], ◌∷◌,
  ◌++◌, append-nil, append_assoc, some, length, ◌==◌, Bytes, All, length-append, All-append,
}
use polyfetch.Targets.{get_line, add_line, read_lines, read_targets}
use polyfetch.Targets.Lines.{
  IsBlank, Line, blank, comment, target, text, IsLine, targets_of, file, targets, add_line-IsLine,
}

abbrev pub IsOneLine : Bytes → Type 0
IsOneLine = All (λ c. c ≢ b'\n')

blank-IsOneLine : (w : Bytes) → All IsBlank w → IsOneLine w
blank-IsOneLine [] h = tt
blank-IsOneLine (c ∷ w) (b, h) = (b.1, blank-IsOneLine w h)

pub text-IsOneLine : (l : Line) → IsLine l → IsOneLine (text l)
text-IsOneLine (blank w) h = blank-IsOneLine w h
text-IsOneLine (comment w s) (h, k) =
    All-append (λ c. c ≢ b'\n') w (b'#' ∷ s) (blank-IsOneLine w h) ((λ e. omega arith), k)
text-IsOneLine (target w t v) (h, k, m) =
    All-append (λ c. c ≢ b'\n') w (t ++ v) (blank-IsOneLine w h)
      (All-append (λ c. c ≢ b'\n') t v k.one_line (blank-IsOneLine v m))

get_line-append : (l rest : Bytes) → IsOneLine l → get_line (l ++ b'\n' ∷ rest) ≡ (l, rest)
unfolding get_line
get_line-append [] rest h = refl
get_line-append (c ∷ l) rest (ne, h) =
    let other : (c == b'\n') ≡ false = ground arith in
    rw (other, get_line, get_line-append l rest h)

get_line_last : (l : Bytes) → IsOneLine l → get_line l ≡ (l, [])
unfolding get_line
get_line_last [] h = refl
get_line_last (c ∷ l) (ne, h) =
    let other : (c == b'\n') ≡ false = ground arith in rw (other, get_line, get_line_last l h)

-- A round of the loop, when a line feed ends the line, and when the file ends.
read_lines_step :
    (fuel : ℕ) (l rest : Bytes) (out : List Bytes)
    → IsOneLine l
    → read_lines (suc fuel) (l ++ b'\n' ∷ rest) out ≡ read_lines fuel rest (add_line out l)
unfolding read_lines
read_lines_step fuel [] rest out h = rw (get_line-append [] rest tt)
read_lines_step fuel (c ∷ l) rest out h = rw (get_line-append (c ∷ l) rest h)

read_lines_end : (fuel : ℕ) (out : List Bytes) → read_lines fuel [] out ≡ out
unfolding read_lines
read_lines_end zero out = refl
read_lines_end (suc fuel) out = refl

read_text :
    (fuel : ℕ) (s : Bytes) (out : List Bytes)
    → IsOneLine s
    → length s ≤ fuel
    → read_lines fuel s out ≡ add_line out s
unfolding read_lines
read_text fuel [] out h enough =
    read_lines_end fuel out ∙ sym (add_line-IsLine out (blank []) tt (omega arith) ∙ append-nil out)
read_text zero (c ∷ s) out h enough = absurd (omega arith)
read_text (suc fuel) (c ∷ s) out h enough =
    rw (get_line_last (c ∷ s) h) (read_lines_end fuel (add_line out (c ∷ s)))

read_lines-file :
    (fuel : ℕ) (ls : List Line) (last : Line) (out : List Bytes)
    → All IsLine ls
    → IsLine last
    → length (file ls last) ≤ fuel
    → length (file ls last) < 2 ^ 64
    → read_lines fuel (file ls last) out ≡ out ++ targets ls last
read_lines-file fuel [] last out hs h enough small =
    read_text fuel (text last) out (text-IsOneLine last h) enough ∙ add_line-IsLine out last h small
read_lines-file zero (l ∷ ls) last out hs h enough small =
    absurd (omega (arith, length-append (text l) (b'\n' ∷ file ls last)))
read_lines-file (suc fuel) (l ∷ ls) last out (hl, hs) h enough small =
    let size : length (file (l ∷ ls) last) ≡ length (text l) + suc (length (file ls last)) =
      length-append (text l) (b'\n' ∷ file ls last) in
    read_lines_step fuel (text l) (file ls last) out (text-IsOneLine l hl)
    ∙ ap (read_lines fuel (file ls last)) (add_line-IsLine out l hl (omega (arith, size)))
    ∙ read_lines-file fuel ls last (out ++ targets_of l) hs h (omega (arith, size))
        (omega (arith, size))
    ∙ append_assoc out (targets_of l) (targets ls last)

-- From a file of less than 2 ^ 64 bytes that consists of blank lines, comments, and targets with
-- white space around them, `read_targets` takes exactly the targets, in order; the last line may lack
-- its line feed.
pub read_targets-file :
    (ls : List Line) (last : Line) (out : List Bytes)
    → All IsLine ls
    → IsLine last
    → length (file ls last) < 2 ^ 64
    → read_targets (some (file ls last)) out ≡ (true, out ++ targets ls last)
unfolding read_targets
read_targets-file ls last out hs h small =
    ap (λ (ts : List Bytes). (true, ts))
      (read_lines-file (length (file ls last)) ls last out hs h (omega arith) small)
