-- ===== src/TypeScript/Reads.antt =====
-- The targets that the TypeScript client reads, beside those of the client in C++.
use polyfetch.Base.{
  ◌<◌, ◌^◌, ◌≡◌, refl, sym, ap, subst, arith, true, false, List, [], ◌∷◌, ◌++◌, append-nil, foldl,
  some, length, ◌==◌, ◌||◌, Bytes, All,
}
use polyfetch.Targets as Targets
use polyfetch.Targets.Lines.{Line, blank, comment, target, text, IsLine, targets_of, targets}
use polyfetch.Targets.Split.{
  split, IsPrintable, IsVisible, IsTrim, All-left, All-right, printable-IsVisible, foldl-split,
}
use polyfetch.Targets.Complete.{read_targets_complete}
use polyfetch.TypeScript.Targets.{is_empty, starts_comment, add_line, read_targets}

module _ (trim : Bytes → Bytes) (trims : IsTrim trim) where
  add_line_skips :
      (out : List Bytes) (raw : Bytes)
      → (is_empty (trim raw) || starts_comment (trim raw)) ≡ true
      → add_line trim out raw ≡ out ++ []
  unfolding add_line
  add_line_skips out raw e = rw e (sym (append-nil out))

  pub add_line_takes :
      (out : List Bytes) (l : Line)
      → IsLine l
      → All IsPrintable (text l)
      → add_line trim out (text l) ≡ out ++ targets_of l
  add_line_takes out (blank w) h printable = add_line_skips out w (rw (trims.blank_line w h) refl)
  add_line_takes out (comment w s) h printable =
      let (t, e) = trims.leading w b'#' s h.0 (omega arith) in
      add_line_skips out (w ++ b'#' ∷ s) (rw e refl)
  add_line_takes out (target w t v) (hw, is, hv) printable =
      let printable_t : All IsPrintable t =
        All-left IsPrintable t v (All-right IsPrintable w (t ++ v) printable) in
      let first : IsVisible is.first =
        printable-IsVisible is.first (subst (All IsPrintable) is.starts printable_t).0
          is.first_visible in
      let last : IsVisible is.last =
        printable-IsVisible is.last
          (All-right IsPrintable is.before (is.last ∷ [])
            (subst (All IsPrintable) is.ends printable_t)).0
          is.last_visible in
      let trimmed : trim (w ++ (t ++ v)) ≡ t =
        trims.both w t v hw hv is.first is.behind is.starts first is.last is.before is.ends last in
      let no_comment : (is.first == b'#') ≡ false = ground (arith, is.no_comment) in
      unfold add_line in rw (trimmed, is.starts, no_comment) refl

  -- From a file of printable ASCII, tabs and line ends, of less than 2 ^ 64 bytes, the TypeScript client reads
  -- the targets that the client in C++ reads, in the same order. Condition: `trim` takes white space from the
  -- ends of a line, and nothing else.
  pub read_targets-same :
      (content : Bytes)
      → All IsPrintable content
      → length content < 2 ^ 64
      → (ts : List Bytes) × (Targets.read_targets (some content) [] ≡ (true, ts))
        × (read_targets trim (some content) ≡ some ts)
  unfolding read_targets
  read_targets-same content printable small =
      let (ls, last, whole, goods, good, read) = read_targets_complete content [] small in
      (
        targets ls last,
        read,
        ap some (
            subst (λ s. foldl (add_line trim) [] (split s) ≡ targets ls last) whole
              (foldl-split (add_line trim) add_line_takes ls last [] goods good
                (subst (All IsPrintable) (sym whole) printable))),
      )
