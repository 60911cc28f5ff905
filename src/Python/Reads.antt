-- ===== src/Python/Reads.antt =====
-- The targets that the Python client reads, beside those of the client in C++.
use polyfetch.Base.{
  ◌<◌, ◌^◌, ◌≡◌, ◌≢◌, sym, ap, subst, true, List, [], ◌++◌, foldl, Option, some, length, Bytes, All,
}
use polyfetch.Targets as Targets
use polyfetch.Targets.Lines.{Line, text, IsLine, targets_of, targets}
use polyfetch.Targets.Split.{split, IsPrintable, IsTrim, foldl-split}
use polyfetch.Targets.Complete.{read_targets_complete}
use polyfetch.TypeScript.Targets as TypeScript
use polyfetch.TypeScript.Reads.{add_line_takes}
use polyfetch.Python.Targets.{read, add_line, text_targets, read_targets}

-- Reading a file as text leaves printable ASCII without carriage returns as it is.
abbrev pub IsTextMode : (Bytes → Option Bytes) → Type 0
IsTextMode decode = (s : Bytes) → All IsPrintable s → All (λ c. c ≢ b'\r') s → decode s ≡ some s

module _ (strip : Bytes → Bytes) (strips : IsTrim strip) where
  takes :
      (out : List Bytes) (l : Line)
      → IsLine l
      → All IsPrintable (text l)
      → add_line strip out (text l) ≡ out ++ targets_of l
  unfolding add_line TypeScript.add_line
  takes = add_line_takes strip strips

  -- From a file of printable ASCII, tabs and line feeds, without carriage returns, of less than 2 ^ 64 bytes, the
  -- Python client reads the targets that the client in C++ reads, in the same order. Conditions: `strip` takes
  -- white space from the ends of a line, and nothing else, and reading such a file as text leaves it as it is.
  pub read_targets_alike :
      (decode : Bytes → Option Bytes)
      → IsTextMode decode
      → (content : Bytes) → All IsPrintable content
      → All (λ c. c ≢ b'\r') content
      → length content < 2 ^ 64
      → (ts : List Bytes) × (Targets.read_targets (some content) [] ≡ (true, ts))
        × (read_targets strip decode (some content) ≡ read ts)
  unfolding read_targets text_targets
  read_targets_alike decode text_mode content printable no_return small =
      let (ls, last, whole, goods, good, was_read) = read_targets_complete content [] small in
      let same : foldl (add_line strip) [] (split content) ≡ targets ls last =
        subst (λ s. foldl (add_line strip) [] (split s) ≡ targets ls last) whole
          (foldl-split (add_line strip) takes ls last [] goods good
            (subst (All IsPrintable) (sym whole) printable)) in
      (targets ls last, was_read, rw (text_mode content printable no_return) (ap read same))
