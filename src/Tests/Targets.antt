-- ===== src/Tests/Targets.antt =====
-- Examples for the theorems on the targets file.
use polyfetch.Base.{◌≡◌, refl, arith, true, List, [], ◌∷◌, ◌++◌, some, codes, All}
use polyfetch.Targets.{
  is_space, find_first_not_of, find_last_not_of, substr, get_line, is_skipped, add_line, read_lines,
  read_targets,
}
use polyfetch.Targets.Complete.{read_targets_complete}
use polyfetch.Targets.Lines.{IsTarget, Line, blank, comment, target, IsLine, file, targets}
use polyfetch.Tests.Samples.{targets_file}

read_sample : read_targets (some targets_file) [] ≡ (true, codes "t/1?delay=5" ∷ codes "t/2" ∷ [])
unfolding is_space find_first_not_of find_last_not_of substr get_line is_skipped add_line read_lines
    read_targets
read_sample = refl

visible_ends : IsTarget (codes "t/2")
unfolding is_space
visible_ends = record {
  first = b't';
  behind = codes "/2";
  starts = refl;
  first_visible = refl;
  no_comment = λ e. omega arith;
  last = b'2';
  before = codes "t/";
  ends = refl;
  last_visible = refl;
  one_line = ground arith;
}

sample_lines : List Line
sample_lines = comment [] (codes " all of them") ∷ blank (codes " ") ∷ []

sample_IsLine : All IsLine sample_lines
unfolding is_space sample_lines
sample_IsLine = ground arith

last_IsLine : IsLine (target (codes "\t") (codes "t/2") (codes "\r"))
unfolding is_space
last_IsLine = (ground arith, visible_ends, ground arith)

read_targets_complete_example :
    (ls : List Line) × (last : Line) × (file ls last ≡ targets_file)
    × All IsLine ls
    × IsLine last
    × (read_targets (some targets_file) [] ≡ (true, [] ++ targets ls last))
read_targets_complete_example = read_targets_complete targets_file [] (omega arith)
