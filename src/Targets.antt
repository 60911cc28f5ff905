-- ===== src/Targets.antt =====
-- `read_targets` of clients/cpp/src/main.cpp: the targets file, from its bytes to the list of targets.
-- A file that cannot be opened is `none`. `npos` of a search is `none`.
pub mod Lines
pub mod Read
pub mod Complete
pub mod Split
use polyfetch.Base.{
  ℕ, zero, suc, ◌+◌, ◌-◌, ◌^◌, Bool, true, false, ◌||◌, List, [], ◌∷◌, ◌++◌, Option, none, some,
  length, get_or, take, drop, ◌==◌, if◌then◌else◌, Bytes, u64,
}

-- `" \t\r\n"` has the character.
unfoldable pub is_space : ℕ → Bool
is_space c = c == b' ' || c == b'\t' || c == b'\r' || c == b'\n'

-- `find_first_not_of`, on what stands from position `i`
unfoldable pub find_first_not_of : ℕ → Bytes → Option ℕ
find_first_not_of i [] = none
find_first_not_of i (c ∷ s) = elim (is_space c) [
  | true ↦ find_first_not_of (i + 1) s
  | false ↦ some i
]

-- `find_last_not_of`, on what stands from position `i`; `found` is the last position before it.
unfoldable pub find_last_not_of : ℕ → Bytes → Option ℕ → Option ℕ
find_last_not_of i [] found = found
find_last_not_of i (c ∷ s) found = find_last_not_of (i + 1) s (if is_space c then found else some i)

-- The number that `std::string::npos` is.
abbrev pub npos : ℕ
npos = 2 ^ 64 - 1

abbrev pub position : Option ℕ → ℕ
position none = npos
position (some i) = i

unfoldable pub substr : Bytes → ℕ → ℕ → Bytes
substr s b n = take n (drop b s)

-- `std::getline`: a line, without its line feed, and what is behind it.
unfoldable pub get_line : Bytes → Bytes × Bytes
get_line [] = ([], [])
get_line (c ∷ s) = elim (c == b'\n') [
  | true ↦ ([], s)
  | false ↦ (c ∷ (get_line s).0, (get_line s).1)
]

unfoldable pub is_skipped : Bytes → Bool
is_skipped [] = true
is_skipped (c ∷ t) = c == b'#'

-- The body of the loop, from a line to the targets so far.
unfoldable pub add_line : List Bytes → Bytes → List Bytes
add_line out line = elim (find_first_not_of 0 line) [
  | none ↦ out
  | some b ↦
      let e = position (find_last_not_of 0 line none) in
      let t = substr line b (u64 (e + 2 ^ 64 - b + 1)) in
      if is_skipped t then out else out ++ t ∷ []
]

-- `while (std::getline(f, line))`, with fuel; at the end of the file there is no further line.
unfoldable pub read_lines : ℕ → Bytes → List Bytes → List Bytes
read_lines zero content out = out
read_lines (suc fuel) [] out = out
read_lines (suc fuel) (c ∷ s) out =
    let (line, rest) = get_line (c ∷ s) in read_lines fuel rest (add_line out line)

unfoldable pub read_targets : Option Bytes → List Bytes → Bool × List Bytes
read_targets none out = (false, out)
read_targets (some content) out = (true, read_lines (length content) content out)
