-- ===== src/TypeScript/Targets.antt =====
-- `readTargets` of clients/typescript/src/polyfetch.ts. `trim` of strings is a parameter. A file that cannot
-- be read is `none`.
use polyfetch.Base.{
  Bool, true, false, ◌||◌, List, [], ◌∷◌, ◌++◌, foldl, Option, none, some, ◌==◌, if◌then◌else◌,
  Bytes,
}
use polyfetch.Targets.Split.{split}

-- `line === ""`
abbrev pub is_empty : Bytes → Bool
is_empty [] = true
is_empty (c ∷ s) = false

-- `line.startsWith("#")`
abbrev pub starts_comment : Bytes → Bool
starts_comment [] = false
starts_comment (c ∷ s) = c == b'#'

module _ (trim : Bytes → Bytes) where
  -- The body of the loop.
  unfoldable pub add_line : List Bytes → Bytes → List Bytes
  add_line out raw =
      let line = trim raw in if is_empty line || starts_comment line then out else out ++ line ∷ []

  unfoldable pub read_targets : Option Bytes → Option (List Bytes)
  read_targets none = none
  read_targets (some text) = some (foldl add_line [] (split text))
