-- ===== src/Python/Targets.antt =====
-- `read_targets` of clients/python/polyfetch.py. `strip` of strings is a parameter, and so is what reading a
-- file as text gives for its bytes: it decodes UTF-8 and makes each line end a line feed.
use polyfetch.Base.{
  Bool, true, false, ◌||◌, List, [], ◌∷◌, ◌++◌, foldl, Option, none, some, ◌==◌, if◌then◌else◌,
  Bytes,
}
use polyfetch.Targets.Split.{split}

-- What the call ends in: `None`, the exception of bytes that are no UTF-8, or the targets.
pub data Lines : Type 0 where
  unreadable raised : Lines
  read : List Bytes → Lines

-- `not line`
abbrev pub is_empty : Bytes → Bool
is_empty [] = true
is_empty (c ∷ s) = false

-- `line.startswith("#")`
abbrev pub starts_comment : Bytes → Bool
starts_comment [] = false
starts_comment (c ∷ s) = c == b'#'

module _ (strip : Bytes → Bytes) where
  -- The body of the loop.
  unfoldable pub add_line : List Bytes → Bytes → List Bytes
  add_line out raw =
      let line = strip raw in if is_empty line || starts_comment line then out else out ++ line ∷ []

  unfoldable pub text_targets : Option Bytes → Lines
  text_targets none = raised
  text_targets (some text) = read (foldl add_line [] (split text))

  module _ (decode : Bytes → Option Bytes) where
    unfoldable pub read_targets : Option Bytes → Lines
    read_targets none = unreadable
    read_targets (some content) = text_targets (decode content)
