-- ===== src/Report/Escape.antt =====
-- What `json_escape` writes, a JSON reader reads back.
use native.Mathlib.Decide.{ℕ_discrete, dec_lt}
use polyfetch.Base.{
  ℕ, zero, suc, ◌+◌, ◌*◌, ◌/◌, ◌%◌, ◌≤◌, ◌<◌, ◌≡◌, ◌≢◌, refl, ◌∙◌, ap, arith, [], ◌∷◌, ◌++◌,
  append_assoc, Option, some, length, get_or, bit_and, lt→ltb, Bytes, codes, All,
}
use polyfetch.Base.Bits.{and_nibble}
use polyfetch.Base.Result.{◌>>=◌}
use polyfetch.Report.{hex, escape_char, json_escape}
use polyfetch.Report.Reader.{
  Mode, plain, escaped, hexed, stop, emit, go, hex_value, escape_action, hex_action, action,
  read_string,
}

-- `read_string` with one character put in front of what it reads.
abbrev cons_read : ℕ → Option (Bytes × Bytes) → Option (Bytes × Bytes)
cons_read b o = o >>= λ (t, rest). some (b ∷ t, rest)

read_string_stop :
    (m : Mode) (c : ℕ) (s : Bytes) → action m c ≡ stop → read_string m (c ∷ s) ≡ some ([], s)
unfolding read_string
read_string_stop m c s e = rw (e, read_string)

read_string_emit :
    (m : Mode) (c b : ℕ) (s : Bytes)
    → action m c ≡ emit b
    → read_string m (c ∷ s) ≡ cons_read b (read_string plain s)
unfolding read_string
read_string_emit m c b s e = rw (e, read_string)

read_string_go :
    (m m' : Mode) (c : ℕ) (s : Bytes)
    → action m c ≡ go m'
    → read_string m (c ∷ s) ≡ read_string m' s
unfolding read_string
read_string_go m m' c s e = rw (e, read_string)

-- A digit of the table has its place as its value.
abbrev IsDigitOf : ℕ → Bytes → Type 0
IsDigitOf n [] = Unit
IsDigitOf n (c ∷ cs) = (hex_value c ≡ some n) × IsDigitOf (suc n) cs

hex_value-get_or :
    (n i : ℕ) (cs : Bytes)
    → IsDigitOf n cs
    → i < length cs
    → hex_value (get_or cs i 0) ≡ some (n + i)
hex_value-get_or n i [] h lt = absurd (omega arith)
hex_value-get_or n zero (c ∷ cs) h lt = h.0 ∙ ap some (omega arith)
hex_value-get_or n (suc i) (c ∷ cs) h lt =
    hex_value-get_or (suc n) i cs h.1 (omega arith) ∙ ap some (omega arith)

hex_digits : IsDigitOf 0 hex
unfolding hex_value
hex_digits = (
  refl,
  (
    refl,
    (
      refl,
      (
        refl,
        (
          refl,
          (
            refl,
            (refl, (refl, (refl, (refl, (refl, (refl, (refl, (refl, (refl, (refl, tt)))))))))),
          ),
        ),
      ),
    ),
  ),
)

hex_value-hex : (d : ℕ) → d < 16 → hex_value (get_or hex d 0) ≡ some d
hex_value-hex d lt = hex_value-get_or 0 d hex hex_digits lt ∙ ap some (omega arith)

first_digit : (d : ℕ) → d < 16 → action (hexed 2 0) (get_or hex d 0) ≡ go (hexed 1 d)
unfolding action hex_action
first_digit d lt = rw (hex_value-hex d lt) (ap (λ (v : ℕ). go (hexed 1 v)) (omega arith))

second_digit :
    (v d c : ℕ) → d < 16 → v * 16 + d ≡ c → c < 0x80 → action (hexed 1 v) (get_or hex d 0) ≡ emit c
unfolding action hex_action
second_digit v d c lt e small = rw (hex_value-hex d lt, e, lt→ltb c 0x80 small)

-- A control character that has no short form.
read-control :
    (c : ℕ) (t : Bytes)
    → c < 0x20
    → read_string plain (codes "\\u00" ++ get_or hex (c / 16) 0 ∷ get_or hex (bit_and c 0x0f) 0 ∷ t)
      ≡ cons_read c (read_string plain t)
read-control c t lt =
    read_string_go plain escaped 0x5c _ (unfold action in refl)
    ∙ read_string_go escaped (hexed 4 0) b'u' _ (unfold action escape_action in refl)
    ∙ read_string_go (hexed 4 0) (hexed 3 0) b'0' _ (unfold action hex_action hex_value in refl)
    ∙ read_string_go (hexed 3 0) (hexed 2 0) b'0' _ (unfold action hex_action hex_value in refl)
    ∙ read_string_go (hexed 2 0) (hexed 1 (c / 16)) (get_or hex (c / 16) 0) _
        (first_digit (c / 16) (omega arith))
    ∙ read_string_emit (hexed 1 (c / 16)) (get_or hex (bit_and c 0x0f) 0) c t (
        rw (and_nibble c)
          (second_digit (c / 16) (c % 16) c (omega arith) (omega arith) (omega arith)))

-- The characters that have no short form.
abbrev IsOrdinary : ℕ → Type 0
IsOrdinary c =
    (c ≢ 0x22) × (c ≢ 0x5c) × (c ≢ 0x08) × (c ≢ 0x0c) × (c ≢ 0x0a) × (c ≢ 0x0d) × (c ≢ 0x09)

escape_char-control :
    (c : ℕ)
    → IsOrdinary c
    → c < 0x20
    → escape_char c ≡ codes "\\u00" ++ get_or hex (c / 16) 0 ∷ get_or hex (bit_and c 0x0f) 0 ∷ []
unfolding escape_char
escape_char-control c h lt = ground arith

escape_char-plain : (c : ℕ) → IsOrdinary c → 0x20 ≤ c → escape_char c ≡ c ∷ []
unfolding escape_char
escape_char-plain c h le = ground arith

action-plain : (c : ℕ) → IsOrdinary c → 0x20 ≤ c → action plain c ≡ emit c
unfolding action
action-plain c h le = ground arith

-- Reading an escaped character gives the character back.
abbrev ReadsBack : ℕ → Bytes → Type 0
ReadsBack c t = read_string plain (escape_char c ++ t) ≡ cons_read c (read_string plain t)

read-ordinary : (c : ℕ) (t : Bytes) → IsOrdinary c → ReadsBack c t
read-ordinary c t h = elim (dec_lt c 0x20) [
  | yes control ↦ rw (escape_char-control c h control) (read-control c t control)
  | no other ↦
      rw (escape_char-plain c h (omega arith))
        (read_string_emit plain c c t (action-plain c h (omega arith)))
]

-- A backslash and a letter.
read-short :
    (c l : ℕ) (t : Bytes) → escape_char c ≡ 0x5c ∷ l ∷ [] → escape_action l ≡ emit c → ReadsBack c t
read-short c l t written read = rw written (
    read_string_go plain escaped 0x5c (l ∷ t) (unfold action in refl)
    ∙ read_string_emit escaped l c t (unfold action in read))

read-escape_char : (c : ℕ) (t : Bytes) → ReadsBack c t
unfolding escape_char escape_action
read-escape_char c t = elim (ℕ_discrete c 0x22) [
  | yes e ↦ rw e (read-short 0x22 0x22 t refl refl)
  | no n1 ↦ elim (ℕ_discrete c 0x5c) [
    | yes e ↦ rw e (read-short 0x5c 0x5c t refl refl)
    | no n2 ↦ elim (ℕ_discrete c 0x08) [
      | yes e ↦ rw e (read-short 0x08 b'b' t refl refl)
      | no n3 ↦ elim (ℕ_discrete c 0x0c) [
        | yes e ↦ rw e (read-short 0x0c b'f' t refl refl)
        | no n4 ↦ elim (ℕ_discrete c 0x0a) [
          | yes e ↦ rw e (read-short 0x0a b'n' t refl refl)
          | no n5 ↦ elim (ℕ_discrete c 0x0d) [
            | yes e ↦ rw e (read-short 0x0d b'r' t refl refl)
            | no n6 ↦ elim (ℕ_discrete c 0x09) [
              | yes e ↦ rw e (read-short 0x09 b't' t refl refl)
              | no n7 ↦ read-ordinary c t (n1, n2, n3, n4, n5, n6, n7)
            ]
          ]
        ]
      ]
    ]
  ]
]

json_escape-cons : (c : ℕ) (s : Bytes) → json_escape (c ∷ s) ≡ escape_char c ++ json_escape s
unfolding json_escape
json_escape-cons c s = refl

-- A JSON reader gets back every string that `json_escape` has escaped and a quote closes, and the text
-- behind the quote.
pub read_string-json_escape :
    (s rest : Bytes) → read_string plain (json_escape s ++ 0x22 ∷ rest) ≡ some (s, rest)
read_string-json_escape [] rest =
    unfold json_escape in read_string_stop plain 0x22 rest (unfold action in refl)
read_string-json_escape (c ∷ s) rest =
    rw (json_escape-cons c s, append_assoc (escape_char c) (json_escape s) (0x22 ∷ rest))
      (read-escape_char c (json_escape s ++ 0x22 ∷ rest)
        ∙ ap (cons_read c) (read_string-json_escape s rest))

-- Texts that are written as they are.
abbrev pub IsClean : Bytes → Type 0
IsClean = All (λ c. (0x20 ≤ c) × (c ≢ 0x22) × (c ≢ 0x5c))

pub json_escape-IsClean : (s : Bytes) → IsClean s → json_escape s ≡ s
unfolding json_escape
json_escape-IsClean [] h = refl
json_escape-IsClean (c ∷ s) h =
    rw (escape_char-plain c (omega arith) (omega arith)) (ap (◌∷◌ c) (json_escape-IsClean s h.1))
