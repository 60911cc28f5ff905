-- ===== src/Json.antt =====
-- Compact JSON, as the encoders of the clients' languages write it: the members of an object in order,
-- and integers in decimal. How a string is written is left to the encoder, the argument `quote`.
use polyfetch.Base.{Bool, true, false, List, [], ◌∷◌, ◌++◌, ◌≡◌, refl, ◌≤◌, ◌≢◌, Bytes, codes, All}
use polyfetch.Base.Int.{ℤ}
use polyfetch.Base.Decimal.{show_ℤ}

pub data Value : Type 0 where
  text : Bytes → Value
  number : ℤ → Value
  boolean : Bool → Value

abbrev pub Object : Type 0
Object = List (Bytes × Value)

-- A text as a string literal.
abbrev pub Quote : Type 0
Quote = Bytes → Bytes

module _ (quote : Quote) where
  abbrev pub print_value : Value → Bytes
  print_value (text s) = quote s
  print_value (number n) = show_ℤ n
  print_value (boolean true) = codes "true"
  print_value (boolean false) = codes "false"

  -- The members behind the first, and the closing brace.
  abbrev pub print_rest : Object → Bytes
  print_rest [] = codes "}"
  print_rest ((key, v) ∷ members) =
      codes "," ++ (quote key ++ (codes ":" ++ (print_value v ++ print_rest members)))

  abbrev pub print_object : Object → Bytes
  print_object [] = codes "{}"
  print_object ((key, v) ∷ members) =
      codes "{" ++ (quote key ++ (codes ":" ++ (print_value v ++ print_rest members)))

  -- A line ends in a newline.
  abbrev pub encode : Object → Bytes
  encode members = print_object members ++ codes "\n"

-- Texts with a separator between them.
abbrev pub join : Bytes → List Bytes → Bytes
join separator [] = []
join separator (s ∷ []) = s
join separator (s ∷ (t ∷ ts)) = s ++ (separator ++ join separator (t ∷ ts))

-- Printable ASCII that needs no escape.
abbrev pub IsPlain : Bytes → Type 0
IsPlain = All (λ c. (0x20 ≤ c) × (c ≤ 0x7e) × (c ≢ 0x22) × (c ≢ 0x5c))

-- The literal of such a text.
abbrev pub plain_quote : Quote
plain_quote s = 0x22 ∷ (s ++ codes "\"")

-- What an encoder promises: a text that needs no escape is written as it is.
abbrev pub IsEncoder : Quote → Type 0
IsEncoder quote = (s : Bytes) → IsPlain s → quote s ≡ plain_quote s

abbrev pub IsPlainValue : Value → Type 0
IsPlainValue (text s) = IsPlain s
IsPlainValue (number n) = Unit
IsPlainValue (boolean b) = Unit

abbrev pub IsPlainObject : Object → Type 0
IsPlainObject = All (λ m. IsPlain m.0 × IsPlainValue m.1)

module _ (quote : Quote) (encoder : IsEncoder quote) where
  print_value-plain : (v : Value) → IsPlainValue v → print_value quote v ≡ print_value plain_quote v
  print_value-plain (text s) h = encoder s h
  print_value-plain (number n) h = refl
  print_value-plain (boolean true) h = refl
  print_value-plain (boolean false) h = refl

  print_rest-plain :
      (members : Object)
      → IsPlainObject members
      → print_rest quote members ≡ print_rest plain_quote members
  print_rest-plain [] h = refl
  print_rest-plain ((key, v) ∷ members) ((k, p), h) =
      rw (encoder key k, print_value-plain v p, print_rest-plain members h) refl

  -- Every encoder writes a plain object in the same way.
  pub print_object-plain :
      (members : Object)
      → IsPlainObject members
      → print_object quote members ≡ print_object plain_quote members
  print_object-plain [] h = refl
  print_object-plain ((key, v) ∷ members) ((k, p), h) =
      rw (encoder key k, print_value-plain v p, print_rest-plain members h) refl
