-- ===== src/Tests/Server.antt =====
-- An example for the theorem on the payload server: three bytes.
use polyfetch.Base.{
  ℕ, ◌+◌, ◌-◌, ◌<◌, ◌≡◌, refl, arith, [], ◌∷◌, Option, none, some, length, get_or, Bytes, codes,
  Bool, ◌==◌, inl,
}
use polyfetch.Base.Int.{ℤ, pos}
use polyfetch.Server.{
  Library, seed_from_id, parameter, size_of, delay_of, status_of, handle_payload,
}
use polyfetch.Server.Handler.{handle_payload-Drawn}
use polyfetch.Server.Payload.{drawn_byte}

-- A library that reads one digit, and draws numbers in sequence.
abbrev digit : Bytes → Option ℤ
digit [] = none
digit (c ∷ s) = some (pos (c - b'0'))

abbrev library : Library
library = record { atoi = digit; fnv64a = λ m. length m; uint64 = λ s1 s2 k. s1 + s2 + k }

three_bytes : size_of library (codes "3") ≡ some (pos 3)
unfolding size_of parameter
three_bytes = refl

no_delay : delay_of library [] ≡ some (pos 0)
unfolding delay_of parameter
no_delay = refl

status_ok : status_of library [] ≡ some (pos 200)
unfolding status_of parameter
status_ok = refl

-- The second call of `Write` fails, and is never made for three bytes.
abbrev one_write : ℕ → Bool
one_write j = j == 0

handle_payload-Drawn_example :
    let response = handle_payload library one_write (codes "a") (codes "3") [] [] in
    let (seed1, seed2) = seed_from_id library (codes "a") in
    (response.status ≡ pos 200)
    × (length response.body ≡ 3)
    × ((i : ℕ) → i < 3 → get_or response.body i 0 ≡ drawn_byte (library.uint64 seed1 seed2) i)
handle_payload-Drawn_example =
    handle_payload-Drawn library one_write (codes "a") (codes "3") [] [] (pos 3) (pos 0) (pos 200) 1
      three_bytes no_delay status_ok (omega arith) (omega arith) (λ j lt. ground arith) (inl refl)
