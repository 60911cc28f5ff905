-- ===== src/Server.antt =====
-- server/main.go: what the payload server answers. `strconv.Atoi`, the hash of `hash/fnv` and the numbers
-- of `math/rand/v2` are parameters; the query is taken apart by `net/url`, so its three values are
-- arguments, and so is what each call of `Write` returns.
pub mod Payload
pub mod Handler
use polyfetch.Base.{
  ℕ, zero, suc, ◌+◌, ◌-◌, ◌*◌, ◌/◌, ◌%◌, ◌^◌, Bool, true, false, ◌||◌, not, List, [], ◌∷◌, ◌++◌,
  Option, none, some, take, length, ltb, leb, ◌==◌, if◌then◌else◌, Bytes, codes,
}
use polyfetch.Base.Int.{ℤ, pos, pos_part, ltb_ℤ}

abbrev pub default_size : ℕ
default_size = 2 ^ 20

abbrev pub chunk_size : ℕ
chunk_size = 32 * 1024

-- What the server uses of Go's library.
pub record Library : Type 0 where
  pub atoi : Bytes → Option ℤ
  pub fnv64a : Bytes → ℕ
  pub uint64 : (seed1 seed2 : ℕ) → ℕ → ℕ

-- A response: `delay` milliseconds, the status that `WriteHeader` is given, and what the calls of
-- `Write` are given, one after the other.
pub record Response : Type 0 where
  pub delay : ℤ
  pub status : ℤ
  pub body : Bytes

unfoldable pub seed_from_id : Library → Bytes → ℕ × ℕ
seed_from_id lib id = (lib.fnv64a id, lib.fnv64a (codes "polyfetch:" ++ id))

-- `binary.LittleEndian.PutUint64`: `n` bytes of a number, the low byte first.
abbrev pub le_bytes : ℕ → ℕ → Bytes
le_bytes zero v = []
le_bytes (suc n) v = v % 256 ∷ le_bytes n (v / 256)

-- `fillBuf` on what is left of the buffer, with fuel: the bytes, and the number of the next draw.
unfoldable pub fill_buf : ℕ → (ℕ → ℕ) → ℕ → ℕ → Bytes × ℕ
fill_buf zero draw k left = ([], k)
fill_buf (suc fuel) draw k left = elim (leb 8 left) [
  | true ↦
      let (rest, k') = fill_buf fuel draw (k + 1) (left - 8) in (le_bytes 8 (draw k) ++ rest, k')
  | false ↦ if ltb 0 left then (take left (le_bytes 8 (draw k)), k + 1) else ([], k)
]

-- The loop that writes the body, with fuel, from the call `j` of `Write` on: a call that fails, where
-- `accepts` is false, is the last one.
unfoldable pub write_body : ℕ → (ℕ → Bool) → (j : ℕ) → (ℕ → ℕ) → ℕ → ℕ → Bytes
write_body zero accepts j draw k remaining = []
write_body (suc fuel) accepts j draw k remaining = elim (ltb 0 remaining) [
  | true ↦
      let n = if ltb chunk_size remaining then chunk_size else remaining in
      let (buf, k') = fill_buf n draw k n in
      buf ++ (elim (accepts j) [
        | true ↦ write_body fuel accepts (j + 1) draw k' (remaining - n)
        | false ↦ []
      ])
  | false ↦ []
]

-- The value of a parameter: its default when it is not there, `none` when it is no number or outside
-- of its range.
unfoldable pub parameter : Library → ℤ → (ℤ → Bool) → Bytes → Option ℤ
parameter lib default_value invalid [] = some default_value
parameter lib default_value invalid (c ∷ s) = elim (lib.atoi (c ∷ s)) [
  | none ↦ none
  | some n ↦ if invalid n then none else some n
]

-- The three parameters of the query.
unfoldable pub size_of : Library → Bytes → Option ℤ
size_of lib s = parameter lib (pos default_size) (λ n. ltb_ℤ n (pos 0)) s

unfoldable pub delay_of : Library → Bytes → Option ℤ
delay_of lib d = parameter lib (pos 0) (λ n. ltb_ℤ n (pos 0)) d

unfoldable pub status_of : Library → Bytes → Option ℤ
status_of lib s = parameter lib (pos 200) (λ n. ltb_ℤ n (pos 100) || ltb_ℤ (pos 599) n) s

abbrev pub bad_request : Bytes → Response
bad_request reason = record { delay = pos 0; status = pos 400; body = reason ++ codes "\n" }

-- The part behind the checks of the parameters. `accepts` says which calls of `Write` succeed.
unfoldable pub answer_payload :
    Library → (accepts : ℕ → Bool) → Bytes → (size delay status : ℤ) → Response
answer_payload lib accepts id size delay status =
    if ltb_ℤ status (pos 200) || not (ltb_ℤ status (pos 300))
    then record { delay = delay; status = status; body = [] }
    else (let (s1, s2) = seed_from_id lib id in
        record {
          delay = delay;
          status = status;
          body = write_body (pos_part size) accepts 0 (lib.uint64 s1 s2) 0 (pos_part size);
        })

unfoldable pub handle_payload :
    Library → (accepts : ℕ → Bool) → Bytes → (size delay status : Bytes) → Response
handle_payload lib accepts id size delay status = elim (size_of lib size) [
  | none ↦ bad_request (codes "invalid size")
  | some n ↦ elim (delay_of lib delay) [
    | none ↦ bad_request (codes "invalid delay")
    | some d ↦ elim (status_of lib status) [
      | none ↦ bad_request (codes "invalid status")
      | some s ↦ answer_payload lib accepts id n d s
    ]
  ]
]
