-- ===== src/Server/Payload.antt =====
-- Every byte of a payload.
use native.Mathlib.Nat.{div-div-eq-div-mul}
use native.Mathlib.Decide.{dec_lt}
use polyfetch.Base.{
  ℕ, zero, suc, ◌+◌, ◌-◌, ◌*◌, ◌/◌, ◌%◌, ◌^◌, ◌≤◌, ◌<◌, ◌≡◌, refl, sym, ◌∙◌, ap, ap₂, subst, arith,
  inl, inr, ◌⊎◌, Bool, true, false, [], ◌∷◌, ◌++◌, append-nil, take, min, length, get_or, ltb,
  if◌then◌else◌, Bytes, Bool-cases, le→leb, lt→ltb, length-append, length-take, get_or-append_lt,
}
use polyfetch.Server.{le_bytes, fill_buf, write_body, chunk_size}

-- Byte `i` of the numbers that are drawn, each as eight bytes, the low byte first.
abbrev pub drawn_byte : (ℕ → ℕ) → ℕ → ℕ
drawn_byte draw i = draw (i / 8) / 256 ^ (i % 8) % 256

length-le_bytes : (n v : ℕ) → length (le_bytes n v) ≡ n
length-le_bytes zero v = refl
length-le_bytes (suc n) v = omega (arith, length-le_bytes n (v / 256))

get_or-le_bytes : (n v i : ℕ) → i < n → get_or (le_bytes n v) i 0 ≡ v / 256 ^ i % 256
get_or-le_bytes zero v i lt = absurd (omega arith)
get_or-le_bytes (suc n) v zero lt = omega arith
get_or-le_bytes (suc n) v (suc i) lt =
    get_or-le_bytes n (v / 256) i (omega arith)
    ∙ ap (λ (q : ℕ). q % 256) (div-div-eq-div-mul v 256 (256 ^ i))
    ∙ ap (λ (p : ℕ). v / p % 256) (grind arith)

get_or-append_ge :
    (xs ys : Bytes) (i : ℕ) → length xs ≤ i → get_or (xs ++ ys) i 0 ≡ get_or ys (i - length xs) 0
get_or-append_ge [] ys i le = ap (λ (j : ℕ). get_or ys j 0) (omega arith)
get_or-append_ge (x ∷ xs) ys zero le = absurd (omega arith)
get_or-append_ge (x ∷ xs) ys (suc i) le =
    get_or-append_ge xs ys i (omega arith) ∙ ap (λ (j : ℕ). get_or ys j 0) (omega arith)

get_or-take : (n i : ℕ) (xs : Bytes) → i < n → get_or (take n xs) i 0 ≡ get_or xs i 0
get_or-take zero i xs lt = absurd (omega arith)
get_or-take (suc n) i [] lt = refl
get_or-take (suc n) zero (x ∷ xs) lt = refl
get_or-take (suc n) (suc i) (x ∷ xs) lt = get_or-take n i xs (omega arith)

-- `n` bytes from draw `k` on.
pub record Drawn (draw : ℕ → ℕ) (k n : ℕ) (bytes : Bytes) : Type 0 where
  pub size : length bytes ≡ n
  pub each : (i : ℕ) → i < n → get_or bytes i 0 ≡ drawn_byte draw (k * 8 + i)

Drawn-size :
    {draw : ℕ → ℕ} {k n m : ℕ} {bytes : Bytes} → n ≡ m → Drawn draw k n bytes → Drawn draw k m bytes
Drawn-size {draw} {k} {n} {m} {bytes} e d = subst (λ l. Drawn draw k l bytes) e d

Drawn-append :
    (draw : ℕ → ℕ) (k k' n m : ℕ) (xs ys : Bytes)
    → k' * 8 ≡ k * 8 + n
    → Drawn draw k n xs
    → Drawn draw k' m ys
    → Drawn draw k (n + m) (xs ++ ys)
Drawn-append draw k k' n m xs ys e dx dy = record {
  size = length-append xs ys ∙ omega (arith, dx.size, dy.size);
  each = λ i lt. elim (Bool-cases (ltb i n)) [
    | inl first ↦
        get_or-append_lt xs ys i 0 (ground (arith, dx.size, first))
        ∙ dx.each i (ground (arith, first))
    | inr second ↦
        get_or-append_ge xs ys i (ground (arith, dx.size, second))
        ∙ ap (λ (j : ℕ). get_or ys j 0) (omega (arith, dx.size))
        ∙ dy.each (i - n) (ground (arith, second))
        ∙ ap (drawn_byte draw) (ground (arith, second))
  ];
}

Drawn-le_bytes : (draw : ℕ → ℕ) (k n : ℕ) → n ≤ 8 → Drawn draw k n (take n (le_bytes 8 (draw k)))
Drawn-le_bytes draw k n le = record {
  size = omega (arith, length-take n (le_bytes 8 (draw k)), length-le_bytes 8 (draw k));
  each = λ i lt.
      get_or-take n i (le_bytes 8 (draw k)) lt
      ∙ get_or-le_bytes 8 (draw k) i (omega arith)
      ∙ ap₂ (λ (q r : ℕ). draw q / 256 ^ r % 256) (omega arith) (omega arith);
}

fill_buf_more :
    (fuel : ℕ) (draw : ℕ → ℕ) (k left : ℕ)
    → 8 ≤ left
    → fill_buf (suc fuel) draw k left ≡ (
      le_bytes 8 (draw k) ++ (fill_buf fuel draw (k + 1) (left - 8)).0,
      (fill_buf fuel draw (k + 1) (left - 8)).1,
    )
unfolding fill_buf
fill_buf_more fuel draw k left le = rw (fill_buf, le→leb 8 left le) refl

fill_buf_last :
    (fuel : ℕ) (draw : ℕ → ℕ) (k left : ℕ)
    → 0 < left
    → left < 8
    → fill_buf (suc fuel) draw k left ≡ (take left (le_bytes 8 (draw k)), k + 1)
unfolding fill_buf
fill_buf_last fuel draw k left pos lt = ground arith

fill_buf_none : (fuel : ℕ) (draw : ℕ → ℕ) (k : ℕ) → fill_buf fuel draw k 0 ≡ ([], k)
unfolding fill_buf
fill_buf_none zero draw k = refl
fill_buf_none (suc fuel) draw k = refl

write_body_none :
    (fuel : ℕ) (accepts : ℕ → Bool) (j : ℕ) (draw : ℕ → ℕ) (k : ℕ)
    → write_body fuel accepts j draw k 0 ≡ []
unfolding write_body
write_body_none zero accepts j draw k = refl
write_body_none (suc fuel) accepts j draw k = refl

append_left :
    (went : Bool) (xs rest : Bytes)
    → rest ≡ []
    → xs ++ (elim went as (λ b. Bytes) [ true ↦ rest | false ↦ [] ]) ≡ xs
append_left true xs rest e = ap (◌++◌ xs) e ∙ append-nil xs
append_left false xs rest e = append-nil xs

module _ (fuel : ℕ) (accepts : ℕ → Bool) (j : ℕ) (draw : ℕ → ℕ) (k remaining : ℕ) where
  -- A chunk of `n` bytes, and what follows when its call of `Write` went so.
  abbrev chunk_then : ℕ → Bool → Bytes
  chunk_then n went = (fill_buf n draw k n).0 ++ (elim went as (λ b. Bytes) [
    | true ↦ write_body fuel accepts (j + 1) draw (fill_buf n draw k n).1 (remaining - n)
    | false ↦ []
  ])

  write_body_step :
      (n : ℕ)
      → 0 < remaining
      → (if ltb chunk_size remaining then chunk_size else remaining) ≡ n
      → write_body (suc fuel) accepts j draw k remaining ≡ chunk_then n (accepts j)
  unfolding write_body
  write_body_step n pos e =
      rw (write_body, lt→ltb 0 remaining pos) (ap (λ n. chunk_then n (accepts j)) e)

  write_body_more :
      (went : Bool)
      → chunk_size < remaining
      → accepts j ≡ went
      → write_body (suc fuel) accepts j draw k remaining ≡ chunk_then chunk_size went
  write_body_more went lt e =
      write_body_step chunk_size (omega arith) (rw (lt→ltb chunk_size remaining lt) refl)
      ∙ ap (chunk_then chunk_size) e

  write_body_last :
      0 < remaining
      → remaining ≤ chunk_size
      → write_body (suc fuel) accepts j draw k remaining ≡ (fill_buf remaining draw k remaining).0
  write_body_last pos le =
      let last : ltb chunk_size remaining ≡ false = ground arith in
      let nothing : remaining - remaining ≡ 0 = omega arith in
      let k' = (fill_buf remaining draw k remaining).1 in
      write_body_step remaining pos (rw last refl)
      ∙ append_left (accepts j) (fill_buf remaining draw k remaining).0 _ (
          ap (write_body fuel accepts (j + 1) draw k') nothing
          ∙ write_body_none fuel accepts (j + 1) draw k')

Drawn-none : (draw : ℕ → ℕ) (k : ℕ) → Drawn draw k 0 []
Drawn-none draw k = record { size = refl; each = λ i lt. absurd (omega arith) }

-- The buffer is filled, and no draw is lost behind a whole number of draws.
fill_buf-Drawn :
    (fuel : ℕ) (draw : ℕ → ℕ) (k left : ℕ)
    → left ≤ fuel
    → Drawn draw k left (fill_buf fuel draw k left).0
      × (left % 8 ≡ 0 → (fill_buf fuel draw k left).1 * 8 ≡ k * 8 + left)
fill_buf-Drawn fuel draw k zero le =
    rw (fill_buf_none fuel draw k) (Drawn-none draw k, λ whole. omega arith)
fill_buf-Drawn zero draw k (suc left) le = absurd (omega arith)
fill_buf-Drawn (suc fuel) draw k (suc left) le = elim (dec_lt left 7) [
  | yes few ↦ rw (fill_buf_last fuel draw k (suc left) (omega arith) (omega (arith, few))) (
    Drawn-le_bytes draw k (suc left) (omega (arith, few)),
    λ whole. absurd (omega (arith, whole, few)),
  )
  | no many ↦
      let (rest, next) = fill_buf-Drawn fuel draw (k + 1) (suc left - 8) (omega arith) in
      let room : 8 + (suc left - 8) ≡ suc left = omega (arith, many) in
      rw (fill_buf_more fuel draw k (suc left) (omega (arith, many))) (
        Drawn-size room (
            Drawn-append draw k (k + 1) 8 (suc left - 8) (le_bytes 8 (draw k)) _ (omega arith)
              (Drawn-le_bytes draw k 8 (omega arith)) rest),
        λ whole. omega (arith, room, next (omega (arith, room, whole))),
      )
]

-- When `f` calls of `Write` succeed before one fails, the loop hands over `f + 1` chunks, or all bytes if
-- these are fewer; and they are the bytes of the draws.
pub write_body-Drawn :
    (fuel : ℕ) (accepts : ℕ → Bool) (j : ℕ) (draw : ℕ → ℕ) (k remaining f : ℕ)
    → remaining ≤ fuel
    → ((i : ℕ) → i < f → accepts (j + i) ≡ true)
    → (accepts (j + f) ≡ false) ⊎ (remaining ≤ f * chunk_size)
    → Drawn draw k
        (min remaining ((f + 1) * chunk_size))
        (write_body fuel accepts j draw k remaining)
write_body-Drawn fuel accepts j draw k zero f le went ends =
    rw (write_body_none fuel accepts j draw k) (Drawn-size (omega arith) (Drawn-none draw k))
write_body-Drawn zero accepts j draw k (suc remaining) f le went ends = absurd (omega arith)
write_body-Drawn (suc fuel) accepts j draw k (suc remaining) f le went ends =
    elim (dec_lt chunk_size (suc remaining)) [
      | no last ↦
          rw
            (write_body_last fuel accepts j draw k (suc remaining) (omega arith)
              (omega (arith, last)))
            (Drawn-size (omega (arith, last))
              (fill_buf-Drawn (suc remaining) draw k (suc remaining) (omega arith)).0)
      | yes more ↦ by_calls more f went ends (λ f went ends.
          write_body-Drawn fuel accepts (j + 1) draw _ (suc remaining - chunk_size) f
            (omega (arith, more)) went ends)
    ]
  where
    k' : ℕ
    k' = (fill_buf chunk_size draw k chunk_size).1

    left : ℕ
    left = suc remaining - chunk_size

    buf :
        Drawn draw k chunk_size (fill_buf chunk_size draw k chunk_size).0
        × (chunk_size % 8 ≡ 0 → k' * 8 ≡ k * 8 + chunk_size)
    buf = fill_buf-Drawn chunk_size draw k chunk_size (omega arith)

    at : (i i' : ℕ) {b : Bool} → i ≡ i' → accepts i' ≡ b → accepts i ≡ b
    at i i' e h = ap accepts e ∙ h

    by_calls :
        chunk_size < suc remaining
        → (f : ℕ) → ((i : ℕ) → i < f → accepts (j + i) ≡ true)
        → (accepts (j + f) ≡ false) ⊎ (suc remaining ≤ f * chunk_size)
        → ((f : ℕ)
            → ((i : ℕ) → i < f → accepts (j + 1 + i) ≡ true)
            → (accepts (j + 1 + f) ≡ false) ⊎ (left ≤ f * chunk_size)
            → Drawn draw k'
                (min left ((f + 1) * chunk_size))
                (write_body fuel accepts (j + 1) draw k' left))
        → Drawn draw k
            (min (suc remaining) ((f + 1) * chunk_size))
            (write_body (suc fuel) accepts j draw k (suc remaining))
    by_calls more zero went (inr none) rest = absurd (omega arith)
    by_calls more zero went (inl failed) rest =
        subst (Drawn draw k _)
          (sym (
            write_body_more fuel accepts j draw k (suc remaining) false more
              (at j (j + 0) (omega arith) failed)
            ∙ append-nil _))
          (Drawn-size (omega (arith, more)) buf.0)
    by_calls more (suc f) went ends rest =
        let room : chunk_size + min left ((f + 1) * chunk_size)
            ≡ min (suc remaining) ((suc f + 1) * chunk_size) =
          omega (arith, more) in
        let others =
          rest f (λ i lt. at (j + 1 + i) (j + suc i) (omega arith) (went (suc i) (omega arith)))
            (later ends) in
        subst (Drawn draw k _)
          (sym (
            write_body_more fuel accepts j draw k (suc remaining) true more
              (at j (j + 0) (omega arith) (went 0 (omega arith)))))
          (Drawn-size room (
            Drawn-append draw k k' chunk_size (min left ((f + 1) * chunk_size)) _ _
              (buf.1 (omega arith)) buf.0 others))
      where
        later :
            (accepts (j + suc f) ≡ false) ⊎ (suc remaining ≤ suc f * chunk_size)
            → (accepts (j + 1 + f) ≡ false) ⊎ (left ≤ f * chunk_size)
        later (inl failed) = inl (at (j + 1 + f) (j + suc f) (omega arith) failed)
        later (inr few) = inr (omega arith)
