-- ===== src/Report/Line.antt =====
-- A record that meets the contract is read back from its line.
use native.Mathlib.Bridge.{le_prop}
use polyfetch.Base.{
  ℕ, suc, ◌+◌, ◌-◌, ◌*◌, ◌<◌, ◌≡◌, refl, ◌∙◌, ap, arith, inl, inr, true, false, [], ◌∷◌, ◌++◌,
  append_assoc, some, length, Bytes, codes, All, ◌==◌, Bool-cases,
}
use polyfetch.Base.Int.{ℤ, pos, negsuc, sub_ℕ}
use polyfetch.Base.Decimal.{
  show_ℕ, show_ℤ, IsDigit, value, show_ℕ-IsDigit, value-show_ℕ, length-show_ℕ_pos,
}
use polyfetch.Base.Result.{◌>>=◌}
use polyfetch.Fetch.{Record}
use polyfetch.Report.{write_record, write_error, json_escape, str_eq}
use polyfetch.Report.Escape.{IsClean, read_string-json_escape, json_escape-IsClean}
use polyfetch.Report.Reader.{is_digit, read_digits, read_ℕ, read_ℤ, expect, read_error, read_record}

-- The text behind an integer does not go on with a digit.
abbrev EndsDigits : Bytes → Type 0
EndsDigits [] = Unit
EndsDigits (c ∷ s) = is_digit c ≡ false

read_digits-append :
    (n : ℕ) (ds s : Bytes)
    → All IsDigit ds
    → EndsDigits s
    → read_digits n (ds ++ s) ≡ (value n ds, s)
unfolding read_digits
read_digits-append n [] [] h e = refl
read_digits-append n [] (c ∷ s) h e = rw (e, read_digits)
read_digits-append n (d ∷ ds) s h e =
    let yes_digit : is_digit d ≡ true = unfold is_digit in ground (arith, h.0) in
    rw (yes_digit, read_digits) (read_digits-append (n * 10 + (d - b'0')) ds s h.1 e)

read_ℕ-digits :
    (ds s : Bytes)
    → 0 < length ds
    → All IsDigit ds
    → EndsDigits s
    → read_ℕ (ds ++ s) ≡ some (value 0 ds, s)
unfolding read_ℕ
read_ℕ-digits [] s lt h e = absurd (omega arith)
read_ℕ-digits (d ∷ ds) s lt h e =
    let yes_digit : is_digit d ≡ true = unfold is_digit in ground (arith, h.0) in
    rw yes_digit (ap some (read_digits-append 0 (d ∷ ds) s h e))

read_ℕ-show_ℕ : (n : ℕ) (s : Bytes) → EndsDigits s → read_ℕ (show_ℕ n ++ s) ≡ some (n, s)
read_ℕ-show_ℕ n s e =
    read_ℕ-digits (show_ℕ n) s (length-show_ℕ_pos n) (show_ℕ-IsDigit n) e ∙ rw (value-show_ℕ n)

read_ℤ-digits :
    (ds s : Bytes)
    → 0 < length ds
    → All IsDigit ds
    → read_ℤ (ds ++ s) ≡ (read_ℕ (ds ++ s) >>= λ (n, rest). some (pos n, rest))
unfolding read_ℤ
read_ℤ-digits [] s lt h = absurd (omega arith)
read_ℤ-digits (d ∷ ds) s lt h =
    let no_minus : (d == b'-') ≡ false = ground (arith, h.0) in rw no_minus

minus_eq : (n : ℕ) → sub_ℕ 0 (suc n) ≡ negsuc n
minus_eq n = ground arith

read_ℤ-show_ℤ : (z : ℤ) (s : Bytes) → EndsDigits s → read_ℤ (show_ℤ z ++ s) ≡ some (z, s)
unfolding show_ℤ
read_ℤ-show_ℤ (pos n) s e =
    read_ℤ-digits (show_ℕ n) s (length-show_ℕ_pos n) (show_ℕ-IsDigit n) ∙ rw (read_ℕ-show_ℕ n s e)
read_ℤ-show_ℤ (negsuc n) s e =
    unfold read_ℤ in rw (read_ℕ-show_ℕ (suc n) s e) (ap (λ z. some (z, s)) (minus_eq n))

-- What the contract asks of a record, as far as its line shows it.
pub record IsPrintable (r : Record) : Type 0 where
  pub status_clean : IsClean r.status
  pub sha_clean : IsClean r.sha256
  pub no_error : str_eq r.status (codes "ok") ≡ true → r.error ≡ []

IsClean-prop : (s : Bytes) → IsProp (IsClean s)
IsClean-prop [] = hlevel
IsClean-prop (c ∷ s) = hlevel (IsClean-prop s, le_prop)

pub IsPrintable-prop : (r : Record) → IsProp (IsPrintable r)
IsPrintable-prop r = hlevel (IsClean-prop r.status, IsClean-prop r.sha256)

-- The line with the text behind it, bracketed to the right.
line : Record → Bytes → Bytes
line r rest =
    codes "{\"target\":\""
    ++ (json_escape r.target
        ++ (codes "\",\"status\":\""
            ++ (json_escape r.status
                ++ (codes "\",\"size_bytes\":"
                    ++ (show_ℤ r.size_bytes
                        ++ (codes ",\"line_count\":"
                            ++ (show_ℤ r.line_count
                                ++ (codes ",\"sha256\":\""
                                    ++ (json_escape r.sha256
                                        ++ (codes "\",\"fetch_ms\":"
                                            ++ (show_ℤ r.fetch_ms
                                                ++ (write_error r
                                                    ++ (codes "}\n" ++ rest)))))))))))))

write_record-line :
    (r : Record) (rest : Bytes) → IsPrintable r → write_record r ++ rest ≡ line r rest
unfolding write_record line
write_record-line r rest p =
    rw (json_escape-IsClean r.status p.status_clean, json_escape-IsClean r.sha256 p.sha_clean)
      (simp append_assoc)

read_error-write_error :
    (r : Record) (rest : Bytes)
    → IsPrintable r
    → read_error (write_error r ++ (codes "}\n" ++ rest)) ≡ some (r.error, rest)
unfolding write_error read_error expect
read_error-write_error r rest p = elim (Bool-cases (str_eq r.status (codes "ok"))) [
  | inl ok ↦ rw (ok, p.no_error ok)
  | inr error ↦ rw error (
      rw (
        append_assoc (json_escape r.error) (0x22 ∷ []) (codes "}\n" ++ rest),
        read_string-json_escape r.error,
      ))
]

write_error-EndsDigits :
    (r : Record) (rest : Bytes) → EndsDigits (write_error r ++ (codes "}\n" ++ rest))
unfolding write_error is_digit
write_error-EndsDigits r rest = elim (Bool-cases (str_eq r.status (codes "ok"))) [
  | inl ok ↦ rw ok
  | inr error ↦ rw error
]

read_record-line :
    (r : Record) (rest : Bytes) → IsPrintable r → read_record (line r rest) ≡ some (r, rest)
unfolding read_record line expect is_digit
read_record-line r rest p = rw (
  read_string-json_escape r.target,
  read_string-json_escape r.status,
  read_ℤ-show_ℤ r.size_bytes _ refl,
  read_ℤ-show_ℤ r.line_count _ refl,
  read_string-json_escape r.sha256,
  read_ℤ-show_ℤ r.fetch_ms _ (write_error-EndsDigits r rest),
  read_error-write_error r rest p,
)

-- From the line of a record that is printable (status and digest need no escapes, and there is an error
-- text only if the status is not "ok") a reader gets back every field, and the text behind the line.
pub read_record-write_record :
    (r : Record) (rest : Bytes)
    → IsPrintable r
    → read_record (write_record r ++ rest) ≡ some (r, rest)
read_record-write_record r rest p = rw (write_record-line r rest p) (read_record-line r rest p)
