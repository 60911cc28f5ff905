-- ===== src/Contract/Plain.antt =====
-- Reports for plain targets: every encoder prints them in the same way.
use mathlib.Core.List.{Perm}
use mathlib.Core.List.Perm
use native.Mathlib.Bridge.{le_prop}
use native.Mathlib.Decide.{ℕ_discrete}
use polyfetch.Base.{
  ◌≡◌, ◌≢◌, ap, arith, inl, inr, true, false, List, [], ◌∷◌, ◌++◌, map, ◌==◌, Bytes, codes, All,
  All-append, Bool-cases,
}
use polyfetch.Base.Int.{ℤ, pos, negsuc}
use polyfetch.Base.Decimal.{show_ℕ, show_ℤ, IsDigit, show_ℕ-IsDigit}
use polyfetch.Json.{Quote, IsPlain, IsEncoder, IsPlainObject, encode, print_object-plain}
use polyfetch.Fetch.{Record, curle_ok}
use polyfetch.Sha256.Fips.{hex, words_bytes}
use polyfetch.Sha256.Hex.{IsHexDigit, hex-words_bytes-IsHexDigit}
use polyfetch.Sha256.Standard.{fips_digest, fips_hash}
use polyfetch.Report.{str_eq}
use polyfetch.Report.Expected.{Reply, is_success, failure, expected, answer}
use polyfetch.Report.Sorted.{untimed}
use polyfetch.Report.Summary.{All-of_mem, mem-All, IsSized}
use polyfetch.Contract.{record_object, footer_object, print_line}

-- Every text of the record is plain.
abbrev pub IsPlainRecord : Record → Type 0
IsPlainRecord r = IsPlain r.target × IsPlain r.status × IsPlain r.sha256 × IsPlain r.error

IsPlain-prop : (s : Bytes) → IsProp (IsPlain s)
IsPlain-prop [] = hlevel
IsPlain-prop (c ∷ s) = hlevel (IsPlain-prop s, le_prop)

pub IsPlainRecord-prop : (r : Record) → IsProp (IsPlainRecord r)
IsPlainRecord-prop r =
    hlevel
      (IsPlain-prop r.target, IsPlain-prop r.status, IsPlain-prop r.sha256, IsPlain-prop r.error)

record_object-IsPlain : (r : Record) → IsPlainRecord r → IsPlainObject (record_object r)
record_object-IsPlain r (target, status, sha, error) =
    elim (Bool-cases (str_eq r.status (codes "ok"))) [
      | inl ok ↦ rw ok (
        (omega arith, target),
        (
          (omega arith, status),
          ((omega arith, tt), ((omega arith, tt), ((omega arith, sha), ((omega arith, tt), tt)))),
        ),
      )
      | inr failed ↦ rw failed (
        (omega arith, target),
        (
          (omega arith, status),
          (
            (omega arith, tt),
            (
              (omega arith, tt),
              ((omega arith, sha), ((omega arith, tt), ((omega arith, error), tt))),
            ),
          ),
        ),
      )
    ]

digits-IsPlain : (ds : Bytes) → All IsDigit ds → IsPlain ds
digits-IsPlain [] h = tt
digits-IsPlain (d ∷ ds) h = (
  (omega (arith, h.0), omega (arith, h.0), λ e. omega (arith, h.0), λ e. omega (arith, h.0)),
  digits-IsPlain ds h.1,
)

show_ℤ-IsPlain : (z : ℤ) → IsPlain (show_ℤ z)
unfolding show_ℤ
show_ℤ-IsPlain (pos n) = digits-IsPlain (show_ℕ n) (show_ℕ-IsDigit n)
show_ℤ-IsPlain (negsuc n) = (omega arith, digits-IsPlain _ (show_ℕ-IsDigit _))

hex-IsPlain : (s : Bytes) → All IsHexDigit s → IsPlain s
hex-IsPlain [] h = tt
hex-IsPlain (c ∷ s) (inl d, h) =
    ((omega arith, omega arith, λ e. omega arith, λ e. omega arith), hex-IsPlain s h)
hex-IsPlain (c ∷ s) (inr d, h) =
    ((omega arith, omega arith, λ e. omega arith, λ e. omega arith), hex-IsPlain s h)

fips_digest-IsPlain : (m : Bytes) → IsPlain (fips_digest m)
unfolding fips_digest
fips_digest-IsPlain m =
    hex-IsPlain (hex (words_bytes (fips_hash m))) (hex-words_bytes-IsHexDigit (fips_hash m))

-- The text of a failed fetch is plain; that of another one is not asked for.
abbrev pub IsPlainReply : Reply → Type 0
IsPlainReply reply = reply.code ≢ curle_ok → IsPlain reply.reason

failure-IsPlain : (t reason : Bytes) → IsPlain t → IsPlain reason → IsPlainRecord (failure t reason)
failure-IsPlain t reason ht hr = (ht, omega arith, tt, hr)

expected-IsPlain :
    (t : Bytes) (reply : Reply) → IsPlain t → IsPlainReply reply → IsPlainRecord (expected t reply)
expected-IsPlain t reply ht hr = elim (ℕ_discrete reply.code curle_ok) [
  | no failed ↦
      (let other : (reply.code == curle_ok) ≡ false = ground arith in
        rw other (
          failure-IsPlain t (codes "fetch: " ++ reply.reason) ht
            (All-append _ (codes "fetch: ") reply.reason (omega arith) (hr failed))))
  | yes ended ↦
      (let same : (reply.code == curle_ok) ≡ true = ground arith in
        elim (Bool-cases (is_success reply.status)) [
          | inl success ↦
              rw (same, success) (ht, omega arith, fips_digest-IsPlain reply.payload, tt)
          | inr refused ↦
              rw (same, refused)
                (failure-IsPlain t (codes "status " ++ show_ℤ reply.status) ht (
                  All-append _ (codes "status ") (show_ℤ reply.status) (omega arith)
                    (show_ℤ-IsPlain reply.status)))
        ])
]

answers-IsPlain :
    (serve : Bytes → Reply) (targets : List Bytes)
    → ((t : Bytes) → IsPlainReply (serve t))
    → All IsPlain targets
    → All IsPlainRecord (map (answer serve) targets)
answers-IsPlain serve [] reasons h = tt
answers-IsPlain serve (t ∷ targets) reasons h =
    (expected-IsPlain t (serve t) h.0 (reasons t), answers-IsPlain serve targets reasons h.1)

All-untimed :
    (P : Record → Type 0)
    → ((r : Record) → P (untimed r) → P r)
    → (rs : List Record) → All P (map untimed rs)
    → All P rs
All-untimed P keeps [] h = tt
All-untimed P keeps (r ∷ rs) h = (keeps r h.0, All-untimed P keeps rs h.1)

-- What holds for all answers, and does not depend on times, holds for the records of a report.
pub All-answered :
    (P : Record → Type 0)
    → ((r : Record) → IsProp (P r))
    → ((r : Record) → P (untimed r) → P r)
    → (serve : Bytes → Reply) (targets : List Bytes) → All P (map (answer serve) targets)
    → (rs : List Record) → Perm (map untimed rs) (map (answer serve) targets)
    → All P rs
All-answered P prop keeps serve targets h rs answers = All-untimed P keeps rs (
    All-of_mem (map untimed rs)
      (λ r m. mem-All P prop (map (answer serve) targets) h r ((Perm.mem_iff answers).0 m)))

answers-IsSized :
    (serve : Bytes → Reply) (targets : List Bytes) → All IsSized (map (answer serve) targets)
answers-IsSized serve [] = tt
answers-IsSized serve (t ∷ targets) = (ground arith, answers-IsSized serve targets)

pub records-IsSized :
    (serve : Bytes → Reply) (targets : List Bytes) (rs : List Record)
    → Perm (map untimed rs) (map (answer serve) targets)
    → All IsSized rs
records-IsSized serve targets rs answers =
    All-answered IsSized (λ r. hlevel) (λ r h. h) serve targets (answers-IsSized serve targets) rs
      answers

-- The records of a report on plain targets are plain.
pub records-IsPlain :
    (serve : Bytes → Reply) (targets : List Bytes)
    → ((t : Bytes) → IsPlainReply (serve t))
    → All IsPlain targets
    → (rs : List Record) → Perm (map untimed rs) (map (answer serve) targets)
    → All IsPlainRecord rs
records-IsPlain serve targets reasons plain rs answers =
    All-answered IsPlainRecord IsPlainRecord-prop (λ r h. h) serve targets
      (answers-IsPlain serve targets reasons plain) rs answers

module _ (quote : Quote) (encoder : IsEncoder quote) where
  pub encode-record_object :
      (r : Record) → IsPlainRecord r → encode quote (record_object r) ≡ print_line (record_object r)
  encode-record_object r h =
      ap (λ s. s ++ codes "\n")
        (print_object-plain quote encoder (record_object r) (record_object-IsPlain r h))

  pub encode-footer_object :
      (rs : List Record) → encode quote (footer_object rs) ≡ print_line (footer_object rs)
  encode-footer_object rs =
      ap (λ s. s ++ codes "\n")
        (print_object-plain quote encoder (footer_object rs) (
          (omega arith, tt),
          ((omega arith, tt), ((omega arith, tt), ((omega arith, tt), ((omega arith, tt), tt)))),
        ))
