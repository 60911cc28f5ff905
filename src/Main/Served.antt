-- ===== src/Main/Served.antt =====
-- What a program reports against a server that answers each target in one way.
use polyfetch.Base.{
  ℕ, suc, ◌*◌, ◌^◌, ◌<◌, ◌≡◌, ◌≢◌, refl, sym, ◌∙◌, ap, ap₂, arith, inl, inr, List, [], ◌∷◌, ◌++◌,
  map, some, none, length, get_or, Bytes,
}
use polyfetch.Base.Int.{pos}
use polyfetch.Fetch.{Record, Curl}
use polyfetch.Report.{sort_records, summary_line}
use polyfetch.Report.Expected.{Reply, answer, expected, reply_of, fetch_and_process-expected}
use polyfetch.Report.Sorted.{untimed}
use polyfetch.Report.Summary.{ok_one, error_one, ok_size, total, lines, read_records}
use polyfetch.Args.{Config, exit_ok}
use polyfetch.Run.{empty_record}
use polyfetch.Threads.{Setup}
use polyfetch.Threads.Whole.{IsBounded, HasBuffers, Came, IsRecordOf}
use polyfetch.Main.{World, setup_of, main}
use polyfetch.Contract.Unique.{total-untimed, length-untimed}
use polyfetch.Main.Complete.{Completes, total_small, main-report}

-- A request for a target of the list is answered as `serve` says, in every state of a handle.
abbrev pub IsServed : (c : Curl) → Setup c.Handle → List Bytes → (Bytes → Reply) → Type 0
IsServed c setup targets serve =
    (i : ℕ) (handle : c.Handle)
    → reply_of c handle setup.base_url (get_or targets i []) setup.timeout
      ≡ serve (get_or targets i [])

-- Every thread gets a handle.
abbrev pub HasHandles : {Handle : Type 0} → Setup Handle → Type 0
HasHandles setup = (w : ℕ) → setup.easy_init w ≢ none

some-injective : {A : Type 0} {a b : A} → some a ≡ some b → a ≡ b
some-injective e = cc e

module _ (serve : Bytes → Reply) where
  module _ (c : Curl) (setup : Setup c.Handle) (targets : List Bytes) (m : ℕ) (calm : IsBounded c m)
      (small : m * 8 < 2 ^ 64) (buffers : HasBuffers setup)
      (served : IsServed c setup targets serve) (handles : HasHandles setup) where
    record-answer :
        (i : ℕ) (r : Record)
        → IsRecordOf c setup targets m i r
        → untimed r ≡ answer serve (get_or targets i [])
    record-answer i r h = by_origin h.came
      where
        by_origin : Came c setup targets m i r → untimed r ≡ answer serve (get_or targets i [])
        by_origin (inr (w, no_handle, e)) = absurd (handles w no_handle)
        by_origin (inl (w, (handle, (after, fetched)))) =
            let (r', fetched', e) =
              fetch_and_process-expected c handle setup.base_url (get_or targets i []) setup.timeout
                (setup.memory w i) (setup.begins w i) (setup.ends w i) (buffers w i) (calm _).0
                (omega (arith, (calm _).1)) (calm _).2 in
            let same : r ≡ r' =
              ap (λ (p : Record × c.Handle). p.0) (some-injective (sym fetched ∙ fetched')) in
            ap untimed same ∙ e ∙ ap (expected (get_or targets i [])) (served i handle)

  pub answers_eq :
      (rs : List Record) (targets : List Bytes)
      → length rs ≡ length targets
      → ((i : ℕ)
          → i < length targets
          → untimed (get_or rs i empty_record) ≡ answer serve (get_or targets i []))
      → map untimed rs ≡ map (answer serve) targets
  answers_eq [] [] size h = refl
  answers_eq [] (t ∷ ts) size h = absurd (omega arith)
  answers_eq (r ∷ rs) [] size h = absurd (omega arith)
  answers_eq (r ∷ rs) (t ∷ ts) size h =
      ap₂ ◌∷◌ (h 0 (omega arith)) (answers_eq rs ts (omega arith) (λ i lt. h (suc i) (omega arith)))

abbrev pub footer : List Record → Bytes
footer rs =
    summary_line (length rs) (pos (total ok_one rs)) (pos (total error_one rs))
      (pos (total ok_size rs))

-- The footer does not depend on times.
pub footer-untimed : (rs : List Record) → footer (map untimed rs) ≡ footer rs
footer-untimed rs =
    rw
      (
        length-untimed rs,
        total-untimed ok_one (λ r. refl) rs,
        total-untimed error_one (λ r. refl) rs,
        total-untimed ok_size (λ r. refl) rs,
      )
      refl

-- What a reader gets from the report of a program against a server that answers in one way.
pub record Reported (serve : Bytes → Reply) (targets : List Bytes) (c : Curl)
    (world : World c.Handle) (args : List Bytes) : Type 0 where
  pub records : List Record
  pub out : Bytes
  pub answers : map untimed records ≡ map (answer serve) targets
  pub ends : main c world args ≡ some (record { code = exit_ok; out = out; err = [] })
  pub reads :
      read_records (length targets) out ≡ some (sort_records world.sort records, footer records)
  pub whole : out ≡ lines (sort_records world.sort records) ++ footer records
  pub few : length records < 2 ^ 31
  pub small : total ok_size records < 2 ^ 63

pub main-Reported :
    (serve : Bytes → Reply) (targets : List Bytes) (c : Curl) (world : World c.Handle)
    (args : List Bytes) (cfg : Config) (m : ℕ)
    → Completes c world args cfg targets m
    → IsServed c (setup_of world cfg) targets serve
    → HasHandles (setup_of world cfg)
    → Reported serve targets c world args
main-Reported serve targets c world args cfg m h served handles =
    let (rs, out, size, came, ended, whole, read) = main-report c world args cfg targets m h in
    record {
      records = rs;
      out = out;
      answers = answers_eq serve rs targets size (λ i lt.
          record-answer serve c (setup_of world cfg) targets m h.calm h.small h.buffers served
            handles i _ (came i lt));
      ends = ended;
      reads = ap (λ (n : ℕ). read_records n out) (sym size) ∙ read;
      whole = whole;
      few = omega (arith, size, h.few);
      small = total_small c world args cfg targets m h rs size came;
    }
