-- ===== src/Threads/Whole.antt =====
-- The threads against a network whose payloads are bounded.
use polyfetch.Base.{
  ℕ, ◌*◌, ◌^◌, ◌≤◌, ◌<◌, ◌≡◌, refl, arith, ◌⊎◌, inl, inr, List, [], Option, none, some, length,
  get_or, Bytes, IsByte, All,
}
use polyfetch.Fetch.{Record, Curl, fetch_and_process}
use polyfetch.Fetch.Outcome.{IsWhole, body}
use polyfetch.Report.Contract.{MeetsContract, fetch_and_process-MeetsContract}
use polyfetch.Report.Summary.{ok_size}
use polyfetch.Run.{empty_record, no_handle_record}
use polyfetch.Threads.{Setup}
use polyfetch.Threads.Simulate.{AreGood}

-- What libcurl and the network promise for every transfer: deliveries of bytes, as many as they say, and no
-- more than `m` of them together.
abbrev pub IsBounded : Curl → ℕ → Type 0
IsBounded c m =
    (handle : c.Handle)
    → All IsWhole (c.easy_perform handle).0.deliveries
      × (length (body (c.easy_perform handle).0.deliveries) ≤ m)
      × All IsByte (body (c.easy_perform handle).0.deliveries)

-- The buffers that the processors are made in.
abbrev pub HasBuffers : {Handle : Type 0} → Setup Handle → Type 0
HasBuffers setup = (w i : ℕ) → length (setup.memory w i).buffer ≡ 64

module _ (c : Curl) (setup : Setup c.Handle) (targets : List Bytes) (m : ℕ) where
  -- Where a record for index `i` comes from: a fetch of its target, or the want of a handle.
  abbrev pub Came : ℕ → Record → Type 0
  Came i r =
      ((w : ℕ) × ((handle : c.Handle) × ((after : c.Handle) × (fetch_and_process c
                (setup.memory w i) (setup.begins w i) (setup.ends w i) handle setup.base_url
                (get_or targets i []) setup.timeout
              ≡ some (r, after)))))
      ⊎ ((w : ℕ) × (setup.easy_init w ≡ none)
          × (r ≡ no_handle_record empty_record (get_or targets i [])))

  -- The origin of a record for index `i`, and what the report asks of it.
  pub record IsRecordOf (i : ℕ) (r : Record) : Type 0 where
    pub came : Came i r
    pub meets : MeetsContract r
    pub names : r.target ≡ get_or targets i []
    pub bounded : ok_size r ≤ m

  no_handle-IsRecordOf :
      (w i : ℕ)
      → setup.easy_init w ≡ none
      → IsRecordOf i (no_handle_record empty_record (get_or targets i []))
  unfolding no_handle_record
  no_handle-IsRecordOf w i e = record {
    came = inr (w, e, refl);
    meets = (
      refl,
      record { status_clean = ground arith; sha_clean = tt; no_error = λ e. cc },
      inr refl,
    );
    names = refl;
    bounded = omega arith;
  }

  module _ (calm : IsBounded c m) (small : m * 8 < 2 ^ 64) (buffers : HasBuffers setup) where
    fetched-IsRecordOf :
        (w i : ℕ) (handle : c.Handle)
        → (r : Record) × ((after : c.Handle) × (fetch_and_process c
                (setup.memory w i)
                (setup.begins w i)
                (setup.ends w i)
                handle
                setup.base_url
                (get_or targets i [])
                setup.timeout
              ≡ some (r, after))
            × IsRecordOf i r)
    fetched-IsRecordOf w i handle =
        let (r, fetched, meets, names, bounded) =
          fetch_and_process-MeetsContract c handle setup.base_url (get_or targets i [])
            setup.timeout (setup.memory w i) (setup.begins w i) (setup.ends w i) (buffers w i)
            (calm _).0 (omega (arith, (calm _).1)) in
        (
          r,
          (
            _,
            fetched,
            record {
              came = inl (w, (handle, (_, fetched)));
              meets = meets;
              names = names;
              bounded = omega (arith, bounded, (calm _).1);
            },
          ),
        )

    -- Some record of an index, from the handle of the first thread or for want of it.
    some_record : (i : ℕ) → (r : Record) × IsRecordOf i r
    some_record i = by_handle (setup.easy_init 0) refl
      where
        by_handle : (h : Option c.Handle) → setup.easy_init 0 ≡ h → (r : Record) × IsRecordOf i r
        by_handle none e =
            (no_handle_record empty_record (get_or targets i []), no_handle-IsRecordOf 0 i e)
        by_handle (some handle) e =
            let (r, (after, fetched, good)) = fetched-IsRecordOf 0 i handle in (r, good)

    -- Every fetch has a result, and it is a record of its index.
    pub fetches-AreGood : AreGood c setup targets IsRecordOf
    fetches-AreGood = record {
      fetches = fetched-IsRecordOf;
      without = no_handle-IsRecordOf;
      spare = λ i. (some_record i).0;
      spare_good = λ i. (some_record i).1;
    }
