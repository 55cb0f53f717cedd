-- ===== src/Cdata/Batch.antt =====
-- A pushed ATTLOG batch, from the request to the acknowledgement.
use adms.DbErrors.{is_data, classify_db_error}
use adms.Prelude.{
  ℕ, ◌-◌, ◌≤◌, ◌≡◌, refl, ◌∙◌, ap, String, Text, text_eq, Bool, true, false, Option, none, some,
  List, [], ◌∷◌, arith, Bool-cases, inl, inr, ◌≢◌, All, ◌⊎◌,
}
use adms.Store.Exec.{World, ok, DbError, pure, ◌>>◌, try_catch, write, Result}
use adms.Store.Preserves.{
  Preserves, preserve_rules, Preserves-pure, Preserves-write, Preserves->>=,
  Preserves-checked_write,
}
use adms.Store.Total.{NeverThrows, total_rules, NeverThrows-pure, NeverThrows->>=}
use adms.Store.{Db}
use adms.Timezone.{Intl}
use adms.Punches.{PunchData, insert_all, create_many, create, is_stored, insert_one}
use adms.Punches.Stored.{Stored, Stored-create_many, insert_all_of_Stored}
use adms.Cdata.{
  store_attlog, attlog_rows, store_batch, store_rows, store_each, create_one, create_many, Result,
  RowOutcome, is_data, classify_db_error, lost, inserted, duplicate, skipped, create,
}
use adms.Cdata.Ack.{
  IsGenuine, data_faults, transient_faults, missing, missing-store_batch, store_each_refused,
  store_each-Stored,
}

store_each-total : (rows : List PunchData) → NeverThrows (store_each rows)
unfolding store_each create_one
store_each-total [] = search total_rules
store_each-total (r ∷ rows) = NeverThrows->>= _ _ (search total_rules) (go (store_each-total rows))
  where
    go :
        NeverThrows (store_each rows)
        → (o : RowOutcome) → NeverThrows (elim o [ lost ↦ pure false | _ ↦ store_each rows ])
    go ih lost = NeverThrows-pure false
    go ih inserted = ih
    go ih duplicate = ih
    go ih skipped = ih

store_rows-total : (rows : List PunchData) → NeverThrows (store_rows rows)
unfolding store_rows
store_rows-total rows = search (total_rules, store_each-total)

store_batch-total : (rows : List PunchData) → NeverThrows (store_batch rows)
unfolding store_batch
store_batch-total [] = search total_rules
store_batch-total (r ∷ rows) = store_rows-total (r ∷ rows)

store_rows_refused :
    (rows : List PunchData) (db : Db) (now : ℕ) (cuid : ℕ → String) (l : List (Option DbError))
    → IsGenuine l
    → (store_rows rows (record { db = db; now = now; faults = l; cuid = cuid })).0 ≡ ok false
    → 1 ≤ transient_faults l
unfolding store_rows create_many write try_catch ◌>>◌ transient_faults
store_rows_refused rows db now cuid [] g h =
    absurd (let stop : ◌≡◌ {A = Result Bool} (ok true) (ok false) = h in cc)
store_rows_refused rows db now cuid (none ∷ l) g h =
    absurd (let stop : ◌≡◌ {A = Result Bool} (ok true) (ok false) = h in cc)
store_rows_refused rows db now cuid (some e ∷ l) g h =
    elim (Bool-cases (is_data (classify_db_error e))) [
      | inl spoilt ↦
          rw spoilt
            (let h' = rw spoilt at h in omega (arith, store_each_refused rows db now cuid l g.1 h'))
      | inr other ↦ rw other (omega arith)
    ]

store_batch_refused :
    (rows : List PunchData) (w : World)
    → IsGenuine w.faults
    → (store_batch rows w).0 ≡ ok false
    → 1 ≤ transient_faults w.faults
unfolding store_batch
store_batch_refused [] w g h =
    absurd (let stop : ◌≡◌ {A = Result Bool} (ok true) (ok false) = h in cc)
store_batch_refused (r ∷ rows) w g h = store_rows_refused (r ∷ rows) w.db w.now w.cuid w.faults g h

store_batch-Stored :
    (s : PunchData) (rows : List PunchData) → Preserves (Stored s) (store_batch rows)
unfolding store_batch store_rows
store_batch-Stored s [] = search preserve_rules
store_batch-Stored s (r ∷ rows) = search (preserve_rules, Stored-create_many, store_each-Stored)

-- Without failures a batch is stored whole.
store_batch-clear :
    (rows : List PunchData) (db : Db) (now : ℕ) (cuid : ℕ → String)
    → store_batch rows (record { db = db; now = now; faults = []; cuid = cuid })
      ≡ (ok true, record { db = insert_all rows cuid now db; now = now; faults = []; cuid = cuid })
unfolding store_batch store_rows create_many write try_catch ◌>>◌ insert_all
store_batch-clear [] db now cuid = refl
store_batch-clear (r ∷ rows) db now cuid = refl

clear_answer :
    (rows : List PunchData) (db : Db) (now : ℕ) (cuid : ℕ → String) (l : List (Option DbError))
    → (l ≢ [])
      ⊎ ((store_batch rows (record { db = db; now = now; faults = l; cuid = cuid })).0 ≡ ok true)
clear_answer rows db now cuid (f ∷ l) = inl (λ e. cc)
clear_answer rows db now cuid [] = inr (ap (λ r. r.0) (store_batch-clear rows db now cuid))

All-Stored_of_missing :
    (rows : List PunchData) (db : Db) → missing rows db ≡ 0 → All (λ r. Stored r db) rows
unfolding missing
All-Stored_of_missing [] db h = tt
All-Stored_of_missing (r ∷ rows) db h = elim (Bool-cases (is_stored r db.punch_records)) [
  | inl e ↦ (e, All-Stored_of_missing rows db (rw e at h))
  | inr e ↦ absurd (let stop = rw e at h in omega arith)
]

-- Rows that the table holds are not written again, whatever statements fail.
module _ (before : Db) where
  create_many-Same :
      (rows : List PunchData)
      → All (λ r. Stored r before) rows
      → Preserves (λ db. db ≡ before) (create_many rows)
  unfolding create_many
  create_many-Same rows h =
      Preserves-write _ _ (λ v e. rw e (insert_all_of_Stored rows v.cuid v.now before h))

  create-Same : (r : PunchData) → Stored r before → Preserves (λ db. db ≡ before) (create r)
  unfolding create insert_one
  create-Same r h = Preserves-checked_write _ (insert_one r) (λ v e. rw e (rw h refl))

  store_each-Same :
      (rows : List PunchData)
      → All (λ r. Stored r before) rows
      → Preserves (λ db. db ≡ before) (store_each rows)
  unfolding store_each create_one
  store_each-Same [] h = search preserve_rules
  store_each-Same (r ∷ rows) h =
      Preserves->>= (λ db. db ≡ before) _ _ (let kept = create-Same r h.0 in search preserve_rules)
        (go (store_each-Same rows h.1))
    where
      go :
          Preserves (λ db. db ≡ before) (store_each rows)
          → (o : RowOutcome)
          → Preserves (λ db. db ≡ before) (elim o [ lost ↦ pure false | _ ↦ store_each rows ])
      go ih lost = Preserves-pure _ false
      go ih inserted = ih
      go ih duplicate = ih
      go ih skipped = ih

  store_batch-Same :
      (rows : List PunchData)
      → All (λ r. Stored r before) rows
      → Preserves (λ db. db ≡ before) (store_batch rows)
  unfolding store_batch store_rows
  store_batch-Same [] h = search preserve_rules
  store_batch-Same (r ∷ rows) h =
      let many = create_many-Same (r ∷ rows) h in
      let each = store_each-Same (r ∷ rows) h in search preserve_rules

module _ (intl : Intl) (device_id : String) (has_webhook : Bool) (tz : String) (body : Text) where
  abbrev pub rows_of : List PunchData
  rows_of = attlog_rows intl device_id has_webhook tz body

  -- Whatever statements fail, in the ways that the database can make them fail (it reports a unique
  -- violation only for a row that is there): the storing of a batch does not reject; if it answers that the
  -- batch is stored, then the rows that the table lacks are fewer than the statements that failed
  -- with a data error, so none is lost to a single one; if it answers that it is not, a statement
  -- failed for another reason; and no row that the table held is gone.
  pub store_attlog_answer :
      (w : World)
      → IsGenuine w.faults
      → (stored : Bool) × ((store_attlog intl device_id has_webhook tz body w).0 ≡ ok stored)
        × (stored ≡ true
            → missing rows_of (store_attlog intl device_id has_webhook tz body w).1.db
              ≤ data_faults w.faults - 1)
        × (stored ≡ false → 1 ≤ transient_faults w.faults)
        × ((s : PunchData)
            → Stored s w.db
            → Stored s (store_attlog intl device_id has_webhook tz body w).1.db)
  unfolding store_attlog
  store_attlog_answer w g =
      let (b, e) = (store_batch-total rows_of).returns w in
      (
        b,
        e,
        λ t. missing-store_batch rows_of w g (e ∙ ap ok t),
        λ f. store_batch_refused rows_of w g (e ∙ ap ok f),
        λ s h. (store_batch-Stored s rows_of).from w h,
      )

  -- A device that sends once more a batch which it was told is stored, where at most one statement
  -- had failed with a data error and none in a way that the database cannot make it fail: the database is left as it was, whatever statements fail this
  -- time, so the retry adds no row; and if none fails, it is told again that the batch is stored.
  pub store_attlog_again :
      (w v : World)
      → IsGenuine w.faults
      → data_faults w.faults ≤ 1
      → (store_attlog intl device_id has_webhook tz body w).0 ≡ ok true
      → v.db ≡ (store_attlog intl device_id has_webhook tz body w).1.db
      → ((store_attlog intl device_id has_webhook tz body v).1.db ≡ v.db)
        × ((v.faults ≢ []) ⊎ ((store_attlog intl device_id has_webhook tz body v).0 ≡ ok true))
  unfolding store_attlog
  store_attlog_again w v g few told same =
      let held = missing-store_batch rows_of w g told in
      let none_missing : missing rows_of v.db ≡ 0 = ap (missing rows_of) same ∙ omega arith in
      (
        (store_batch-Same v.db rows_of (All-Stored_of_missing rows_of v.db none_missing)).from v
            refl,
        clear_answer rows_of v.db v.now v.cuid v.faults,
      )
