-- ===== src/Cdata/Ack.antt =====
-- When the server may say that a batch is stored.
use adms.Prelude.{
  ℕ, String, ◌+◌, ◌≤◌, ◌≡◌, refl, Bool, true, false, not, Option, none, some, List, [], ◌∷◌, filter,
  length, All, arith, Bool-cases, inl, inr, if◌then◌else◌, ◌-◌,
}
use adms.DbErrors.{classify_db_error, is_data, is_unique_violation}
use adms.Store.{Db}
use adms.Store.Exec.{World, Result, ok, DbError, pure, ◌>>=◌, ◌>>◌, try_catch, checked_write, write}
use adms.Store.Preserves.{Preserves, preserve_rules, Preserves-pure, Preserves->>=}
use adms.Punches.{PunchData, is_stored, create, create_many, insert_one, insert_new, insert_all}
use adms.Punches.Stored.{Stored, Stored-create, All-Stored-insert_all, Stored-insert_new}
use adms.Cdata.{
  RowOutcome, inserted, duplicate, skipped, lost, row_failure, create_one, store_each, store_rows,
  store_batch,
}

-- How many statements of a schedule fail with a data error.
unfoldable pub data_faults : List (Option DbError) → ℕ
data_faults [] = 0
data_faults (none ∷ l) = data_faults l
data_faults (some e ∷ l) = (if is_data (classify_db_error e) then 1 else 0) + data_faults l

-- The database reports a unique violation only where the table has the key.
abbrev pub IsGenuine : List (Option DbError) → Type 0
IsGenuine [] = Unit
IsGenuine (none ∷ l) = IsGenuine l
IsGenuine (some e ∷ l) = (is_unique_violation e ≡ false) × IsGenuine l

-- The rows of a batch that the table does not hold.
unfoldable pub missing : List PunchData → Db → ℕ
missing rows db = length (filter (λ r. not (is_stored r db.punch_records)) rows)

missing_of_All :
    (rows : List PunchData) (db : Db) → All (λ r. Stored r db) rows → missing rows db ≡ 0
unfolding missing
missing_of_All [] db h = refl
missing_of_All (r ∷ rows) db h = rw h.0 (missing_of_All rows db h.1)

module _ (r : PunchData) (rows : List PunchData) (db : Db) (now : ℕ) (cuid : ℕ → String) where
  abbrev at_faults : List (Option DbError) → World
  at_faults l = record { db = db; now = now; faults = l; cuid = cuid }

  abbrev with_row : List (Option DbError) → World
  with_row l = record { db = insert_new r cuid now db; now = now; faults = l; cuid = cuid }

  store_each_at_end : store_each (r ∷ rows) (at_faults []) ≡ store_each rows (with_row [])
  unfolding store_each create_one create insert_one insert_new row_failure try_catch ◌>>=◌ ◌>>◌
      checked_write
  store_each_at_end = elim (Bool-cases (is_stored r db.punch_records)) [
    | inl old ↦ rw old
    | inr new ↦ rw new
  ]

  store_each_on_success :
      (l : List (Option DbError))
      → store_each (r ∷ rows) (at_faults (none ∷ l)) ≡ store_each rows (with_row l)
  unfolding store_each create_one create insert_one insert_new row_failure try_catch ◌>>=◌ ◌>>◌
      checked_write
  store_each_on_success l = elim (Bool-cases (is_stored r db.punch_records)) [
    | inl old ↦ rw old
    | inr new ↦ rw new
  ]

  store_each_on_fault :
      (e : DbError) (l : List (Option DbError))
      → is_unique_violation e ≡ false
      → store_each (r ∷ rows) (at_faults (some e ∷ l)) ≡ (
          if is_data (classify_db_error e)
          then store_each rows (at_faults l)
          else (ok false, at_faults l))
  unfolding store_each create_one create row_failure try_catch ◌>>=◌ ◌>>◌ checked_write
  store_each_on_fault e l h = elim (Bool-cases (is_data (classify_db_error e))) [
    | inl spoilt ↦ rw (h, spoilt)
    | inr other ↦ rw (h, other)
  ]

-- What is stored stays stored while the rows are tried one by one.
pub store_each-Stored :
    (s : PunchData) (rows : List PunchData) → Preserves (Stored s) (store_each rows)
unfolding store_each create_one
store_each-Stored s [] = search preserve_rules
store_each-Stored s (r ∷ rows) =
    Preserves->>= (Stored s) _ _ (search (preserve_rules, Stored-create))
      (go (store_each-Stored s rows))
  where
    go :
        Preserves (Stored s) (store_each rows)
        → (o : RowOutcome)
        → Preserves (Stored s) (elim o [ lost ↦ pure false | _ ↦ store_each rows ])
    go ih lost = Preserves-pure (Stored s) false
    go ih inserted = ih
    go ih duplicate = ih
    go ih skipped = ih

missing-cons :
    (r : PunchData) (rows : List PunchData) (db : Db) → missing (r ∷ rows) db ≤ missing rows db + 1
unfolding missing
missing-cons r rows db = ground arith

missing-cons_of_Stored :
    (r : PunchData) (rows : List PunchData) (db : Db)
    → Stored r db
    → missing (r ∷ rows) db ≡ missing rows db
unfolding missing
missing-cons_of_Stored r rows db h = rw h

missing-store_each :
    (rows : List PunchData) (db : Db) (now : ℕ) (cuid : ℕ → String) (l : List (Option DbError))
    → IsGenuine l
    → (store_each rows (record { db = db; now = now; faults = l; cuid = cuid })).0 ≡ ok true
    → missing rows (store_each rows (record { db = db; now = now; faults = l; cuid = cuid })).1.db
      ≤ data_faults l
unfolding data_faults
missing-store_each [] db now cuid l g h = unfold missing in omega arith
missing-store_each (r ∷ rows) db now cuid [] g h =
    let e = store_each_at_end r rows db now cuid in
    rw e (
      rw
        (missing-cons_of_Stored r rows (store_each rows (with_row r rows db now cuid [])).1.db (
          (store_each-Stored r rows).from (with_row r rows db now cuid [])
            (Stored-insert_new r cuid now db)))
        (missing-store_each rows (insert_new r cuid now db) now cuid [] g (rw e at h)))
missing-store_each (r ∷ rows) db now cuid (none ∷ l) g h =
    let e = store_each_on_success r rows db now cuid l in
    rw e (
      rw
        (missing-cons_of_Stored r rows (store_each rows (with_row r rows db now cuid l)).1.db (
          (store_each-Stored r rows).from (with_row r rows db now cuid l)
            (Stored-insert_new r cuid now db)))
        (missing-store_each rows (insert_new r cuid now db) now cuid l g (rw e at h)))
missing-store_each (r ∷ rows) db now cuid (some e ∷ l) g h =
    let step = store_each_on_fault r rows db now cuid e l g.0 in
    elim (Bool-cases (is_data (classify_db_error e))) [
      | inl spoilt ↦ rw step (
          rw spoilt (
            omega (
              arith,
              missing-store_each rows db now cuid l g.1 (rw spoilt at (rw step at h)),
              missing-cons r rows (store_each rows (at_faults r rows db now cuid l)).1.db,
            )))
      | inr other ↦
          absurd (
            let stop : ◌≡◌ {A = Result Bool} (ok false) (ok true) = rw other at (rw step at h) in
            cc)
    ]

missing-store_rows :
    (rows : List PunchData) (db : Db) (now : ℕ) (cuid : ℕ → String) (l : List (Option DbError))
    → IsGenuine l
    → (store_rows rows (record { db = db; now = now; faults = l; cuid = cuid })).0 ≡ ok true
    → missing rows (store_rows rows (record { db = db; now = now; faults = l; cuid = cuid })).1.db
      ≤ data_faults l - 1
unfolding store_rows create_many write try_catch ◌>>◌ data_faults
missing-store_rows rows db now cuid [] g h =
    rw (missing_of_All rows (insert_all rows cuid now db) (All-Stored-insert_all rows cuid now db))
      (omega arith)
missing-store_rows rows db now cuid (none ∷ l) g h =
    rw (missing_of_All rows (insert_all rows cuid now db) (All-Stored-insert_all rows cuid now db))
      (omega arith)
missing-store_rows rows db now cuid (some e ∷ l) g h =
    elim (Bool-cases (is_data (classify_db_error e))) [
      | inl spoilt ↦
          rw spoilt
            (let h' = rw spoilt at h in omega (arith, missing-store_each rows db now cuid l g.1 h'))
      | inr other ↦
          absurd (let stop : ◌≡◌ {A = Result Bool} (ok false) (ok true) = rw other at h in cc)
    ]

pub missing-store_batch :
    (rows : List PunchData) (w : World)
    → IsGenuine w.faults
    → (store_batch rows w).0 ≡ ok true
    → missing rows (store_batch rows w).1.db ≤ data_faults w.faults - 1
unfolding store_batch
missing-store_batch [] w g h = unfold missing in omega arith
missing-store_batch (r ∷ rows) w g h = missing-store_rows (r ∷ rows) w.db w.now w.cuid w.faults g h

-- How many statements of a schedule fail for another reason than their data.
unfoldable pub transient_faults : List (Option DbError) → ℕ
transient_faults [] = 0
transient_faults (none ∷ l) = transient_faults l
transient_faults (some e ∷ l) =
    (if is_data (classify_db_error e) then 0 else 1) + transient_faults l

pub store_each_refused :
    (rows : List PunchData) (db : Db) (now : ℕ) (cuid : ℕ → String) (l : List (Option DbError))
    → IsGenuine l
    → (store_each rows (record { db = db; now = now; faults = l; cuid = cuid })).0 ≡ ok false
    → 1 ≤ transient_faults l
unfolding transient_faults
store_each_refused [] db now cuid l g h =
    let stop : ◌≡◌ {A = Result Bool} (ok true) (ok false) = unfold store_each in h in cc
store_each_refused (r ∷ rows) db now cuid [] g h =
    store_each_refused rows (insert_new r cuid now db) now cuid [] g
      (rw (store_each_at_end r rows db now cuid) at h)
store_each_refused (r ∷ rows) db now cuid (none ∷ l) g h =
    store_each_refused rows (insert_new r cuid now db) now cuid l g
      (rw (store_each_on_success r rows db now cuid l) at h)
store_each_refused (r ∷ rows) db now cuid (some e ∷ l) g h =
    let step = store_each_on_fault r rows db now cuid e l g.0 in
    elim (Bool-cases (is_data (classify_db_error e))) [
      | inl spoilt ↦
          rw spoilt
            (omega (arith, store_each_refused rows db now cuid l g.1 (rw spoilt at (rw step at h))))
      | inr other ↦ rw other (omega arith)
    ]
