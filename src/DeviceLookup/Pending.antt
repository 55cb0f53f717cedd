-- ===== src/DeviceLookup/Pending.antt =====
-- The row of a serial number that no device has yet, under any interleaving of the statements of
-- any number of pings.
use adms.Store.Exec.{write, DbError, try_catch, World}
use adms.Prelude.{
  ℕ, ◌+◌, String, ◌≡◌, Option, none, some, List, [], ◌∷◌, ◌++◌, map, find, arith, if◌then◌else◌,
  eq_iff, ◌==◌, string_eq, suc, ◌≢◌, take, take-nil,
}
use adms.Store.{PendingDevice, Db}
use adms.DeviceLookup.{
  PendingWrite, claim_row, bump, set_secret, set_company, has_pending_serial, update_pending,
  apply_write, new_pending, upsert_pending_device,
}

-- A statement with the serial number and the time of the ping that issues it.
pub record Issued : Type 0 where
  pub sn : String
  pub at : ℕ
  pub does : PendingWrite

unfoldable pub apply_all : List Issued → List PendingDevice → List PendingDevice
apply_all [] ps = ps
apply_all (i ∷ is) ps = apply_all is (apply_write i.sn i.at i.does ps)

abbrev pub find_pending : String → List PendingDevice → Option PendingDevice
find_pending sn ps = find (has_pending_serial sn) ps

-- What a list of statements says of one serial number.
abbrev offered_secret : PendingWrite → Option String
offered_secret (set_secret s) = some s
offered_secret _ = none

abbrev offered_company : PendingWrite → Option String
offered_company (set_company c) = some c
offered_company _ = none

abbrev bumps_by : PendingWrite → ℕ
bumps_by bump = 1
bumps_by _ = 0

abbrev pub first_of : Option String → Option String → Option String
first_of (some s) o = some s
first_of none o = o

-- The first secret, and the first company, that the statements offer for `sn`.
unfoldable pub first_secret : String → List Issued → Option String
first_secret sn [] = none
first_secret sn (i ∷ is) =
    if i.sn == sn then first_of (offered_secret i.does) (first_secret sn is) else first_secret sn is

unfoldable pub first_company : String → List Issued → Option String
first_company sn [] = none
first_company sn (i ∷ is) =
    if i.sn == sn
    then first_of (offered_company i.does) (first_company sn is)
    else first_company sn is

unfoldable pub bumps : String → List Issued → ℕ
bumps sn [] = 0
bumps sn (i ∷ is) = (if i.sn == sn then bumps_by i.does else 0) + bumps sn is

-- Every statement keeps the row that a search by serial number finds, changed by the statement.
find-map :
    (sn by : String) (now : ℕ) (k : PendingWrite) (ps : List PendingDevice) (p : PendingDevice)
    → find_pending sn ps ≡ some p
    → find_pending sn (map (update_pending by now k) ps) ≡ some (update_pending by now k p)
find-map sn by now k [] p h = cc
find-map sn by now k (q ∷ ps) p h = ground (arith, find-map sn by now k ps p)

find_append :
    (sn : String) (ps qs : List PendingDevice) (p : PendingDevice)
    → find_pending sn ps ≡ some p
    → find_pending sn (ps ++ qs) ≡ some p
find_append sn [] qs p h = cc
find_append sn (q ∷ ps) qs p h = ground (arith, find_append sn ps qs p)

find-apply_write :
    (sn by : String) (now : ℕ) (k : PendingWrite) (ps : List PendingDevice) (p : PendingDevice)
    → find_pending sn ps ≡ some p
    → find_pending sn (apply_write by now k ps) ≡ some (update_pending by now k p)
unfolding apply_write
find-apply_write sn by now claim_row ps p h =
    ground (arith, find_append sn ps (new_pending by now ∷ []) p h)
find-apply_write sn by now k ps p h = find-map sn by now k ps p h

serial_of_found :
    (sn : String) (ps : List PendingDevice) (p : PendingDevice)
    → find_pending sn ps ≡ some p
    → p.serial_number ≡ sn
serial_of_found sn [] p h = cc
serial_of_found sn (q ∷ ps) p h = ground (arith, eq_iff q.serial_number sn, serial_of_found sn ps p)

-- What the statements make of one row.
abbrev pub Outcome : String → List Issued → PendingDevice → PendingDevice → Type 0
Outcome sn is p q =
    (q.secret ≡ first_of p.secret (first_secret sn is))
    × (q.company_id ≡ first_of p.company_id (first_company sn is))
    × (q.ping_count ≡ p.ping_count + bumps sn is)

Outcome-cons :
    (sn : String) (i : Issued) (is : List Issued) (p q : PendingDevice)
    → p.serial_number ≡ sn
    → Outcome sn is (update_pending i.sn i.at i.does p) q
    → Outcome sn (i ∷ is) p q
unfolding first_secret first_company bumps
Outcome-cons sn i is p q e h = ground (arith, eq_iff i.sn sn, eq_iff p.serial_number i.sn)

-- Whatever statements of whatever pings reach the database, and in whatever order, the row of a
-- serial number stays, its secret is the one it had or else the first one offered, its company
-- likewise, and its count has grown by the number of pings counted: nobody overwrites the
-- identity that another ping has fixed.
pub first_write_wins :
    (sn : String) (is : List Issued) (ps : List PendingDevice) (p : PendingDevice)
    → find_pending sn ps ≡ some p
    → (q : PendingDevice) × (find_pending sn (apply_all is ps) ≡ some q) × Outcome sn is p q
unfolding apply_all first_secret first_company bumps
first_write_wins sn [] ps p h = (p, h, (ground arith, ground arith, omega arith))
first_write_wins sn (i ∷ is) ps p h =
    let found = find-apply_write sn i.sn i.at i.does ps p h in
    let (q, e, o) = first_write_wins sn is (apply_write i.sn i.at i.does ps) _ found in
    (q, e, Outcome-cons sn i is p q (serial_of_found sn ps p h) o)

abbrev secret_write : String → ℕ → Option String → List Issued
secret_write sn now none = []
secret_write sn now (some s) =
    if s == "" then [] else record { sn = sn; at = now; does = set_secret s } ∷ []

abbrev company_write : String → ℕ → Option String → List Issued
company_write sn now none = []
company_write sn now (some c) =
    if c == "" then [] else record { sn = sn; at = now; does = set_company c } ∷ []

-- The statements of one ping, in the order of the source.
abbrev pub upsert_writes : String → ℕ → Option String → Option String → List Issued
upsert_writes sn now secret company =
    record { sn = sn; at = now; does = claim_row }
    ∷ record { sn = sn; at = now; does = bump }
    ∷ (secret_write sn now secret ++ company_write sn now company)

-- How many statements are done before one fails.
abbrev pub done_before_fault : List (Option DbError) → ℕ
done_before_fault [] = 4
done_before_fault (none ∷ l) = suc (done_before_fault l)
done_before_fault (some e ∷ l) = 0

upsert_refines_from :
    (db : Db) (now : ℕ) (cuid : ℕ → String) (l : List (Option DbError)) (sn : String)
    (secret company : Option String)
    → sn ≢ ""
    → (upsert_pending_device sn secret company
        (record { db = db; now = now; faults = l; cuid = cuid })).1.db
      ≡ record db {
        pending_devices =
            apply_all
              (take (done_before_fault l) (upsert_writes sn now secret company))
              db.pending_devices;
      }
unfolding upsert_pending_device apply_all write try_catch
upsert_refines_from db now cuid [] sn secret company h = ground (arith, eq_iff sn "")
upsert_refines_from db now cuid (some e ∷ l) sn secret company h = ground (arith, eq_iff sn "")
upsert_refines_from db now cuid (none ∷ []) sn secret company h = ground (arith, eq_iff sn "")
upsert_refines_from db now cuid (none ∷ some e ∷ l) sn secret company h =
    ground (arith, eq_iff sn "")
upsert_refines_from db now cuid (none ∷ none ∷ []) sn secret company h =
    ground (arith, eq_iff sn "")
upsert_refines_from db now cuid (none ∷ none ∷ some e ∷ l) sn secret company h =
    ground (arith, eq_iff sn "")
upsert_refines_from db now cuid (none ∷ none ∷ none ∷ []) sn secret company h =
    ground (arith, eq_iff sn "")
upsert_refines_from db now cuid (none ∷ none ∷ none ∷ some e ∷ l) sn secret company h =
    ground (arith, eq_iff sn "")
upsert_refines_from db now cuid (none ∷ none ∷ none ∷ none ∷ l) sn none none h = ground (
  arith,
  eq_iff sn "",
  take-nil Issued (done_before_fault l),
  take-nil Issued (suc (done_before_fault l)),
  take-nil Issued (suc (suc (done_before_fault l))),
)
upsert_refines_from db now cuid (none ∷ none ∷ none ∷ none ∷ l) sn none (some c) h = ground (
  arith,
  eq_iff sn "",
  take-nil Issued (done_before_fault l),
  take-nil Issued (suc (done_before_fault l)),
  take-nil Issued (suc (suc (done_before_fault l))),
)
upsert_refines_from db now cuid (none ∷ none ∷ none ∷ none ∷ l) sn (some s) none h = ground (
  arith,
  eq_iff sn "",
  take-nil Issued (done_before_fault l),
  take-nil Issued (suc (done_before_fault l)),
  take-nil Issued (suc (suc (done_before_fault l))),
)
upsert_refines_from db now cuid (none ∷ none ∷ none ∷ none ∷ l) sn (some s) (some c) h = ground (
  arith,
  eq_iff sn "",
  take-nil Issued (done_before_fault l),
  take-nil Issued (suc (done_before_fault l)),
  take-nil Issued (suc (suc (done_before_fault l))),
)

-- Recording a ping with a serial number runs the statements of that ping, one after the other,
-- up to the first that fails, and changes nothing else in the database.
pub upsert_refines :
    (sn : String) (secret company : Option String) (w : World)
    → sn ≢ ""
    → (upsert_pending_device sn secret company w).1.db ≡ record (w.db) {
      pending_devices =
          apply_all
            (take (done_before_fault w.faults) (upsert_writes sn w.now secret company))
            w.db.pending_devices;
    }
upsert_refines sn secret company w h =
    upsert_refines_from w.db w.now w.cuid w.faults sn secret company h
