-- ===== src/Punches.antt =====
-- The `punch_records` table as the ingestion writes it (model PunchRecord of prisma/schema.prisma):
-- rows are unique by device, pin, time, status and verify mode. A row's device is taken to exist.
pub mod Stored
use adms.Prelude.{
  ℕ, suc, ℤ, String, Text, Bool, true, false, ◌&&◌, ◌||◌, Option, none, some, List, [], ◌∷◌, ◌++◌,
  any, ◌==◌, if◌then◌else◌, string_eq, text_eq, int_eq,
}
use adms.Store.{Db, PunchRecord}
use adms.Store.Exec.{World, Result, ok, thrown, Async, DbError, known_request, write, checked_write}

-- What a `create` gives of a row; the other columns have their defaults.
pub record PunchData : Type 0 where
  pub device_id : String
  pub device_pin : Text
  pub punch_time : ℤ
  pub punch_time_utc : Option ℤ
  pub status : ℤ
  pub verify_mode : ℤ
  pub work_code : Option Text
  pub reserved1 : Option Text
  pub reserved2 : Option Text
  pub raw_line : Text
  pub webhook_held : Bool

-- The unique constraint `dedupe_key`.
unfoldable pub same_key : PunchData → PunchRecord → Bool
same_key r p =
    p.device_id == r.device_id
    && p.device_pin == r.device_pin
    && p.punch_time == r.punch_time
    && p.status == r.status
    && p.verify_mode == r.verify_mode

abbrev pub is_stored : PunchData → List PunchRecord → Bool
is_stored r ps = any (same_key r) ps

unfoldable pub new_punch : PunchData → String → ℕ → PunchRecord
new_punch r id now = record {
  id = id;
  device_id = r.device_id;
  device_pin = r.device_pin;
  punch_time = r.punch_time;
  punch_time_utc = r.punch_time_utc;
  status = r.status;
  verify_mode = r.verify_mode;
  work_code = r.work_code;
  reserved1 = r.reserved1;
  reserved2 = r.reserved2;
  raw_line = r.raw_line;
  received_at = now;
  webhook_delivered = false;
  webhook_attempts = 0;
  next_attempt_at = now;
  last_webhook_error = none;
  webhook_delivered_at = none;
  webhook_held = r.webhook_held;
}

unfoldable pub add_punch : PunchData → (ℕ → String) → ℕ → Db → Db
add_punch r cuid now db = record db {
  punch_records = db.punch_records ++ new_punch r (cuid db.minted) now ∷ [];
  minted = suc db.minted;
}

-- A row that conflicts with one that is there is skipped.
unfoldable pub insert_new : PunchData → (ℕ → String) → ℕ → Db → Db
insert_new r cuid now db = if is_stored r db.punch_records then db else add_punch r cuid now db

-- `createMany` with `skipDuplicates`, also of duplicates within the batch.
unfoldable pub insert_all : List PunchData → (ℕ → String) → ℕ → Db → Db
insert_all [] cuid now db = db
insert_all (r ∷ rs) cuid now db = insert_all rs cuid now (insert_new r cuid now db)

unfoldable pub create_many : List PunchData → Async (Unit {0})
create_many rows = write (λ w. (tt, insert_all rows w.cuid w.now w.db))

-- The row is written, or the unique constraint refuses it.
unfoldable pub insert_one : PunchData → World → Result (Unit {0}) × Db
insert_one r w =
    if is_stored r w.db.punch_records
    then (thrown (known_request "P2002"), w.db)
    else (ok tt, add_punch r w.cuid w.now w.db)

unfoldable pub create : PunchData → Async (Unit {0})
create r = checked_write (insert_one r)
