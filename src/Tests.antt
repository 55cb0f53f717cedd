-- ===== src/Tests.antt =====
-- Runs on small inputs: a company with two devices, two punches and an admin.
mod Ingestion
mod Delivery
mod Admin
mod Panel
mod Accounts
mod Outgoing
mod Histories
use adms.Prelude.{
  ℕ, ◌+◌, ◌/◌, ◌%◌, String, Text, codes, Bool, true, false, Option, none, some, List, [], ◌∷◌, ℤ,
  if◌then◌else◌, ◌==◌, string_eq, pos,
}
use adms.Http.{Request, QueryValue}
use adms.Store.{
  Db, empty_db, Company, Device, PunchRecord, DeviceCommand, DeviceCommandStatus, AdminRole,
}
use adms.Store.Exec.{World, DbError}
use adms.Calendar.{WallClock}
use adms.Timezone.{Intl}
use adms.Access.{AdminIdentity}

abbrev pub acme : Company
acme = record { id = "c1"; name = "Acme"; slug = codes "acme" }

abbrev pub device_with : String → String → String → Device
device_with id company_id serial = record {
  id = id;
  company_id = company_id;
  serial_number = serial;
  label = none;
  last_seen_at = none;
  device_secret = "s3cret";
  timezone = "CET";
  webhook_url = some "https://acme.example/hook";
  webhook_secret = none;
  webhook_enabled = true;
  webhook_headers = none;
  webhook_body_template = none;
  created_at = 1;
}

abbrev pub gate : Device
gate = device_with "d1" "c1" "SN1"

abbrev pub other_gate : Device
other_gate = device_with "d2" "c2" "SN2"

abbrev pub punch_with : String → String → ℕ → PunchRecord
punch_with id device_id due = record {
  id = id;
  device_id = device_id;
  device_pin = codes "7";
  punch_time = pos 0;
  punch_time_utc = none;
  status = pos 0;
  verify_mode = pos 1;
  work_code = none;
  reserved1 = none;
  reserved2 = none;
  raw_line = codes "7";
  received_at = 1;
  webhook_delivered = false;
  webhook_attempts = 0;
  next_attempt_at = due;
  last_webhook_error = none;
  webhook_delivered_at = none;
  webhook_held = false;
}

abbrev pub office : Db
office = record empty_db {
  companies = acme ∷ [];
  devices = gate ∷ other_gate ∷ [];
  punch_records = punch_with "p1" "d1" 10 ∷ punch_with "p2" "d2" 20 ∷ [];
}

abbrev pub cuid_sample : ℕ → String
cuid_sample n = "new"

abbrev pub world_with : List (Option DbError) → World
world_with faults = record { db = office; now = 1000; faults = faults; cuid = cuid_sample }

-- The clock of the first day of 1970, in a zone one hour ahead and in UTC.
abbrev clock : ℕ → WallClock
clock n = record {
  year = 1970;
  month = 1;
  day = 1;
  hour = n / 3600000;
  minute = n / 60000 % 60;
  second = n / 1000 % 60;
}

abbrev clock_in : Bool → ℤ → WallClock
clock_in ahead (ℤ.pos n) = if ahead then clock (n + 3600000) else clock n
clock_in ahead (ℤ.negsuc n) = clock 0

abbrev pub first_day : Intl
first_day = record { accepts = λ tz. true; clock_at = λ tz t. clock_in (tz == "CET") t }

abbrev pub request_with : String → String → String → Option Text → Request
request_with sn method path body = record {
  sn = QueryValue.one sn;
  table = QueryValue.one "ATTLOG";
  path = path;
  method = method;
  query = "{}";
  headers = "{}";
  body = body;
  secret = some "s3cret";
  company_slug = some (codes "acme");
}

abbrev pub push : Request
push = request_with "SN1" "POST" "/cdata" (some (codes "7\t1970-01-01 09:00:00\t0\t1\n"))

abbrev pub manager : AdminIdentity
manager = record {
  id = "u1";
  email = "m@acme.example";
  role = AdminRole.company_admin;
  company_id = some "c1";
}
