-- ===== src/Tests/Ingestion.antt =====
-- The requests of devices.
use adms.Prelude.{
  inl, inr, some, none, List, refl, ℕ, ℤ, Bool, Option, Text, length, ◌+◌, ◌++◌, ◌∷◌, true, false,
  pos, ◌+ℤ◌, ◌-ℤ◌, take, drop, filter, sort_by, All, IsSorted, NotAfter, ◌↔◌, any, arith,
  to_upper_case, codes, ◌≡◌, ◌≢◌, ◌≤◌, ◌-◌, [], ◌⊎◌,
}
use adms.Http.{Response, ok_response, query_string, body_text, Request}
use adms.Store.{Db, DeviceCommand, DeviceCommandStatus, PendingDevice}
use adms.Store.Exec.{World, DbError, thrown, ok}
use adms.Tests.{office, push, first_day, gate, world_with}
use adms.Punches.{PunchData}
use adms.Punches.Stored.{Stored}
use adms.Cdata.{store_attlog, handle_cdata_post}
use adms.Cdata.Ack.{transient_faults, missing, data_faults}
use adms.Cdata.Batch.{rows_of, store_attlog_answer, store_attlog_again}
use adms.Attlog.{parse_attlog_body, body_lines, parse_int}
use adms.Attlog.Lines.{records_of, errors_of, parse_attlog_body-lines, parse_attlog_body-append}
use adms.DeviceLookup.{
  PendingWrite, upsert_pending_device, DeviceResolution, resolve_device, device_of_serial,
}
use adms.DeviceLookup.Pending.{
  Issued, apply_all, find_pending, Outcome, first_write_wins, done_before_fault, upsert_writes,
  upsert_refines,
}
use adms.DeviceLookup.Resolution.{Answer, resolve_device-Answer, resolve_device-throws}
use adms.Router.{adms_router, parsed}
use adms.Router.Answers.{Owed, adms_router-Owed}
use adms.Calendar.{WallClock, date_utc, ms_per_day}
use adms.Timezone.{offset_ms, zoned_wall_clock_to_utc, zoned_wall_clock_now, option_value}
use adms.Timezone.Conversion.{zoned_wall_clock_to_utc_exact, option_value-injective}
use adms.Commands.{next_commands, command_time, id_match}
use adms.Commands.Queue.{next_commands_lem, Waits, Served}
use adms.Commands.Acks.{id_match-id}
use adms.Cdata.Push.{pushed, handle_cdata_post-200}

serial_given : query_string push.sn ≢ ""
unfolding query_string
serial_given e = cc

push_known : device_of_serial (query_string push.sn) office ≡ some gate
unfolding device_of_serial query_string
push_known = refl

push_table : to_upper_case (codes (query_string push.table)) ≡ codes "ATTLOG"
unfolding query_string to_upper_case
push_table = refl

push_answered : (handle_cdata_post first_day push (world_with [])).0 ≡ ok ok_response
unfolding handle_cdata_post adms.Store.Exec.◌>>=◌ adms.DeviceLookup.resolve_device
    adms.DeviceLookup.find_device_by_serial query_string adms.Store.Exec.read
    adms.DeviceLookup.is_device_request_trusted adms.Store.Exec.◌>>◌ adms.DeviceLookup.touch_device
    adms.Store.Exec.try_catch adms.Store.Exec.write adms.Prelude.text_beq to_upper_case
    adms.Cdata.store_attlog adms.Cdata.store_batch adms.Attlog.parse_attlog_body
    adms.Cdata.store_rows adms.Punches.create_many adms.Attlog.body_lines adms.Attlog.digits
    adms.Attlog.empty_to_null adms.Attlog.expect adms.Attlog.match_datetime
    adms.Attlog.parse_attlog_line adms.Attlog.parse_device_datetime adms.Attlog.parse_fields
    adms.Attlog.parse_int adms.Attlog.parse_lines adms.Attlog.split_lines adms.Attlog.split_tab
    adms.Attlog.strip_cr adms.Calendar.date_utc adms.Calendar.day_number
    adms.Calendar.days_before_month adms.Calendar.days_before_year adms.Calendar.is_leap
    adms.Cdata.create_one adms.Cdata.log_device_raw_data adms.Cdata.punch_row adms.Cdata.raw_data
    adms.Cdata.row_failure adms.Cdata.store_each adms.Cdata.store_raw
    adms.DbErrors.classify_db_error adms.DbErrors.is_unique_violation
    adms.DbErrors.matches_data_error_message adms.DeviceLookup.apply_write
    adms.DeviceLookup.company_of_slug device_of_serial adms.DeviceLookup.log_unregistered_ping
    adms.DeviceLookup.pending_write adms.DeviceLookup.resolve_company_id_from_slug
    adms.DeviceLookup.resolve_unregistered adms.DeviceLookup.touch
    adms.DeviceLookup.unregistered_ping adms.DeviceLookup.upsert_pending_device adms.Prelude.◌-ℤ◌
    adms.Prelude.is_digit adms.Prelude.is_empty adms.Prelude.is_space adms.Prelude.strip_prefix_i
    adms.Prelude.to_lower_case adms.Prelude.to_lower_char adms.Prelude.to_upper_char
    adms.Prelude.trim adms.Prelude.trim_end adms.Prelude.trim_start adms.Punches.add_punch
    adms.Punches.create adms.Punches.insert_all adms.Punches.insert_new adms.Punches.insert_one
    adms.Punches.new_punch adms.Punches.same_key adms.Store.Exec.checked_write
    adms.Store.Exec.statement adms.Timezone.offset_ms adms.Timezone.zoned_wall_clock_now
    adms.Timezone.zoned_wall_clock_to_utc
push_answered = refl

handle_cdata_post-200_example :
    missing
      (pushed first_day push gate (body_text push.body))
      (handle_cdata_post first_day push (world_with [])).1.db
    ≤ data_faults [] - 1
handle_cdata_post-200_example =
    handle_cdata_post-200 first_day push gate (world_with []) ok_response tt serial_given push_known
      refl push_table push_answered refl

abbrev rows : List PunchData
rows = rows_of first_day "d1" true "CET" (body_text push.body)

store_attlog_answer_example :
    (stored : Bool) × ((store_attlog first_day "d1" true "CET"
        (body_text push.body)
        (world_with [])).0
      ≡ ok stored)
    × (stored ≡ true
        → missing rows
            (store_attlog first_day "d1" true "CET" (body_text push.body) (world_with [])).1.db
          ≤ data_faults [] - 1)
    × (stored ≡ false → 1 ≤ transient_faults [])
    × ((s : PunchData)
        → Stored s office
        → Stored s
            (store_attlog first_day "d1" true "CET" (body_text push.body) (world_with [])).1.db)
store_attlog_answer_example =
    store_attlog_answer first_day "d1" true "CET" (body_text push.body) (world_with []) tt

abbrev repeated : World
repeated = record (world_with []) {
  db = (store_attlog first_day "d1" true "CET" (body_text push.body) (world_with [])).1.db;
  now = 2000;
  faults = some DbError.initialization ∷ [];
}

batch_told :
    (store_attlog first_day "d1" true "CET" (body_text push.body) (world_with [])).0 ≡ ok true
unfolding store_attlog adms.Store.Exec.◌>>=◌ adms.DeviceLookup.resolve_device
    adms.DeviceLookup.find_device_by_serial query_string adms.Store.Exec.read
    adms.DeviceLookup.is_device_request_trusted adms.Store.Exec.◌>>◌ adms.DeviceLookup.touch_device
    adms.Store.Exec.try_catch adms.Store.Exec.write adms.Prelude.text_beq to_upper_case
    adms.Cdata.store_batch adms.Attlog.parse_attlog_body adms.Cdata.store_rows
    adms.Punches.create_many adms.Attlog.body_lines adms.Attlog.digits adms.Attlog.empty_to_null
    adms.Attlog.expect adms.Attlog.match_datetime adms.Attlog.parse_attlog_line
    adms.Attlog.parse_device_datetime adms.Attlog.parse_fields adms.Attlog.parse_int
    adms.Attlog.parse_lines adms.Attlog.split_lines adms.Attlog.split_tab adms.Attlog.strip_cr
    adms.Calendar.date_utc adms.Calendar.day_number adms.Calendar.days_before_month
    adms.Calendar.days_before_year adms.Calendar.is_leap adms.Cdata.create_one
    adms.Cdata.log_device_raw_data adms.Cdata.punch_row adms.Cdata.raw_data adms.Cdata.row_failure
    adms.Cdata.store_each adms.Cdata.store_raw adms.DbErrors.classify_db_error
    adms.DbErrors.is_unique_violation adms.DbErrors.matches_data_error_message
    adms.DeviceLookup.apply_write adms.DeviceLookup.company_of_slug device_of_serial
    adms.DeviceLookup.log_unregistered_ping adms.DeviceLookup.pending_write
    adms.DeviceLookup.resolve_company_id_from_slug adms.DeviceLookup.resolve_unregistered
    adms.DeviceLookup.touch adms.DeviceLookup.unregistered_ping
    adms.DeviceLookup.upsert_pending_device adms.Prelude.◌-ℤ◌ adms.Prelude.is_digit
    adms.Prelude.is_empty adms.Prelude.is_space adms.Prelude.strip_prefix_i
    adms.Prelude.to_lower_case adms.Prelude.to_lower_char adms.Prelude.to_upper_char
    adms.Prelude.trim adms.Prelude.trim_end adms.Prelude.trim_start adms.Punches.add_punch
    adms.Punches.create adms.Punches.insert_all adms.Punches.insert_new adms.Punches.insert_one
    adms.Punches.new_punch adms.Punches.same_key adms.Store.Exec.checked_write
    adms.Store.Exec.statement adms.Timezone.offset_ms adms.Timezone.zoned_wall_clock_now
    adms.Timezone.zoned_wall_clock_to_utc
batch_told = refl

store_attlog_again_example :
    ((store_attlog first_day "d1" true "CET" (body_text push.body) repeated).1.db ≡ repeated.db)
    × ((repeated.faults ≢ [])
        ⊎ ((store_attlog first_day "d1" true "CET" (body_text push.body) repeated).0 ≡ ok true))
store_attlog_again_example =
    store_attlog_again first_day "d1" true "CET" (body_text push.body) (world_with []) repeated tt
      (unfold data_faults in omega arith) batch_told refl

abbrev two_lines : Text
two_lines = codes "7\t1970-01-01 09:00:00\t0\t1\nbroken"

parse_attlog_body-lines_example :
    ((parse_attlog_body two_lines).records ≡ records_of (body_lines two_lines))
    × ((parse_attlog_body two_lines).errors ≡ errors_of (body_lines two_lines))
    × (length (parse_attlog_body two_lines).records + length (parse_attlog_body two_lines).errors
        ≡ length (body_lines two_lines))
parse_attlog_body-lines_example = parse_attlog_body-lines two_lines

parse_attlog_body-append_example :
    ((parse_attlog_body (codes "broken\r" ++ 10 ∷ two_lines)).records
      ≡ (parse_attlog_body (codes "broken\r")).records ++ (parse_attlog_body two_lines).records)
    × ((parse_attlog_body (codes "broken\r" ++ 10 ∷ two_lines)).errors
        ≡ (parse_attlog_body (codes "broken\r")).errors ++ (parse_attlog_body two_lines).errors)
parse_attlog_body-append_example = parse_attlog_body-append (codes "broken\r") two_lines

parse_int-junk : parse_int (codes " -12x") ≡ some (ℤ.negsuc 11)
unfolding parse_int
parse_int-junk = refl

abbrev waiting : PendingDevice
waiting = record {
  serial_number = "SN9";
  secret = none;
  company_id = none;
  first_seen_at = 5;
  last_seen_at = 5;
  ping_count = 1;
}

abbrev statements : List Issued
statements =
    record { sn = "SN9"; at = 6; does = PendingWrite.set_secret "a" }
    ∷ record { sn = "SN9"; at = 7; does = PendingWrite.set_secret "b" }
    ∷ []

waiting_found : find_pending "SN9" (waiting ∷ []) ≡ some waiting
waiting_found = refl

first_write_wins_example :
    (q : PendingDevice) × (find_pending "SN9" (apply_all statements (waiting ∷ [])) ≡ some q)
    × Outcome "SN9" statements waiting q
first_write_wins_example = first_write_wins "SN9" statements (waiting ∷ []) waiting waiting_found

upsert_refines_example :
    (upsert_pending_device "SN1" (some "s") none (world_with [])).1.db ≡ record office {
      pending_devices =
          apply_all (take (done_before_fault []) (upsert_writes "SN1" 1000 (some "s") none)) [];
    }
unfolding query_string
upsert_refines_example = upsert_refines "SN1" (some "s") none (world_with []) serial_given

abbrev recognised : DeviceResolution
recognised = record { device = some gate; trusted = true }

push_resolved : (resolve_device push none (world_with [])).0 ≡ ok recognised
unfolding resolve_device adms.Store.Exec.◌>>=◌ adms.DeviceLookup.find_device_by_serial query_string
    adms.Store.Exec.read adms.DeviceLookup.is_device_request_trusted
push_resolved = refl

resolve_device-Answer_example :
    Answer push (world_with []) recognised (resolve_device push none (world_with [])).1.db
resolve_device-Answer_example =
    resolve_device-Answer push none (world_with []) recognised push_resolved

abbrev broken_world : World
broken_world = world_with (some DbError.initialization ∷ [])

push_thrown : (resolve_device push none broken_world).0 ≡ thrown DbError.initialization
unfolding resolve_device adms.Store.Exec.◌>>=◌ adms.DeviceLookup.find_device_by_serial query_string
    adms.Store.Exec.read
push_thrown = refl

resolve_device-throws_example :
    (l : List (Option DbError)) × (some DbError.initialization ∷ []
      ≡ some DbError.initialization ∷ l)
resolve_device-throws_example =
    resolve_device-throws push none broken_world DbError.initialization push_thrown

adms_router-Owed_example :
    (o : Option Response) × ((adms_router first_day (parsed push) broken_world).0 ≡ ok o)
    × Owed (parsed push) o
adms_router-Owed_example = adms_router-Owed first_day (parsed push) broken_world

one_hour_ahead :
    offset_ms first_day (zoned_wall_clock_to_utc first_day (pos 32400000) "CET") "CET"
    ≡ offset_ms first_day (pos 32400000 -ℤ offset_ms first_day (pos 32400000) "CET") "CET"
unfolding offset_ms ◌-ℤ◌ zoned_wall_clock_to_utc zoned_wall_clock_now date_utc
    adms.Calendar.day_number adms.Calendar.days_before_year adms.Calendar.days_before_month
one_hour_ahead = refl

zoned_wall_clock_to_utc_exact_example :
    zoned_wall_clock_now first_day "CET" (zoned_wall_clock_to_utc first_day (pos 32400000) "CET")
    ≡ pos 32400000
zoned_wall_clock_to_utc_exact_example =
    zoned_wall_clock_to_utc_exact first_day "CET" (pos 32400000) one_hour_ahead

option_value-injective_example : pos 330 ≡ pos 330
option_value-injective_example =
    option_value-injective (pos 330) (pos 330) (omega arith) refl (omega arith) refl refl

abbrev queued : ℕ → DeviceCommand
queued n = record {
  id = codes "12";
  device_id = "d1";
  command = codes "REBOOT";
  status = DeviceCommandStatus.pending;
  response = none;
  created_at = n;
  sent_at = none;
  acked_at = none;
}

abbrev queue : List DeviceCommand
queue = queued 9 ∷ queued 4 ∷ []

next_commands_lem_example :
    (length (next_commands "d1" queue) ≤ 10)
    × All (Waits "d1" queue) (next_commands "d1" queue)
    × IsSorted command_time (next_commands "d1" queue)
    × All (Served "d1" (next_commands "d1" queue)) queue
next_commands_lem_example = next_commands_lem "d1" queue

id_match-id_example :
    id_match (codes "ID=" ++ (codes "12" ++ codes "&Return=0")) ≡ some (codes "12")
unfolding adms.Prelude.is_space
id_match-id_example = id_match-id 49 (codes "2") (codes "&Return=0") (refl, (refl, tt)) refl

abbrev queued_world : World
queued_world = record (world_with []) { db = record office { device_commands = queue } }

abbrev reply : Request
reply = record push { body = some (codes "ID=12&Return=0") }
