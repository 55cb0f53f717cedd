-- ===== src/Cdata.antt =====
-- src/adms/cdata.ts and src/adms/rawLog.ts: the handshake, and the pushes of punches and other
-- tables.
pub mod Ack
pub mod Batch
pub mod Push
use adms.Prelude.{
  suc, ℕ, String, Text, codes, Bool, true, false, ◌&&◌, not, Option, none, some, List, [], ◌∷◌,
  ◌++◌, map, ◌==◌, string_eq, text_eq, if◌then◌else◌, to_upper_case, is_empty, ℤ,
}
use adms.Http.{
  Request, Response, QueryValue, query_string, plain_string, body_text, non_empty, send_plain_text,
  ok_response, non_empty_string,
}
use adms.Store.{Db, Device, DeviceRawLog, RawRequestLog}
use adms.Store.Exec.{World, Result, ok, Async, DbError, pure, branch, ◌>>=◌, ◌>>◌, try_catch, write}
use adms.DbErrors.{DbErrorKind, classify_db_error, is_data, is_unique_violation}
use adms.DeviceLookup.{
  DeviceResolution, resolve_device, touch_device, send_rejected, send_unclaimed,
}
use adms.Attlog.{ParsedAttlogLine, parse_attlog_body}
use adms.Timezone.{Intl, zoned_wall_clock_to_utc, compute_time_zone_option_value}
use adms.Punches.{PunchData, create_many, create}

-- `logDeviceRawData`, which rejects when its statement does.
unfoldable pub raw_data : Request → String → Option Text → Text → World → Unit {0} × Db
raw_data req device_id table raw_body w =
    let log : DeviceRawLog = record {
      id = w.cuid w.db.minted;
      device_id = device_id;
      endpoint = req.path;
      method = req.method;
      table = table;
      query = req.query;
      headers = req.headers;
      raw_body = non_empty raw_body;
      created_at = w.now;
    } in
    (tt, record db { device_raw_logs = db.device_raw_logs ++ log ∷ []; minted = suc db.minted })
  where
    open w use {db}

unfoldable pub log_device_raw_data : Request → String → Option Text → Text → Async (Unit {0})
log_device_raw_data req device_id table raw_body = write (raw_data req device_id table raw_body)

abbrev options_head : Text
options_head =
    codes
      "GET OPTION FROM: SN\nATTLOGStamp=9999\nOPERLOGStamp=9999\nErrorDelay=60\nDelay=30\nTransTimes=00:00;14:05\nTransInterval=1\nTransFlag=1111111111\n"

abbrev options_tail : Text
options_tail = codes "Realtime=1\nEncrypt=0\n"

abbrev newline : Text
newline = 10 ∷ []

module _ (intl : Intl) where
  abbrev time_zone_line : Option String → ℕ → Text
  time_zone_line none now = []
  time_zone_line (some tz) now =
      if tz == ""
      then []
      else codes "TimeZone=" ++ (compute_time_zone_option_value intl tz now ++ newline)

  unfoldable pub build_options_response : Option String → ℕ → Text
  build_options_response tz now = options_head ++ (time_zone_line tz now ++ options_tail)

  abbrev punch_time_utc : String → ParsedAttlogLine → Option ℤ
  punch_time_utc tz r =
      if tz == "" then none else some (zoned_wall_clock_to_utc intl r.punch_time tz)

  unfoldable pub punch_row : String → Bool → String → ParsedAttlogLine → PunchData
  punch_row device_id has_webhook tz r = record {
    device_id = device_id;
    device_pin = r.pin;
    punch_time = r.punch_time;
    punch_time_utc = punch_time_utc tz r;
    status = r.status;
    verify_mode = r.verify_mode;
    work_code = r.work_code;
    reserved1 = r.reserved1;
    reserved2 = r.reserved2;
    raw_line = r.raw_line;
    webhook_held = not has_webhook;
  }

  abbrev pub attlog_rows : String → Bool → String → Text → List PunchData
  attlog_rows device_id has_webhook tz body =
      map (punch_row device_id has_webhook tz) (parse_attlog_body body).records

-- What became of one row: all but `lost` go on to the next row.
pub data RowOutcome : Type 0 where
  inserted duplicate skipped lost : RowOutcome

unfoldable pub row_failure : DbError → RowOutcome
unfolding is_unique_violation
row_failure e =
    if is_unique_violation e
    then duplicate
    else if is_data (classify_db_error e)
    then skipped
    else lost

unfoldable pub create_one : PunchData → Async RowOutcome
create_one row = try_catch (do create row; pure inserted) (λ e. pure (row_failure e))

-- Row by row; `false` is `stored: false`.
unfoldable pub store_each : List PunchData → Async Bool
store_each [] = pure true
store_each (row ∷ rows) =
    create_one row >>= λ outcome. elim outcome [ lost ↦ pure false | _ ↦ store_each rows ]

-- The whole batch in one statement, and row by row if that meets a data error.
unfoldable pub store_rows : List PunchData → Async Bool
store_rows rows =
    try_catch (do create_many rows; pure true)
      (λ e. branch (is_data (classify_db_error e)) (store_each rows) (pure false))

unfoldable pub store_batch : List PunchData → Async Bool
store_batch [] = pure true
store_batch (row ∷ rows) = store_rows (row ∷ rows)

-- `storeAttlog`, and the storing of any other table.
module _ (intl : Intl) where
  unfoldable pub store_attlog : String → Bool → String → Text → Async Bool
  store_attlog device_id has_webhook tz body =
      store_batch (attlog_rows intl device_id has_webhook tz body)

unfoldable pub store_raw : Request → String → Text → Text → Async Bool
store_raw req device_id table body =
    try_catch (do log_device_raw_data req device_id (non_empty table) body; pure true)
      (λ e. pure (is_data (classify_db_error e)))

abbrev non_empty_url : Option String → Bool
non_empty_url none = false
non_empty_url (some url) = not (url == "")

abbrev acknowledge : Bool → Response
acknowledge true = ok_response
acknowledge false = send_plain_text (codes "Internal Server Error") 500

module _ (intl : Intl) where
  abbrev pub store_push : Request → Device → Text → Async Bool
  store_push req d body w =
      let table = to_upper_case (codes (query_string req.table)) in
      branch (table == codes "ATTLOG")
        (store_attlog intl d.id (d.webhook_enabled && non_empty_url d.webhook_url) d.timezone body)
        (store_raw req d.id table body) w

  abbrev pub push_from : Request → Text → DeviceResolution → Async Response
  push_from req body r w = elim r.device [
    | none ↦ pure send_unclaimed w
    | some d ↦
        branch r.trusted
          (do touch_device d.id; stored ← store_push req d body; pure (acknowledge stored))
          (pure send_rejected) w
  ]

  -- POST /iclock/cdata
  unfoldable pub handle_cdata_post : Request → Async Response
  handle_cdata_post req =
      let body = body_text req.body in do r ← resolve_device req (some body); push_from req body r

  abbrev handshake_with : Option String → Async Response
  handshake_with tz w = (ok (send_plain_text (build_options_response intl tz w.now) 200), w)

  abbrev pub handshake_from : DeviceResolution → Async Response
  handshake_from r w = elim r.device [
    | none ↦ handshake_with none w
    | some d ↦
        branch r.trusted (do touch_device d.id; handshake_with (some d.timezone))
          (pure send_rejected) w
  ]

  -- GET /iclock/cdata
  unfoldable pub handle_cdata_get : Request → Async Response
  handle_cdata_get req = do r ← resolve_device req none; handshake_from r

unfoldable pub raw_request : Request → World → Unit {0} × Db
raw_request req w =
    let log : RawRequestLog = record {
      id = w.cuid w.db.minted;
      serial_number = non_empty_string (plain_string req.sn);
      endpoint = req.path;
      method = req.method;
      query = req.query;
      headers = req.headers;
      raw_body = non_empty (body_text req.body);
      created_at = w.now;
    } in
    (tt, record db { raw_request_logs = db.raw_request_logs ++ log ∷ []; minted = suc db.minted })
  where
    open w use {db}

-- The middleware `logRawRequest`, which never rejects.
unfoldable pub log_raw_request : Request → Async (Unit {0})
log_raw_request req = try_catch (write (raw_request req)) (λ e. pure tt)
