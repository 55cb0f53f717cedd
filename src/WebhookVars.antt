-- ===== src/WebhookVars.antt =====
-- src/webhooks/dispatcher.ts: the variables of a punch and the default body of its webhook.
pub mod Timestamps
use adms.Prelude.{
  zero, suc, length, ℕ, ℤ, ◌+◌, ◌/◌, ◌-◌, pos, String, Text, codes, Option, none, some, [], ◌∷◌,
  ◌++◌, string_eq, text_eq, show_nat, pos_part, neg_part, sub_ℕ, ◌*◌,
}
use adms.Json.{Json, null, str, num, obj, end, field}
use adms.Store.{Device, PunchRecord}
use adms.Calendar.{WallClock, epoch_day, ms_per_day}
use adms.Calendar.Civil.{utc_clock, utc_milliseconds}
use adms.Template.{Vars, VarValue, absent, text, number}

-- `String(n).padStart(width, "0")`
abbrev zeros : ℕ → Text
zeros zero = []
zeros (suc n) = b'0' ∷ zeros n

unfoldable pub pad : ℕ → ℕ → Text
unfolding show_nat
pad width n = zeros (width - length (show_nat n)) ++ show_nat n

abbrev pub day_text : (ℕ → Text) → WallClock → Text
day_text year w = year w.year ++ (b'-' ∷ (pad 2 w.month ++ (b'-' ∷ pad 2 w.day)))

abbrev pub time_text : WallClock → Text
time_text w = pad 2 w.hour ++ (b':' ∷ (pad 2 w.minute ++ (b':' ∷ pad 2 w.second)))

-- `YYYY-MM-DD HH:mm:ss`, where the year has its own digits.
abbrev pub clock_text : WallClock → Text
clock_text w = day_text show_nat w ++ (b' ' ∷ time_text w)

unfoldable pub format_frappe_timestamp : ℤ → Text
unfolding utc_clock pad
format_frappe_timestamp punch_time = clock_text (utc_clock punch_time) ++ codes ".000000"

-- `date.toISOString()` from the year 0 to 9999.
unfoldable pub to_iso_string : ℤ → Text
unfolding utc_clock utc_milliseconds pad
to_iso_string t =
    let w = utc_clock t in
    day_text (pad 4) w
    ++ (b'T' ∷ (time_text w ++ (b'.' ∷ (pad 3 (utc_milliseconds t) ++ codes "Z"))))

-- `Math.floor(ms / 1000)`
unfoldable pub unix_seconds : ℤ → ℤ
unix_seconds t =
    sub_ℕ ((pos_part t + epoch_day * ms_per_day - neg_part t) / 1000)
      (epoch_day * ms_per_day / 1000)

-- `PunchTemplateVars`
pub record PunchVars : Type 0 where
  pub pin : Text
  pub punch_time : Text
  pub punch_time_unix : ℤ
  pub punch_time_utc : Option Text
  pub device_timezone : Option Text
  pub punch_time_frappe : Text
  pub status : ℤ
  pub verify_mode : ℤ
  pub work_code : Option Text
  pub device_id : Text
  pub device_serial : Text
  pub company_id : Text
  pub company_name : Text
  pub received_at : Text

abbrev iso_or_null : Option ℤ → Option Text
iso_or_null none = none
iso_or_null (some t) = some (to_iso_string t)

unfoldable pub build_template_vars : PunchRecord → Device → String → PunchVars
unfolding to_iso_string unix_seconds format_frappe_timestamp
build_template_vars punch device company_name = record {
  pin = punch.device_pin;
  punch_time = to_iso_string punch.punch_time;
  punch_time_unix = unix_seconds punch.punch_time;
  punch_time_utc = iso_or_null punch.punch_time_utc;
  device_timezone = some (codes device.timezone);
  punch_time_frappe = format_frappe_timestamp punch.punch_time;
  status = punch.status;
  verify_mode = punch.verify_mode;
  work_code = punch.work_code;
  device_id = codes device.id;
  device_serial = codes device.serial_number;
  company_id = codes device.company_id;
  company_name = codes company_name;
  received_at = to_iso_string (pos punch.received_at);
}

abbrev text_or_absent : Option Text → VarValue
text_or_absent none = absent
text_or_absent (some t) = text t

-- The variables by name, as a template reads them.
unfoldable pub by_name : PunchVars → Vars
by_name v =
    (codes "pin", text v.pin)
    ∷ (codes "punch_time", text v.punch_time)
    ∷ (codes "punch_time_unix", number v.punch_time_unix)
    ∷ (codes "punch_time_utc", text_or_absent v.punch_time_utc)
    ∷ (codes "device_timezone", text_or_absent v.device_timezone)
    ∷ (codes "punch_time_frappe", text v.punch_time_frappe)
    ∷ (codes "status", number v.status)
    ∷ (codes "verify_mode", number v.verify_mode)
    ∷ (codes "work_code", text_or_absent v.work_code)
    ∷ (codes "device_id", text v.device_id)
    ∷ (codes "device_serial", text v.device_serial)
    ∷ (codes "company_id", text v.company_id)
    ∷ (codes "company_name", text v.company_name)
    ∷ (codes "received_at", text v.received_at)
    ∷ []

abbrev str_or_null : Option Text → Json
str_or_null none = null
str_or_null (some t) = str t

-- The body of a device without a template.
unfoldable pub build_default_payload : PunchVars → Json
build_default_payload v = obj (
    field (codes "event") (str (codes "punch.created")) (
      field (codes "company_id") (str v.company_id) (
        field (codes "device_id") (str v.device_id) (
          field (codes "device_serial") (str v.device_serial) (
            field (codes "pin") (str v.pin) (
              field (codes "punch_time") (str v.punch_time) (
                field (codes "punch_time_utc") (str_or_null v.punch_time_utc) (
                  field (codes "device_timezone") (str_or_null v.device_timezone) (
                    field (codes "status") (num v.status) (
                      field (codes "verify_mode") (num v.verify_mode) (
                        field (codes "work_code") (str_or_null v.work_code)
                          (field (codes "received_at") (str v.received_at) end))))))))))))
