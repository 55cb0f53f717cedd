-- ===== src/Tests/Outgoing.antt =====
-- The guard on URLs, the times in webhooks, and a request of a company's admin.
use adms.WebhookVars.Timestamps.{format_frappe_timestamp-parse_device_datetime}
use adms.Store.Exec.{ok}
use adms.Attlog.{parse_device_datetime}
use adms.Calendar.{WallClock}
use adms.Devices.Commands.{send_command, CommandReply}
use adms.SsrfGuard.Blocks.{dotted, addresses_of, is_blocked, bits, is_safe_webhook_url-outside}
use adms.Calendar.Civil.{IsTime}
use adms.SsrfGuard.{is_safe_webhook_url, Network, Url, is_web, unsafe, safe, private_reason}
use adms.Devices.Foreign.{IdsAreKeys, foreign_rows}
use adms.Prelude.{
  includes, ℤ, length, arith, if◌then◌else◌, codes, refl, pos, some, ◌≡◌, true, to_lower_case, ◌==◌,
  [], false, ◌++◌, ◌∷◌, text_eq,
}
use adms.Calendar.Days.{IsDate}
use adms.Devices.Requests.{handle, Environment, DeviceRequest, handle-foreign_rows}
use adms.WebhookVars.{clock_text, to_iso_string, format_frappe_timestamp}
use adms.Tests.{other_gate, office, world_with, manager, first_day}

-- A host of one public address.
abbrev hooks : Url
hooks = record {
  protocol = codes "https:";
  hostname = codes "hooks.example";
  host = codes "hooks.example";
  pathname = codes "/punch";
}

abbrev net : Network
net = record {
  parse_url = λ raw. some hooks;
  is_ip = λ host. if host == codes "93.184.216.34" then 4 else 0;
  lookup = λ host. some (codes "93.184.216.34" ∷ []);
}

-- The same host, once its name resolves to an address of the network inside.
abbrev rebound : Network
rebound = record net {
  is_ip = λ host. if host == codes "10.0.0.7" then 4 else 0;
  lookup = λ host. some (codes "10.0.0.7" ∷ []);
}

hooks-safe : is_safe_webhook_url net "https://hooks.example/punch" ≡ safe
unfolding is_safe_webhook_url adms.Prelude.text_beq
hooks-safe = refl

rebound-unsafe : is_safe_webhook_url rebound "https://hooks.example/punch" ≡ unsafe private_reason
unfolding is_safe_webhook_url adms.Prelude.text_beq
rebound-unsafe = refl

hooks_ip : net.is_ip (dotted 93 184 216 34) ≡ 4
unfolding adms.Prelude.text_beq adms.Prelude.show_nat
hooks_ip = refl

hooks_address :
    includes (addresses_of net (to_lower_case hooks.hostname)) (dotted 93 184 216 34) ≡ true
unfolding adms.Prelude.text_beq to_lower_case adms.Prelude.show_nat
hooks_address = refl

is_safe_webhook_url-outside_example :
    (is_web hooks.protocol ≡ true)
    × ((to_lower_case hooks.hostname == codes "localhost") ≡ false)
    × (is_blocked (bits 93 184 216 34) ≡ false)
is_safe_webhook_url-outside_example =
    is_safe_webhook_url-outside net "https://hooks.example/punch" hooks 93 184 216 34 hooks-safe
      refl (omega arith) (omega arith) (omega arith) (omega arith) hooks_ip hooks_address

abbrev leap_day : WallClock
leap_day = record { year = 2024; month = 2; day = 29; hour = 9; minute = 5; second = 7 }

leap_day-IsDate : IsDate leap_day
unfolding adms.Calendar.Days.days_in_month adms.Calendar.is_leap
leap_day-IsDate = record {
  year_from_100 = omega arith;
  month_from_1 = omega arith;
  month_to_12 = omega arith;
  day_from_1 = omega arith;
  day_in_month = omega arith;
}

leap_day-IsTime : IsTime leap_day
leap_day-IsTime = record {
  hour_below = omega arith;
  minute_below = omega arith;
  second_below = omega arith;
}

leap_day_text : clock_text leap_day ≡ codes "2024-02-29 09:05:07"
unfolding adms.Prelude.show_nat adms.WebhookVars.pad
leap_day_text = refl

leap_day_iso : to_iso_string (pos 1709197507000) ≡ codes "2024-02-29T09:05:07.000Z"
unfolding to_iso_string
leap_day_iso = refl

format_frappe_timestamp-parse_device_datetime_example :
    (t : ℤ) × (parse_device_datetime (clock_text leap_day) ≡ some t)
    × (format_frappe_timestamp t ≡ clock_text leap_day ++ codes ".000000")
format_frappe_timestamp-parse_device_datetime_example =
    format_frappe_timestamp-parse_device_datetime leap_day leap_day-IsDate leap_day-IsTime
      (omega arith) (omega arith)

abbrev env : Environment
env = record { intl = first_day; net = net; threshold = 300; fresh = "random" }

-- A command for the device of another company is refused; one for the own device is queued.
send_command_other :
    (send_command manager "d2" (codes "REBOOT") (world_with [])).0 ≡ ok (CommandReply.refused 403)
unfolding send_command adms.Store.Exec.◌>>=◌ adms.Store.Exec.read
send_command_other = refl

send_command_own :
    length (send_command manager "d1" (codes "REBOOT") (world_with [])).1.db.device_commands ≡ 1
unfolding send_command adms.Store.Exec.◌>>=◌ adms.Store.Exec.read adms.Store.Exec.write
send_command_own = refl

office-IdsAreKeys : IdsAreKeys office.devices
office-IdsAreKeys = (refl, (refl, tt))

remove_own :
    (handle env manager (DeviceRequest.delete "d1") (world_with [])).devices ≡ other_gate ∷ []
unfolding handle adms.Devices.Edit.remove adms.Store.Exec.◌>>=◌ adms.Store.Exec.read
    adms.Store.Exec.checked_write
remove_own = refl

handle-foreign_rows_example :
    foreign_rows "c1" office.devices
      (handle env manager (DeviceRequest.delete "d1") (world_with []))
    ≡ foreign_rows "c1" office.devices office
handle-foreign_rows_example =
    handle-foreign_rows env manager "c1" (DeviceRequest.delete "d1") (world_with []) refl refl
      office-IdsAreKeys
