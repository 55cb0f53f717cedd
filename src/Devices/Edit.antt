-- ===== src/Devices/Edit.antt =====
-- src/admin/devices.ts: creating, editing, showing, listing and deleting devices. `fresh` is the
-- random text of a new secret, `threshold` the setting after which a device counts as offline.
use adms.Prelude.{
  ℕ, suc, String, Text, Bool, true, false, ◌&&◌, not, Option, none, some, List, [], ◌∷◌, ◌++◌, find,
  any, ◌==◌, string_eq, if◌then◌else◌, is_given,
}
use adms.Json.{Json}
use adms.Store.{Db, Device, Company}
use adms.Store.Cascade.{drop_devices}
use adms.Store.Exec.{
  World, Result, ok, thrown, DbError, known_request, initialization, rust_panic, other, Async, pure,
  branch, ◌>>=◌, try_catch, read, checked_write,
}
use adms.Timezone.{Intl, is_valid_time_zone}
use adms.Access.{AdminIdentity}
use adms.SsrfGuard.{Network, safe, unsafe, is_safe_webhook_url}
use adms.Worker.{is_device}
use adms.Devices.{
  ComputedDeviceStatus, compute_device_status, may_act_for, label_or, rethrow, has_serial,
  has_company, Company,
}

-- A key of a body that may be absent, null, or a value.
pub data Change (A : Type 0) : Type 0 where
  absent : Change A
  null : Change A
  value : A → Change A

-- `toJsonInput`, and any other nullable column: what the column is after a write.
abbrev pub after_change : {A : Type 0} → Change A → Option A → Option A
after_change absent old = old
after_change null old = none
after_change (value a) old = some a

abbrev pub or_kept : {A : Type 0} → Option A → A → A
or_kept none old = old
or_kept (some a) old = a

pub record CreateDevice : Type 0 where
  pub company_id : String
  pub serial_number : String
  pub label : Option Text
  pub device_secret : String
  pub timezone : String
  pub webhook_url : Option String
  pub webhook_enabled : Option Bool
  pub webhook_headers : Change (List (Text × Text))
  pub webhook_body_template : Change Json

abbrev pub is_non_empty : String → Bool
is_non_empty s = not (s == "")

-- `timezoneSchema`
unfoldable pub is_timezone : Intl → String → Bool
is_timezone intl tz = is_non_empty tz && is_valid_time_zone intl tz

-- `z.string().url()`
abbrev pub is_url : Network → Option String → Bool
is_url net none = true
is_url net (some url) = is_given (net.parse_url url)

-- `createSchema`
unfoldable pub is_valid_create : Intl → Network → CreateDevice → Bool
unfolding is_timezone
is_valid_create intl net req =
    is_non_empty req.company_id
    && (is_non_empty req.serial_number
        && (is_non_empty req.device_secret
            && (is_timezone intl req.timezone && is_url net req.webhook_url)))

-- What a listed device shows.
pub record ListItem : Type 0 where
  pub id : String
  pub company_id : String
  pub serial_number : String
  pub label : Option Text
  pub last_seen_at : Option ℕ
  pub webhook_enabled : Bool
  pub webhook_headers : Option (List (Text × Text))
  pub webhook_body_template : Option Json
  pub timezone : String
  pub created_at : ℕ
  pub status : ComputedDeviceStatus
  pub webhook_url_masked : Option Text

pub data DeviceReply : Type 0 where
  created : Device → ComputedDeviceStatus → DeviceReply
  shown : Device → ComputedDeviceStatus → DeviceReply
  listed : List (ListItem × Option Company) → (total page page_size : ℕ) → DeviceReply
  options : List Device → DeviceReply
  done : DeviceReply
  refused : (status : ℕ) → DeviceReply

-- A text that a JavaScript test takes for true.
abbrev pub given_text : Option String → Option String
given_text none = none
given_text (some s) = if s == "" then none else some s

-- The guard on the URL, if one is sent: whether the request may go on.
abbrev pub passes_guard : Network → Option String → Bool
passes_guard net none = true
passes_guard net (some url) = elim (is_safe_webhook_url net url) [
  | safe ↦ true
  | unsafe reason ↦ false
]

abbrev pub is_enabled : Option Bool → Bool
is_enabled none = false
is_enabled (some b) = b

abbrev secret_for : String → Option String → Option String
secret_for fresh none = none
secret_for fresh (some url) = some fresh

unfoldable pub new_device : String → CreateDevice → String → ℕ → Device
new_device fresh req id now = record {
  id = id;
  company_id = req.company_id;
  serial_number = req.serial_number;
  label = some (label_or req.serial_number req.label);
  last_seen_at = none;
  device_secret = req.device_secret;
  timezone = req.timezone;
  webhook_url = req.webhook_url;
  webhook_secret = secret_for fresh (given_text req.webhook_url);
  webhook_enabled = is_enabled req.webhook_enabled;
  webhook_headers = after_change req.webhook_headers none;
  webhook_body_template = after_change req.webhook_body_template none;
  created_at = now;
}

-- `device.create`
unfoldable pub insert_device : String → CreateDevice → World → Result Device × Db
unfolding new_device
insert_device fresh req w =
    if any (has_serial req.serial_number) db.devices
    then (thrown (known_request "P2002"), db)
    else if any (has_company req.company_id) db.companies
    then (let d = new_device fresh req (w.cuid db.minted) w.now in
        (ok d, record db { devices = db.devices ++ d ∷ []; minted = suc db.minted }))
    else (thrown (known_request "P2003"), db)
  where
    open w use {db}

abbrev pub insert_failure : DbError → Async DeviceReply
insert_failure (known_request code) =
    if code == "P2002"
    then pure (refused 409)
    else if code == "P2003"
    then pure (refused 400)
    else rethrow (known_request code)
insert_failure initialization = rethrow initialization
insert_failure rust_panic = rethrow rust_panic
insert_failure (other message) = rethrow (other message)

-- The status that an answer shows, at the time of the answer.
abbrev pub with_status :
    (Device → ComputedDeviceStatus → DeviceReply) → ℕ → Device → Async DeviceReply
with_status reply threshold d w =
    (ok (reply d (compute_device_status threshold d.last_seen_at w.now)), w)

abbrev pub create_safe : ℕ → String → CreateDevice → Async DeviceReply
create_safe threshold fresh req =
    try_catch (do d ← checked_write (insert_device fresh req); with_status created threshold d)
      insert_failure

-- POST /
unfoldable pub create :
    Intl → Network → ℕ → String → AdminIdentity → CreateDevice → Async DeviceReply
unfolding is_valid_create may_act_for is_safe_webhook_url insert_device compute_device_status
create intl net threshold fresh admin req =
    branch (is_valid_create intl net req)
      (branch (may_act_for admin req.company_id)
        (branch (passes_guard net (given_text req.webhook_url)) (create_safe threshold fresh req)
          (pure (refused 400)))
        (pure (refused 403)))
      (pure (refused 400))

-- A route on one device: 404 if there is none, 403 for an admin of another company.
abbrev pub on_found :
    AdminIdentity → (Device → Async DeviceReply) → Option Device → Async DeviceReply
on_found admin k none = pure (refused 404)
on_found admin k (some d) = branch (may_act_for admin d.company_id) (k d) (pure (refused 403))

abbrev pub device_with_id : String → Db → Option Device
device_with_id id db = find (is_device id) db.devices

abbrev pub on_device : AdminIdentity → String → (Device → Async DeviceReply) → Async DeviceReply
on_device admin id k = do found ← read (device_with_id id); on_found admin k found

-- GET /:id
unfoldable pub get : ℕ → AdminIdentity → String → Async DeviceReply
unfolding may_act_for compute_device_status
get threshold admin id = on_device admin id (with_status shown threshold)

-- `device.delete`
unfoldable pub delete_device : String → World → Result (Unit {0}) × Db
delete_device id w =
    if any (is_device id) w.db.devices
    then (ok tt, drop_devices (is_device id) w.db)
    else (thrown (known_request "P2025"), w.db)

abbrev pub remove_found : String → Device → Async DeviceReply
remove_found id d = do gone ← checked_write (delete_device id); pure done

-- DELETE /:id
unfoldable pub remove : AdminIdentity → String → Async DeviceReply
unfolding may_act_for delete_device
remove admin id = on_device admin id (remove_found id)
