-- ===== src/DeviceLookup.antt =====
-- src/adms/deviceLookup.ts: which device a request comes from, and the record kept of serial
-- numbers that belong to no device yet.
pub mod Pending
pub mod Resolution
use adms.Prelude.{
  ℕ, suc, ◌+◌, String, Text, codes, Bool, true, false, ◌&&◌, ◌||◌, not, Option, none, some, List,
  [], ◌∷◌, ◌++◌, map, any, find, ◌==◌, if◌then◌else◌, to_lower_case, is_empty, string_eq, text_eq,
}
use adms.Http.{Request, Response, QueryValue, query_string, send_plain_text, body_text, non_empty}
use adms.Store.{Db, Device, PendingDevice, UnregisteredDevicePing, Company}
use adms.Store.Exec.{
  World, Result, Async, DbError, pure, ◌>>=◌, ◌>>◌, try_catch, read, write, branch,
}

abbrev pub send_rejected : Response
send_rejected = send_plain_text (codes "Unauthorized") 401

abbrev pub send_unclaimed : Response
send_unclaimed = send_plain_text (codes "Service Unavailable") 503

abbrev has_serial : String → Device → Bool
has_serial sn d = d.serial_number == sn

unfoldable pub device_of_serial : String → Db → Option Device
device_of_serial sn db = find (has_serial sn) db.devices

unfoldable pub find_device_by_serial : String → Async (Option Device)
unfolding device_of_serial
find_device_by_serial sn = branch (sn == "") (pure none) (read (device_of_serial sn))

abbrev set_last_seen : String → ℕ → Device → Device
set_last_seen id now d = if d.id == id then record d { last_seen_at = some now } else d

unfoldable pub touch : String → World → Unit {0} × Db
touch id w = (tt, record db { devices = map (set_last_seen id w.now) db.devices })
  where
    open w use {db}

-- Best effort: an error is logged and dropped.
unfoldable pub touch_device : String → Async (Unit {0})
touch_device id = try_catch (write (touch id)) (λ e. pure tt)

unfoldable pub is_device_request_trusted : String → Option String → Bool
is_device_request_trusted secret none = false
is_device_request_trusted secret (some given) = secret == given

abbrev has_slug : Text → Company → Bool
has_slug slug c = c.slug == slug

abbrev company_id_of : Option Company → Option String
company_id_of none = none
company_id_of (some c) = some c.id

unfoldable pub company_of_slug : Text → Db → Option String
company_of_slug slug db = company_id_of (find (has_slug slug) db.companies)

unfoldable pub resolve_company_id_from_slug : Option Text → Async (Option String)
resolve_company_id_from_slug none = pure none
resolve_company_id_from_slug (some slug) =
    branch (is_empty slug) (pure none)
      (try_catch (read (company_of_slug (to_lower_case slug))) (λ e. pure none))

unfoldable pub unregistered_ping : Request → String → Option Text → World → Unit {0} × Db
unregistered_ping req sn raw_body w =
    let ping : UnregisteredDevicePing = record {
      serial_number = if sn == "" then "(missing)" else sn;
      endpoint = req.path;
      method = req.method;
      query = req.query;
      raw_body = non_empty (body_text raw_body);
      created_at = w.now;
    } in
    (tt, record db { unregistered_pings = db.unregistered_pings ++ ping ∷ [] })
  where
    open w use {db}

unfoldable pub log_unregistered_ping : Request → String → Option Text → Async (Unit {0})
log_unregistered_ping req sn raw_body =
    try_catch (write (unregistered_ping req sn raw_body)) (λ e. pure tt)

-- The four statements of `upsertPendingDevice`, each atomic on its own.
pub data PendingWrite : Type 0 where
  claim_row bump : PendingWrite
  set_secret set_company : String → PendingWrite

abbrev pub has_pending_serial : String → PendingDevice → Bool
has_pending_serial sn p = p.serial_number == sn

abbrev new_pending : String → ℕ → PendingDevice
new_pending sn now = record {
  serial_number = sn;
  secret = none;
  company_id = none;
  first_seen_at = now;
  last_seen_at = now;
  ping_count = 0;
}

abbrev or_else : Option String → String → Option String
or_else none s = some s
or_else (some old) s = some old

-- `WHERE serialNumber = sn AND secret IS NULL` leaves a secret that is there.
abbrev pub update_pending : String → ℕ → PendingWrite → PendingDevice → PendingDevice
update_pending sn now claim_row p = p
update_pending sn now bump p =
    if p.serial_number == sn
    then record p { last_seen_at = now; ping_count = p.ping_count + 1 }
    else p
update_pending sn now (set_secret s) p =
    if p.serial_number == sn then record p { secret = or_else p.secret s } else p
update_pending sn now (set_company c) p =
    if p.serial_number == sn then record p { company_id = or_else p.company_id c } else p

unfoldable pub apply_write : String → ℕ → PendingWrite → List PendingDevice → List PendingDevice
apply_write sn now claim_row ps =
    if any (has_pending_serial sn) ps then ps else ps ++ new_pending sn now ∷ []
apply_write sn now k ps = map (update_pending sn now k) ps

-- The count that `createMany` returns: whether there was no row.
abbrev pub is_new_row : String → PendingWrite → List PendingDevice → Bool
is_new_row sn claim_row ps = not (any (has_pending_serial sn) ps)
is_new_row sn _ ps = false

unfoldable pub pending_write : String → PendingWrite → World → Bool × Db
unfolding apply_write
pending_write sn k w = (
  is_new_row sn k db.pending_devices,
  record db { pending_devices = apply_write sn w.now k db.pending_devices },
)
  where
    open w use {db}

abbrev pub when_some : Option String → (String → Async Bool) → Async Bool
when_some o f w = elim o [
  | none ↦ (Result.ok false, w)
  | some s ↦ branch (s == "") (pure false) (f s) w
]

unfoldable pub upsert_pending_device : String → Option String → Option String → Async Bool
unfolding pending_write ◌>>=◌
upsert_pending_device sn secret company = branch (sn == "") (pure false) (
    try_catch
      (do
        created ← write (pending_write sn claim_row)
        _ ← write (pending_write sn bump)
        _ ← when_some secret (λ s. write (pending_write sn (set_secret s)))
        _ ← when_some company (λ c. write (pending_write sn (set_company c)))
        pure created)
      (λ e. pure false))

pub record DeviceResolution : Type 0 where
  pub device : Option Device
  pub trusted : Bool

abbrev unregistered : DeviceResolution
unregistered = record { device = none; trusted = false }

abbrev log_if : Bool → Async (Unit {0}) → Async (Unit {0})
log_if b m = branch b m (pure tt)

unfoldable pub resolve_unregistered : Request → String → Option Text → Async DeviceResolution
resolve_unregistered req sn raw_body = do
  company ← resolve_company_id_from_slug req.company_slug
  is_new ← upsert_pending_device sn req.secret company
  _ ← log_if (sn == "" || is_new) (log_unregistered_ping req sn raw_body)
  pure unregistered

abbrev pub resolve_found : Request → String → Option Text → Option Device → Async DeviceResolution
resolve_found req sn raw_body none = resolve_unregistered req sn raw_body
resolve_found req sn raw_body (some d) =
    pure
      (record { device = some d; trusted = is_device_request_trusted d.device_secret req.secret })

unfoldable pub resolve_device : Request → Option Text → Async DeviceResolution
resolve_device req raw_body =
    let sn = query_string req.sn in find_device_by_serial sn >>= resolve_found req sn raw_body
