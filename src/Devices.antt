-- ===== src/Devices.antt =====
-- src/admin/devices.ts, the claim of a device, and src/utils/deviceStatus.ts.
pub mod Patch
pub mod ClaimRows
pub mod ClaimSteps
pub mod Claim
pub mod Status
pub mod Edit
pub mod Commands
pub mod Pending
pub mod Logs
pub mod WebhookTest
pub mod Listing
pub mod Foreign
pub mod Scope
pub mod Tenancy
pub mod Requests
use adms.Prelude.{
  ℕ, suc, ◌+◌, ◌-◌, String, Text, codes, Bool, true, false, ◌&&◌, ◌||◌, not, Option, none, some,
  List, [], ◌∷◌, ◌++◌, find, any, filter, ◌==◌, string_eq, leb, ltb, if◌then◌else◌, trim, is_empty,
  is_given,
}
use adms.Store.{Db, Device, Company, PendingDevice}
use adms.Store.Exec.{
  World, Result, ok, thrown, DbError, known_request, initialization, rust_panic, other, Async, pure,
  branch, ◌>>=◌, ◌>>◌, try_catch, transaction, read, checked_write,
}
use adms.Timezone.{Intl, is_valid_time_zone}
use adms.Access.{AdminIdentity, is_super_admin}

pub data ComputedDeviceStatus : Type 0 where
  unknown online offline : ComputedDeviceStatus

unfoldable pub compute_device_status : ℕ → Option ℕ → ℕ → ComputedDeviceStatus
compute_device_status threshold none now = unknown
compute_device_status threshold (some seen) now =
    if leb now (seen + threshold) then online else offline

-- The rows that the filter by status lets through; times are never negative.
abbrev seen_from : ℕ → Option ℕ → Bool
seen_from cutoff none = false
seen_from cutoff (some seen) = leb cutoff seen

abbrev seen_before : ℕ → Option ℕ → Bool
seen_before cutoff none = false
seen_before cutoff (some seen) = ltb seen cutoff

unfoldable pub device_status_condition : ℕ → Option ComputedDeviceStatus → Option ℕ → ℕ → Bool
device_status_condition threshold none seen now = true
device_status_condition threshold (some online) seen now = seen_from (now - threshold) seen
device_status_condition threshold (some offline) seen now = seen_before (now - threshold) seen
device_status_condition threshold (some unknown) seen now = not (is_given seen)

pub record ClaimRequest : Type 0 where
  pub serial_number : String
  pub company_id : String
  pub label : Option Text
  pub timezone : String

-- 201 with the device, or a refusal with its status.
pub data ClaimReply : Type 0 where
  claimed : Device → ClaimReply
  refused : (status : ℕ) → ClaimReply

-- `claimSchema`
unfoldable pub is_valid_claim : Intl → ClaimRequest → Bool
is_valid_claim intl req =
    not (req.serial_number == "")
    && (not (req.company_id == "")
        && (not (req.timezone == "") && is_valid_time_zone intl req.timezone))

abbrev pub is_company_of : Option String → String → Bool
is_company_of none company_id = false
is_company_of (some c) company_id = c == company_id

unfoldable pub may_act_for : AdminIdentity → String → Bool
may_act_for admin company_id =
    is_super_admin admin.role || is_company_of admin.company_id company_id

abbrev pub is_pending_of : String → PendingDevice → Bool
is_pending_of sn p = p.serial_number == sn

-- Whether the pending row is nobody's yet, or of the company that claims it.
abbrev pub is_free_for : String → Option String → Bool
is_free_for company_id none = true
is_free_for company_id (some c) = c == "" || c == company_id

unfoldable pub may_take : AdminIdentity → String → Option PendingDevice → Bool
may_take admin company_id none = true
may_take admin company_id (some p) =
    is_super_admin admin.role || is_free_for company_id p.company_id

abbrev secret_or : String → Option String → String
secret_or fresh none = fresh
secret_or fresh (some s) = s

-- `pending?.secret ?? crypto.randomBytes(24).toString("hex")`, where `fresh` is the random text.
unfoldable pub claimed_secret : String → Option PendingDevice → String
claimed_secret fresh none = fresh
claimed_secret fresh (some p) = secret_or fresh p.secret

abbrev pub label_or : String → Option Text → Text
label_or sn none = codes sn
label_or sn (some label) = if is_empty (trim label) then codes sn else trim label

unfoldable pub claimed_device : ClaimRequest → String → String → ℕ → Device
claimed_device req secret id now = record {
  id = id;
  company_id = req.company_id;
  serial_number = req.serial_number;
  label = some (label_or req.serial_number req.label);
  last_seen_at = none;
  device_secret = secret;
  timezone = req.timezone;
  webhook_url = none;
  webhook_secret = none;
  webhook_enabled = false;
  webhook_headers = none;
  webhook_body_template = none;
  created_at = now;
}

abbrev pub has_serial : String → Device → Bool
has_serial sn d = d.serial_number == sn

abbrev has_company : String → Company → Bool
has_company id c = c.id == id

-- `device.create`: the serial number is unique, and the company has to exist.
unfoldable pub create_device : ClaimRequest → String → World → Result Device × Db
unfolding claimed_device
create_device req secret w =
    if any (has_serial req.serial_number) db.devices
    then (thrown (known_request "P2002"), db)
    else if any (has_company req.company_id) db.companies
    then (let d = claimed_device req secret (w.cuid db.minted) w.now in
        (ok d, record db { devices = db.devices ++ d ∷ []; minted = suc db.minted }))
    else (thrown (known_request "P2003"), db)
  where
    open w use {db}

-- `pendingDevice.delete`
unfoldable pub delete_pending : String → World → Result (Unit {0}) × Db
delete_pending sn w =
    if any (is_pending_of sn) db.pending_devices
    then (
      ok tt,
      record db { pending_devices = filter (λ p. not (is_pending_of sn p)) db.pending_devices },
    )
    else (thrown (known_request "P2025"), db)
  where
    open w use {db}

abbrev delete_if_pending : String → Option PendingDevice → Async (Unit {0})
delete_if_pending sn none = pure tt
delete_if_pending sn (some p) = checked_write (delete_pending sn)

abbrev pub create_claimed : ClaimRequest → String → Option PendingDevice → Async ClaimReply
create_claimed req secret pending = do
  d ← checked_write (create_device req secret)
  delete_if_pending req.serial_number pending
  pure (claimed d)

abbrev pub rethrow : {A : Type 0} → DbError → Async A
rethrow e w = (thrown e, w)

-- Conflicts and unknown companies are answered; anything else rejects.
abbrev pub claim_failure : DbError → Async ClaimReply
claim_failure (known_request code) =
    if code == "P2002"
    then pure (refused 409)
    else if code == "P2003"
    then pure (refused 400)
    else rethrow (known_request code)
claim_failure initialization = rethrow initialization
claim_failure rust_panic = rethrow rust_panic
claim_failure (other message) = rethrow (other message)

abbrev pub claim_pending :
    AdminIdentity → String → ClaimRequest → Option PendingDevice → Async ClaimReply
claim_pending admin fresh req pending =
    branch (may_take admin req.company_id pending)
      (try_catch (transaction (create_claimed req (claimed_secret fresh pending) pending))
        claim_failure)
      (pure (refused 403))

abbrev pub pending_of : String → Db → Option PendingDevice
pending_of sn db = find (is_pending_of sn) db.pending_devices

-- POST /claim
unfoldable pub claim : Intl → String → AdminIdentity → ClaimRequest → Async ClaimReply
unfolding is_valid_claim may_act_for may_take claimed_secret create_device delete_pending
claim intl fresh admin req =
    branch (is_valid_claim intl req)
      (branch (may_act_for admin req.company_id)
        (do pending ← read (pending_of req.serial_number); claim_pending admin fresh req pending)
        (pure (refused 403)))
      (pure (refused 400))
