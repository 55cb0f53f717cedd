-- ===== src/PunchRecords.antt =====
-- src/admin/punchRecords.ts: the status of a punch, the filter by status, and the retries and
-- deletions of the admin panel.
pub mod Deliveries
pub mod Listing
pub mod Pages
pub mod Status
pub mod Retry
use adms.Prelude.{
  find, ℕ, zero, suc, ◌+◌, String, Text, codes, Bool, true, false, ◌&&◌, ◌||◌, not, Option, none,
  some, List, [], ◌∷◌, map, filter, includes, ◌==◌, string_eq, leb, ltb, eqb, if◌then◌else◌,
  is_given, length,
}
use adms.Store.{Db, Device, PunchRecord, PlatformSettings}
use adms.Store.Exec.{
  World, Result, ok, thrown, DbError, known_request, Async, pure, branch, ◌>>=◌, ◌>>◌, try_catch,
  read, write, checked_write,
}
use adms.Retention.{delete_punch_records}
use adms.Worker.{is_device, is_punch, punch_id}
use adms.Access.{
  AdminIdentity, CompanyScope, is_super_admin, resolve_company_scope, require_super_admin, in_scope,
}

pub data WebhookStatus : Type 0 where
  delivered pending failed not_applicable : WebhookStatus

abbrev pub is_real_url : Option String → Bool
is_real_url none = false
is_real_url (some url) = not (url == "")

unfoldable pub has_active_webhook : Device → Bool
has_active_webhook d = d.webhook_enabled && is_real_url d.webhook_url

unfoldable pub compute_status : PunchRecord → Device → ℕ → WebhookStatus
unfolding has_active_webhook
compute_status p d max_attempts =
    if p.webhook_delivered
    then WebhookStatus.delivered
    else if p.webhook_held
    then WebhookStatus.not_applicable
    else if not (has_active_webhook d)
    then (if ltb 0 p.webhook_attempts then WebhookStatus.failed else WebhookStatus.not_applicable)
    else if leb max_attempts p.webhook_attempts
    then WebhookStatus.failed
    else WebhookStatus.pending

-- `{ device: { OR: [{ webhookEnabled: false }, { webhookUrl: null }] } }`
abbrev pub no_active_webhook : Device → Bool
no_active_webhook d = not d.webhook_enabled || not (is_given d.webhook_url)

-- `{ device: { webhookEnabled: true, webhookUrl: { not: null } } }`
abbrev pub active_webhook_condition : Device → Bool
active_webhook_condition d = d.webhook_enabled && is_given d.webhook_url

-- The rows that the filter lets through.
unfoldable pub status_condition : Option WebhookStatus → ℕ → PunchRecord → Device → Bool
status_condition none max_attempts p d = true
status_condition (some WebhookStatus.delivered) max_attempts p d = p.webhook_delivered
status_condition (some WebhookStatus.not_applicable) max_attempts p d =
    not p.webhook_delivered && (p.webhook_held || (no_active_webhook d && eqb p.webhook_attempts 0))
status_condition (some WebhookStatus.failed) max_attempts p d =
    not p.webhook_delivered
    && (not p.webhook_held
        && (leb max_attempts p.webhook_attempts
            || (no_active_webhook d && ltb 0 p.webhook_attempts)))
status_condition (some WebhookStatus.pending) max_attempts p d =
    not p.webhook_delivered
    && (not p.webhook_held && (active_webhook_condition d && ltb p.webhook_attempts max_attempts))

-- What `assertVisible` finds: no such row, a row of another company, or the row with its device.
pub data Visible : Type 0 where
  not_found forbidden : Visible
  visible : PunchRecord → Device → Visible

abbrev company_matches : Option String → String → Bool
company_matches none company_id = false
company_matches (some c) company_id = c == company_id

abbrev check_company : AdminIdentity → PunchRecord → Option Device → Visible
check_company admin p none = not_found
check_company admin p (some d) =
    if not (is_super_admin admin.role) && not (company_matches admin.company_id d.company_id)
    then forbidden
    else visible p d

abbrev check_record : AdminIdentity → List Device → Option PunchRecord → Visible
check_record admin devices none = not_found
check_record admin devices (some p) = check_company admin p (find (is_device p.device_id) devices)

unfoldable pub assert_visible : AdminIdentity → String → Db → Visible
assert_visible admin id db = check_record admin db.devices (find (is_punch id) db.punch_records)

unfoldable pub set_for_retry : List String → ℕ → PunchRecord → PunchRecord
set_for_retry ids now p =
    if includes ids p.id then record p { next_attempt_at = now; webhook_held = false } else p

unfoldable pub reset_for_retry : List String → World → Unit {0} × Db
unfolding set_for_retry
reset_for_retry ids w =
    (tt, record db { punch_records = map (set_for_retry ids now) db.punch_records })
  where
    open w use {db, now}

-- The answers of the routes: a status, and the number of rows of a bulk action.
pub data Reply : Type 0 where
  done : Reply
  retried : ℕ → Reply
  deleted : ℕ → Reply
  error : (status : ℕ) → Reply

abbrev pub retry_visible : Visible → Async Reply
retry_visible not_found = pure (error 404)
retry_visible forbidden = pure (error 403)
retry_visible (visible p d) =
    branch (has_active_webhook d) (do write (reset_for_retry (p.id ∷ [])); pure done)
      (pure (error 400))

-- POST /:id/retry
unfoldable pub retry : AdminIdentity → String → Async Reply
unfolding assert_visible has_active_webhook reset_for_retry
retry admin id = do v ← read (assert_visible admin id); retry_visible v

abbrev pub device_eligible : CompanyScope → Option Device → Bool
device_eligible scope none = false
device_eligible scope (some d) = in_scope scope d.company_id && active_webhook_condition d

abbrev pub is_eligible : CompanyScope → List String → List Device → PunchRecord → Bool
is_eligible scope ids devices p =
    includes ids p.id && device_eligible scope (find (is_device p.device_id) devices)

unfoldable pub eligible_ids : CompanyScope → List String → Db → List String
eligible_ids scope ids db =
    map punch_id (filter (is_eligible scope ids db.devices) db.punch_records)

-- `z.array(z.string()).min(1).max(500)`
abbrev pub is_bulk : List String → Bool
is_bulk ids = leb 1 (length ids) && leb (length ids) 500

-- POST /retry-bulk
unfoldable pub retry_bulk : AdminIdentity → List String → Async Reply
unfolding eligible_ids reset_for_retry resolve_company_scope
retry_bulk admin ids =
    branch (is_bulk ids)
      (do
        eligible ← read (eligible_ids (resolve_company_scope (some admin) none) ids)
        write (reset_for_retry eligible)
        pure (retried (length eligible)))
      (pure (error 400))

-- `delete` of one row, which fails with P2025 where there is none.
unfoldable pub delete_punch : String → World → Result (Unit {0}) × Db
unfolding delete_punch_records
delete_punch id w =
    let r = delete_punch_records (λ p. not (p.id == id)) w in
    if eqb r.0 0 then (thrown (known_request "P2025"), w.db) else (ok tt, r.1)

-- DELETE /:id
unfoldable pub delete_one : AdminIdentity → String → Async Reply
unfolding delete_punch
delete_one admin id =
    branch (is_super_admin admin.role)
      (try_catch (do checked_write (delete_punch id); pure done) (λ e. pure (error 404)))
      (pure (error 403))

-- POST /delete-bulk
unfoldable pub delete_bulk : AdminIdentity → List String → Async Reply
unfolding delete_punch_records
delete_bulk admin ids =
    branch (is_super_admin admin.role)
      (branch (is_bulk ids)
        (do
          count ← write (delete_punch_records (λ p. not (includes ids p.id)))
          pure (deleted count))
        (pure (error 400)))
      (pure (error 403))
