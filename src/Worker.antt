-- ===== src/Worker.antt =====
-- src/worker.ts: the worker that delivers punches to the webhooks of their devices.
pub mod Loop
pub mod Claims
pub mod Due
pub mod Attempts
pub mod Delivery
pub mod Outcome
use Prim.Native.Nat.{min}
use adms.Prelude.{
  sort_by, find, ℕ, zero, suc, ◌+◌, String, Text, Bool, true, false, ◌&&◌, not, Option, none, some,
  List, [], ◌∷◌, map, filter, take, any, includes, ◌==◌, string_eq, leb, ltb, if◌then◌else◌,
  get_elem?, is_given,
}
use adms.Store.{Db, Device, PunchRecord, WebhookDelivery, Company, PlatformSettings}
use adms.Store.Exec.{
  World, Result, ok, thrown, DbError, known_request, Async, pure, branch, ◌>>=◌, ◌>>◌, try_catch,
  transaction, read, write, checked_write, wait, call,
}
use adms.Retention.{get_or_create_platform_settings, run_retention_sweep}

abbrev pub backoff_schedule_ms : List ℕ
backoff_schedule_ms = 30000 ∷ 120000 ∷ 600000 ∷ 3600000 ∷ 21600000 ∷ []

-- The entry of the schedule for an attempt, the last one for all later attempts. There is none for
-- attempt 0, which never comes up.
unfoldable pub compute_backoff_ms : ℕ → Option ℕ
compute_backoff_ms zero = none
compute_backoff_ms (suc n) = get_elem? backoff_schedule_ms (min n 4)

abbrev pub claim_lease_ms : ℕ
claim_lease_ms = 60000

-- 2099-01-01T00:00:00Z
abbrev pub parked_next_attempt : ℕ
parked_next_attempt = 4070908800000

abbrev pub is_device : String → Device → Bool
is_device id d = d.id == id

abbrev pub has_webhook : Option Device → Bool
has_webhook none = false
has_webhook (some d) = d.webhook_enabled && is_given d.webhook_url

-- The `WHERE` of the claim: due, neither delivered nor held, and its device has a webhook.
unfoldable pub is_claimable : List Device → ℕ → PunchRecord → Bool
is_claimable devices now p =
    not p.webhook_delivered
    && (not p.webhook_held
        && (leb p.next_attempt_at now && has_webhook (find (is_device p.device_id) devices)))

abbrev pub due_time : PunchRecord → ℕ
due_time p = p.next_attempt_at

abbrev pub punch_id : PunchRecord → String
punch_id p = p.id

-- `FOR UPDATE OF pr SKIP LOCKED`: rows that another worker's open transaction holds are left out.
abbrev pub is_open : List String → PunchRecord → Bool
is_open locked p = not (includes locked p.id)

abbrev pub is_due : List String → List Device → ℕ → PunchRecord → Bool
is_due locked devices now p = is_open locked p && is_claimable devices now p

unfoldable pub due_ids : List String → ℕ → Db → ℕ → List String
unfolding is_claimable sort_by
due_ids locked batch_size db now =
    map punch_id
      (take batch_size (sort_by due_time (filter (is_due locked db.devices now) db.punch_records)))

unfoldable pub select_due : List String → ℕ → World → List String × Db
unfolding due_ids
select_due locked batch_size w = (due_ids locked batch_size w.db w.now, w.db)

unfoldable pub set_lease : List String → ℕ → PunchRecord → PunchRecord
set_lease ids until p = if includes ids p.id then record p { next_attempt_at = until } else p

unfoldable pub lease : List String → World → Unit {0} × Db
unfolding set_lease
lease ids w = (
  tt,
  record db { punch_records = map (set_lease ids (w.now + claim_lease_ms)) db.punch_records },
)
  where
    open w use {db}

abbrev pub take_lease : List String → Async (List String)
take_lease [] = pure []
take_lease (id ∷ ids) = do write (lease (id ∷ ids)); pure (id ∷ ids)

unfoldable pub claim_batch : List String → ℕ → Async (List String)
unfolding select_due lease
claim_batch locked batch_size =
    transaction do ids ← write (select_due locked batch_size); take_lease ids

-- `WebhookDispatchResult`, with the time that the call took.
pub record DispatchResult : Type 0 where
  pub success : Bool
  pub status_code : Option ℕ
  pub response_body : Option Text
  pub error : Option Text
  pub request_body : Text
  pub request_headers : Text
  pub elapsed_ms : ℕ

abbrev pub retry_at : ℕ → Option ℕ → ℕ
retry_at now none = now
retry_at now (some ms) = now + ms

-- `nextAttemptAt` after a failure
unfoldable pub next_attempt : ℕ → ℕ → ℕ → ℕ
unfolding compute_backoff_ms
next_attempt attempt max_attempts now =
    if leb max_attempts attempt
    then parked_next_attempt
    else retry_at now (compute_backoff_ms attempt)

unfoldable pub record_outcome : DispatchResult → ℕ → ℕ → ℕ → PunchRecord → PunchRecord
unfolding next_attempt
record_outcome result attempt max_attempts now p =
    if result.success
    then record p {
      webhook_delivered = true;
      webhook_delivered_at = some now;
      webhook_attempts = attempt;
      last_webhook_error = none;
    }
    else record p {
      webhook_attempts = attempt;
      last_webhook_error = result.error;
      next_attempt_at = next_attempt attempt max_attempts now;
    }

abbrev pub is_punch : String → PunchRecord → Bool
is_punch id p = p.id == id

abbrev pub delivery_of : DispatchResult → PunchRecord → String → ℕ → ℕ → WebhookDelivery
delivery_of result p url attempt now = record {
  punch_record_id = p.id;
  url = url;
  attempt = attempt;
  status_code = result.status_code;
  response_body = result.response_body;
  delivered = result.success;
  error = result.error;
  request_body = result.request_body;
  request_headers = result.request_headers;
  created_at = now;
}

unfoldable pub add_delivery : DispatchResult → PunchRecord → String → ℕ → World → Unit {0} × Db
add_delivery result p url attempt w =
    let row = delivery_of result p url attempt w.now in
    (tt, record db { webhook_deliveries = row ∷ db.webhook_deliveries })
  where
    open w use {db}

unfoldable pub update_punch : DispatchResult → String → ℕ → ℕ → World → Result (Unit {0}) × Db
unfolding record_outcome
update_punch result id attempt max_attempts w =
    let update : PunchRecord → PunchRecord =
      λ p. if p.id == id then record_outcome result attempt max_attempts w.now p else p in
    if any (is_punch id) db.punch_records
    then (ok tt, record db { punch_records = map update db.punch_records })
    else (thrown (known_request "P2025"), db)
  where
    open w use {db}

unfoldable pub log_attempt : DispatchResult → PunchRecord → String → ℕ → Async (Unit {0})
unfolding add_delivery update_punch
log_attempt result p url max_attempts = transaction do
  write (add_delivery result p url (p.webhook_attempts + 1))
  checked_write (update_punch result p.id (p.webhook_attempts + 1) max_attempts)
