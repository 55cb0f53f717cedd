-- ===== src/Worker/Loop.antt =====
-- src/worker.ts: sending one punch, a batch of them, and the tick of the loop.
use adms.Worker.{DispatchResult, log_attempt, claim_batch, is_device, is_punch}
use adms.Prelude.{
  find, ℕ, ◌+◌, String, Bool, Option, none, some, List, [], ◌∷◌, ◌==◌, string_eq, ltb,
}
use adms.Store.{Db, Device, PunchRecord, Company, PlatformSettings}
use adms.Store.Exec.{Result, Async, pure, branch, ◌>>=◌, ◌>>◌, try_catch, read, wait, call}
use adms.Retention.{get_or_create_platform_settings, run_retention_sweep}

-- A punch with its device and the name of the device's company.
abbrev pub Loaded : Type 0
Loaded = PunchRecord × Device × String

abbrev pub is_company : String → Company → Bool
is_company id c = c.id == id

abbrev pub with_company : PunchRecord → Device → Option Company → Option Loaded
with_company p d none = none
with_company p d (some c) = some (p, d, c.name)

abbrev pub with_device : Db → PunchRecord → Option Device → Option Loaded
with_device db p none = none
with_device db p (some d) = with_company p d (find (is_company d.company_id) db.companies)

abbrev pub with_punch : Db → Option PunchRecord → Option Loaded
with_punch db none = none
with_punch db (some p) = with_device db p (find (is_device p.device_id) db.devices)

-- `findUnique` with `include`; the foreign keys see to it that a punch has a device and that has
-- a company.
unfoldable pub load_punch : String → Db → Option Loaded
load_punch id db = with_punch db (find (is_punch id) db.punch_records)

abbrev pub Dispatch : Type 0
Dispatch = PunchRecord → Device → String → ℕ → Result DispatchResult

module _ (dispatch_punch_webhook : Dispatch) where
  abbrev pub send_to : Loaded → ℕ → ℕ → String → Async (Unit {0})
  send_to (p, d, company) max_attempts timeout_ms url = branch (url == "") (pure tt) do
    result ← call (dispatch_punch_webhook p d company timeout_ms)
    wait result.elapsed_ms
    log_attempt result p url max_attempts

  abbrev pub send_url : Loaded → ℕ → ℕ → Option String → Async (Unit {0})
  send_url loaded max_attempts timeout_ms none = pure tt
  send_url loaded max_attempts timeout_ms (some url) = send_to loaded max_attempts timeout_ms url

  abbrev pub send_loaded : ℕ → ℕ → Option Loaded → Async (Unit {0})
  send_loaded max_attempts timeout_ms none = pure tt
  send_loaded max_attempts timeout_ms (some (p, d, company)) =
      send_url (p, d, company) max_attempts timeout_ms d.webhook_url

  unfoldable pub process_punch_record : String → ℕ → ℕ → Async (Unit {0})
  unfolding load_punch log_attempt
  process_punch_record id max_attempts timeout_ms = do
    loaded ← read (load_punch id)
    send_loaded max_attempts timeout_ms loaded

  -- The loop over a batch; `stopping` tells whether the shutdown signal has come by the time the
  -- ids that are left are these.
  unfoldable pub process_batch :
      (List String → Bool) → PlatformSettings → List String → Async (Unit {0})
  unfolding process_punch_record
  process_batch stopping settings [] = pure tt
  process_batch stopping settings (id ∷ ids) = branch (stopping (id ∷ ids)) (pure tt) do
    try_catch (process_punch_record id settings.webhook_max_attempts settings.webhook_timeout_ms)
        (λ e. pure tt)
    process_batch stopping settings ids

  -- The first `try` of a tick.
  unfoldable pub deliver : List String → ℕ → (List String → Bool) → Async (Unit {0})
  unfolding claim_batch process_batch
  deliver locked batch_size stopping =
      try_catch
        (do
          settings ← get_or_create_platform_settings
          ids ← claim_batch locked batch_size
          process_batch stopping settings ids)
        (λ e. pure tt)

  -- The second one: a sweep if it is due, and when the next one is.
  unfoldable pub run_retention_sweep_if_due : ℕ → Async ℕ
  run_retention_sweep_if_due next_sweep_at w =
      branch (ltb w.now next_sweep_at) (pure next_sweep_at)
        (try_catch (do counts ← run_retention_sweep; pure (w.now + 3600000))
          (λ e. pure (w.now + 3600000)))
        w

  unfoldable pub tick : List String → ℕ → (List String → Bool) → ℕ → Async ℕ
  unfolding deliver run_retention_sweep_if_due
  tick locked batch_size stopping next_sweep_at = do
    deliver locked batch_size stopping
    run_retention_sweep_if_due next_sweep_at
