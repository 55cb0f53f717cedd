-- ===== src/Retention.antt =====
-- src/utils/retention.ts and src/retentionSweep.ts: the platform's settings row and the sweep of
-- expired rows.
pub mod Sweep
use Prim.Native.Nat.{ℕ}
use adms.Store.{
  PunchRecord, WebhookDelivery, PlatformSettings, Db, DeviceRawLog, RawRequestLog, DeviceCommand,
  UnregisteredDevicePing, default_settings,
}
use adms.Store.Exec.{◌>>=◌, Async, World, promise_all, ok, write}
use adms.Prelude.{
  [], ◌∷◌, ℕ, List, ◌-◌, Bool, leb, filter, ◌*◌, false, some, not, length, ◌∷◌, ◌==◌, none, ◌||◌,
  string_eq,
}

abbrev pub min_data_retention_days : ℕ
min_data_retention_days = 1

abbrev pub max_data_retention_days : ℕ
max_data_retention_days = 3650

unfoldable pub settings_row : World → PlatformSettings × Db
settings_row w = elim db.platform_settings [
  | some s ↦ (s, db)
  | none ↦ (default_settings, record db { platform_settings = some default_settings })
]
  where
    open w use {db}

unfoldable pub get_or_create_platform_settings : Async PlatformSettings
unfolding settings_row
get_or_create_platform_settings = write settings_row

-- Times are never negative, so a cutoff before 1970 is as good as 1970: nothing is older.
unfoldable pub compute_retention_cutoff : ℕ → ℕ → ℕ
compute_retention_cutoff retention_days now = now - retention_days * 86400000

abbrev pub not_older : ℕ → ℕ → Bool
not_older cutoff time = leb cutoff time

abbrev pub has_punch : List PunchRecord → WebhookDelivery → Bool
has_punch [] d = false
has_punch (p ∷ ps) d = p.id == d.punch_record_id || has_punch ps d

-- `deleteMany` of punch records, whose deliveries go with them.
unfoldable pub delete_punch_records : (PunchRecord → Bool) → World → ℕ × Db
delete_punch_records keep w =
    let kept = filter keep db.punch_records in
    let gone = filter (λ p. not (keep p)) db.punch_records in
    (
      length gone,
      record db {
        punch_records = kept;
        webhook_deliveries = filter (λ d. not (has_punch gone d)) db.webhook_deliveries;
      },
    )
  where
    open w use {db}

unfoldable pub delete_raw_requests : ℕ → World → ℕ × Db
delete_raw_requests cutoff w =
    let keep : RawRequestLog → Bool = λ r. not_older cutoff r.created_at in
    let kept = filter keep db.raw_request_logs in
    (length db.raw_request_logs - length kept, record db { raw_request_logs = kept })
  where
    open w use {db}

unfoldable pub delete_device_logs : ℕ → World → ℕ × Db
delete_device_logs cutoff w =
    let keep : DeviceRawLog → Bool = λ r. not_older cutoff r.created_at in
    let kept = filter keep db.device_raw_logs in
    (length db.device_raw_logs - length kept, record db { device_raw_logs = kept })
  where
    open w use {db}

unfoldable pub delete_pings : ℕ → World → ℕ × Db
delete_pings cutoff w =
    let keep : UnregisteredDevicePing → Bool = λ r. not_older cutoff r.created_at in
    let kept = filter keep db.unregistered_pings in
    (length db.unregistered_pings - length kept, record db { unregistered_pings = kept })
  where
    open w use {db}

unfoldable pub delete_commands : ℕ → World → ℕ × Db
delete_commands cutoff w =
    let keep : DeviceCommand → Bool = λ r. not_older cutoff r.created_at in
    let kept = filter keep db.device_commands in
    (length db.device_commands - length kept, record db { device_commands = kept })
  where
    open w use {db}

abbrev pub now_of : Async ℕ
now_of w = (ok w.now, w)

-- The five deletions of one sweep.
unfoldable pub delete_expired : ℕ → Async (ℕ × (ℕ × (ℕ × (ℕ × ℕ))))
unfolding delete_punch_records delete_raw_requests delete_device_logs delete_pings delete_commands
delete_expired cutoff =
    promise_all (write (delete_punch_records (λ p. not_older cutoff p.received_at))) (
      promise_all (write (delete_raw_requests cutoff)) (
        promise_all (write (delete_device_logs cutoff))
          (promise_all (write (delete_pings cutoff)) (write (delete_commands cutoff)))))

unfoldable pub run_retention_sweep : Async (ℕ × (ℕ × (ℕ × (ℕ × ℕ))))
unfolding get_or_create_platform_settings compute_retention_cutoff delete_expired
run_retention_sweep = do
  settings ← get_or_create_platform_settings
  now ← now_of
  delete_expired (compute_retention_cutoff settings.data_retention_days now)
