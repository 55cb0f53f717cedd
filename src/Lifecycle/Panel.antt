-- ===== src/Lifecycle/Panel.antt =====
-- src/admin and src/retentionSweep.ts: retries and deletions keep the keys and counts of punches.
use adms.Worker.{is_device}
use adms.Accounts.{has_company_id}
use adms.Store.Cascade.{drop_devices, device_id}
use adms.Devices.Edit.{delete_device, remove, on_found, remove_found}
use adms.Accounts.Companies.{remove_company, delete_company}
use adms.Worker.Delivery.{settings_row-rows}
use Prim.Native.String.{String}
use Prim.Native.Nat.{ℕ}
use adms.Access.{AdminIdentity}
use adms.Prelude.{
  ◌∷◌, ◌==◌, List, Bool, String, ℕ, ltb, refl, Bool-cases, eqb, not, ◌+◌, Option, filter, inl, ◌≡◌,
  any, inr, includes, string_eq, map, ap, some, [], none,
}
use adms.Store.{PunchRecord, Db, Device}
use adms.Store.Exec.{◌>>=◌, World, checked_write, write, branch, pure, try_catch}
use adms.Worker.Loop.{run_retention_sweep_if_due, tick, Dispatch}
use adms.Retention.{
  run_retention_sweep, delete_raw_requests, now_of, delete_punch_records, delete_pings,
  get_or_create_platform_settings, delete_expired, delete_device_logs, delete_commands,
  settings_row,
}
use adms.PunchRecords.{
  reset_for_retry, retry_bulk, delete_one, delete_bulk, retry, delete_punch, Visible, retry_visible,
  visible, set_for_retry, not_found, forbidden,
}
use adms.Store.Preserves.{
  Preserves-promise_all, Preserves, Preserves-write, Preserves-checked_write, preserve_rules,
}
use adms.Lifecycle.Sound.{Sound, elsewhere-Sound, deliver-Sound}
use adms.Lifecycle.Keys.{map-HaveKeys, filter-HaveKeys, filter-IsCounted}
use adms.PunchRecords.Retry.{set_for_retry-same}
use adms.Worker.Attempts.{map-IsCounted}

-- Some punches go, and their rows of the log with them.
delete_punch_records-Sound :
    (keep : PunchRecord → Bool) (v : World) → Sound v.db → Sound (delete_punch_records keep v).1
unfolding delete_punch_records
delete_punch_records-Sound keep v h = record {
  counted = record {
    counted =
        filter-IsCounted keep v.db.webhook_deliveries v.db.punch_records h.keys h.counted.counted;
  };
  keys = filter-HaveKeys keep v.db.punch_records h.keys;
}

deleted-Sound : (keep : PunchRecord → Bool) → Preserves Sound (write (delete_punch_records keep))
deleted-Sound keep =
    Preserves-write Sound (delete_punch_records keep) (delete_punch_records-Sound keep)

-- A write to other tables.
write_elsewhere-Sound :
    {A : Type 0} (f : World → A × Db)
    → ((v : World) → (f v).1.webhook_deliveries ≡ v.db.webhook_deliveries)
    → ((v : World) → (f v).1.punch_records ≡ v.db.punch_records)
    → Preserves Sound (write f)
write_elsewhere-Sound f ds ps =
    Preserves-write Sound f (λ v h. elsewhere-Sound v.db (f v).1 (ds v) (ps v) h)

raw_requests-Sound : (cutoff : ℕ) → Preserves Sound (write (delete_raw_requests cutoff))
unfolding delete_raw_requests
raw_requests-Sound cutoff =
    write_elsewhere-Sound (delete_raw_requests cutoff) (λ v. refl) (λ v. refl)

device_logs-Sound : (cutoff : ℕ) → Preserves Sound (write (delete_device_logs cutoff))
unfolding delete_device_logs
device_logs-Sound cutoff = write_elsewhere-Sound (delete_device_logs cutoff) (λ v. refl) (λ v. refl)

pings-Sound : (cutoff : ℕ) → Preserves Sound (write (delete_pings cutoff))
unfolding delete_pings
pings-Sound cutoff = write_elsewhere-Sound (delete_pings cutoff) (λ v. refl) (λ v. refl)

commands-Sound : (cutoff : ℕ) → Preserves Sound (write (delete_commands cutoff))
unfolding delete_commands
commands-Sound cutoff = write_elsewhere-Sound (delete_commands cutoff) (λ v. refl) (λ v. refl)

settings-Sound : Preserves Sound get_or_create_platform_settings
unfolding get_or_create_platform_settings
settings-Sound =
    Preserves-write Sound settings_row
      (λ v h. elsewhere-Sound v.db _ ((settings_row-rows v).1) ((settings_row-rows v).0) h)

now_of-Sound : Preserves Sound now_of
now_of-Sound = record { from = λ w h. h }

delete_expired-Sound : (cutoff : ℕ) → Preserves Sound (delete_expired cutoff)
unfolding delete_expired
delete_expired-Sound cutoff =
    search
      (
        Preserves-promise_all, deleted-Sound, raw_requests-Sound, device_logs-Sound, pings-Sound,
        commands-Sound,
      )
      depth 12

run_retention_sweep-Sound : Preserves Sound run_retention_sweep
unfolding run_retention_sweep
run_retention_sweep-Sound =
    search (preserve_rules, settings-Sound, now_of-Sound, delete_expired-Sound)

sweep_if_due-Sound :
    (dispatch : Dispatch) (next : ℕ) → Preserves Sound (run_retention_sweep_if_due dispatch next)
unfolding run_retention_sweep_if_due
sweep_if_due-Sound dispatch next = record {
  from = λ w h.
      let kept : Preserves Sound (
          branch (ltb w.now next) (pure next) (
            try_catch (run_retention_sweep >>= λ counts. pure (w.now + 3600000))
              (λ e. pure (w.now + 3600000)))) =
        search (preserve_rules, run_retention_sweep-Sound) in
      kept.from w h;
}

pub tick-Sound :
    (dispatch : Dispatch) (locked : List String) (n : ℕ) (stopping : List String → Bool) (next : ℕ)
    → Preserves Sound (tick dispatch locked n stopping next)
unfolding tick
tick-Sound dispatch locked n stopping next =
    search (preserve_rules, deliver-Sound, sweep_if_due-Sound)

reset-Sound : (ids : List String) → Preserves Sound (write (reset_for_retry ids))
unfolding reset_for_retry
reset-Sound ids = Preserves-write Sound (reset_for_retry ids) (λ v h. record {
  counted = record {
    counted =
        map-IsCounted (set_for_retry ids v.now) (set_for_retry-same ids v.now)
          v.db.webhook_deliveries v.db.punch_records h.counted.counted;
  };
  keys =
      map-HaveKeys (set_for_retry ids v.now) (λ p. (set_for_retry-same ids v.now p).0)
        v.db.punch_records h.keys;
})

retry_visible-Sound : (v : Visible) → Preserves Sound (retry_visible v)
retry_visible-Sound not_found = search preserve_rules
retry_visible-Sound forbidden = search preserve_rules
retry_visible-Sound (visible p d) = search (preserve_rules, reset-Sound)

pub retry-Sound : (admin : AdminIdentity) (id : String) → Preserves Sound (retry admin id)
unfolding retry
retry-Sound admin id = search (preserve_rules, retry_visible-Sound)

pub retry_bulk-Sound :
    (admin : AdminIdentity) (ids : List String) → Preserves Sound (retry_bulk admin ids)
unfolding retry_bulk
retry_bulk-Sound admin ids = search (preserve_rules, reset-Sound)

delete_punch-Sound : (id : String) → Preserves Sound (checked_write (delete_punch id))
unfolding delete_punch
delete_punch-Sound id = Preserves-checked_write Sound (delete_punch id) (λ v h.
    elim (Bool-cases (eqb (delete_punch_records (λ p. not (p.id == id)) v).0 0)) [
      | inl nothing ↦ rw nothing h
      | inr some_gone ↦ rw some_gone (delete_punch_records-Sound (λ p. not (p.id == id)) v h)
    ])

pub delete_one-Sound : (admin : AdminIdentity) (id : String) → Preserves Sound (delete_one admin id)
unfolding delete_one
delete_one-Sound admin id = search (preserve_rules, delete_punch-Sound)

pub delete_bulk-Sound :
    (admin : AdminIdentity) (ids : List String) → Preserves Sound (delete_bulk admin ids)
unfolding delete_bulk
delete_bulk-Sound admin ids = search (preserve_rules, deleted-Sound)

-- What goes with a device, or with the devices of a company.
twice_not :
    (f : PunchRecord → Bool) (ps : List PunchRecord)
    → filter (λ p. not (not (f p))) ps ≡ filter f ps
twice_not f [] = refl
twice_not f (p ∷ ps) = elim (Bool-cases (f p)) [
  | inl out ↦ rw out (ap (λ t. p ∷ t) (twice_not f ps))
  | inr stays ↦ rw stays (twice_not f ps)
]

drop_devices-Sound :
    (dropped : Device → Bool) (db : Db) → Sound db → Sound (drop_devices dropped db)
drop_devices-Sound dropped db h =
    let of_dropped : PunchRecord → Bool =
      λ p. includes (map device_id (filter dropped db.devices)) p.device_id in
    let keep : PunchRecord → Bool = λ p. not (of_dropped p) in
    let left =
      filter-IsCounted keep db.webhook_deliveries db.punch_records h.keys h.counted.counted in
    record {
      counted = record { counted = rw (twice_not of_dropped db.punch_records) at left };
      keys = filter-HaveKeys keep db.punch_records h.keys;
    }

delete_device-Sound : (id : String) → Preserves Sound (checked_write (delete_device id))
unfolding delete_device
delete_device-Sound id = Preserves-checked_write Sound (delete_device id) (λ v h.
    elim (Bool-cases (any (is_device id) v.db.devices)) [
      | inl found ↦ rw found (drop_devices-Sound (is_device id) v.db h)
      | inr missing ↦ rw missing h
    ])

on_found-Sound :
    (admin : AdminIdentity) (id : String) (found : Option Device)
    → Preserves Sound (on_found admin (remove_found id) found)
on_found-Sound admin id none = search preserve_rules
on_found-Sound admin id (some d) = search (preserve_rules, delete_device-Sound)

pub remove-Sound : (admin : AdminIdentity) (id : String) → Preserves Sound (remove admin id)
unfolding remove
remove-Sound admin id = search (preserve_rules, on_found-Sound)

delete_company-Sound : (id : String) → Preserves Sound (checked_write (delete_company id))
unfolding delete_company
delete_company-Sound id = Preserves-checked_write Sound (delete_company id) (λ v h.
    elim (Bool-cases (any (has_company_id id) v.db.companies)) [
      | inl found ↦ rw found (
          elsewhere-Sound (drop_devices (λ d. d.company_id == id) v.db) _ refl refl
            (drop_devices-Sound (λ d. d.company_id == id) v.db h))
      | inr missing ↦ rw missing h
    ])

pub remove_company-Sound :
    (admin : AdminIdentity) (id : String) → Preserves Sound (remove_company admin id)
unfolding remove_company
remove_company-Sound admin id = search (preserve_rules, delete_company-Sound)
