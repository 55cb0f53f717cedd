-- ===== src/Retention/Sweep.antt =====
-- What a sweep leaves alone, and what it removes.
use adms.Prelude.{
  ℕ, ◌≡◌, refl, ap, ◌∙◌, Bool, List, [], ◌∷◌, filter, arith, String, ◌≢◌, not, true, All, leb,
  Bool-cases, any, Option, ◌≤◌, ◌⊎◌, All-imp, ◌==◌, inl, ◌||◌, leb→le, string_eq, inr, All-filter,
}
use adms.Store.{
  Db, Device, Company, AdminUser, PendingDevice, PunchRecord, RawRequestLog, DeviceRawLog,
  UnregisteredDevicePing, DeviceCommand, WebhookDelivery,
}
use adms.Store.Exec.{World, Result, ok, thrown, Async, all_results, promise_all, write, DbError}
use adms.Store.Preserves.{Preserves, Preserves-write}
use adms.Retention.{
  not_older, delete_punch_records, delete_raw_requests, delete_device_logs, delete_pings,
  delete_commands, delete_expired, WebhookDelivery, has_punch,
}

filter-filter : {A : Type 0} (p : A → Bool) (xs : List A) → filter p (filter p xs) ≡ filter p xs
filter-filter p [] = refl
filter-filter p (x ∷ xs) = ground (arith, filter-filter p xs)

abbrev pub expired : ℕ → List PunchRecord → List PunchRecord
expired cutoff ps = filter (λ p. not (leb cutoff p.received_at)) ps

filter-all : {A : Type 0} (xs : List A) → filter (λ x. true) xs ≡ xs
filter-all [] = refl
filter-all (x ∷ xs) = ap (λ t. x ∷ t) (filter-all xs)

filter-same :
    {A : Type 0} (p q : A → Bool) (xs : List A) → ((x : A) → p x ≡ q x) → filter p xs ≡ filter q xs
filter-same p q [] h = refl
filter-same p q (x ∷ xs) h = ground (arith, h x, filter-same p q xs h)

none_expired :
    (cutoff : ℕ) (ps : List PunchRecord)
    → expired cutoff (filter (λ p. leb cutoff p.received_at) ps) ≡ []
none_expired cutoff [] = refl
none_expired cutoff (p ∷ ps) = elim (Bool-cases (leb cutoff p.received_at)) [
  | inl e ↦ rw (e, e) (none_expired cutoff ps)
  | inr e ↦ rw e (none_expired cutoff ps)
]

has_punch-any :
    (d : WebhookDelivery) (ps : List PunchRecord)
    → has_punch ps d ≡ any (λ p. p.id == d.punch_record_id) ps
has_punch-any d [] = refl
has_punch-any d (p ∷ ps) = ap (λ t. p.id == d.punch_record_id || t) (has_punch-any d ps)

all_results-keeps :
    (P : Db → Type 0) {A B : Type 0} (a : Result A) (r : Result B × World)
    → P r.1.db
    → P (all_results a r).1.db
all_results-keeps P (ok a) (ok b, w) h = h
all_results-keeps P (ok a) (thrown e, w) h = h
all_results-keeps P (thrown e) (r, w) h = h

Preserves-promise_all :
    (P : Db → Type 0) {A B : Type 0} (m : Async A) (k : Async B)
    → Preserves P m
    → Preserves P k
    → Preserves P (promise_all m k)
unfolding promise_all
Preserves-promise_all P m k pm pk = record {
  from = λ w h. all_results-keeps P (m w).0 (k (m w).1) (pk.from (m w).1 (pm.from w h));
}

-- What a database holds that a sweep may not touch: the rows of its tables that are not older than
-- the cutoff, the deliveries that are of no older punch, and all devices, companies, admins and
-- pending devices.
pub record Lasting : Type 0 where
  pub punches : List PunchRecord
  pub deliveries : List WebhookDelivery
  pub raw_requests : List RawRequestLog
  pub device_logs : List DeviceRawLog
  pub pings : List UnregisteredDevicePing
  pub commands : List DeviceCommand
  pub devices : List Device
  pub companies : List Company
  pub admins : List AdminUser
  pub pending : List PendingDevice

unfoldable pub lasting : ℕ → Db → Lasting
lasting cutoff db = record {
  punches = filter (λ p. leb cutoff p.received_at) db.punch_records;
  deliveries =
      filter (λ d. not (any (λ p. p.id == d.punch_record_id) (expired cutoff db.punch_records)))
        db.webhook_deliveries;
  raw_requests = filter (λ r. leb cutoff r.created_at) db.raw_request_logs;
  device_logs = filter (λ r. leb cutoff r.created_at) db.device_raw_logs;
  pings = filter (λ r. leb cutoff r.created_at) db.unregistered_pings;
  commands = filter (λ r. leb cutoff r.created_at) db.device_commands;
  devices = db.devices;
  companies = db.companies;
  admins = db.admin_users;
  pending = db.pending_devices;
}

module _ (cutoff : ℕ) (before : Db) where
  abbrev Lasts : Db → Type 0
  Lasts db = lasting cutoff db ≡ lasting cutoff before

  step :
      {A : Type 0} (f : World → A × Db)
      → ((v : World) → lasting cutoff (f v).1 ≡ lasting cutoff v.db)
      → Preserves Lasts (write f)
  step f same = Preserves-write Lasts f (λ v h. same v ∙ h)

  punches-last :
      (v : World)
      → lasting cutoff (delete_punch_records (λ p. not_older cutoff p.received_at) v).1
        ≡ lasting cutoff v.db
  unfolding lasting delete_punch_records
  punches-last v =
      let ps = v.db.punch_records in
      let ds = v.db.webhook_deliveries in
      let same = filter-filter (λ p. leb cutoff p.received_at) ps in
      let logs : filter
            (λ d. not (
              any (λ p. p.id == d.punch_record_id)
                (expired cutoff (filter (λ p. leb cutoff p.received_at) ps))))
            (filter (λ d. not (has_punch (expired cutoff ps) d)) ds)
          ≡ filter (λ d. not (any (λ p. p.id == d.punch_record_id) (expired cutoff ps))) ds =
        ap
          (λ e.
            filter (λ d. not (any (λ p. p.id == d.punch_record_id) e))
              (filter (λ d. not (has_punch (expired cutoff ps) d)) ds))
          (none_expired cutoff ps)
        ∙ (filter-all (filter (λ d. not (has_punch (expired cutoff ps) d)) ds)
            ∙ filter-same _ _ ds (λ d. ap not (has_punch-any d (expired cutoff ps)))) in
      ap
        (λ t. record (lasting cutoff v.db) {
          punches = t;
          deliveries =
              filter
                (λ d. not (
                  any (λ p. p.id == d.punch_record_id)
                    (expired cutoff (filter (λ p. leb cutoff p.received_at) ps))))
                (filter (λ d. not (has_punch (expired cutoff ps) d)) ds);
        })
        same
      ∙ ap (λ t. record (lasting cutoff v.db) { deliveries = t }) logs

  raw_requests-last :
      (v : World) → lasting cutoff (delete_raw_requests cutoff v).1 ≡ lasting cutoff v.db
  unfolding lasting delete_raw_requests
  raw_requests-last v =
      ap (λ t. record (lasting cutoff v.db) { raw_requests = t })
        (filter-filter (λ r. leb cutoff r.created_at) v.db.raw_request_logs)

  device_logs-last :
      (v : World) → lasting cutoff (delete_device_logs cutoff v).1 ≡ lasting cutoff v.db
  unfolding lasting delete_device_logs
  device_logs-last v =
      ap (λ t. record (lasting cutoff v.db) { device_logs = t })
        (filter-filter (λ r. leb cutoff r.created_at) v.db.device_raw_logs)

  pings-last : (v : World) → lasting cutoff (delete_pings cutoff v).1 ≡ lasting cutoff v.db
  unfolding lasting delete_pings
  pings-last v =
      ap (λ t. record (lasting cutoff v.db) { pings = t })
        (filter-filter (λ r. leb cutoff r.created_at) v.db.unregistered_pings)

  commands-last : (v : World) → lasting cutoff (delete_commands cutoff v).1 ≡ lasting cutoff v.db
  unfolding lasting delete_commands
  commands-last v =
      ap (λ t. record (lasting cutoff v.db) { commands = t })
        (filter-filter (λ r. leb cutoff r.created_at) v.db.device_commands)

-- No table that the sweep goes through has a row older than the cutoff.
pub record IsSwept (cutoff : ℕ) (db : Db) : Type 0 where
  pub punches : All (λ p. cutoff ≤ p.received_at) db.punch_records
  pub raw_requests : All (λ r. cutoff ≤ r.created_at) db.raw_request_logs
  pub device_logs : All (λ r. cutoff ≤ r.created_at) db.device_raw_logs
  pub pings : All (λ r. cutoff ≤ r.created_at) db.unregistered_pings
  pub commands : All (λ r. cutoff ≤ r.created_at) db.device_commands

kept_rows :
    {A : Type 0} (time : A → ℕ) (cutoff : ℕ) (xs : List A)
    → All (λ x. cutoff ≤ time x) (filter (λ x. leb cutoff (time x)) xs)
kept_rows time cutoff xs =
    All-imp _ _ _ (λ x h. leb→le cutoff (time x) h) (All-filter (λ x. leb cutoff (time x)) xs)

delete_expired-IsSwept :
    (cutoff : ℕ) (db : Db) (now : ℕ) (cuid : ℕ → String) (l : List (Option DbError))
    → (l ≢ [])
      ⊎ IsSwept cutoff
          (delete_expired cutoff (record { db = db; now = now; faults = l; cuid = cuid })).1.db
unfolding delete_expired write promise_all delete_punch_records delete_raw_requests
    delete_device_logs delete_pings delete_commands
delete_expired-IsSwept cutoff db now cuid (f ∷ l) = inl (λ e. cc)
delete_expired-IsSwept cutoff db now cuid [] = inr record {
  punches = kept_rows (λ p. p.received_at) cutoff db.punch_records;
  raw_requests = kept_rows (λ r. r.created_at) cutoff db.raw_request_logs;
  device_logs = kept_rows (λ r. r.created_at) cutoff db.device_raw_logs;
  pings = kept_rows (λ r. r.created_at) cutoff db.unregistered_pings;
  commands = kept_rows (λ r. r.created_at) cutoff db.device_commands;
}

-- Whichever deletions of a sweep fail, every row of its tables that is not older than the cutoff is
-- still there, in its order; so are the deliveries that are of no older punch (those of an older one
-- go with it), and devices, companies, admins and pending devices are untouched. If none fails, no
-- row of its tables is older than the cutoff afterwards.
pub delete_expired-lasting :
    (cutoff : ℕ) (w : World)
    → (lasting cutoff (delete_expired cutoff w).1.db ≡ lasting cutoff w.db)
      × ((w.faults ≢ []) ⊎ IsSwept cutoff (delete_expired cutoff w).1.db)
unfolding delete_expired
delete_expired-lasting cutoff w =
    let P = Lasts cutoff w.db in
    let kept : Preserves P (delete_expired cutoff) =
      Preserves-promise_all P _ _ (step cutoff w.db _ (punches-last cutoff w.db)) (
        Preserves-promise_all P _ _ (step cutoff w.db _ (raw_requests-last cutoff w.db)) (
          Preserves-promise_all P _ _ (step cutoff w.db _ (device_logs-last cutoff w.db)) (
            Preserves-promise_all P _ _ (step cutoff w.db _ (pings-last cutoff w.db))
              (step cutoff w.db _ (commands-last cutoff w.db))))) in
    (kept.from w refl, delete_expired-IsSwept cutoff w.db w.now w.cuid w.faults)
