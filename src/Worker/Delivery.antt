-- ===== src/Worker/Delivery.antt =====
-- That delivering a batch keeps the count of attempts.
use adms.Worker.Attempts.{
  IsCounted, AttemptsAreLogged, deliveries_of, map-IsCounted, IsCounted-of, log_attempt-keeps,
}
use adms.Worker.Loop.{
  Loaded, with_punch, with_device, with_company, is_company, load_punch, Dispatch, send_loaded,
  send_url, process_punch_record, process_batch, deliver,
}
use adms.Worker.{is_device, lease, set_lease, take_lease, select_due, claim_batch}
use adms.Retention.{get_or_create_platform_settings, settings_row}
use adms.Prelude.{
  none, some, true, ℕ, ◌+◌, ◌≡◌, refl, ap, sym, ◌∙◌, String, false, List, [], ◌∷◌, All, Bool-cases,
  inl, inr, ◌==◌, string_eq, arith, if◌then◌else◌, find, Option, Bool,
}
use adms.Store.{Device, PlatformSettings, Db, PunchRecord, WebhookDelivery}
use adms.Store.Exec.{
  ◌>>◌, Result, thrown, DbError, pure, branch, call, wait, write, World, ok, read, ◌>>=◌,
}
use adms.Store.Preserves.{
  Preserves-branch, Preserves->>, preserve_rules, Preserves-write, Preserves,
}
use adms.Worker.{is_punch, log_attempt, DispatchResult}

find-IsCounted :
    (id : String) (ds : List WebhookDelivery) (ps : List PunchRecord) (p : PunchRecord)
    → All (IsCounted ds) ps
    → find (is_punch id) ps ≡ some p
    → IsCounted ds p
find-IsCounted id ds [] p h e = cc
find-IsCounted id ds (q ∷ ps) p h e = elim (Bool-cases (q.id == id)) [
  | inl same ↦
      let first : find (is_punch id) (q ∷ ps) ≡ some q =
        ap (λ b. if b then some q else find (is_punch id) ps) same in
      let it : q ≡ p = cc in
      ap (λ r. r.webhook_attempts) (sym it) ∙ (h.0 ∙ ap (λ r. deliveries_of r.id ds) it)
  | inr other ↦
      let next : find (is_punch id) (q ∷ ps) ≡ find (is_punch id) ps =
        ap (λ b. if b then some q else find (is_punch id) ps) other in
      find-IsCounted id ds ps p h.1 (sym next ∙ e)
]

abbrev LoadedIsCounted : List WebhookDelivery → Option Loaded → Type 0
LoadedIsCounted ds none = Unit
LoadedIsCounted ds (some (p, d, c)) = IsCounted ds p

load_punch-IsCounted :
    (id : String) (db : Db)
    → AttemptsAreLogged db
    → LoadedIsCounted db.webhook_deliveries (load_punch id db)
unfolding load_punch
load_punch-IsCounted id db h = go (find (is_punch id) db.punch_records) refl
  where
    go :
        (o : Option PunchRecord)
        → find (is_punch id) db.punch_records ≡ o
        → LoadedIsCounted db.webhook_deliveries (with_punch db o)
    go none e = tt
    go (some p) e =
        elim (find (is_device p.device_id) db.devices)
          as (λ t. LoadedIsCounted db.webhook_deliveries (with_device db p t)) [
            | none ↦ tt
            | some d ↦
                elim (find (is_company d.company_id) db.companies)
                  as (λ t. LoadedIsCounted db.webhook_deliveries (with_company p d t)) [
                    | none ↦ tt
                    | some c ↦
                        find-IsCounted id db.webhook_deliveries db.punch_records p h.counted e
                  ]
          ]

module _ (dispatch : Dispatch) where
  after_dispatch-keeps :
      (r : Result DispatchResult) (p : PunchRecord) (url : String) (max : ℕ) (w : World)
      → IsCounted w.db.webhook_deliveries p
      → AttemptsAreLogged w.db
      → AttemptsAreLogged
          ((call r >>= λ result. wait result.elapsed_ms >> log_attempt result p url max) w).1.db
  unfolding ◌>>=◌ ◌>>◌
  after_dispatch-keeps (ok result) p url max w here h =
      log_attempt-keeps result p url max (record w { now = w.now + result.elapsed_ms }) here h
  after_dispatch-keeps (thrown e) p url max w here h = h

  guarded-keeps :
      (b : Bool) (p : PunchRecord) (d : Device) (c : String) (max timeout : ℕ) (url : String)
      (w : World)
      → IsCounted w.db.webhook_deliveries p
      → AttemptsAreLogged w.db
      → AttemptsAreLogged
          (branch b
            (pure tt)
            (call (dispatch p d c timeout) >>= λ result.
              wait result.elapsed_ms >> log_attempt result p url max)
            w).1.db
  guarded-keeps true p d c max timeout url w here h = h
  guarded-keeps false p d c max timeout url w here h =
      after_dispatch-keeps (dispatch p d c timeout) p url max w here h

  to_url-keeps :
      (o : Option String) (p : PunchRecord) (d : Device) (c : String) (max timeout : ℕ) (w : World)
      → IsCounted w.db.webhook_deliveries p
      → AttemptsAreLogged w.db
      → AttemptsAreLogged (send_url dispatch (p, d, c) max timeout o w).1.db
  to_url-keeps none p d c max timeout w here h = h
  to_url-keeps (some url) p d c max timeout w here h =
      guarded-keeps (url == "") p d c max timeout url w here h

  send_loaded-keeps :
      (max timeout : ℕ) (o : Option Loaded) (w : World)
      → LoadedIsCounted w.db.webhook_deliveries o
      → AttemptsAreLogged w.db
      → AttemptsAreLogged (send_loaded dispatch max timeout o w).1.db
  send_loaded-keeps max timeout none w here h = h
  send_loaded-keeps max timeout (some (p, d, c)) w here h =
      to_url-keeps d.webhook_url p d c max timeout w here h

  process_punch_record-keeps :
      (id : String) (max timeout : ℕ)
      → Preserves AttemptsAreLogged (process_punch_record dispatch id max timeout)
  unfolding process_punch_record read ◌>>=◌
  process_punch_record-keeps id max timeout = record {
    from = λ w h. go w.db w.now w.cuid w.faults h;
  }
    where
      go :
          (db : Db) (now : ℕ) (cuid : ℕ → String) (l : List (Option DbError))
          → AttemptsAreLogged db
          → AttemptsAreLogged
              (process_punch_record dispatch id max timeout
                (record { db = db; now = now; faults = l; cuid = cuid })).1.db
      go db now cuid [] h =
          send_loaded-keeps max timeout (load_punch id db)
            (record { db = db; now = now; faults = []; cuid = cuid }) (load_punch-IsCounted id db h)
            h
      go db now cuid (none ∷ l) h =
          send_loaded-keeps max timeout (load_punch id db)
            (record { db = db; now = now; faults = l; cuid = cuid }) (load_punch-IsCounted id db h)
            h
      go db now cuid (some e ∷ l) h = h

pub set_lease-same :
    (ids : List String) (until : ℕ) (p : PunchRecord)
    → ((set_lease ids until p).id ≡ p.id)
      × ((set_lease ids until p).webhook_attempts ≡ p.webhook_attempts)
unfolding set_lease
set_lease-same ids until p = ground arith

lease-keeps : (ids : List String) → Preserves AttemptsAreLogged (write (lease ids))
unfolding lease
lease-keeps ids = Preserves-write AttemptsAreLogged (lease ids) (λ v h. record {
  counted =
      map-IsCounted (set_lease ids (v.now + 60000)) (set_lease-same ids (v.now + 60000))
        v.db.webhook_deliveries v.db.punch_records h.counted;
})

take_lease-keeps : (ids : List String) → Preserves AttemptsAreLogged (take_lease ids)
take_lease-keeps [] = search preserve_rules
take_lease-keeps (id ∷ ids) = search (preserve_rules, lease-keeps)

select_due-keeps :
    (locked : List String) (n : ℕ) → Preserves AttemptsAreLogged (write (select_due locked n))
unfolding select_due
select_due-keeps locked n = Preserves-write AttemptsAreLogged (select_due locked n) (λ v h. h)

claim_batch-keeps :
    (locked : List String) (n : ℕ) → Preserves AttemptsAreLogged (claim_batch locked n)
unfolding claim_batch
claim_batch-keeps locked n = search (preserve_rules, take_lease-keeps, select_due-keeps)

pub settings_row-rows :
    (v : World)
    → ((settings_row v).1.punch_records ≡ v.db.punch_records)
      × ((settings_row v).1.webhook_deliveries ≡ v.db.webhook_deliveries)
unfolding settings_row
settings_row-rows v = ground arith

settings-keeps : Preserves AttemptsAreLogged get_or_create_platform_settings
unfolding get_or_create_platform_settings
settings-keeps = Preserves-write AttemptsAreLogged settings_row (λ v h.
    let (rows, log) = settings_row-rows v in
    record {
      counted = IsCounted-of _ v.db.webhook_deliveries _ v.db.punch_records log rows h.counted;
    })

process_batch-keeps :
    (dispatch : Dispatch) (stopping : List String → Bool) (settings : PlatformSettings)
    (ids : List String)
    → Preserves AttemptsAreLogged (process_batch dispatch stopping settings ids)
unfolding process_batch
process_batch-keeps dispatch stopping settings [] = search preserve_rules
process_batch-keeps dispatch stopping settings (id ∷ ids) =
    Preserves-branch AttemptsAreLogged (stopping (id ∷ ids)) _ _ (search preserve_rules) (
      Preserves->> AttemptsAreLogged _ _ (search (preserve_rules, process_punch_record-keeps))
        (process_batch-keeps dispatch stopping settings ids))

-- The worker's delivery of a batch keeps the count of attempts of every punch equal to the number
-- of its rows in the delivery log, whatever the webhooks answer, whatever statements fail, whichever
-- rows are locked, and wherever the shutdown signal stops it.
pub deliver-AttemptsAreLogged :
    (dispatch : Dispatch) (locked : List String) (n : ℕ) (stopping : List String → Bool) (w : World)
    → AttemptsAreLogged w.db
    → AttemptsAreLogged (deliver dispatch locked n stopping w).1.db
unfolding deliver
deliver-AttemptsAreLogged dispatch locked n stopping w h =
    let kept : Preserves AttemptsAreLogged (deliver dispatch locked n stopping) =
      search (preserve_rules, settings-keeps, claim_batch-keeps, process_batch-keeps) in
    kept.from w h
