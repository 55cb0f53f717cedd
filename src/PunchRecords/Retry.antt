-- ===== src/PunchRecords/Retry.antt =====
-- What a retry does: to whose punches, and what the worker then sees.
use adms.Prelude.{
  find, map, filter, Bool-cases, inl, inr, refl, ap, none, length, ◌&&◌, ℕ, ◌≤◌, ◌≡◌, String, Bool,
  true, false, Option, some, List, [], ◌∷◌, includes, any, All, arith, eq_iff, string_eq, ◌==◌,
}
use adms.Store.{AdminRole, Db, Device, PunchRecord}
use adms.Store.Exec.{read, DbError, branch, pure, ◌>>=◌, ◌>>◌, World, write}
use adms.Store.Preserves.{Preserves, preserve_rules, Preserves-write}
use adms.Access.{CompanyScope, resolve_company_scope, AdminIdentity}
use adms.Worker.{punch_id, is_claimable, is_device, has_webhook}
use adms.Worker.Attempts.{AttemptsAreLogged, map-IsCounted}
use adms.PunchRecords.{
  device_eligible, is_bulk, set_for_retry, reset_for_retry, retry_bulk, has_active_webhook,
  eligible_ids, is_eligible, Reply,
}

-- A punch that a retry resets is one that the worker claims from then on, unless it is delivered, if
-- its device has an active webhook.
pub set_for_retry-is_claimable :
    (ids : List String) (now t : ℕ) (p : PunchRecord) (devices : List Device) (d : Device)
    → includes ids p.id ≡ true
    → p.webhook_delivered ≡ false
    → find (is_device p.device_id) devices ≡ some d
    → has_active_webhook d ≡ true
    → now ≤ t
    → is_claimable devices t (set_for_retry ids now p) ≡ true
unfolding set_for_retry is_claimable has_active_webhook
set_for_retry-is_claimable ids now t p devices d i nd f a le =
    let found : has_webhook (find (is_device p.device_id) devices) ≡ has_webhook (some d) =
      ap has_webhook f in
    ground arith

pub set_for_retry-same :
    (ids : List String) (now : ℕ) (p : PunchRecord)
    → ((set_for_retry ids now p).id ≡ p.id)
      × ((set_for_retry ids now p).webhook_attempts ≡ p.webhook_attempts)
unfolding set_for_retry
set_for_retry-same ids now p = ground arith

reset_for_retry-keeps :
    (ids : List String) → Preserves AttemptsAreLogged (write (reset_for_retry ids))
unfolding reset_for_retry
reset_for_retry-keeps ids = Preserves-write AttemptsAreLogged (reset_for_retry ids) (λ v h. record {
  counted =
      map-IsCounted (set_for_retry ids v.now) (set_for_retry-same ids v.now) v.db.webhook_deliveries
        v.db.punch_records h.counted;
})

-- A retry never makes the count of attempts differ from the log, whatever statements fail: it does
-- not reset the count.
pub retry_bulk-AttemptsAreLogged :
    (admin : AdminIdentity) (ids : List String) (w : World)
    → AttemptsAreLogged w.db
    → AttemptsAreLogged (retry_bulk admin ids w).1.db
unfolding retry_bulk
retry_bulk-AttemptsAreLogged admin ids w h =
    let kept : Preserves AttemptsAreLogged (retry_bulk admin ids) =
      search (preserve_rules, reset_for_retry-keeps) in
    kept.from w h

abbrev pub belongs_to : String → Option Device → Bool
belongs_to company none = false
belongs_to company (some d) = d.company_id == company

-- The row is a punch of a device of this company.
abbrev pub is_punch_of : String → List Device → PunchRecord → Bool
is_punch_of company devices p = belongs_to company (find (is_device p.device_id) devices)

unfoldable pub is_id_of : String → List Device → List PunchRecord → String → Bool
is_id_of company devices ps id = any (λ p. p.id == id && is_punch_of company devices p) ps

is_id_of-head :
    (company : String) (devices : List Device) (p : PunchRecord) (ps : List PunchRecord)
    → is_punch_of company devices p ≡ true
    → is_id_of company devices (p ∷ ps) p.id ≡ true
unfolding is_id_of
is_id_of-head company devices p ps h = ground (arith, eq_iff p.id p.id)

is_id_of-tail :
    (company : String) (devices : List Device) (p : PunchRecord) (ps : List PunchRecord)
    (ids : List String)
    → All (λ id. is_id_of company devices ps id ≡ true) ids
    → All (λ id. is_id_of company devices (p ∷ ps) id ≡ true) ids
unfolding is_id_of
is_id_of-tail company devices p ps [] h = tt
is_id_of-tail company devices p ps (id ∷ ids) h =
    (ground arith, is_id_of-tail company devices p ps ids h.1)

eligible-belongs_to :
    (company : String) (b : Bool) (o : Option Device)
    → (b && device_eligible (CompanyScope.only company) o) ≡ true
    → belongs_to company o ≡ true
eligible-belongs_to company b none h = ground arith
eligible-belongs_to company b (some d) h = ground arith

eligible_ids-is_id_of :
    (company : String) (ids : List String) (devices : List Device) (ps : List PunchRecord)
    → All
        (λ id. is_id_of company devices ps id ≡ true)
        (map punch_id (filter (is_eligible (CompanyScope.only company) ids devices) ps))
eligible_ids-is_id_of company ids devices [] = tt
eligible_ids-is_id_of company ids devices (p ∷ ps) =
    let rest =
      is_id_of-tail company devices p ps _ (eligible_ids-is_id_of company ids devices ps) in
    elim (Bool-cases (is_eligible (CompanyScope.only company) ids devices p)) [
      | inl e ↦ rw e (
        is_id_of-head company devices p ps (
            eligible-belongs_to company (includes ids p.id) (find (is_device p.device_id) devices)
              e),
        rest,
      )
      | inr e ↦ rw e rest
    ]

set_for_retry-none : (now : ℕ) (ps : List PunchRecord) → ps ≡ map (set_for_retry [] now) ps
unfolding set_for_retry
set_for_retry-none now [] = refl
set_for_retry-none now (p ∷ ps) = ap (λ t. p ∷ t) (set_for_retry-none now ps)

-- The rows after a retry: those of the table, with some ids of this company reset.
abbrev pub ResetsOnly : String → Db → ℕ → Db → Type 0
ResetsOnly company before now after =
    (reset : List String) × All
      (λ id. is_id_of company before.devices before.punch_records id ≡ true) reset
    × (after.punch_records ≡ map (set_for_retry reset now) before.punch_records)

own_scope-only :
    (admin : AdminIdentity) (company : String)
    → admin.role ≡ AdminRole.company_admin
    → admin.company_id ≡ some company
    → resolve_company_scope (some admin) none ≡ CompanyScope.only company
unfolding resolve_company_scope
own_scope-only admin company r c = ground arith

module _ (company : String) (ids : List String) (db : Db) (now : ℕ) (cuid : ℕ → String) where
  abbrev eligible : List String
  eligible = eligible_ids (CompanyScope.only company) ids db

  abbrev nothing : ResetsOnly company db now db
  nothing = ([], tt, set_for_retry-none now db.punch_records)

  run-resets :
      (b : Bool) (l : List (Option DbError))
      → ResetsOnly company db now
          (branch b
            (read (eligible_ids (CompanyScope.only company) ids) >>= λ found.
              write (reset_for_retry found) >> pure (Reply.retried (length found)))
            (pure (Reply.error 400))
            (record { db = db; now = now; faults = l; cuid = cuid })).1.db
  unfolding read write reset_for_retry ◌>>=◌ ◌>>◌ eligible_ids
  run-resets false l = nothing
  run-resets true [] =
      (eligible, eligible_ids-is_id_of company ids db.devices db.punch_records, refl)
  run-resets true (some e ∷ l) = nothing
  run-resets true (none ∷ []) =
      (eligible, eligible_ids-is_id_of company ids db.devices db.punch_records, refl)
  run-resets true (none ∷ some e ∷ l) = nothing
  run-resets true (none ∷ none ∷ l) =
      (eligible, eligible_ids-is_id_of company ids db.devices db.punch_records, refl)

-- A bulk retry by a company's admin resets nothing but punches of devices of that company, whatever
-- ids it names and whatever statements fail.
pub retry_bulk-ResetsOnly :
    (admin : AdminIdentity) (company : String) (ids : List String) (w : World)
    → admin.role ≡ AdminRole.company_admin
    → admin.company_id ≡ some company
    → ResetsOnly company w.db w.now (retry_bulk admin ids w).1.db
unfolding retry_bulk
retry_bulk-ResetsOnly admin company ids w r c =
    let scope = own_scope-only admin company r c in
    rw scope (run-resets company ids w.db w.now w.cuid (is_bulk ids) w.faults)
