-- ===== src/Lifecycle/Sound.antt =====
-- Keys and counts of the punches, under the statements of the worker, the sweep and the panel.
use Prim.Native.Nat.{ℕ}
use adms.Prelude.{
  inl, inr, ℕ, List, String, Option, ◌≡◌, Bool, if◌then◌else◌, Bool-cases, ◌==◌, ◌∷◌, some, arith,
  none, [], any, ◌+◌, string_eq,
}
use adms.Retention.{get_or_create_platform_settings, settings_row}
use adms.Worker.Loop.{
  Dispatch, deliver, Loaded, process_punch_record, process_batch, send_loaded, send_url,
}
use adms.Store.{Db, PunchRecord, PlatformSettings}
use adms.Store.Preserves.{
  Preserves, Preserves-write, Preserves-checked_write, Preserves-branch, Preserves->>,
  preserve_rules,
}
use adms.Store.Exec.{Result, call, wait, write, checked_write}
use adms.Worker.Attempts.{AttemptsAreLogged}
use adms.Worker.Delivery.{settings_row-rows, set_lease-same, deliver-AttemptsAreLogged}
use adms.Worker.{
  update_punch, DispatchResult, claim_batch, add_delivery, record_outcome, select_due, log_attempt,
  lease, take_lease, set_lease, is_punch,
}
use adms.Lifecycle.Keys.{HaveKeys, map-HaveKeys}

-- Ids are keys of the punches, and every punch has been attempted as often as the log says.
pub record Sound (db : Db) : Type 0 where
  pub counted : AttemptsAreLogged db
  pub keys : HaveKeys db.punch_records

pub elsewhere-Sound :
    (before after : Db)
    → after.webhook_deliveries ≡ before.webhook_deliveries
    → after.punch_records ≡ before.punch_records
    → Sound before
    → Sound after
elsewhere-Sound before after ds ps h = record {
  counted = record { counted = rw ds (rw ps h.counted.counted) };
  keys = rw ps h.keys;
}

-- The worker's statements keep the keys.
pub record HasKeys (db : Db) : Type 0 where
  pub keys : HaveKeys db.punch_records

settings-HasKeys : Preserves HasKeys get_or_create_platform_settings
unfolding get_or_create_platform_settings
settings-HasKeys =
    Preserves-write HasKeys settings_row
      (λ v h. record { keys = rw ((settings_row-rows v).0) h.keys })

lease-HasKeys : (ids : List String) → Preserves HasKeys (write (lease ids))
unfolding lease
lease-HasKeys ids = Preserves-write HasKeys (lease ids) (λ v h. record {
  keys =
      map-HaveKeys (set_lease ids (v.now + 60000)) (λ p. (set_lease-same ids (v.now + 60000) p).0)
        v.db.punch_records h.keys;
})

take_lease-HasKeys : (ids : List String) → Preserves HasKeys (take_lease ids)
take_lease-HasKeys [] = search preserve_rules
take_lease-HasKeys (id ∷ ids) = search (preserve_rules, lease-HasKeys)

select_due-HasKeys :
    (locked : List String) (n : ℕ) → Preserves HasKeys (write (select_due locked n))
unfolding select_due
select_due-HasKeys locked n = Preserves-write HasKeys (select_due locked n) (λ v h. h)

claim_batch-HasKeys : (locked : List String) (n : ℕ) → Preserves HasKeys (claim_batch locked n)
unfolding claim_batch
claim_batch-HasKeys locked n = search (preserve_rules, take_lease-HasKeys, select_due-HasKeys)

add_delivery-HasKeys :
    (result : DispatchResult) (p : PunchRecord) (url : String) (attempt : ℕ)
    → Preserves HasKeys (write (add_delivery result p url attempt))
unfolding add_delivery
add_delivery-HasKeys result p url attempt =
    Preserves-write HasKeys (add_delivery result p url attempt) (λ v h. record { keys = h.keys })

updated_id :
    (result : DispatchResult) (id : String) (attempt max now : ℕ) (p : PunchRecord)
    → (if p.id == id then record_outcome result attempt max now p else p).id ≡ p.id
unfolding record_outcome
updated_id result id attempt max now p = ground arith

update_punch-HasKeys :
    (result : DispatchResult) (id : String) (attempt max : ℕ)
    → Preserves HasKeys (checked_write (update_punch result id attempt max))
unfolding update_punch
update_punch-HasKeys result id attempt max =
    Preserves-checked_write HasKeys (update_punch result id attempt max) (λ v h.
      elim (Bool-cases (any (is_punch id) v.db.punch_records)) [
        | inl found ↦ rw found (record {
          keys =
              map-HaveKeys
                (λ p. if p.id == id then record_outcome result attempt max v.now p else p)
                (updated_id result id attempt max v.now) v.db.punch_records h.keys;
        })
        | inr missing ↦ rw missing h
      ])

log_attempt-HasKeys :
    (result : DispatchResult) (p : PunchRecord) (url : String) (max : ℕ)
    → Preserves HasKeys (log_attempt result p url max)
unfolding log_attempt
log_attempt-HasKeys result p url max =
    search (preserve_rules, add_delivery-HasKeys, update_punch-HasKeys)

call-HasKeys : {A : Type 0} (r : Result A) → Preserves HasKeys (call r)
call-HasKeys r = record { from = λ w h. h }

wait-HasKeys : (ms : ℕ) → Preserves HasKeys (wait ms)
wait-HasKeys ms = record { from = λ w h. record { keys = h.keys } }

module _ (dispatch : Dispatch) where
  send_url-HasKeys :
      (loaded : Loaded) (max timeout : ℕ) (url : Option String)
      → Preserves HasKeys (send_url dispatch loaded max timeout url)
  send_url-HasKeys loaded max timeout none = search preserve_rules
  send_url-HasKeys (p, d, c) max timeout (some url) =
      search (preserve_rules, call-HasKeys, wait-HasKeys, log_attempt-HasKeys)

  send_loaded-HasKeys :
      (max timeout : ℕ) (o : Option Loaded) → Preserves HasKeys (send_loaded dispatch max timeout o)
  send_loaded-HasKeys max timeout none = search preserve_rules
  send_loaded-HasKeys max timeout (some (p, d, c)) =
      send_url-HasKeys (p, d, c) max timeout d.webhook_url

  process_punch_record-HasKeys :
      (id : String) (max timeout : ℕ)
      → Preserves HasKeys (process_punch_record dispatch id max timeout)
  unfolding process_punch_record
  process_punch_record-HasKeys id max timeout = search (preserve_rules, send_loaded-HasKeys)

  process_batch-HasKeys :
      (stopping : List String → Bool) (settings : PlatformSettings) (ids : List String)
      → Preserves HasKeys (process_batch dispatch stopping settings ids)
  unfolding process_batch
  process_batch-HasKeys stopping settings [] = search preserve_rules
  process_batch-HasKeys stopping settings (id ∷ ids) =
      Preserves-branch HasKeys (stopping (id ∷ ids)) _ _ (search preserve_rules) (
        Preserves->> HasKeys _ _ (search (preserve_rules, process_punch_record-HasKeys))
          (process_batch-HasKeys stopping settings ids))

  pub deliver-Sound :
      (locked : List String) (n : ℕ) (stopping : List String → Bool)
      → Preserves Sound (deliver dispatch locked n stopping)
  unfolding deliver
  deliver-Sound locked n stopping =
      let keys : Preserves HasKeys (deliver dispatch locked n stopping) =
        search (preserve_rules, settings-HasKeys, claim_batch-HasKeys, process_batch-HasKeys) in
      record {
        from = λ w h. record {
          counted = deliver-AttemptsAreLogged dispatch locked n stopping w h.counted;
          keys = (keys.from w (record { keys = h.keys })).keys;
        };
      }
