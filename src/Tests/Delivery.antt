-- ===== src/Tests/Delivery.antt =====
-- The worker's claims and attempts.
use adms.Worker.Due.{Taken, Passed, claim_batch-due}
use adms.Retention.{delete_expired}
use adms.Retention.Sweep.{lasting, delete_expired-lasting, IsSwept}
use adms.Prelude.{
  ◌+◌, ◌≤◌, ◌<◌, ◌≡◌, refl, String, Bool, true, false, none, some, List, [], ◌∷◌, length, All,
  includes, arith, string_eq, find, codes, ◌≢◌, ◌⊎◌, inr, inl,
}
use adms.Store.{Db, Device, PunchRecord}
use adms.Store.Exec.{World, ok, Result}
use adms.Tests.{office, world_with, gate, punch_with}
use adms.Worker.{claim_batch, DispatchResult, record_outcome, is_claimable, has_webhook, is_device}
use adms.Worker.Claims.{claim_batch-exclusive, KeepsLease}
use adms.Worker.Attempts.{AttemptsAreLogged}
use adms.Worker.Delivery.{deliver-AttemptsAreLogged}
use adms.Worker.Loop.{Dispatch, deliver}
use adms.Worker.Outcome.{record_outcome-is_claimable}

abbrev first_claim : List String
first_claim = "p1" ∷ []

claimed : (claim_batch [] 1 (world_with [])).0 ≡ ok first_claim
unfolding claim_batch adms.Store.Exec.transaction adms.Store.Exec.◌>>=◌ adms.Store.Exec.write
    adms.Store.Exec.◌>>◌
claimed = refl

claim_batch-due_example :
    (length first_claim ≤ 1)
    × All (Taken [] office 1000) first_claim
    × All (Passed [] office 1000 1 first_claim) office.punch_records
claim_batch-due_example = claim_batch-due [] 1 (world_with []) first_claim claimed

abbrev second_later : World
second_later = record (world_with []) { db = (claim_batch [] 1 (world_with [])).1.db; now = 2000 }

abbrev second_claim : List String
second_claim = "p2" ∷ []

claimed_later : (claim_batch [] 50 second_later).0 ≡ ok second_claim
unfolding claim_batch adms.Store.Exec.transaction adms.Store.Exec.◌>>=◌ adms.Store.Exec.write
    adms.Store.Exec.◌>>◌
claimed_later = refl

leases_kept : All (KeepsLease first_claim 61000) second_later.db.punch_records
unfolding claim_batch adms.Store.Exec.transaction adms.Store.Exec.◌>>=◌ adms.Store.Exec.write
    adms.Store.Exec.◌>>◌
leases_kept = (inr refl, (inl refl, tt))

claim_batch-exclusive_example :
    All (KeepsLease first_claim 61000) (claim_batch [] 1 (world_with [])).1.db.punch_records
    × All (λ id. includes first_claim id ≡ false) second_claim
claim_batch-exclusive_example =
    claim_batch-exclusive [] [] 1 50 (world_with []) second_later first_claim second_claim claimed
      leases_kept (omega arith) claimed_later

abbrev refusal : DispatchResult
refusal = record {
  success = false;
  status_code = some 503;
  response_body = none;
  error = some (codes "HTTP 503");
  request_body = [];
  request_headers = [];
  elapsed_ms = 40;
}

abbrev always_refused : Dispatch
always_refused p d company timeout_ms = ok refusal

abbrev never_stopping : List String → Bool
never_stopping ids = false

office-AttemptsAreLogged : AttemptsAreLogged office
unfolding adms.Worker.Attempts.deliveries_of
office-AttemptsAreLogged = record { counted = (refl, (refl, tt)) }

deliver-AttemptsAreLogged_example :
    AttemptsAreLogged (deliver always_refused [] 50 never_stopping (world_with [])).1.db
deliver-AttemptsAreLogged_example =
    deliver-AttemptsAreLogged always_refused [] 50 never_stopping (world_with [])
      office-AttemptsAreLogged

abbrev fresh : PunchRecord
fresh = punch_with "p1" "d1" 10

abbrev refused : PunchRecord
refused = record_outcome refusal (fresh.webhook_attempts + 1) 5 1000 fresh

record_outcome-is_claimable_example :
    (refusal.success ≡ true → is_claimable (gate ∷ []) 30000000 refused ≡ false)
    × (refusal.success ≡ false
        → 5 ≤ fresh.webhook_attempts + 1
        → 30000000 < 4070908800000
        → is_claimable (gate ∷ []) 30000000 refused ≡ false)
    × (refusal.success ≡ false
        → fresh.webhook_attempts + 1 < 5
        → (30000000 < 1000 + 30000 → is_claimable (gate ∷ []) 30000000 refused ≡ false)
          × (1000 + 21600000 ≤ 30000000
              → fresh.webhook_delivered ≡ false
              → fresh.webhook_held ≡ false
              → has_webhook (find (is_device fresh.device_id) (gate ∷ [])) ≡ true
              → is_claimable (gate ∷ []) 30000000 refused ≡ true))
record_outcome-is_claimable_example =
    record_outcome-is_claimable refusal 5 1000 30000000 fresh (gate ∷ [])

delete_expired-lasting_example :
    (lasting 15 (delete_expired 15 (world_with [])).1.db ≡ lasting 15 office)
    × (((world_with []).faults ≢ []) ⊎ IsSwept 15 (delete_expired 15 (world_with [])).1.db)
delete_expired-lasting_example = delete_expired-lasting 15 (world_with [])
