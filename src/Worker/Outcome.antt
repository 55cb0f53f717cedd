-- ===== src/Worker/Outcome.antt =====
-- What an attempt does to a punch's place in the queue.
use adms.Prelude.{
  ℕ, zero, suc, ◌+◌, ◌≤◌, ◌<◌, ◌≡◌, refl, true, false, some, List, find, arith, leb, min,
}
use adms.Store.{Device, PunchRecord}
use adms.Worker.{
  DispatchResult, record_outcome, next_attempt, compute_backoff_ms, is_claimable, has_webhook,
  is_device,
}

-- The schedule has an entry for every attempt, from 30 seconds to 6 hours.
compute_backoff_ms-bounds :
    (n : ℕ) → (ms : ℕ) × (compute_backoff_ms (suc n) ≡ some ms) × (30000 ≤ ms) × (ms ≤ 21600000)
unfolding compute_backoff_ms
compute_backoff_ms-bounds zero = (30000, refl, omega arith, omega arith)
compute_backoff_ms-bounds (suc zero) = (120000, refl, omega arith, omega arith)
compute_backoff_ms-bounds (suc (suc zero)) = (600000, refl, omega arith, omega arith)
compute_backoff_ms-bounds (suc (suc (suc zero))) = (3600000, refl, omega arith, omega arith)
compute_backoff_ms-bounds (suc (suc (suc (suc n)))) =
    let last : min (suc (suc (suc (suc n)))) 4 ≡ 4 = omega arith in
    (21600000, rw last refl, omega arith, omega arith)

next_attempt-bounds :
    (n max now : ℕ)
    → suc n < max
    → (now + 30000 ≤ next_attempt (suc n) max now) × (next_attempt (suc n) max now ≤ now + 21600000)
unfolding next_attempt
next_attempt-bounds n max now lt =
    let (ms, e, low, high) = compute_backoff_ms-bounds n in
    let early : leb max (suc n) ≡ false = ground arith in rw early (rw e (omega arith, omega arith))

next_attempt-parked : (n max now : ℕ) → max ≤ n → next_attempt n max now ≡ 4070908800000
unfolding next_attempt
next_attempt-parked n max now le = ground arith

-- After an attempt, a delivered punch is never claimed again; one that failed for the last time is
-- not claimed before 2099; and one that failed and has attempts left is not claimed within 30
-- seconds, but is from 6 hours on, if it is neither delivered nor held and its device still has an
-- enabled webhook.
pub record_outcome-is_claimable :
    (result : DispatchResult) (max now t : ℕ) (p : PunchRecord) (devices : List Device)
    → let after = record_outcome result (p.webhook_attempts + 1) max now p in
      (result.success ≡ true → is_claimable devices t after ≡ false)
      × (result.success ≡ false
          → max ≤ p.webhook_attempts + 1
          → t < 4070908800000
          → is_claimable devices t after ≡ false)
      × (result.success ≡ false
          → p.webhook_attempts + 1 < max
          → (t < now + 30000 → is_claimable devices t after ≡ false)
            × (now + 21600000 ≤ t
                → p.webhook_delivered ≡ false
                → p.webhook_held ≡ false
                → has_webhook (find (is_device p.device_id) devices) ≡ true
                → is_claimable devices t after ≡ true))
unfolding record_outcome is_claimable
record_outcome-is_claimable result max now t p devices = (
  λ s. ground arith,
  λ s le lt. let e = next_attempt-parked (p.webhook_attempts + 1) max now le in ground arith,
  λ s lt.
      let b = next_attempt-bounds p.webhook_attempts max now (omega arith) in
      (λ soon. ground (arith, b), λ late nd nh hw. ground (arith, b)),
)
