-- ===== src/PunchRecords/Status.antt =====
-- The status that the panel shows and the one that its filter asks for.
use adms.Prelude.{
  refl, is_given, ℕ, ◌≡◌, ◌≢◌, ◌↔◌, String, true, Option, none, some, arith, eq_iff, ◌≤◌,
}
use adms.Store.{Device, PunchRecord}
use adms.PunchRecords.{
  WebhookStatus, delivered, pending, failed, not_applicable, compute_status, status_condition,
  has_active_webhook, is_real_url,
}

is_real_url-of : (o : Option String) → o ≢ some "" → is_real_url o ≡ is_given o
is_real_url-of none h = refl
is_real_url-of (some u) h = ground (arith, eq_iff u "")

-- Where at least one attempt is allowed and a device's webhook address is not the empty text, a filter by a status lets through exactly
-- the punches that are shown with that status.
pub status_condition-compute_status :
    (s : WebhookStatus) (max : ℕ) (p : PunchRecord) (d : Device)
    → 1 ≤ max
    → d.webhook_url ≢ some ""
    → (status_condition (some s) max p d ≡ true) ↔ (compute_status p d max ≡ s)
unfolding compute_status status_condition has_active_webhook
status_condition-compute_status delivered max p d pos h =
    ground (arith, is_real_url-of d.webhook_url h)
status_condition-compute_status pending max p d pos h =
    ground (arith, is_real_url-of d.webhook_url h)
status_condition-compute_status failed max p d pos h =
    ground (arith, is_real_url-of d.webhook_url h)
status_condition-compute_status not_applicable max p d pos h =
    ground (arith, is_real_url-of d.webhook_url h)
