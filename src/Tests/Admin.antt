-- ===== src/Tests/Admin.antt =====
-- The panel's status, retries, scopes and limits.
use adms.Prelude.{
  ℕ, ◌≤◌, ◌≡◌, ◌≢◌, ◌↔◌, ◌⊎◌, refl, String, true, Option, none, some, List, [], ◌∷◌, arith, max,
}
use adms.Store.{PunchRecord, AdminRole}
use adms.Tests.{office, world_with, gate, punch_with, manager}
use adms.Access.{
  AdminTokenPayload, AdminIdentity, require_admin_auth, resolve_company_scope, everything, only,
  pass,
}
use adms.Access.Tenants.{company_admin-scope, everything-super_admin}
use adms.RateLimit.{Options}
use adms.RateLimit.Window.{admitted, IsWithin, admitted-IsWithin}
use adms.PunchRecords.{
  retry_bulk, set_for_retry, WebhookStatus, status_condition, compute_status, has_active_webhook,
}
use adms.PunchRecords.Retry.{retry_bulk-ResetsOnly, ResetsOnly, set_for_retry-is_claimable}
use adms.PunchRecords.Status.{status_condition-compute_status}
use adms.Worker.{is_claimable}
use adms.Worker.Attempts.{AttemptsAreLogged}

abbrev both_ids : List String
both_ids = "p1" ∷ "p2" ∷ []

retry_bulk-ResetsOnly_example :
    ResetsOnly "c1" office 1000 (retry_bulk manager both_ids (world_with [])).1.db
retry_bulk-ResetsOnly_example =
    retry_bulk-ResetsOnly manager "c1" both_ids (world_with []) refl refl

unattempted-AttemptsAreLogged : AttemptsAreLogged office
unfolding adms.Worker.Attempts.deliveries_of
unattempted-AttemptsAreLogged = record { counted = (refl, (refl, tt)) }

abbrev held : PunchRecord
held = record (punch_with "p1" "d1" 10) { webhook_held = true }

gate_active : has_active_webhook gate ≡ true
unfolding has_active_webhook
gate_active = refl

set_for_retry-is_claimable_example :
    is_claimable (gate ∷ []) 2000 (set_for_retry both_ids 1000 held) ≡ true
set_for_retry-is_claimable_example =
    set_for_retry-is_claimable both_ids 1000 2000 held (gate ∷ []) gate refl refl refl gate_active
      (omega arith)

gate_url : gate.webhook_url ≢ some ""
gate_url e = cc

status_condition-compute_status_example :
    (status_condition (some WebhookStatus.failed) 5 held gate ≡ true)
    ↔ (compute_status held gate 5 ≡ WebhookStatus.failed)
status_condition-compute_status_example =
    status_condition-compute_status WebhookStatus.failed 5 held gate (omega arith) gate_url

abbrev token_of : String → Option AdminTokenPayload
token_of token = some (record {
  sub = "u1";
  email = "m@acme.example";
  role = AdminRole.company_admin;
  company_id = some "c1";
})

manager_passes : require_admin_auth token_of (some "token") ≡ pass manager
unfolding require_admin_auth
manager_passes = refl

company_admin-scope_example :
    (company : String) × (company ≢ "")
    × (manager.company_id ≡ some company)
    × ((requested : Option String) → resolve_company_scope (some manager) requested ≡ only company)
company_admin-scope_example =
    company_admin-scope token_of (some "token") manager manager_passes refl

abbrev nothing_asked : Option String
nothing_asked = none

everything-super_admin_example :
    (resolve_company_scope (some manager) nothing_asked ≡ everything) ↔ (
      (a : AdminIdentity) × (some manager ≡ some a)
      × (a.role ≡ AdminRole.super_admin)
      × ((nothing_asked ≡ none) ⊎ (nothing_asked ≡ some "")))
everything-super_admin_example = everything-super_admin (some manager) nothing_asked

abbrev two_a_minute : Options
two_a_minute = record { window_ms = 60000; max_hits = 2 }

abbrev attempts : List (String × ℕ)
attempts = ("10.0.0.1", 500) ∷ ("10.0.0.2", 600) ∷ ("10.0.0.1", 700) ∷ ("10.0.0.1", 800) ∷ []

attempts-IsWithin : IsWithin "10.0.0.1" 500 60500 attempts
attempts-IsWithin = (
  λ _. (omega arith, omega arith),
  (
    λ _. (omega arith, omega arith),
    (λ _. (omega arith, omega arith), (λ _. (omega arith, omega arith), tt)),
  ),
)

admitted-IsWithin_example : admitted two_a_minute "10.0.0.1" attempts [] ≤ max 1 2
admitted-IsWithin_example =
    admitted-IsWithin two_a_minute "10.0.0.1" 500 attempts [] refl attempts-IsWithin
