-- ===== src/Tests/Panel.antt =====
-- Claims, settings, slugs and lists.
use adms.Json.{Json, Fields}
use adms.Template.{
  Vars, text, number, render_string, interpolate_string, match_placeholder, render_body_template,
}
use adms.Template.Plain.{is_plain, render_body_template-plain}
use adms.Prelude.{
  Option, none, ℤ, codes, ◌≤◌, ◌≡◌, ◌↔◌, refl, true, some, List, [], All, length, to_lower_case,
  Text, ◌∷◌,
}
use adms.Tests.{office, world_with, manager, first_day, push}
use adms.Devices.{ClaimRequest, claim, compute_device_status, device_status_condition, online}
use adms.Devices.Claim.{ClaimOutcome, claim-ClaimOutcome}
use adms.Devices.Status.{device_status_condition-compute_device_status}
use adms.Settings.{SettingsUpdate, patch_settings}
use adms.Settings.Bounds.{SettingsInBounds, patch_settings-SettingsInBounds, default-InBounds}
use adms.Slug.{is_valid_slug_format}
use adms.Slug.Routing.{is_valid_slug_format-routed}
use adms.Router.{clear_reserved_company_slug}
use adms.PunchRecords.Listing.{ListQuery, Row, list_rows, any_punch}
use adms.PunchRecords.Pages.{list_rows-scoped}

abbrev new_gate : ClaimRequest
new_gate = record {
  serial_number = "SN9";
  company_id = "c1";
  label = some (codes "Gate");
  timezone = "CET";
}

claim-ClaimOutcome_example :
    ClaimOutcome manager "random" new_gate office
      (claim first_day "random" manager new_gate (world_with [])).0
      (claim first_day "random" manager new_gate (world_with [])).1.db
claim-ClaimOutcome_example = claim-ClaimOutcome first_day "random" manager new_gate (world_with [])

device_status_condition-compute_device_status_example :
    (device_status_condition 300 (some online) (some 900) 1000 ≡ true)
    ↔ (compute_device_status 300 (some 900) 1000 ≡ online)
device_status_condition-compute_device_status_example =
    device_status_condition-compute_device_status 300 1000 online (some 900)

abbrev longer : SettingsUpdate
longer = record {
  data_retention_days = some 90;
  webhook_max_attempts = none;
  webhook_timeout_ms = none;
  signups_enabled = none;
}

office-SettingsInBounds : SettingsInBounds office
office-SettingsInBounds = record { row = default-InBounds }

patch_settings-SettingsInBounds_example :
    SettingsInBounds (patch_settings manager longer (world_with [])).1.db
patch_settings-SettingsInBounds_example =
    patch_settings-SettingsInBounds manager longer (world_with []) office-SettingsInBounds

acme_slug : is_valid_slug_format (codes "acme") ≡ true
unfolding is_valid_slug_format adms.Prelude.text_beq
acme_slug = refl

is_valid_slug_format-routed_example :
    ((clear_reserved_company_slug push).company_slug ≡ some (codes "acme"))
    × (to_lower_case (codes "acme") ≡ codes "acme")
is_valid_slug_format-routed_example = is_valid_slug_format-routed push (codes "acme") refl acme_slug

abbrev as_stored : List Row → List Row
as_stored rows = rows

as_stored-keeps : (P : Row → Type 0) (rows : List Row) → All P rows → All P (as_stored rows)
as_stored-keeps P rows h = h

abbrev first_page : ListQuery
first_page = record {
  company_id = some "c2";
  device_id = none;
  status = none;
  from_time = none;
  to_time = none;
  page = 1;
  page_size = 50;
  sort_by = none;
  sort_dir = none;
  search = none;
}

list_rows-scoped_example :
    All (λ s. s.device_company ≡ "c1") (list_rows as_stored manager any_punch 5 first_page office).0
    × (length (list_rows as_stored manager any_punch 5 first_page office).0 ≤ 50)
list_rows-scoped_example =
    list_rows-scoped as_stored as_stored-keeps manager "c1" any_punch 5 first_page office refl refl

abbrev nothing_inherited : Text → Option Text
nothing_inherited name = none

abbrev fixed_body : Json
fixed_body = Json.obj (Fields.field (codes "event") (Json.str (codes "punch")) Fields.end)

fixed_body-plain : is_plain fixed_body ≡ true
unfolding is_plain
fixed_body-plain = refl

render_body_template-plain_example :
    render_body_template nothing_inherited [] fixed_body ≡ fixed_body
render_body_template-plain_example =
    render_body_template-plain nothing_inherited [] fixed_body fixed_body-plain

abbrev pin_vars : Vars
pin_vars = (codes "pin", text (codes "7")) ∷ (codes "status", number (ℤ.pos 0)) ∷ []

exact_status : render_string nothing_inherited pin_vars (codes " {{ status }}") ≡ Json.num (ℤ.pos 0)
unfolding render_string match_placeholder adms.Prelude.text_beq
exact_status = refl

pin_inside :
    interpolate_string nothing_inherited pin_vars (codes "pin {{pin}} {{x}}") ≡ codes "pin 7 {{x}}"
unfolding interpolate_string match_placeholder adms.Prelude.text_beq
pin_inside = refl
