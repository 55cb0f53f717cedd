-- ===== src/Devices/Patch.antt =====
-- src/admin/devices.ts: the edit of a device. `fresh` is the random text of a new secret.
use adms.Prelude.{
  ℕ, String, Text, Bool, true, ◌&&◌, ◌||◌, not, Option, none, some, List, change_first, string_eq,
  if◌then◌else◌, is_given,
}
use adms.Json.{Json}
use adms.Store.{Db, Device}
use adms.Store.Exec.{
  World, Result, ok, thrown, known_request, Async, pure, branch, ◌>>=◌, checked_write,
}
use adms.Timezone.{Intl}
use adms.Access.{AdminIdentity}
use adms.SsrfGuard.{Network, is_safe_webhook_url}
use adms.Worker.{is_device}
use adms.Devices.{compute_device_status, may_act_for, label_or}
use adms.Devices.Edit.{
  Change, absent, null, value, after_change, or_kept, is_non_empty, is_timezone, is_url,
  DeviceReply, shown, refused, given_text, passes_guard, is_enabled, with_status, device_with_id,
  on_device,
}

pub record UpdateDevice : Type 0 where
  pub label : Option Text
  pub device_secret : Option String
  pub timezone : Option String
  pub webhook_url : Change String
  pub webhook_enabled : Option Bool
  pub webhook_headers : Change (List (Text × Text))
  pub webhook_body_template : Change Json
  pub regenerate_secret : Option Bool

abbrev pub sent_url : Change String → Option String
sent_url absent = none
sent_url null = none
sent_url (value url) = some url

abbrev pub is_absent_or : (String → Bool) → Option String → Bool
is_absent_or p none = true
is_absent_or p (some s) = p s

-- `updateSchema`
unfoldable pub is_valid_update : Intl → Network → UpdateDevice → Bool
unfolding is_timezone
is_valid_update intl net req =
    is_absent_or is_non_empty req.device_secret
    && (is_absent_or (is_timezone intl) req.timezone && is_url net (sent_url req.webhook_url))

abbrev pub label_after : Option Text → Device → Option Text
label_after none d = d.label
label_after (some label) d = some (label_or d.serial_number (some label))

-- Whether a new webhook secret is made.
unfoldable pub needs_secret : UpdateDevice → Device → Bool
needs_secret req existing =
    is_enabled req.regenerate_secret
    || (is_given (given_text (sent_url req.webhook_url))
        && not (is_given (given_text existing.webhook_secret)))

-- The row after the update; `existing` is the row as it was read before.
unfoldable pub edited : String → UpdateDevice → Device → Device → Device
unfolding needs_secret
edited fresh req existing d = record d {
  label = if is_given req.label then label_after req.label existing else d.label;
  device_secret = or_kept req.device_secret d.device_secret;
  timezone = or_kept req.timezone d.timezone;
  webhook_url = after_change req.webhook_url d.webhook_url;
  webhook_secret = if needs_secret req existing then some fresh else d.webhook_secret;
  webhook_enabled = or_kept req.webhook_enabled d.webhook_enabled;
  webhook_headers = after_change req.webhook_headers d.webhook_headers;
  webhook_body_template = after_change req.webhook_body_template d.webhook_body_template;
}

-- `device.update` of the row with the id.
unfoldable pub update_device : String → (Device → Device) → World → Result Device × Db
update_device id f w =
    let devices = change_first (is_device id) f w.db.devices in
    elim (device_with_id id w.db) [
      | none ↦ (thrown (known_request "P2025"), w.db)
      | some d ↦ (ok (f d), record w.db { devices = devices })
    ]

abbrev pub patch_found :
    Intl → Network → ℕ → String → String → UpdateDevice → Device → Async DeviceReply
patch_found intl net threshold fresh id req existing =
    branch (is_valid_update intl net req)
      (branch (passes_guard net (given_text (sent_url req.webhook_url)))
        (do
          d ← checked_write (update_device id (edited fresh req existing))
          with_status shown threshold d)
        (pure (refused 400)))
      (pure (refused 400))

-- PATCH /:id
unfoldable pub patch :
    Intl → Network → ℕ → String → AdminIdentity → String → UpdateDevice → Async DeviceReply
unfolding may_act_for is_valid_update is_safe_webhook_url update_device edited compute_device_status
patch intl net threshold fresh admin id req =
    on_device admin id (patch_found intl net threshold fresh id req)
