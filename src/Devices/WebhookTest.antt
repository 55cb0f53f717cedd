-- ===== src/Devices/WebhookTest.antt =====
-- src/admin/devices.ts: the test of a webhook, with the sample punch of src/webhooks/template.ts.
use adms.Prelude.{ℕ, pos, String, Text, codes, Option, none, some, string_eq, find}
use adms.Json.{Json}
use adms.Store.{Db, Device}
use adms.Store.Exec.{Async, pure, branch, ◌>>=◌, ◌>>◌, read, wait}
use adms.Access.{AdminIdentity}
use adms.Retention.{get_or_create_platform_settings}
use adms.SsrfGuard.{Network, is_safe_webhook_url}
use adms.Template.{render_headers}
use adms.Dispatcher.{Outside, render_punch_webhook_body, dispatch_webhook, Headers}
use adms.WebhookVars.{PunchVars, by_name}
use adms.Worker.{DispatchResult}
use adms.Worker.Loop.{is_company}
use adms.Devices.{may_act_for}
use adms.Devices.Edit.{Change, after_change, device_with_id, is_url, passes_guard, given_text}

pub record WebhookTest : Type 0 where
  pub url : Option String
  pub secret : Change String
  pub headers : Change Headers
  pub body_template : Change Json

pub data TestReply : Type 0 where
  tested : (sent_body : Json) → (sent_headers : Headers) → DispatchResult → TestReply
  refused : (status : ℕ) → TestReply

-- `SAMPLE_TEMPLATE_VARS`, with the device and its company put in.
unfoldable pub sample_vars : Device → Text → PunchVars
sample_vars d company_name = record {
  pin = codes "1";
  punch_time = codes "2024-07-28T01:25:24.000Z";
  punch_time_unix = pos 1722130524;
  punch_time_utc = some (codes "2024-07-27T19:55:24.000Z");
  device_timezone = some (codes "Asia/Kolkata");
  punch_time_frappe = codes "2024-07-28 01:25:24.000000";
  status = pos 0;
  verify_mode = pos 1;
  work_code = none;
  device_id = codes d.id;
  device_serial = codes d.serial_number;
  company_id = codes d.company_id;
  company_name = company_name;
  received_at = codes "2026-08-12T12:00:00.000Z";
}

-- `value ?? fallback` for the URL.
abbrev or_else : Option String → Option String → Option String
or_else none fallback = fallback
or_else (some s) fallback = some s

abbrev pub Named : Type 0
Named = Device × Text

abbrev name_device : Db → Option Device → Option Named
name_device db none = none
name_device db (some d) = elim (find (is_company d.company_id) db.companies) [
  | none ↦ none
  | some c ↦ some (d, codes c.name)
]

-- The device with the name of its company, which the foreign key says exists.
abbrev pub load_named : String → Db → Option Named
load_named id db = name_device db (device_with_id id db)

module _ (outside : Outside) (net : Network) where
  abbrev send : WebhookTest → Named → String → Async TestReply
  send req (d, company_name) url = do
    settings ← get_or_create_platform_settings
    let vars = sample_vars d company_name
    let body =
        render_punch_webhook_body outside (after_change req.body_template d.webhook_body_template)
          vars
    let headers =
        render_headers outside.inherited (by_name vars) (after_change req.headers d.webhook_headers)
    let result =
        dispatch_webhook outside url (after_change req.secret d.webhook_secret) body
          settings.webhook_timeout_ms headers
    wait result.elapsed_ms
    pure (tested body headers result)

  abbrev pub send_if_safe : WebhookTest → Named → Option String → Async TestReply
  send_if_safe req named none = pure (refused 400)
  send_if_safe req named (some url) =
      branch (passes_guard net (some url)) (send req named url) (pure (refused 400))

  abbrev pub test_named : WebhookTest → AdminIdentity → Option Named → Async TestReply
  test_named req admin none = pure (refused 404)
  test_named req admin (some (d, company_name)) =
      branch (may_act_for admin d.company_id)
        (branch (is_url net req.url)
          (send_if_safe req (d, company_name) (given_text (or_else req.url d.webhook_url)))
          (pure (refused 400)))
        (pure (refused 403))

  -- POST /:id/test-webhook
  unfoldable pub test_webhook : WebhookTest → AdminIdentity → String → Async TestReply
  unfolding may_act_for sample_vars render_punch_webhook_body render_headers dispatch_webhook
      is_safe_webhook_url by_name
  test_webhook req admin id = do named ← read (load_named id); test_named req admin named
