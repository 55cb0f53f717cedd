-- ===== src/Dispatcher.antt =====
-- src/webhooks/dispatcher.ts: the body and the headers of a punch's webhook, and its call. `fetch` and
-- the HMAC of node:crypto are parameters; lengths of texts count code points.
use adms.WebhookVars.{build_template_vars, build_default_payload, by_name, PunchVars}
use adms.Prelude.{
  ℕ, String, Text, codes, Bool, false, ◌&&◌, Option, none, some, List, [], ◌∷◌, ◌++◌, leb,
  if◌then◌else◌, ◌==◌, string_eq, text_eq, take, show_nat,
}
use adms.Json.{Json, Fields, str, obj, end, field}
use adms.Json.Print.{stringify}
use adms.Store.{Device, PunchRecord}
use adms.Store.Exec.{Result, ok}
use adms.Template.{render_body_template, render_headers}
use adms.Worker.{DispatchResult}

-- What the call of a webhook ends in: a response, with its body unless that could not be read; the
-- abort by the timer; or another failure.
pub data FetchOutcome : Type 0 where
  response : (status : ℕ) → (body : Option Text) → FetchOutcome
  aborted : FetchOutcome
  failed : (message : Text) → FetchOutcome

abbrev pub Headers : Type 0
Headers = List (Text × Text)

pub record Outside : Type 0 where
  pub hmac_sha256_hex : (raw_body : Text) → (secret : String) → Text
  pub fetch :
      (url : String) → (headers : Headers) → (raw_body : Text) → (timeout_ms : ℕ) → FetchOutcome
  pub elapsed : (url : String) → (raw_body : Text) → ℕ
  pub inherited : Text → Option Text

-- `headers[name] = value`: a key that is there keeps its place.
unfoldable pub set_header : Text → Text → Headers → Headers
set_header name value [] = (name, value) ∷ []
set_header name value ((k, v) ∷ hs) =
    let rest = set_header name value hs in if k == name then (k, value) ∷ hs else (k, v) ∷ rest

-- `{ ...headers, ...extra }`
unfoldable pub spread : Headers → Headers → Headers
unfolding set_header
spread headers [] = headers
spread headers ((k, v) ∷ extra) = spread (set_header k v headers) extra

abbrev max_stored_response_body : ℕ
max_stored_response_body = 5000

abbrev or_empty : Option Text → Text
or_empty none = []
or_empty (some s) = s

-- The result before it is stored; the headers are stored as their JSON text.
abbrev header_fields : Headers → Fields
header_fields [] = end
header_fields ((k, v) ∷ hs) = field k (str v) (header_fields hs)

unfoldable pub headers_text : Headers → Text
unfolding stringify
headers_text hs = stringify (obj (header_fields hs))

-- `response.ok`
abbrev pub is_ok : ℕ → Bool
is_ok status = leb 200 status && leb status 299

abbrev pub report : ℕ → Text → Headers → ℕ → FetchOutcome → DispatchResult
report timeout_ms raw_body headers elapsed (response status body) = record {
  success = is_ok status;
  status_code = some status;
  response_body = some (take max_stored_response_body (or_empty body));
  error = if is_ok status then none else some (codes "HTTP " ++ show_nat status);
  request_body = raw_body;
  request_headers = headers_text headers;
  elapsed_ms = elapsed;
}
report timeout_ms raw_body headers elapsed aborted = record {
  success = false;
  status_code = none;
  response_body = none;
  error = some (codes "timed out after " ++ (show_nat timeout_ms ++ codes "ms"));
  request_body = raw_body;
  request_headers = headers_text headers;
  elapsed_ms = elapsed;
}
report timeout_ms raw_body headers elapsed (failed message) = record {
  success = false;
  status_code = none;
  response_body = none;
  error = some message;
  request_body = raw_body;
  request_headers = headers_text headers;
  elapsed_ms = elapsed;
}

module _ (outside : Outside) where
  open outside use {hmac_sha256_hex, fetch, elapsed, inherited}

  -- The body of a punch: the device's template, or the default shape.
  unfoldable pub render_punch_webhook_body : Option Json → PunchVars → Json
  unfolding build_default_payload render_body_template by_name
  render_punch_webhook_body none vars = build_default_payload vars
  render_punch_webhook_body (some template) vars =
      render_body_template inherited (by_name vars) template

  abbrev signed : Text → Option String → Headers → Headers
  signed raw_body none headers = headers
  signed raw_body (some secret) headers =
      if secret == ""
      then headers
      else set_header (codes "X-Webhook-Signature")
          (codes "sha256=" ++ hmac_sha256_hex raw_body secret) headers

  -- The headers of a call: the content type, those of the device, and the signature.
  unfoldable pub call_headers : Text → Option String → Headers → Headers
  unfolding spread set_header
  call_headers raw_body secret extra =
      signed raw_body secret (spread ((codes "Content-Type", codes "application/json") ∷ []) extra)

  unfoldable pub dispatch_webhook : String → Option String → Json → ℕ → Headers → DispatchResult
  unfolding call_headers stringify headers_text
  dispatch_webhook url secret body timeout_ms extra =
      let raw_body = stringify body in
      let headers = call_headers raw_body secret extra in
      report timeout_ms raw_body headers (elapsed url raw_body)
        (fetch url headers raw_body timeout_ms)

  abbrev no_url : DispatchResult
  no_url = record {
    success = false;
    status_code = none;
    response_body = none;
    error = some (codes "no webhook URL configured");
    request_body = [];
    request_headers = codes "{}";
    elapsed_ms = 0;
  }

  abbrev pub dispatch_to : PunchRecord → Device → String → ℕ → Option String → DispatchResult
  dispatch_to punch device company_name timeout_ms none = no_url
  dispatch_to punch device company_name timeout_ms (some url) =
      let vars = build_template_vars punch device company_name in
      if url == ""
      then no_url
      else dispatch_webhook url device.webhook_secret
          (render_punch_webhook_body device.webhook_body_template vars) timeout_ms
          (render_headers inherited (by_name vars) device.webhook_headers)

  -- What the worker calls; it never rejects.
  unfoldable pub dispatch_punch_webhook : PunchRecord → Device → String → ℕ → Result DispatchResult
  unfolding build_template_vars render_punch_webhook_body dispatch_webhook by_name render_headers
  dispatch_punch_webhook punch device company_name timeout_ms =
      ok (dispatch_to punch device company_name timeout_ms device.webhook_url)
