-- ===== src/Router.antt =====
-- src/adms/router.ts and src/adms/test.ts: the device-facing router, from a request to the answer
-- that the device gets. The firehose log of src/adms/rawLog.ts runs before every route.
pub mod Answers
use adms.Prelude.{
  suc, ℕ, String, Text, codes, Bool, true, false, ◌++◌, ◌||◌, Option, none, some, List, [], ◌∷◌,
  includes, ◌==◌, string_eq, text_eq, nat_eq, if◌then◌else◌, to_lower_case, is_empty, ltb, length,
  show_nat, is_some_of,
}
use adms.Http.{Request, Response, QueryValue, plain_string, send_plain_text, ok_response}
use adms.Store.{Db, RawRequestLog}
use adms.Store.Exec.{
  World, Result, ok, thrown, DbError, Async, pure, branch, ◌>>=◌, ◌>>◌, try_catch, write,
}
use adms.Timezone.{Intl}
use adms.Cdata.{handle_cdata_get, handle_cdata_post, log_raw_request}
use adms.Commands.{handle_get_request, handle_device_cmd}

unfoldable pub reserved_slug_values : List Text
reserved_slug_values = codes "admin" ∷ codes "api" ∷ codes "health" ∷ []

abbrev pub unless_reserved : Option Text → Option Text
unless_reserved none = none
unless_reserved (some slug) =
    if includes reserved_slug_values (to_lower_case slug) then none else some slug

unfoldable pub clear_reserved_company_slug : Request → Request
unfolding reserved_slug_values
clear_reserved_company_slug req = record req { company_slug = unless_reserved req.company_slug }

-- GET|POST /iclock/test
unfoldable pub handle_test : Request → Response
handle_test req = ok_response

pub data Endpoint : Type 0 where
  cdata_get cdata_post get_request device_cmd test : Endpoint

-- The route of a path below /iclock, with or without `.aspx`. Paths are as devices send them: what
-- Express makes of another case or of a trailing slash, and `HEAD`, are left out.
unfoldable pub route : String → String → Option Endpoint
route method path =
    if method == "GET"
    then (if path == "/cdata" || path == "/cdata.aspx"
        then some Endpoint.cdata_get
        else if path == "/getrequest" || path == "/getrequest.aspx"
        then some Endpoint.get_request
        else if path == "/test" || path == "/test.aspx"
        then some Endpoint.test
        else none)
    else if method == "POST"
    then (if path == "/cdata" || path == "/cdata.aspx"
        then some Endpoint.cdata_post
        else if path == "/devicecmd" || path == "/devicecmd.aspx"
        then some Endpoint.device_cmd
        else if path == "/test" || path == "/test.aspx"
        then some Endpoint.test
        else none)
    else none

-- What reaches the error middleware: a body over the limit, another error of the body parser, or a
-- rejection of a handler.
pub data RouteError : Type 0 where
  too_large : (size : Option ℕ) → (limit : Option ℕ) → RouteError
  unreadable_body : RouteError
  rejected : DbError → RouteError

abbrev pub is_payload_too_large : RouteError → Bool
is_payload_too_large (too_large size limit) = true
is_payload_too_large unreadable_body = false
is_payload_too_large (rejected e) = false

-- What the body parser makes of a request: its text, a body over the limit, or one that it cannot
-- read, such as one cut off or of an encoding it does not know.
pub data Incoming : Type 0 where
  parsed : Request → Incoming
  oversized : Request → (size : Option ℕ) → (limit : Option ℕ) → Incoming
  unreadable : Request → Incoming

abbrev number_or : Text → Option ℕ → Text
number_or text none = text
number_or text (some n) = show_nat n

unfoldable pub dropped_notice : Option ℕ → Option ℕ → Text
dropped_notice size limit =
    codes "[dropped: payload of "
    ++ (number_or (codes "unknown") size
        ++ (codes " bytes exceeded the "
            ++ (number_or (codes "configured") limit ++ codes "-byte ADMS_MAX_BODY_SIZE limit]")))

unfoldable pub dropped_request : Request → Option ℕ → Option ℕ → World → Unit {0} × Db
unfolding dropped_notice
dropped_request req size limit w =
    let log : RawRequestLog = record {
      id = w.cuid w.db.minted;
      serial_number = plain_string req.sn;
      endpoint = req.path;
      method = req.method;
      query = req.query;
      headers = req.headers;
      raw_body = some (dropped_notice size limit);
      created_at = w.now;
    } in
    (tt, record db { raw_request_logs = db.raw_request_logs ++ log ∷ []; minted = suc db.minted })
  where
    open w use {db}

-- The error middleware. The log of a dropped body is not waited for, and may fail.
unfoldable pub handle_error : Request → RouteError → Async Response
unfolding dropped_request
handle_error req (too_large size limit) = do
  try_catch (write (dropped_request req size limit)) (λ e. pure tt)
  pure ok_response
handle_error req unreadable_body = pure (send_plain_text (codes "Internal Server Error") 500)
handle_error req (rejected e) = pure (send_plain_text (codes "Internal Server Error") 500)

module _ (intl : Intl) where
  unfoldable pub run_endpoint : Endpoint → Request → Async Response
  run_endpoint Endpoint.cdata_get req = handle_cdata_get intl req
  run_endpoint Endpoint.cdata_post req = handle_cdata_post intl req
  run_endpoint Endpoint.get_request req = handle_get_request req
  run_endpoint Endpoint.device_cmd req = handle_device_cmd req
  run_endpoint Endpoint.test req = pure (handle_test req)

  -- `asyncHandler`: a rejection goes to the error middleware.
  unfoldable pub async_handler : Endpoint → Request → Async Response
  unfolding run_endpoint
  async_handler endpoint req =
      try_catch (run_endpoint endpoint req) (λ e. handle_error req (rejected e))

  abbrev pub run_route : Request → Option Endpoint → Async (Option Response)
  run_route req none = pure none
  run_route req (some endpoint) = do r ← async_handler endpoint req; pure (some r)

  -- The router on a request: nothing where no route matches.
  unfoldable pub adms_router : Incoming → Async (Option Response)
  unfolding route async_handler handle_error
  adms_router (oversized req size limit) = do
    r ← handle_error req (too_large size limit)
    pure (some r)
  adms_router (unreadable req) = do r ← handle_error req unreadable_body; pure (some r)
  adms_router (parsed req) = do log_raw_request req; run_route req (route req.method req.path)

  -- The mount `/:companySlug/:secret/iclock`.
  unfoldable pub mount_iclock : Request → Async (Option Response)
  unfolding clear_reserved_company_slug adms_router
  mount_iclock req = adms_router (parsed (clear_reserved_company_slug req))
