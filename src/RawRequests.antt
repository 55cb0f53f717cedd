-- ===== src/RawRequests.antt =====
-- src/admin/rawRequests.ts: the log of every request of a device, for super admins.
use adms.Prelude.{
  ℕ, String, Text, codes, Bool, true, ◌&&◌, not, Option, none, some, List, [], ◌∷◌, find, filter,
  map, length, includes, any, ◌==◌, string_eq, if◌then◌else◌, ◌||◌,
}
use adms.Store.{Db, RawRequestLog}
use adms.Store.Exec.{
  World, Result, ok, thrown, known_request, Async, pure, branch, ◌>>=◌, ◌>>◌, try_catch, read,
  write, checked_write,
}
use adms.Access.{AdminIdentity, is_super_admin}
use adms.PunchRecords.{is_bulk}
use adms.DataTables.{
  TableQuery, SortKey, SortColumns, key_on, desc, build_order_by, build_search, size_by_id,
  page_and_total, body_length, sizes_of,
}

-- A listed request: everything but the body, and the length of that.
pub record RequestItem : Type 0 where
  pub id : String
  pub serial_number : Option String
  pub endpoint : String
  pub method : String
  pub query : String
  pub headers : String
  pub created_at : ℕ
  pub body_size : ℕ

pub data RequestReply : Type 0 where
  requests : List RequestItem → (total page page_size : ℕ) → RequestReply
  request : RawRequestLog → RequestReply
  done : RequestReply
  deleted : ℕ → RequestReply
  refused : (status : ℕ) → RequestReply

abbrev request_item : List (String × ℕ) → RawRequestLog → RequestItem
request_item sizes r = record {
  id = r.id;
  serial_number = r.serial_number;
  endpoint = r.endpoint;
  method = r.method;
  query = r.query;
  headers = r.headers;
  created_at = r.created_at;
  body_size = size_by_id sizes r.id;
}

unfoldable pub request_sort_columns : SortColumns
request_sort_columns =
    ("createdAt", key_on "createdAt")
    ∷ ("serialNumber", key_on "serialNumber")
    ∷ ("endpoint", key_on "endpoint")
    ∷ []

pub record RequestQuery : Type 0 where
  pub table : TableQuery
  pub serial_number : Option String
  pub endpoint : Option String

-- `value ? { column: value } : {}`
abbrev of_value : Option String → Option String → Bool
of_value none column = true
of_value (some wanted) none = wanted == ""
of_value (some wanted) (some column) = wanted == "" || column == wanted

abbrev text_of : Option String → Text
text_of none = []
text_of (some s) = codes s

unfoldable pub is_listed_request : RequestQuery → RawRequestLog → Bool
unfolding build_search
is_listed_request query r =
    of_value query.serial_number r.serial_number
    && (of_value query.endpoint (some r.endpoint)
        && build_search query.table.search (text_of r.serial_number ∷ codes r.endpoint ∷ []))

-- `rawRequestsRouter.use(requireSuperAdmin)`
abbrev for_super_admin : AdminIdentity → Async RequestReply → Async RequestReply
for_super_admin admin m = branch (is_super_admin admin.role) m (pure (refused 403))

abbrev request_id : RawRequestLog → String
request_id r = r.id

abbrev request_sizes : Db → List (String × ℕ)
request_sizes db = map (λ (r : RawRequestLog). (r.id, body_length r.raw_body)) db.raw_request_logs

abbrev listed_requests : RequestQuery → Db → List RawRequestLog
listed_requests query db = filter (is_listed_request query) db.raw_request_logs

-- `order` is the database's `ORDER BY` of some keys.
module _ (order : List SortKey → List RawRequestLog → List RawRequestLog) where
  abbrev list_parsed : Option RequestQuery → Async RequestReply
  list_parsed none = pure (refused 400)
  list_parsed (some query) = do
    let table = query.table
    let keys =
        build_order_by table.sort_by table.sort_dir request_sort_columns
          (key_on "createdAt" desc ∷ [])
    found ← page_and_total order keys table (listed_requests query)
    sizes ← sizes_of (map request_id found.0) request_sizes
    pure (requests (map (request_item sizes) found.0) found.1 table.page table.page_size)

  -- GET /, where a query that its schema refuses is absent.
  unfoldable pub list_requests : AdminIdentity → Option RequestQuery → Async RequestReply
  unfolding is_listed_request request_sort_columns build_order_by page_and_total size_by_id
  list_requests admin query = for_super_admin admin (list_parsed query)

abbrev is_request : String → RawRequestLog → Bool
is_request id r = r.id == id

abbrev request_or_missing : Option RawRequestLog → RequestReply
request_or_missing none = refused 404
request_or_missing (some r) = request r

-- GET /:id
unfoldable pub get_request : AdminIdentity → String → Async RequestReply
get_request admin id =
    for_super_admin admin
      (read (λ db. request_or_missing (find (is_request id) db.raw_request_logs)))

unfoldable pub delete_requests : List String → World → ℕ × Db
delete_requests ids w =
    let kept = filter (λ r. not (includes ids r.id)) w.db.raw_request_logs in
    (
      length (filter (λ r. includes ids r.id) w.db.raw_request_logs),
      record w.db { raw_request_logs = kept },
    )

-- POST /delete-bulk
unfoldable pub remove_requests : AdminIdentity → List String → Async RequestReply
unfolding delete_requests
remove_requests admin ids = for_super_admin admin (
    branch (is_bulk ids) (do count ← write (delete_requests ids); pure (deleted count))
      (pure (refused 400)))

-- `rawRequestLog.delete`
unfoldable pub delete_request : String → World → Result (Unit {0}) × Db
delete_request id w =
    if any (is_request id) w.db.raw_request_logs
    then (
      ok tt,
      record w.db { raw_request_logs = filter (λ r. not (is_request id r)) w.db.raw_request_logs },
    )
    else (thrown (known_request "P2025"), w.db)

-- DELETE /:id
unfoldable pub remove_request : AdminIdentity → String → Async RequestReply
unfolding delete_request
remove_request admin id =
    for_super_admin admin
      (try_catch (checked_write (delete_request id) >> pure done) (λ e. pure (refused 404)))
