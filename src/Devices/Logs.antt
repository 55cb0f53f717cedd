-- ===== src/Devices/Logs.antt =====
-- src/admin/devices.ts: the raw logs of a device.
use adms.Prelude.{
  ℕ, String, Text, codes, Bool, true, false, ◌&&◌, not, Option, none, some, List, [], ◌∷◌, find,
  filter, map, length, includes, any, ◌==◌, string_eq, text_eq, if◌then◌else◌,
}
use adms.Store.{Db, Device, DeviceRawLog}
use adms.Store.Exec.{
  World, Result, ok, thrown, known_request, Async, pure, branch, ◌>>=◌, ◌>>◌, read, write,
  checked_write,
}
use adms.Access.{AdminIdentity, is_super_admin}
use adms.PunchRecords.{is_bulk}
use adms.DataTables.{
  TableQuery, SortKey, SortColumns, key_on, desc, build_order_by, build_search, size_by_id,
  body_length, page_and_total, sizes_of,
}
use adms.Devices.{may_act_for}
use adms.Devices.Edit.{device_with_id}

-- A listed log: everything but the body, and the length of that.
pub record LogItem : Type 0 where
  pub id : String
  pub device_id : String
  pub endpoint : String
  pub method : String
  pub table : Option Text
  pub query : String
  pub headers : String
  pub created_at : ℕ
  pub body_size : ℕ

pub data LogReply : Type 0 where
  logs : List LogItem → (total page page_size : ℕ) → LogReply
  log : DeviceRawLog → LogReply
  done : LogReply
  deleted : ℕ → LogReply
  refused : (status : ℕ) → LogReply

abbrev log_item : List (String × ℕ) → DeviceRawLog → LogItem
log_item sizes l = record {
  id = l.id;
  device_id = l.device_id;
  endpoint = l.endpoint;
  method = l.method;
  table = l.table;
  query = l.query;
  headers = l.headers;
  created_at = l.created_at;
  body_size = size_by_id sizes l.id;
}

abbrev log_id : DeviceRawLog → String
log_id l = l.id

abbrev log_sizes : Db → List (String × ℕ)
log_sizes db = map (λ (l : DeviceRawLog). (l.id, body_length l.raw_body)) db.device_raw_logs

unfoldable pub log_sort_columns : SortColumns
log_sort_columns =
    ("createdAt", key_on "createdAt")
    ∷ ("table", key_on "table")
    ∷ ("endpoint", key_on "endpoint")
    ∷ []

pub record LogQuery : Type 0 where
  pub table_query : TableQuery
  pub table : Option Text

abbrev or_empty : Option Text → Text
or_empty none = []
or_empty (some t) = t

-- `table ? { table } : {}`
abbrev of_table : Option Text → Option Text → Bool
of_table none table = true
of_table (some []) table = true
of_table (some (c ∷ s)) none = false
of_table (some (c ∷ s)) (some table) = table == c ∷ s

unfoldable pub is_listed_log : String → LogQuery → DeviceRawLog → Bool
unfolding build_search
is_listed_log device_id query l =
    l.device_id == device_id
    && (of_table query.table l.table
        && build_search query.table_query.search (or_empty l.table ∷ codes l.endpoint ∷ []))

-- A route on one device: 404 if there is none, 403 for an admin of another company.
abbrev pub log_found : AdminIdentity → (Device → Async LogReply) → Option Device → Async LogReply
log_found admin k none = pure (refused 404)
log_found admin k (some d) = branch (may_act_for admin d.company_id) (k d) (pure (refused 403))

abbrev listed_logs : String → LogQuery → Db → List DeviceRawLog
listed_logs device_id query db = filter (is_listed_log device_id query) db.device_raw_logs

-- `order` is the database's `ORDER BY` of some keys.
module _ (order : List SortKey → List DeviceRawLog → List DeviceRawLog) where
  abbrev list_for : Option LogQuery → Device → Async LogReply
  list_for none d = pure (refused 400)
  list_for (some query) d = do
    let table = query.table_query
    let keys =
        build_order_by table.sort_by table.sort_dir log_sort_columns (key_on "createdAt" desc ∷ [])
    found ← page_and_total order keys table (listed_logs d.id query)
    sizes ← sizes_of (map log_id found.0) log_sizes
    pure (logs (map (log_item sizes) found.0) found.1 table.page table.page_size)

  -- GET /:id/raw-logs, where a query that its schema refuses is absent.
  unfoldable pub list_logs : AdminIdentity → String → Option LogQuery → Async LogReply
  unfolding may_act_for is_listed_log log_sort_columns build_order_by page_and_total size_by_id
  list_logs admin id query = do
    found ← read (device_with_id id)
    log_found admin (list_for query) found

abbrev pub is_log : String → DeviceRawLog → Bool
is_log id l = l.id == id

abbrev pub log_with_id : String → Db → Option DeviceRawLog
log_with_id id db = find (is_log id) db.device_raw_logs

abbrev log_of : String → Option DeviceRawLog → LogReply
log_of device_id none = refused 404
log_of device_id (some l) = if l.device_id == device_id then log l else refused 404

-- GET /:id/raw-logs/:logId
unfoldable pub get_log : AdminIdentity → String → String → Async LogReply
unfolding may_act_for
get_log admin id log_id = do
  found ← read (device_with_id id)
  log_found admin (λ d. read (λ db. log_of d.id (log_with_id log_id db))) found

-- `deviceRawLog.delete`
unfoldable pub delete_log : String → World → Result (Unit {0}) × Db
delete_log id w =
    if any (is_log id) w.db.device_raw_logs
    then (
      ok tt,
      record w.db { device_raw_logs = filter (λ l. not (is_log id l)) w.db.device_raw_logs },
    )
    else (thrown (known_request "P2025"), w.db)

abbrev delete_found : String → Option DeviceRawLog → Async LogReply
delete_found device_id none = pure (refused 404)
delete_found device_id (some l) =
    branch (l.device_id == device_id) (checked_write (delete_log l.id) >> pure done)
      (pure (refused 404))

-- DELETE /:id/raw-logs/:logId
unfoldable pub remove_log : AdminIdentity → String → String → Async LogReply
unfolding delete_log
remove_log admin id log_id =
    branch (is_super_admin admin.role) (do found ← read (log_with_id log_id); delete_found id found)
      (pure (refused 403))

abbrev is_log_in : String → List String → DeviceRawLog → Bool
is_log_in device_id ids l = includes ids l.id && l.device_id == device_id

unfoldable pub delete_logs : String → List String → World → ℕ × Db
delete_logs device_id ids w =
    let gone = filter (is_log_in device_id ids) w.db.device_raw_logs in
    let kept = filter (λ l. not (is_log_in device_id ids l)) w.db.device_raw_logs in
    (length gone, record w.db { device_raw_logs = kept })

-- POST /:id/raw-logs/delete-bulk
unfoldable pub remove_logs : AdminIdentity → String → List String → Async LogReply
unfolding delete_logs
remove_logs admin id ids =
    branch (is_super_admin admin.role)
      (branch (is_bulk ids) (do count ← write (delete_logs id ids); pure (deleted count))
        (pure (refused 400)))
      (pure (refused 403))
