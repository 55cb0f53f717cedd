-- ===== src/PunchRecords/Listing.antt =====
-- src/admin/punchRecords.ts: the lists of punches and of failed ones.
use adms.Retention.{get_or_create_platform_settings}
use adms.Store.Exec.{◌>>=◌, Async, promise_all, pure, read}
use adms.PunchRecords.{
  WebhookStatus, compute_status, status_condition, has_active_webhook, Async, pure, read,
}
use adms.Store.{Db, Device, PunchRecord}
use adms.Prelude.{
  ℕ, ℤ, ◌*◌, ◌-◌, String, Text, codes, Bool, true, false, ◌&&◌, ◌||◌, not, Option, none, some, List,
  [], ◌∷◌, find, filter, take, drop, length, ◌==◌, string_eq, leb, is_given, is_empty,
}
use adms.Access.{AdminIdentity, resolve_company_scope, in_scope}
use adms.DataTables.{
  matches_term, SortDir, SortColumns, SortKey, build_order_by, key_on, nulls_last_on, desc,
}
use adms.Worker.{is_device}

-- `listQuerySchema`, its defaults filled in.
pub record ListQuery : Type 0 where
  pub company_id : Option String
  pub device_id : Option String
  pub status : Option WebhookStatus
  pub from_time : Option ℤ
  pub to_time : Option ℤ
  pub page : ℕ
  pub page_size : ℕ
  pub sort_by : Option String
  pub sort_dir : Option SortDir
  pub search : Option Text

abbrev int_leb : ℤ → ℤ → Bool
int_leb (ℤ.pos a) (ℤ.pos b) = leb a b
int_leb (ℤ.pos a) (ℤ.negsuc b) = false
int_leb (ℤ.negsuc a) (ℤ.pos b) = true
int_leb (ℤ.negsuc a) (ℤ.negsuc b) = leb b a

abbrev not_before : Option ℤ → ℤ → Bool
not_before none t = true
not_before (some from) t = int_leb from t

abbrev not_after : Option ℤ → ℤ → Bool
not_after none t = true
not_after (some to) t = int_leb t to

abbrev matches_label : Text → Option Text → Bool
matches_label term none = false
matches_label term (some label) = matches_term term label

-- `buildSearch` over the pin, the serial number and the label.
unfoldable pub search_condition : Option Text → PunchRecord → Device → Bool
unfolding matches_term
search_condition none p d = true
search_condition (some term) p d =
    is_empty term
    || (matches_term term p.device_pin
        || (matches_term term (codes d.serial_number) || matches_label term d.label))

abbrev device_condition : Option String → PunchRecord → Bool
device_condition none p = true
device_condition (some id) p = id == "" || p.device_id == id

-- A row with its device.
abbrev pub Row : Type 0
Row = PunchRecord × Device

-- `buildScopedWhere`: the conjunction of its conditions.
unfoldable pub scoped_where :
    AdminIdentity → (PunchRecord → Bool) → ℕ → ListQuery → PunchRecord → Device → Bool
unfolding search_condition status_condition
scoped_where admin extra max_attempts query p d =
    in_scope (resolve_company_scope (some admin) query.company_id) d.company_id
    && (extra p
        && (status_condition query.status max_attempts p d
            && (search_condition query.search p d
                && (device_condition query.device_id p
                    && (not_before query.from_time p.punch_time
                        && not_after query.to_time p.punch_time)))))

abbrev with_device : Option Device → PunchRecord → List Row → List Row
with_device none p rows = rows
with_device (some d) p rows = (p, d) ∷ rows

unfoldable pub join_devices : List Device → List PunchRecord → List Row
join_devices devices [] = []
join_devices devices (p ∷ ps) =
    with_device (find (is_device p.device_id) devices) p (join_devices devices ps)

abbrev pub passes : (PunchRecord → Device → Bool) → Row → Bool
passes where_ (p, d) = where_ p d

abbrev pub any_punch : PunchRecord → Bool
any_punch p = true

-- The condition of `GET /failed`.
unfoldable pub failed_condition : ℕ → PunchRecord → Bool
failed_condition max_attempts p =
    not p.webhook_delivered
    && (leb max_attempts p.webhook_attempts || is_given p.last_webhook_error)

-- `serializeRecord`: the row, its status, and whether a retry makes sense.
pub record Serialized : Type 0 where
  pub punch : PunchRecord
  pub webhook_status : WebhookStatus
  pub can_retry : Bool
  pub device_company : String

unfoldable pub serialize_record : ℕ → Row → Serialized
serialize_record max_attempts (p, d) = record {
  punch = p;
  webhook_status = compute_status p d max_attempts;
  can_retry = has_active_webhook d;
  device_company = d.company_id;
}

abbrev pub serialize_all : ℕ → List Row → List Serialized
serialize_all max_attempts [] = []
serialize_all max_attempts (r ∷ rows) =
    serialize_record max_attempts r ∷ serialize_all max_attempts rows

-- One page and the total; `order` is the database's `ORDER BY`.
module _ (order : List Row → List Row) where
  unfoldable pub list_rows :
      AdminIdentity → (PunchRecord → Bool) → ℕ → ListQuery → Db → List Serialized × ℕ
  unfolding scoped_where join_devices serialize_record
  list_rows admin extra max_attempts query db =
      let rows =
        filter (passes (scoped_where admin extra max_attempts query))
          (join_devices db.devices db.punch_records) in
      (
        serialize_all max_attempts
            (take query.page_size (drop ((query.page - 1) * query.page_size) (order rows))),
        length rows,
      )

-- A refusal, or one page and the total.
pub data ListReply : Type 0 where
  refused : (status : ℕ) → ListReply
  records : List Serialized → (total page page_size : ℕ) → ListReply

unfoldable pub punch_sort_columns : SortColumns
punch_sort_columns =
    ("devicePin", key_on "devicePin")
    ∷ ("device", key_on "device.label")
    ∷ ("punchTime", key_on "punchTime")
    ∷ ("punchTimeUtc", nulls_last_on "punchTimeUtc")
    ∷ ("webhookAttempts", key_on "webhookAttempts")
    ∷ []

-- `order` is the database's `ORDER BY` of some keys.
module _ (order : List SortKey → List Row → List Row) where
  -- Rows and count, side by side.
  abbrev found_rows :
      AdminIdentity
      → (PunchRecord → Bool)
      → ℕ
      → List SortKey
      → ListQuery
      → Async (List Serialized × ℕ)
  found_rows admin extra max_attempts fallback query =
      let keys = build_order_by query.sort_by query.sort_dir punch_sort_columns fallback in
      promise_all (read (λ db. (list_rows (order keys) admin extra max_attempts query db).0))
        (read (λ db. (list_rows (order keys) admin extra max_attempts query db).1))

  abbrev list_built :
      AdminIdentity → (PunchRecord → Bool) → ℕ → List SortKey → Option ListQuery → Async ListReply
  list_built admin extra max_attempts fallback none = pure (ListReply.refused 400)
  list_built admin extra max_attempts fallback (some query) = do
    found ← found_rows admin extra max_attempts fallback query
    pure (records found.0 found.1 query.page query.page_size)

  -- GET /, where a query that its schema refuses is absent.
  unfoldable pub list_punches : AdminIdentity → Option ListQuery → Async ListReply
  unfolding list_rows build_order_by punch_sort_columns
  list_punches admin query = do
    settings ← get_or_create_platform_settings
    list_built admin any_punch settings.webhook_max_attempts (key_on "punchTime" desc ∷ []) query

  -- GET /failed
  unfoldable pub list_failed : AdminIdentity → Option ListQuery → Async ListReply
  unfolding list_rows failed_condition build_order_by punch_sort_columns
  list_failed admin query = do
    settings ← get_or_create_platform_settings
    let max_attempts = settings.webhook_max_attempts
    list_built admin (failed_condition max_attempts) max_attempts (key_on "nextAttemptAt" desc ∷ [])
        query
