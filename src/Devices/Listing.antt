-- ===== src/Devices/Listing.antt =====
-- src/admin/devices.ts: the list of devices and the options of a `<select>`.
use adms.Prelude.{
  ℕ, String, Text, codes, Bool, ◌&&◌, Option, none, some, List, [], ◌∷◌, ◌++◌, find, filter, map,
  take, length, if◌then◌else◌, ◌==◌, string_eq, ltb,
}
use adms.Store.{Db, Device, Company}
use adms.Store.Exec.{Async, pure, read, ◌>>=◌}
use adms.Access.{AdminIdentity, resolve_company_scope, in_scope}
use adms.SsrfGuard.{Network, Url}
use adms.DataTables.{
  TableQuery, SortKey, SortDir, SortColumns, key_on, nulls_last_on, desc, build_order_by,
  build_search, options_limit, page_and_total,
}
use adms.Worker.Loop.{is_company}
use adms.Devices.{ComputedDeviceStatus, compute_device_status, device_status_condition}
use adms.Devices.Edit.{ListItem, DeviceReply, listed, options, refused}

abbrev ellipsis : ℕ
ellipsis = 8230

abbrev masked : String → Option Url → Text
masked raw none =
    if ltb 24 (length (codes raw)) then take 24 (codes raw) ++ ellipsis ∷ [] else codes raw
masked raw (some url) =
    url.protocol
    ++ (codes "//"
        ++ (url.host ++ (if ltb 1 (length url.pathname) then b'/' ∷ ellipsis ∷ [] else [])))

abbrev masked_text : Network → String → Option Text
masked_text net raw = if raw == "" then none else some (masked raw (net.parse_url raw))

unfoldable pub mask_webhook_url : Network → Option String → Option Text
mask_webhook_url net none = none
mask_webhook_url net (some raw) = masked_text net raw

-- `toDeviceListItem`: no secret and no full URL goes into a list.
unfoldable pub to_device_list_item : Network → ℕ → ℕ → Device → ListItem
unfolding mask_webhook_url compute_device_status
to_device_list_item net threshold now d = record {
  id = d.id;
  company_id = d.company_id;
  serial_number = d.serial_number;
  label = d.label;
  last_seen_at = d.last_seen_at;
  webhook_enabled = d.webhook_enabled;
  webhook_headers = d.webhook_headers;
  webhook_body_template = d.webhook_body_template;
  timezone = d.timezone;
  created_at = d.created_at;
  status = compute_device_status threshold d.last_seen_at now;
  webhook_url_masked = mask_webhook_url net d.webhook_url;
}

unfoldable pub device_sort_columns : SortColumns
device_sort_columns =
    ("serialNumber", key_on "serialNumber")
    ∷ ("label", key_on "label")
    ∷ ("company", key_on "company.name")
    ∷ ("status", nulls_last_on "lastSeenAt")
    ∷ ("lastSeenAt", nulls_last_on "lastSeenAt")
    ∷ ("createdAt", key_on "createdAt")
    ∷ []

pub record DeviceQuery : Type 0 where
  pub table : TableQuery
  pub company_id : Option String
  pub status : Option ComputedDeviceStatus

abbrev company_name : Option Company → Text
company_name none = []
company_name (some c) = codes c.name

abbrev or_empty : Option Text → Text
or_empty none = []
or_empty (some t) = t

-- A device with its company.
abbrev Row : Type 0
Row = Device × Option Company

abbrev join_company : Db → Device → Row
join_company db d = (d, find (is_company d.company_id) db.companies)

-- What a device is searched by; a label that is null holds nothing.
abbrev search_fields : Row → List Text
search_fields (d, company) = codes d.serial_number ∷ or_empty d.label ∷ company_name company ∷ []

-- The `where` of the list.
unfoldable pub is_listed : ℕ → ℕ → AdminIdentity → DeviceQuery → Row → Bool
unfolding device_status_condition build_search
is_listed threshold now admin query (d, company) =
    in_scope (resolve_company_scope (some admin) query.company_id) d.company_id
    && (device_status_condition threshold query.status d.last_seen_at now
        && build_search query.table.search (search_fields (d, company)))

abbrev listed_devices : ℕ → ℕ → AdminIdentity → DeviceQuery → Db → List Row
listed_devices threshold now admin query db =
    filter (is_listed threshold now admin query) (map (join_company db) db.devices)

abbrev list_item : Network → ℕ → ℕ → Row → ListItem × Option Company
list_item net threshold now (d, company) = (to_device_list_item net threshold now d, company)

-- The answer, with each status as of the time of the answer.
abbrev answer : Network → ℕ → TableQuery → List Row × ℕ → Async DeviceReply
answer net threshold table found w =
    pure (listed (map (list_item net threshold w.now) found.0) found.1 table.page table.page_size) w

-- `order` is the database's `ORDER BY` of some keys.
module _ (order : List SortKey → List Row → List Row) where
  abbrev list_parsed : Network → ℕ → AdminIdentity → Option DeviceQuery → Async DeviceReply
  list_parsed net threshold admin none w = pure (refused 400) w
  list_parsed net threshold admin (some query) w =
      (let table = query.table in
          let keys =
            build_order_by table.sort_by table.sort_dir device_sort_columns
              (key_on "createdAt" desc ∷ []) in
          page_and_total order keys table (listed_devices threshold w.now admin query)
          >>= answer net threshold table)
        w

  -- GET /, where a query that its schema refuses is absent.
  unfoldable pub list : Network → ℕ → AdminIdentity → Option DeviceQuery → Async DeviceReply
  unfolding is_listed to_device_list_item build_order_by page_and_total device_sort_columns
  list net threshold admin query = list_parsed net threshold admin query

abbrev options_keys : List SortKey
options_keys = key_on "label" SortDir.asc ∷ key_on "serialNumber" SortDir.asc ∷ []

abbrev options_at :
    (List SortKey → List Device → List Device) → AdminIdentity → Option String → Db → DeviceReply
options_at order admin company_id db =
    let scope = resolve_company_scope (some admin) company_id in
    options (
      take options_limit
        (order options_keys (filter (λ d. in_scope scope d.company_id) db.devices)))

-- GET /options
unfoldable pub list_options :
    (List SortKey → List Device → List Device) → AdminIdentity → Option String → Async DeviceReply
list_options order admin company_id = read (options_at order admin company_id)
