-- ===== src/Devices/Pending.antt =====
-- src/admin/devices.ts: the devices that nobody has claimed yet.
use adms.Prelude.{
  ℕ, String, Text, codes, Bool, true, false, ◌&&◌, not, Option, none, some, List, [], ◌∷◌, find,
  filter, length, includes, ◌==◌, string_eq, suc, zero, map,
}
use adms.Store.{Db, PendingDevice, UnregisteredDevicePing, Company}
use adms.Store.Exec.{World, Async, pure, branch, ◌>>=◌, ◌>>◌, transaction, write}
use adms.Access.{
  AdminIdentity, is_super_admin, CompanyScope, everything, only, resolve_company_scope,
}
use adms.PunchRecords.{is_bulk}
use adms.DataTables.{
  TableQuery, SortKey, SortColumns, key_on, desc, build_order_by, build_search, page_and_total,
}
use adms.Worker.Loop.{is_company}

pub data PendingReply : Type 0 where
  pings : List (PendingDevice × Option Company) → (total page page_size : ℕ) → PendingReply
  deleted : ℕ → PendingReply
  refused : (status : ℕ) → PendingReply

unfoldable pub pending_sort_columns : SortColumns
pending_sort_columns =
    ("serialNumber", key_on "serialNumber")
    ∷ ("company", key_on "company.name")
    ∷ ("pingCount", key_on "pingCount")
    ∷ ("lastSeenAt", key_on "lastSeenAt")
    ∷ []

-- The rows of a scope: the ones of no company are in the scope of everything only.
abbrev pub pending_in_scope : CompanyScope → Option String → Bool
pending_in_scope everything company = true
pending_in_scope (only c) none = false
pending_in_scope (only c) (some own) = own == c

abbrev name_of : Option Company → Text
name_of none = []
name_of (some c) = codes c.name

-- A row with the company that it belongs to, if any.
abbrev Row : Type 0
Row = PendingDevice × Option Company

abbrev company_of : Db → Option String → Option Company
company_of db none = none
company_of db (some id) = find (is_company id) db.companies

abbrev join_company : Db → PendingDevice → Row
join_company db p = (p, company_of db p.company_id)

unfoldable pub is_listed_pending : AdminIdentity → Option String → Option Text → Row → Bool
unfolding build_search
is_listed_pending admin company_id search (p, company) =
    pending_in_scope (resolve_company_scope (some admin) company_id) p.company_id
    && build_search search (codes p.serial_number ∷ name_of company ∷ [])

abbrev listed_pending : AdminIdentity → Option String → TableQuery → Db → List Row
listed_pending admin company_id query db =
    filter (is_listed_pending admin company_id query.search)
      (map (join_company db) db.pending_devices)

-- `order` is the database's `ORDER BY` of some keys.
module _ (order : List SortKey → List Row → List Row) where
  abbrev list_parsed : AdminIdentity → Option String → Option TableQuery → Async PendingReply
  list_parsed admin company_id none = pure (refused 400)
  list_parsed admin company_id (some query) = do
    let keys =
        build_order_by query.sort_by query.sort_dir pending_sort_columns
          (key_on "lastSeenAt" desc ∷ [])
    found ← page_and_total order keys query (listed_pending admin company_id query)
    pure (pings found.0 found.1 query.page query.page_size)

  -- GET /unregistered-pings, where a query that its schema refuses is absent.
  unfoldable pub list_pending :
      AdminIdentity → Option String → Option TableQuery → Async PendingReply
  unfolding is_listed_pending pending_sort_columns build_order_by page_and_total
  list_pending admin company_id query = list_parsed admin company_id query

abbrev is_ping_in : List String → UnregisteredDevicePing → Bool
is_ping_in sns p = includes sns p.serial_number

abbrev pub is_pending_in : List String → PendingDevice → Bool
is_pending_in sns p = includes sns p.serial_number

unfoldable pub delete_pings_of : List String → World → Unit {0} × Db
delete_pings_of sns w =
    let kept = filter (λ p. not (is_ping_in sns p)) w.db.unregistered_pings in
    (tt, record w.db { unregistered_pings = kept })

unfoldable pub delete_pending_of : List String → World → ℕ × Db
delete_pending_of sns w =
    let gone = filter (is_pending_in sns) w.db.pending_devices in
    let kept = filter (λ p. not (is_pending_in sns p)) w.db.pending_devices in
    (length gone, record w.db { pending_devices = kept })

-- Both deletions, in one transaction.
abbrev pub forget : List String → Async ℕ
forget sns = transaction do write (delete_pings_of sns); write (delete_pending_of sns)

abbrev found_or_missing : ℕ → PendingReply
found_or_missing zero = refused 404
found_or_missing (suc n) = deleted (suc n)

-- DELETE /unregistered-pings/:serialNumber
unfoldable pub delete_unregistered : AdminIdentity → String → Async PendingReply
unfolding delete_pings_of delete_pending_of
delete_unregistered admin sn =
    branch (is_super_admin admin.role) (do count ← forget (sn ∷ []); pure (found_or_missing count))
      (pure (refused 403))

-- POST /unregistered-pings/delete-bulk
unfoldable pub delete_unregistered_bulk : AdminIdentity → List String → Async PendingReply
unfolding delete_pings_of delete_pending_of
delete_unregistered_bulk admin sns =
    branch (is_super_admin admin.role)
      (branch (is_bulk sns) (do count ← forget sns; pure (deleted count)) (pure (refused 400)))
      (pure (refused 403))
