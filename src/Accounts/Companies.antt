-- ===== src/Accounts/Companies.antt =====
-- src/admin/companies.ts: the companies. What is deleted with one goes by the foreign keys of
-- prisma/schema.prisma.
use adms.Store.Cascade.{drop_devices}
use adms.DataTables.{
  TableQuery, SortKey, SortColumns, key_on, desc, build_order_by, build_search, options_limit,
  page_and_total,
}
use adms.Slug.{is_valid_slug_format}
use adms.Prelude.{
  ℕ, String, Text, Bool, not, Option, none, some, List, [], ◌∷◌, any, find, filter, map,
  if◌then◌else◌, ◌==◌, string_eq, length, take, codes,
}
use adms.Store.{AdminUser, Company, Device, PendingDevice, Db}
use adms.Store.Exec.{
  World, Result, ok, thrown, DbError, known_request, initialization, rust_panic, other, Async, pure,
  branch, ◌>>=◌, ◌>>◌, try_catch, read, checked_write,
}
use adms.Access.{AdminIdentity, is_super_admin}
use adms.Accounts.{non_empty_text, has_company_id, create_company}
use adms.Accounts.Signup.{parse_slug, rethrow}
use adms.Devices.{is_company_of, may_act_for}

-- The company with the numbers of its devices and admins, `_count`.
pub record Counted : Type 0 where
  pub company : Company
  pub devices : ℕ
  pub admin_users : ℕ

abbrev device_of : String → Device → Bool
device_of id d = d.company_id == id

abbrev pub user_of : String → AdminUser → Bool
user_of id u = is_company_of u.company_id id

abbrev pub counted : Db → Company → Counted
counted db company = record {
  company = company;
  devices = length (filter (device_of company.id) db.devices);
  admin_users = length (filter (user_of company.id) db.admin_users);
}

pub data CompanyReply : Type 0 where
  created : Company → CompanyReply
  shown : Counted → CompanyReply
  updated : Company → CompanyReply
  options : List Company → CompanyReply
  listed : List Counted → (total : ℕ) → (page page_size : ℕ) → CompanyReply
  done : CompanyReply
  refused : (status : ℕ) → (error : String) → CompanyReply

abbrev pub company_of_id : String → Db → Option Company
company_of_id id db = find (has_company_id id) db.companies

-- The company of an admin, which no statement looks for if it has none.
abbrev pub own_company : Option String → Async (Option Company)
own_company none = pure none
own_company (some id) = branch (id == "") (pure none) (read (company_of_id id))

abbrev pub one_or_none {ℓ} : {A : Type ℓ} → Option A → List A
one_or_none none = []
one_or_none (some a) = a ∷ []

abbrev pub counted_of_id : String → Db → Option Counted
counted_of_id id db = elim (company_of_id id db) [ none ↦ none | some c ↦ some (counted db c) ]

abbrev own_counted : Option String → Async (Option Counted)
own_counted none = pure none
own_counted (some id) = branch (id == "") (pure none) (read (counted_of_id id))

-- `companies.length || 1`
abbrev at_least_one : List Counted → ℕ
at_least_one [] = 1
at_least_one (c ∷ cs) = length (c ∷ cs)

abbrev own_page : List Counted → CompanyReply
own_page companies = listed companies (length companies) 1 (at_least_one companies)

unfoldable pub company_sort_columns : SortColumns
company_sort_columns =
    ("name", key_on "name")
    ∷ ("slug", key_on "slug")
    ∷ ("devices", key_on "devices._count")
    ∷ ("adminUsers", key_on "adminUsers._count")
    ∷ ("createdAt", key_on "createdAt")
    ∷ []

abbrev search_fields : Company → List Text
search_fields c = codes c.name ∷ c.slug ∷ []

abbrev search_for : Option Text → Counted → Bool
search_for search c = build_search search (search_fields c.company)

abbrev listed_companies : TableQuery → Db → List Counted
listed_companies query db = filter (search_for query.search) (map (counted db) db.companies)

-- GET /options; `by_name` is the database's `ORDER BY name ASC`.
unfoldable pub company_options : (List Company → List Company) → AdminIdentity → Async CompanyReply
company_options by_name admin =
    branch (is_super_admin admin.role)
      (read (λ db. options (take options_limit (by_name db.companies))))
      (do own ← own_company admin.company_id; pure (options (one_or_none own)))

-- `order` is the database's `ORDER BY` of some keys.
module _ (order : List SortKey → List Counted → List Counted) where
  abbrev list_query : Option TableQuery → Async CompanyReply
  list_query none = pure (refused 400 "Invalid query")
  list_query (some query) = do
    let keys =
        build_order_by query.sort_by query.sort_dir company_sort_columns
          (key_on "createdAt" desc ∷ [])
    found ← page_and_total order keys query (listed_companies query)
    pure (listed found.0 found.1 query.page query.page_size)

  -- GET /, where a query that its schema refuses is absent.
  unfoldable pub list_companies : AdminIdentity → Option TableQuery → Async CompanyReply
  unfolding company_sort_columns build_order_by build_search page_and_total
  list_companies admin query =
      branch (is_super_admin admin.role) (list_query query)
        (do own ← own_counted admin.company_id; pure (own_page (one_or_none own)))

abbrev shown_or_missing : Option Counted → CompanyReply
shown_or_missing none = refused 404 "Not found"
shown_or_missing (some company) = shown company

-- GET /:id
unfoldable pub get_company : AdminIdentity → String → Async CompanyReply
unfolding may_act_for
get_company admin id =
    branch (may_act_for admin id)
      (do found ← read (counted_of_id id); pure (shown_or_missing found))
      (pure (refused 403 "Forbidden"))

abbrev pub company_failure : DbError → Async CompanyReply
company_failure (known_request code) =
    if code == "P2002"
    then pure (refused 409 "A company with this slug already exists")
    else rethrow (known_request code)
company_failure initialization = rethrow initialization
company_failure rust_panic = rethrow rust_panic
company_failure (other message) = rethrow (other message)

-- `createCompanySchema`
abbrev pub create_checked : Option String → Option Text → Async CompanyReply
create_checked none slug = pure (refused 400 "Invalid request")
create_checked (some name) none = pure (refused 400 "Invalid request")
create_checked (some name) (some slug) =
    try_catch (do company ← checked_write (create_company name slug); pure (created company))
      company_failure

abbrev pub super_admin_only : AdminIdentity → Async CompanyReply → Async CompanyReply
super_admin_only admin m =
    branch (is_super_admin admin.role) m (pure (refused 403 "Super admin access required"))

-- POST /
unfoldable pub post_company : AdminIdentity → Option String → Option Text → Async CompanyReply
unfolding create_company is_valid_slug_format
post_company admin name slug =
    super_admin_only admin (create_checked (non_empty_text name) (parse_slug slug))

abbrev pub rename : String → String → Company → Company
rename id name c = if c.id == id then record c { name = name } else c

-- `company.update`
unfoldable pub rename_company : String → String → World → Result (Option Company) × Db
rename_company id name w =
    let companies = map (rename id name) db.companies in
    if any (has_company_id id) db.companies
    then (ok (find (has_company_id id) companies), record db { companies = companies })
    else (thrown (known_request "P2025"), db)
  where
    open w use {db}

abbrev updated_or_missing : Option Company → CompanyReply
updated_or_missing none = refused 404 "Not found"
updated_or_missing (some company) = updated company

abbrev pub rename_checked : String → Option String → Async CompanyReply
rename_checked id none = pure (refused 400 "Invalid request")
rename_checked id (some name) =
    try_catch
      (do changed ← checked_write (rename_company id name); pure (updated_or_missing changed))
      (λ e. pure (refused 404 "Not found"))

-- PATCH /:id
unfoldable pub patch_company : AdminIdentity → String → Option String → Async CompanyReply
unfolding rename_company
patch_company admin id name = super_admin_only admin (rename_checked id (non_empty_text name))

-- `company.delete`: its admins, its devices with all that hangs on them, and its pending devices go
-- with it.
unfoldable pub delete_company : String → World → Result (Unit {0}) × Db
delete_company id w =
    if any (has_company_id id) db.companies
    then (
      ok tt,
      record (drop_devices (device_of id) db) {
        companies = filter (λ c. not (has_company_id id c)) db.companies;
        admin_users = filter (λ u. not (user_of id u)) db.admin_users;
        pending_devices =
            filter (λ (p : PendingDevice). not (is_company_of p.company_id id)) db.pending_devices;
      },
    )
    else (thrown (known_request "P2025"), db)
  where
    open w use {db}

-- DELETE /:id
unfoldable pub remove_company : AdminIdentity → String → Async CompanyReply
unfolding delete_company
remove_company admin id =
    super_admin_only admin
      do try_catch (checked_write (delete_company id)) (λ e. pure tt); pure done
