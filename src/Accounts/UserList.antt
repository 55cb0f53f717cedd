-- ===== src/Accounts/UserList.antt =====
-- src/admin/adminUsers.ts: the list of accounts.
use adms.Prelude.{String, Bool, true, false, ◌&&◌, not, Option, none, some, filter, ◌==◌, string_eq}
use adms.Store.{AdminRole, AdminUser, Db}
use adms.Store.Exec.{◌>>=◌, Async, pure}
use adms.Access.{AdminIdentity, is_super_admin}
use adms.Accounts.{to_public_user, PublicUser}
use adms.Access.{resolve_company_scope, CompanyScope, everything, only}
use adms.DataTables.{
  TableQuery, SortKey, SortColumns, key_on, desc, build_order_by, build_search, page_and_total,
}
use adms.Prelude.{List, [], ◌∷◌, Text, codes, find, map}
use adms.Store.{Company}
use adms.Accounts.{has_company_id}
use adms.Accounts.Users.{UserReply, listed, refused}

unfoldable pub user_sort_columns : SortColumns
user_sort_columns =
    ("email", key_on "email")
    ∷ ("role", key_on "role")
    ∷ ("company", key_on "company.name")
    ∷ ("createdAt", key_on "createdAt")
    ∷ []

pub record UserQuery : Type 0 where
  pub table : TableQuery
  pub company_id : Option String
  pub role : Option AdminRole

-- The rows of a scope: a scope of one company has no accounts without a company.
abbrev user_in_scope : CompanyScope → Option String → Bool
user_in_scope everything company = true
user_in_scope (only c) none = false
user_in_scope (only c) (some own) = own == c

abbrev has_role : Option AdminRole → AdminRole → Bool
has_role none role = true
has_role (some AdminRole.super_admin) role = is_super_admin role
has_role (some AdminRole.company_admin) role = not (is_super_admin role)

abbrev name_of : Option Company → Text
name_of none = []
name_of (some c) = codes c.name

-- A row with the company that it belongs to, if any.
abbrev Row : Type 0
Row = AdminUser × Option Company

abbrev company_of : Db → Option String → Option Company
company_of db none = none
company_of db (some id) = find (has_company_id id) db.companies

abbrev join_company : Db → AdminUser → Row
join_company db u = (u, company_of db u.company_id)

unfoldable pub is_listed_user : AdminIdentity → UserQuery → Row → Bool
unfolding build_search
is_listed_user admin query (u, company) =
    user_in_scope (resolve_company_scope (some admin) query.company_id) u.company_id
    && (has_role query.role u.role
        && build_search query.table.search (codes u.email ∷ name_of company ∷ []))

abbrev listed_users : AdminIdentity → UserQuery → Db → List Row
listed_users admin query db =
    filter (is_listed_user admin query) (map (join_company db) db.admin_users)

abbrev shown_user : Row → PublicUser
shown_user (u, company) = to_public_user u

-- `order` is the database's `ORDER BY` of some keys.
module _ (order : List SortKey → List Row → List Row) where
  abbrev list_users_of : AdminIdentity → Option UserQuery → Async UserReply
  list_users_of admin none = pure (refused 400 "Invalid query")
  list_users_of admin (some query) = do
    let table = query.table
    let keys =
        build_order_by table.sort_by table.sort_dir user_sort_columns (key_on "createdAt" desc ∷ [])
    found ← page_and_total order keys table (listed_users admin query)
    pure (listed (map shown_user found.0) found.1 table.page table.page_size)

  -- GET /, where a query that its schema refuses is absent.
  unfoldable pub list_users : AdminIdentity → Option UserQuery → Async UserReply
  unfolding is_listed_user user_sort_columns build_order_by page_and_total to_public_user
  list_users admin query = list_users_of admin query
