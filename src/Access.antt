-- ===== src/Access.antt =====
-- src/middleware/requireAdminAuth.ts: who an admin request comes from and which company's rows it
-- may see. `verify` is the check of the session's token that jsonwebtoken makes; it gives nothing
-- for a token that it refuses.
pub mod Tenants
use adms.Prelude.{ℕ, String, Bool, true, false, Option, none, some, ◌==◌, string_eq, if◌then◌else◌}
use adms.Store.{AdminRole}

pub record AdminTokenPayload : Type 0 where
  pub sub : String
  pub email : String
  pub role : AdminRole
  pub company_id : Option String

-- `req.adminUser`
pub record AdminIdentity : Type 0 where
  pub id : String
  pub email : String
  pub role : AdminRole
  pub company_id : Option String

-- What a guard does with a request: lets it through with an identity, or answers it.
pub data Guarded : Type 0 where
  pass : AdminIdentity → Guarded
  reject : (status : ℕ) → (error : String) → Guarded

abbrev pub is_super_admin : AdminRole → Bool
is_super_admin AdminRole.super_admin = true
is_super_admin AdminRole.company_admin = false

-- `!value` of a name that may be absent
abbrev pub is_blank : Option String → Bool
is_blank none = true
is_blank (some s) = s == ""

abbrev lacks_company : AdminRole → Option String → Bool
lacks_company AdminRole.super_admin company = false
lacks_company AdminRole.company_admin company = is_blank company

abbrev admit : Option AdminTokenPayload → Guarded
admit none = reject 401 "Invalid or expired session"
admit (some payload) =
    if lacks_company payload.role payload.company_id
    then reject 401 "Invalid session"
    else pass (record {
      id = payload.sub;
      email = payload.email;
      role = payload.role;
      company_id = payload.company_id;
    })

abbrev admit_token : (String → Option AdminTokenPayload) → Option String → Guarded
admit_token verify none = reject 401 "Not authenticated"
admit_token verify (some token) =
    if token == "" then reject 401 "Not authenticated" else admit (verify token)

unfoldable pub require_admin_auth :
    (verify : String → Option AdminTokenPayload) → (cookie : Option String) → Guarded
require_admin_auth verify cookie = admit_token verify cookie

unfoldable pub require_super_admin : Option AdminIdentity → Option (ℕ × String)
require_super_admin none = some (403, "Super admin access required")
require_super_admin (some admin) =
    if is_super_admin admin.role then none else some (403, "Super admin access required")

pub data CompanyScope : Type 0 where
  everything : CompanyScope
  only : (company_id : String) → CompanyScope

abbrev pub requested_scope : Option String → CompanyScope
requested_scope none = everything
requested_scope (some c) = if c == "" then everything else only c

-- `companyId ?? "__unscoped_company_admin__"`
abbrev pub own_scope : Option String → CompanyScope
own_scope none = only "__unscoped_company_admin__"
own_scope (some c) = only c

unfoldable pub resolve_company_scope : Option AdminIdentity → Option String → CompanyScope
resolve_company_scope none requested = own_scope none
resolve_company_scope (some admin) requested =
    if is_super_admin admin.role then requested_scope requested else own_scope admin.company_id

-- The rows of a company that a scope lets through.
abbrev pub in_scope : CompanyScope → String → Bool
in_scope everything company_id = true
in_scope (only c) company_id = company_id == c
