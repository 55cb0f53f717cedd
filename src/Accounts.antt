-- ===== src/Accounts.antt =====
-- src/admin/auth.ts: what its routes share. zod's email schema, bcryptjs and jsonwebtoken are
-- parameters.
pub mod SignupOutcome
pub mod UserEdit
pub mod UserList
pub mod Login
pub mod Signup
pub mod Users
pub mod Companies
pub mod Attempts
pub mod Lockout
pub mod Founding
pub mod Roles
pub mod RolesKept
pub mod History
use adms.Prelude.{
  ℕ, suc, ◌+◌, List, [], ◌∷◌, ◌++◌, any, text_eq, Text, ◌-◌, ◌&&◌, leb, if◌then◌else◌, String, Bool,
  Option, none, some, ◌==◌, string_eq, find, not, false, map, true, change_first,
}
use adms.Store.{AdminRole, AdminUser, Company, Db}
use adms.Store.Exec.{World, Result, ok, thrown, known_request}
use adms.Access.{AdminTokenPayload}
use Prim.Native.Char.{Char, code}
use Prim.Native.String.{char_at}

-- `email_schema` is `z.string().trim().toLowerCase().email()`: the address as it is kept, or nothing
-- for a text that is no address.
pub record Libraries : Type 0 where
  pub email_schema : String → Option String
  pub bcrypt_compare : (password hash : String) → Bool
  pub bcrypt_hash : String → String
  pub sign_admin_token : AdminTokenPayload → String

-- `toPublicUser`
pub record PublicUser : Type 0 where
  pub id : String
  pub email : String
  pub role : AdminRole
  pub company_id : Option String
  pub must_change_password : Bool

unfoldable pub to_public_user : AdminUser → PublicUser
to_public_user user = record {
  id = user.id;
  email = user.email;
  role = user.role;
  company_id = user.company_id;
  must_change_password = user.must_change_password;
}

abbrev pub has_email : String → AdminUser → Bool
has_email email user = user.email == email

abbrev pub user_of_email : String → Db → Option AdminUser
user_of_email email db = find (has_email email) db.admin_users

abbrev pub has_user_id : String → AdminUser → Bool
has_user_id id user = user.id == id

abbrev pub user_of_id : String → Db → Option AdminUser
user_of_id id db = find (has_user_id id) db.admin_users

-- The payload of a user's token.
unfoldable pub token_payload : AdminUser → AdminTokenPayload
token_payload user = record {
  sub = user.id;
  email = user.email;
  role = user.role;
  company_id = user.company_id;
}

abbrev lower_char : Char → Char
lower_char c =
    if leb b'A' (code c) && leb (code c) b'Z'
    then char_at "abcdefghijklmnopqrstuvwxyz" (code c - b'A')
    else c

-- `email.toLowerCase()`, of the ASCII letters.
unfoldable pub email_key : String → String
email_key String.[] = String.[]
email_key (String.◌∷◌ c s) = String.◌∷◌ (lower_char c) (email_key s)

-- A text of the body that a schema reads: absent if it is missing or no string.
abbrev pub parse_email : Libraries → Option String → Option String
parse_email libs none = none
parse_email libs (some text) = libs.email_schema text

abbrev pub non_empty_text : Option String → Option String
non_empty_text none = none
non_empty_text (some text) = if not (text == "") then some text else none

-- The length that zod's `min` and `max` go by: UTF-16 units.
unfoldable pub utf16_length : String → ℕ
utf16_length String.[] = 0
utf16_length (String.◌∷◌ c s) = (if leb 65536 (code c) then 2 else 1) + utf16_length s

-- `z.string().min(8)`
abbrev long_enough : String → Option String
long_enough text = if leb 8 (utf16_length text) then some text else none

abbrev pub parse_password : Option String → Option String
parse_password none = none
parse_password (some text) = long_enough text

abbrev pub has_company_slug : Text → Company → Bool
has_company_slug slug company = company.slug == slug

abbrev pub has_company_id : String → Company → Bool
has_company_id id company = company.id == id

-- `company.create`: the slug is unique.
unfoldable pub create_company : String → Text → World → Result Company × Db
create_company name slug w =
    let company : Company = record { id = w.cuid db.minted; name = name; slug = slug } in
    if any (has_company_slug slug) db.companies then (thrown (known_request "P2002"), db) else (
      ok company,
      record db { companies = db.companies ++ company ∷ []; minted = suc db.minted },
    )
  where
    open w use {db}

pub record NewUser : Type 0 where
  pub email : String
  pub password_hash : String
  pub role : AdminRole
  pub company_id : Option String

abbrev pub new_user : NewUser → String → AdminUser
new_user n id = record {
  id = id;
  email = n.email;
  password_hash = n.password_hash;
  role = n.role;
  company_id = n.company_id;
  must_change_password = false;
}

abbrev pub names_company : Db → Option String → Bool
names_company db none = true
names_company db (some id) = any (has_company_id id) db.companies

-- `adminUser.create`: the address is unique, and a company that is named has to exist.
unfoldable pub create_user : NewUser → World → Result AdminUser × Db
create_user n w =
    if any (has_email n.email) db.admin_users
    then (thrown (known_request "P2002"), db)
    else if names_company db n.company_id
    then (let user = new_user n (w.cuid db.minted) in
        (ok user, record db { admin_users = db.admin_users ++ user ∷ []; minted = suc db.minted }))
    else (thrown (known_request "P2003"), db)
  where
    open w use {db}

-- `adminUser.update` of columns that no constraint is on. An id is one row's.
unfoldable pub update_user : String → (AdminUser → AdminUser) → World → Result (Unit {0}) × Db
update_user id f w =
    if any (has_user_id id) db.admin_users
    then (ok tt, record db { admin_users = change_first (has_user_id id) f db.admin_users })
    else (thrown (known_request "P2025"), db)
  where
    open w use {db}
