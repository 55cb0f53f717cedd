-- ===== src/Accounts/Users.antt =====
-- src/admin/adminUsers.ts: the accounts that an admin manages. A role that is posted is one of the
-- two, or absent; a company is absent, null or an id.
use adms.Prelude.{
  ℕ, String, Bool, true, false, ◌&&◌, ◌||◌, not, Option, none, some, if◌then◌else◌, ◌==◌, string_eq,
}
use adms.Store.{AdminRole}
use adms.Store.Exec.{
  DbError, known_request, initialization, rust_panic, other, Async, pure, branch, ◌>>=◌, try_catch,
  checked_write,
}
use adms.Access.{AdminIdentity, is_super_admin, is_blank}
use adms.Accounts.{
  Libraries, PublicUser, to_public_user, parse_email, parse_password, NewUser, create_user,
}
use adms.Accounts.Signup.{rethrow}
use adms.DataTables.{}
use adms.Prelude.{List}

-- A key of a body that may be absent, null, or a text.
pub data Nullable : Type 0 where
  absent null : Nullable
  text : String → Nullable

-- `value ?? null`
abbrev pub value_of : Nullable → Option String
value_of absent = none
value_of null = none
value_of (text s) = some s

pub record CreateUser : Type 0 where
  pub email : Option String
  pub password : Option String
  pub role : Option AdminRole
  pub company_id : Nullable

pub record CreateData : Type 0 where
  pub email : String
  pub password : String
  pub role : AdminRole
  pub company_id : Nullable

abbrev all_given : Option String → Option String → Option AdminRole → Nullable → Option CreateData
all_given none password role company = none
all_given (some email) none role company = none
all_given (some email) (some password) none company = none
all_given (some email) (some password) (some role) company =
    some (record { email = email; password = password; role = role; company_id = company })

-- `createSchema`
unfoldable pub create_data : Libraries → CreateUser → Option CreateData
create_data libs req =
    all_given (parse_email libs req.email) (parse_password req.password) req.role req.company_id

pub data UserReply : Type 0 where
  created : PublicUser → UserReply
  shown : PublicUser → UserReply
  listed : List PublicUser → (total page page_size : ℕ) → UserReply
  done : UserReply
  refused : (status : ℕ) → (error : String) → UserReply

-- `companyId === req.adminUser.companyId`, where an absent key is not null.
abbrev same_company : Nullable → Option String → Bool
same_company absent own = false
same_company null none = true
same_company null (some c) = false
same_company (text s) none = false
same_company (text s) (some c) = s == c

-- Whether an admin may create an account of a role in a company.
unfoldable pub may_create : AdminIdentity → AdminRole → Nullable → Bool
may_create admin role company =
    is_super_admin admin.role
    || (not (is_super_admin role) && same_company company admin.company_id)

-- `role === "COMPANY_ADMIN" && !companyId`
abbrev pub lacks_company : AdminRole → Option String → Bool
lacks_company role company = not (is_super_admin role) && is_blank company

-- `role === "SUPER_ADMIN" ? null : companyId ?? null`
abbrev pub company_for : AdminRole → Nullable → Option String
company_for AdminRole.super_admin company = none
company_for AdminRole.company_admin company = value_of company

abbrev pub account_of : Libraries → CreateData → NewUser
account_of libs sent = record {
  email = sent.email;
  password_hash = libs.bcrypt_hash sent.password;
  role = sent.role;
  company_id = company_for sent.role sent.company_id;
}

abbrev pub create_failure : DbError → Async UserReply
create_failure (known_request code) =
    if code == "P2002"
    then pure (refused 409 "An admin user with this email already exists")
    else if code == "P2003"
    then pure (refused 400 "companyId does not refer to an existing company")
    else rethrow (known_request code)
create_failure initialization = rethrow initialization
create_failure rust_panic = rethrow rust_panic
create_failure (other message) = rethrow (other message)

abbrev pub create_parsed : Libraries → AdminIdentity → Option CreateData → Async UserReply
create_parsed libs admin none = pure (refused 400 "Invalid request")
create_parsed libs admin (some sent) =
    branch (may_create admin sent.role sent.company_id)
      (branch (lacks_company sent.role (value_of sent.company_id))
        (pure (refused 400 "companyId is required for company_admin role"))
        (try_catch
          (do
            user ← checked_write (create_user (account_of libs sent))
            pure (created (to_public_user user)))
          create_failure))
      (pure (refused 403 "Forbidden"))

-- POST /
unfoldable pub create_account : Libraries → AdminIdentity → CreateUser → Async UserReply
unfolding create_data may_create create_user to_public_user
create_account libs admin req = create_parsed libs admin (create_data libs req)
