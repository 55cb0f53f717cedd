-- ===== src/Accounts/Signup.antt =====
-- src/admin/auth.ts: the signup, and the routes of a user's own account.
use adms.Prelude.{
  ℕ, String, Text, Bool, false, Option, none, some, find, if◌then◌else◌, ◌==◌, string_eq, is_given,
}
use adms.Store.{AdminRole, AdminUser, Company, Db}
use adms.Store.Exec.{
  World, Result, ok, thrown, DbError, known_request, initialization, rust_panic, other, Async, pure,
  branch, ◌>>=◌, ◌>>◌, try_catch, transaction, promise_all, read, checked_write,
}
use adms.Accounts.{
  Libraries, PublicUser, to_public_user, token_payload, user_of_email, user_of_id, parse_email,
  parse_password, non_empty_text, has_company_slug, NewUser, create_company, create_user,
  update_user,
}
use adms.Slug.{is_valid_slug_format}
use adms.Retention.{get_or_create_platform_settings}
use adms.RateLimit.{Options, Entries, Verdict, rate_limit_by_ip, RateLimited, send_rate_limited}
use adms.Access.{AdminIdentity}

pub record SignupRequest : Type 0 where
  pub company_name : Option String
  pub slug : Option Text
  pub email : Option String
  pub password : Option String

pub record SignupData : Type 0 where
  pub company_name : String
  pub slug : Text
  pub email : String
  pub password : String

-- `slugSchema`: the bounds of the length are among the rules of the format.
abbrev pub parse_slug : Option Text → Option Text
parse_slug none = none
parse_slug (some slug) = if is_valid_slug_format slug then some slug else none

abbrev all_given : Option String → Option Text → Option String → Option String → Option SignupData
all_given none slug email password = none
all_given (some name) none email password = none
all_given (some name) (some slug) none password = none
all_given (some name) (some slug) (some email) none = none
all_given (some name) (some slug) (some email) (some password) =
    some (record { company_name = name; slug = slug; email = email; password = password })

-- `signupSchema`
unfoldable pub signup_data : Libraries → SignupRequest → Option SignupData
unfolding is_valid_slug_format
signup_data libs req =
    all_given (non_empty_text req.company_name) (parse_slug req.slug) (parse_email libs req.email)
      (parse_password req.password)

pub data SignupReply : Type 0 where
  signed_up : (token : String) → PublicUser → SignupReply
  rate_limited : RateLimited → SignupReply
  refused : (status : ℕ) → (error : String) → SignupReply

abbrev pub founder : Libraries → SignupData → Company → NewUser
founder libs sent company = record {
  email = sent.email;
  password_hash = libs.bcrypt_hash sent.password;
  role = AdminRole.company_admin;
  company_id = some company.id;
}

-- The company and its first admin, in one transaction.
abbrev pub create_founder : Libraries → SignupData → Async AdminUser
create_founder libs sent = do
  company ← checked_write (create_company sent.company_name sent.slug)
  checked_write (create_user (founder libs sent company))

abbrev pub session_of : Libraries → AdminUser → SignupReply
session_of libs user = signed_up (libs.sign_admin_token (token_payload user)) (to_public_user user)

abbrev pub rethrow : {A : Type 0} → DbError → Async A
rethrow e w = (thrown e, w)

abbrev pub signup_failure : DbError → Async SignupReply
signup_failure (known_request code) =
    if code == "P2002"
    then pure (refused 409 "That company URL or email is already taken")
    else rethrow (known_request code)
signup_failure initialization = rethrow initialization
signup_failure rust_panic = rethrow rust_panic
signup_failure (other message) = rethrow (other message)

abbrev pub company_with_slug : Text → Db → Option Company
company_with_slug slug db = find (has_company_slug slug) db.companies

-- The new company and its session; a conflict that came up meanwhile is answered.
abbrev pub found_and_sign_in : Libraries → SignupData → Async SignupReply
found_and_sign_in libs sent =
    try_catch (do user ← transaction (create_founder libs sent); pure (session_of libs user))
      signup_failure

abbrev pub found_unless_email : Libraries → SignupData → Bool → Async SignupReply
found_unless_email libs sent email_taken =
    branch email_taken (pure (refused 409 "An account with this email already exists"))
      (found_and_sign_in libs sent)

abbrev pub found_company :
    Libraries → SignupData → Option Company × Option AdminUser → Async SignupReply
found_company libs sent taken =
    branch (is_given taken.0) (pure (refused 409 "That company URL is already taken"))
      (found_unless_email libs sent (is_given taken.1))

abbrev pub signup_parsed : Libraries → Option SignupData → Async SignupReply
signup_parsed libs none = pure (refused 400 "Invalid request")
signup_parsed libs (some sent) = do
  taken ← promise_all (read (company_with_slug sent.slug)) (read (user_of_email sent.email))
  found_company libs sent taken

-- The handler of POST /signup.
unfoldable pub signup : Libraries → SignupRequest → Async SignupReply
unfolding signup_data create_company create_user to_public_user token_payload
signup libs req = do
  settings ← get_or_create_platform_settings
  branch settings.signups_enabled (signup_parsed libs (signup_data libs req))
      (pure (refused 403 "Public signups are currently disabled"))

abbrev pub signup_options : Options
signup_options = record { window_ms = 3600000; max_hits = 5 }

abbrev pub limited_signup :
    Libraries → SignupRequest → Verdict × Entries → World → (Result SignupReply × World) × Entries
limited_signup libs req (verdict, entries) w =
    if verdict.allowed then (signup libs req w, entries) else (
      (
        ok (
            rate_limited (
              send_rate_limited verdict.retry_after_sec
                "Too many signup attempts from this address. Try again later.")),
        w,
      ),
      entries,
    )

-- POST /signup, behind its limiter.
unfoldable pub signup_route :
    Libraries → String → SignupRequest → World → Entries → (Result SignupReply × World) × Entries
unfolding signup rate_limit_by_ip
signup_route libs ip req w entries =
    limited_signup libs req (rate_limit_by_ip signup_options ip w.now entries) w

-- GET /signup-status
unfoldable pub signup_status : Async Bool
signup_status = do settings ← get_or_create_platform_settings; pure settings.signups_enabled

pub data AccountReply : Type 0 where
  user : PublicUser → AccountReply
  done : AccountReply
  refused : (status : ℕ) → (error : String) → AccountReply

abbrev me_of : Option AdminUser → AccountReply
me_of none = AccountReply.refused 401 "Not authenticated"
me_of (some found) = user (to_public_user found)

-- GET /me
unfoldable pub me : AdminIdentity → Async AccountReply
unfolding to_public_user
me admin = do found ← read (user_of_id admin.id); pure (me_of found)

pub record PasswordChange : Type 0 where
  pub current_password : Option String
  pub new_password : Option String

abbrev pub with_password : Libraries → String → AdminUser → AdminUser
with_password libs password u = record u {
  password_hash = libs.bcrypt_hash password;
  must_change_password = false;
}

abbrev pub change_if_valid : Libraries → String → String → Option AdminUser → Async AccountReply
change_if_valid libs current next none = pure (AccountReply.refused 401 "Not authenticated")
change_if_valid libs current next (some u) =
    branch (libs.bcrypt_compare current u.password_hash)
      (do checked_write (update_user u.id (with_password libs next)); pure done)
      (pure (AccountReply.refused 400 "Current password is incorrect"))

abbrev pub change_parsed :
    Libraries → AdminIdentity → Option String → Option String → Async AccountReply
change_parsed libs admin none next = pure (AccountReply.refused 400 "Invalid request")
change_parsed libs admin (some current) none = pure (AccountReply.refused 400 "Invalid request")
change_parsed libs admin (some current) (some next) = do
  found ← read (user_of_id admin.id)
  change_if_valid libs current next found

-- PATCH /me/password
unfoldable pub change_password : Libraries → AdminIdentity → PasswordChange → Async AccountReply
unfolding update_user
change_password libs admin req =
    change_parsed libs admin (non_empty_text req.current_password) (parse_password req.new_password)
