-- ===== src/Tests/Accounts.antt =====
-- Logins, a signup and a run of requests about accounts.
use adms.Accounts.SignupOutcome.{signup-SignupOutcome}
use adms.Store.Exec.{World, ok}
use adms.Accounts.{Libraries, to_public_user}
use adms.Accounts.Users.{null}
use adms.Accounts.Lockout.{wrong_guesses}
use adms.Store.{AdminUser, Db, AdminRole}
use adms.Accounts.History.{
  Moment, GivesIds, AccountRequest, handle_all, handle_all-AdminsHaveCompany, sign_up, patch_user,
}
use adms.Accounts.Founding.{SignupOutcome}
use adms.Accounts.Signup.{SignupRequest, signup}
use adms.Prelude.{
  length, List, String, ℕ, ◌∷◌, ◌≡◌, [], some, refl, false, codes, ◌==◌, string_eq, none,
}
use adms.Accounts.Roles.{AdminsHaveCompany}
use adms.Accounts.Login.{Limits, login, LoginRequest, wrong_credentials, logged_in}
use adms.Tests.{office, world_with, manager, acme, Db, ℕ, String, List, World}

-- Every address is one, and a hash is its password.
abbrev libs : Libraries
libs = record {
  email_schema = λ s. some s;
  bcrypt_compare = λ password hash. password == hash;
  bcrypt_hash = λ password. password;
  sign_admin_token = λ payload. payload.sub;
}

abbrev owner : AdminUser
owner = record {
  id = "u1";
  email = "m@acme.example";
  password_hash = "open sesame";
  role = AdminRole.company_admin;
  company_id = some "c1";
  must_change_password = false;
}

abbrev staffed : Db
staffed = record office { admin_users = owner ∷ [] }

abbrev at_time : ℕ → World
at_time now = record (world_with []) { db = staffed; now = now }

abbrev login_with : String → LoginRequest
login_with password = record {
  email = some "m@acme.example";
  password = some password;
  ip = "192.0.2.7";
}

abbrev nobody_counted : Limits
nobody_counted = record { ips = []; emails = [] }

abbrev two_guesses : List (LoginRequest × World)
two_guesses = (login_with "one", at_time 1000) ∷ (login_with "two", at_time 2000) ∷ []

-- The first wrong password counts, and the right one gets a session.
login_wrong :
    (login libs (login_with "one") (at_time 1000) nobody_counted).result ≡ ok wrong_credentials
unfolding login adms.Store.Exec.read
login_wrong = refl

login_right :
    (login libs (login_with "open sesame") (at_time 1000) nobody_counted).result
    ≡ ok (logged_in "u1" (to_public_user owner))
unfolding login adms.Store.Exec.read
login_right = refl

wrong_guesses_two : wrong_guesses libs "m@acme.example" two_guesses nobody_counted ≡ 2
unfolding wrong_guesses adms.Accounts.Login.login_data adms.Accounts.email_key login
    adms.Store.Exec.read
wrong_guesses_two = refl

abbrev newcomer : SignupRequest
newcomer = record {
  company_name = some "Beta";
  slug = some (codes "beta");
  email = some "b@beta.example";
  password = some "long enough";
}

signup-newcomer :
    (signup libs newcomer (at_time 1000)).1.db.companies
    ≡ acme ∷ record { id = "new"; name = "Beta"; slug = codes "beta" } ∷ []
unfolding signup adms.Store.Exec.◌>>=◌ adms.Retention.get_or_create_platform_settings
    adms.Store.Exec.write adms.Prelude.text_beq adms.Accounts.utf16_length
    adms.Store.Exec.promise_all adms.Store.Exec.read adms.Store.Exec.try_catch
    adms.Store.Exec.transaction adms.Store.Exec.checked_write
signup-newcomer = refl

signup-SignupOutcome_example :
    SignupOutcome libs
      (at_time 1000).cuid
      newcomer
      staffed
      (signup libs newcomer (at_time 1000)).0
      (signup libs newcomer (at_time 1000)).1.db
signup-SignupOutcome_example = signup-SignupOutcome libs newcomer (at_time 1000)

abbrev moment : Moment
moment = record { now = 1000; faults = []; cuid = λ n. "new" }

-- A signup, and an attempt of the owner to take the own company away.
abbrev requests : List (AccountRequest × Moment)
requests =
    (sign_up newcomer, moment)
    ∷ (
      patch_user (record manager { role = AdminRole.super_admin }) "u1"
          (record { email = none; role = none; company_id = null }),
      moment,
    )
    ∷ []

handle_all-requests : length (handle_all libs requests staffed).admin_users ≡ 2
unfolding handle_all adms.Accounts.UserEdit.edit_account adms.Store.Exec.◌>>=◌ adms.Store.Exec.read
    signup adms.Retention.get_or_create_platform_settings adms.Store.Exec.write
    adms.Prelude.text_beq adms.Accounts.utf16_length adms.Store.Exec.promise_all
    adms.Store.Exec.try_catch adms.Store.Exec.transaction adms.Store.Exec.checked_write
handle_all-requests = refl

requests-GivesIds : GivesIds requests
requests-GivesIds = (λ n. refl, (λ n. refl, tt))

staffed-AdminsHaveCompany : AdminsHaveCompany staffed
staffed-AdminsHaveCompany = record { rows = (refl, tt) }

handle_all-AdminsHaveCompany_example : AdminsHaveCompany (handle_all libs requests staffed)
handle_all-AdminsHaveCompany_example =
    handle_all-AdminsHaveCompany libs requests staffed requests-GivesIds staffed-AdminsHaveCompany
