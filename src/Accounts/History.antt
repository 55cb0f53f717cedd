-- ===== src/Accounts/History.antt =====
-- src/admin: any sequence of requests about accounts and companies, each in a moment of its own.
use adms.Prelude.{
  ℕ, String, Text, Bool, true, false, Option, none, some, List, [], ◌∷◌, ◌≡◌, ap, ◌∙◌, All-kept,
  ◌==◌, string_eq, not, filter, inl, inr, arith, if◌then◌else◌, ◌⊎◌,
}
use adms.Store.{Db}
use adms.Store.Exec.{World, Result, ok, thrown, DbError, pure, checked_write}
use adms.Store.Preserves.{
  Preserves, preserve_rules, Preserves-branch, Preserves->>=, Preserves->>, Preserves-pure,
  Preserves-try_catch, Preserves-checked_write,
}
use adms.Access.{AdminIdentity, is_super_admin}
use adms.Accounts.{Libraries, create_company, non_empty_text}
use adms.Accounts.Signup.{
  SignupRequest, SignupReply, PasswordChange, signup, change_password, parse_slug, signed_up,
  rate_limited, refused, rethrow,
}
use adms.Accounts.Users.{CreateUser, create_account}
use adms.Accounts.UserEdit.{UpdateUser, edit_account, delete_account, reset_password}
use adms.Accounts.Companies.{
  CompanyReply, post_company, patch_company, remove_company, create_checked, company_failure,
  rename_company, rename_checked, delete_company, user_of,
}
use adms.Accounts.Founding.{SignupOutcome}
use adms.Accounts.SignupOutcome.{signup-SignupOutcome}
use adms.Accounts.Roles.{AdminsHaveCompany, HasCompany, kept_by, grown}
use adms.Accounts.RolesKept.{
  create_account-keeps, edit_account-keeps, delete_account-keeps, reset_password-keeps,
  change_password-keeps,
}

create_company-keeps :
    (name : String) (slug : Text)
    → Preserves AdminsHaveCompany (checked_write (create_company name slug))
create_company-keeps name slug =
    Preserves-checked_write AdminsHaveCompany (create_company name slug)
      (λ v h. kept_by v.db (create_company name slug v).1 (same v) h)
  where
    same : (v : World) → (create_company name slug v).1.admin_users ≡ v.db.admin_users
    same v = unfold create_company in ground arith

rename_company-keeps :
    (id name : String) → Preserves AdminsHaveCompany (checked_write (rename_company id name))
rename_company-keeps id name =
    Preserves-checked_write AdminsHaveCompany (rename_company id name)
      (λ v h. kept_by v.db (rename_company id name v).1 (same v) h)
  where
    same : (v : World) → (rename_company id name v).1.admin_users ≡ v.db.admin_users
    same v = unfold rename_company in ground arith

delete_company-users :
    (id : String) (v : World)
    → let after = (delete_company id v).1.admin_users in
      (after ≡ v.db.admin_users) ⊎ (after ≡ filter (λ u. not (user_of id u)) v.db.admin_users)
unfolding delete_company
delete_company-users id v = ground arith

delete_company-keeps :
    (id : String) → Preserves AdminsHaveCompany (checked_write (delete_company id))
delete_company-keeps id = Preserves-checked_write AdminsHaveCompany (delete_company id) (λ v h.
    elim (delete_company-users id v) [
      | inl same ↦ kept_by v.db (delete_company id v).1 same h
      | inr fewer ↦ record {
        rows = rw fewer (All-kept HasCompany (λ u. not (user_of id u)) v.db.admin_users h.rows);
      }
    ])

company_failure-keeps : (e : DbError) → Preserves AdminsHaveCompany (company_failure e)
company_failure-keeps (DbError.known_request code) = go (code == "P2002")
  where
    go :
        (conflict : Bool)
        → Preserves AdminsHaveCompany (
            if conflict
            then pure (CompanyReply.refused 409 "A company with this slug already exists")
            else rethrow (DbError.known_request code))
    go true = record { from = λ w h. h }
    go false = record { from = λ w h. h }
company_failure-keeps DbError.initialization = record { from = λ w h. h }
company_failure-keeps DbError.rust_panic = record { from = λ w h. h }
company_failure-keeps (DbError.other message) = record { from = λ w h. h }

post_company-keeps :
    (admin : AdminIdentity) (name : Option String) (slug : Option Text)
    → Preserves AdminsHaveCompany (post_company admin name slug)
unfolding post_company
post_company-keeps admin name slug =
    Preserves-branch AdminsHaveCompany (is_super_admin admin.role) _ _
      (go (non_empty_text name) (parse_slug slug)) (search preserve_rules)
  where
    go :
        (given : Option String) (parsed : Option Text)
        → Preserves AdminsHaveCompany (create_checked given parsed)
    go none parsed = search preserve_rules
    go (some n) none = search preserve_rules
    go (some n) (some s) =
        Preserves-try_catch AdminsHaveCompany _ company_failure
          (Preserves->>= AdminsHaveCompany (checked_write (create_company n s)) _
            (create_company-keeps n s) (λ c. Preserves-pure AdminsHaveCompany _))
          company_failure-keeps

patch_company-keeps :
    (admin : AdminIdentity) (id : String) (name : Option String)
    → Preserves AdminsHaveCompany (patch_company admin id name)
unfolding patch_company
patch_company-keeps admin id name =
    Preserves-branch AdminsHaveCompany (is_super_admin admin.role) _ _ (go (non_empty_text name))
      (search preserve_rules)
  where
    go : (given : Option String) → Preserves AdminsHaveCompany (rename_checked id given)
    go none = search preserve_rules
    go (some n) =
        Preserves-try_catch AdminsHaveCompany _ _
          (Preserves->>= AdminsHaveCompany (checked_write (rename_company id n)) _
            (rename_company-keeps id n) (λ c. Preserves-pure AdminsHaveCompany _))
          (λ e. Preserves-pure AdminsHaveCompany _)

remove_company-keeps :
    (admin : AdminIdentity) (id : String) → Preserves AdminsHaveCompany (remove_company admin id)
unfolding remove_company
remove_company-keeps admin id =
    Preserves-branch AdminsHaveCompany (is_super_admin admin.role) _ _
      (Preserves->> AdminsHaveCompany _ _
        (Preserves-try_catch AdminsHaveCompany (checked_write (delete_company id)) _
          (delete_company-keeps id) (λ e. Preserves-pure AdminsHaveCompany _))
        (Preserves-pure AdminsHaveCompany _))
      (search preserve_rules)

signup-keeps :
    (libs : Libraries) (req : SignupRequest) (w : World)
    → ((n : ℕ) → (w.cuid n == "") ≡ false)
    → AdminsHaveCompany w.db
    → AdminsHaveCompany (signup libs req w).1.db
signup-keeps libs req w real h =
    go (signup libs req w).0 (signup libs req w).1.db (signup-SignupOutcome libs req w)
  where
    go :
        (r : Result SignupReply) (after : Db)
        → SignupOutcome libs w.cuid req w.db r after
        → AdminsHaveCompany after
    go (ok (signed_up token u)) after (on, sent, parsed, f) =
        let blank : (f.company.id == "") ≡ false =
          ap (λ t. t == "") f.id_minted ∙ real f.id_number in
        grown w.db after f.admin f.admins_grow (rw (f.admin_role, f.admin_company) blank) h
    go (ok (rate_limited reply)) after same = kept_by w.db after same.1 h
    go (ok (refused status error)) after same = kept_by w.db after same.1 h
    go (thrown e) after same = kept_by w.db after same.1 h

pub data AccountRequest : Type 0 where
  sign_up : SignupRequest → AccountRequest
  post_user : AdminIdentity → CreateUser → AccountRequest
  patch_user : AdminIdentity → String → UpdateUser → AccountRequest
  delete_user : AdminIdentity → String → AccountRequest
  post_reset : AdminIdentity → String → Option String → AccountRequest
  patch_password : AdminIdentity → PasswordChange → AccountRequest
  add_company : AdminIdentity → Option String → Option Text → AccountRequest
  name_company : AdminIdentity → String → Option String → AccountRequest
  drop_company : AdminIdentity → String → AccountRequest

-- When a request runs, which of its statements fail, and the ids that it is given.
pub record Moment : Type 0 where
  pub now : ℕ
  pub faults : List (Option DbError)
  pub cuid : ℕ → String

abbrev pub at_moment : Moment → Db → World
at_moment m db = record { db = db; now = m.now; faults = m.faults; cuid = m.cuid }

-- The database that a request leaves.
unfoldable pub handle : Libraries → AccountRequest → World → Db
handle libs (sign_up req) w = (signup libs req w).1.db
handle libs (post_user admin req) w = (create_account libs admin req w).1.db
handle libs (patch_user admin id req) w = (edit_account libs admin id req w).1.db
handle libs (delete_user admin id) w = (delete_account admin id w).1.db
handle libs (post_reset admin id password) w = (reset_password libs admin id password w).1.db
handle libs (patch_password admin req) w = (change_password libs admin req w).1.db
handle libs (add_company admin name slug) w = (post_company admin name slug w).1.db
handle libs (name_company admin id name) w = (patch_company admin id name w).1.db
handle libs (drop_company admin id) w = (remove_company admin id w).1.db

unfoldable pub handle_all : Libraries → List (AccountRequest × Moment) → Db → Db
unfolding handle
handle_all libs [] db = db
handle_all libs ((req, m) ∷ steps) db = handle_all libs steps (handle libs req (at_moment m db))

abbrev pub GivesIds : List (AccountRequest × Moment) → Type 0
GivesIds [] = Unit
GivesIds ((req, m) ∷ steps) = ((n : ℕ) → (m.cuid n == "") ≡ false) × GivesIds steps

handle-keeps :
    (libs : Libraries) (req : AccountRequest) (w : World)
    → ((n : ℕ) → (w.cuid n == "") ≡ false)
    → AdminsHaveCompany w.db
    → AdminsHaveCompany (handle libs req w)
unfolding handle
handle-keeps libs (sign_up req) w real h = signup-keeps libs req w real h
handle-keeps libs (post_user admin req) w real h = (create_account-keeps libs admin req).from w h
handle-keeps libs (patch_user admin id req) w real h =
    (edit_account-keeps libs admin id req).from w h
handle-keeps libs (delete_user admin id) w real h = (delete_account-keeps admin id).from w h
handle-keeps libs (post_reset admin id password) w real h =
    (reset_password-keeps libs admin id password).from w h
handle-keeps libs (patch_password admin req) w real h =
    (change_password-keeps libs admin req).from w h
handle-keeps libs (add_company admin name slug) w real h =
    (post_company-keeps admin name slug).from w h
handle-keeps libs (name_company admin id name) w real h =
    (patch_company-keeps admin id name).from w h
handle-keeps libs (drop_company admin id) w real h = (remove_company-keeps admin id).from w h

-- Whatever requests about accounts and companies come, from whomever, in whatever order, and
-- whatever statements fail, every account that is a company's admin keeps a company with an id that
-- is not empty, so that its sessions are not refused for want of one; the ids that the database gives
-- are not empty.
pub handle_all-AdminsHaveCompany :
    (libs : Libraries) (steps : List (AccountRequest × Moment)) (db : Db)
    → GivesIds steps
    → AdminsHaveCompany db
    → AdminsHaveCompany (handle_all libs steps db)
unfolding handle_all
handle_all-AdminsHaveCompany libs [] db real h = h
handle_all-AdminsHaveCompany libs ((req, m) ∷ steps) db real h =
    handle_all-AdminsHaveCompany libs steps (handle libs req (at_moment m db)) real.1
      (handle-keeps libs req (at_moment m db) real.0 h)
