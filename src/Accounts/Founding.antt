-- ===== src/Accounts/Founding.antt =====
-- src/admin/auth.ts: what a signup leaves in the database.

use adms.Prelude.{
  ◌∷◌, [], ◌==◌, true, false, Bool, sym, if◌then◌else◌, ℕ, String, Text, Option, none, some, List,
  ◌++◌, ◌≡◌, ap, ◌∙◌, any, string_eq, arith, refl,
}
use adms.Store.{AdminRole, AdminUser, Company, Db, PlatformSettings, default_settings}
use adms.Store.Exec.{
  continue_with, branch, recover_with, try_catch, commit_or_roll_back, transaction, pure, other,
  World, Result, ok, thrown, DbError, Async, checked_write, ◌>>=◌, known_request, initialization,
  rust_panic,
}
use adms.Store.Total.{>>=-eq-ok, >>=-of-ok}
use adms.Accounts.{Libraries, has_company_slug, create_company, create_user, NewUser, known_request}
use adms.Accounts.Signup.{
  found_unless_email, found_and_sign_in, SignupRequest, SignupData, SignupReply, signed_up,
  rate_limited, refused, signup_data, create_founder, founder, signup_failure, session_of, rethrow,
}

-- The settings that a database has, the defaults if it has no row.
abbrev pub settings_of : Option PlatformSettings → PlatformSettings
settings_of none = default_settings
settings_of (some s) = s

-- A company with the slug asked for, which no company had, and its one admin.
pub record Founded (libs : Libraries) (cuid : ℕ → String) (sent : SignupData) (before after : Db)
    : Type 0 where
  pub company : Company
  pub admin : AdminUser
  pub companies_grow : after.companies ≡ before.companies ++ company ∷ []
  pub admins_grow : after.admin_users ≡ before.admin_users ++ admin ∷ []
  pub slug_asked : company.slug ≡ sent.slug
  pub slug_free : any (has_company_slug sent.slug) before.companies ≡ false
  pub email_asked : admin.email ≡ sent.email
  pub password_hashed : admin.password_hash ≡ libs.bcrypt_hash sent.password
  pub admin_role : admin.role ≡ AdminRole.company_admin
  pub admin_company : admin.company_id ≡ some company.id
  pub id_number : ℕ
  pub id_minted : company.id ≡ cuid id_number

abbrev pub SameAccounts : Db → Db → Type 0
SameAccounts before after =
    (after.companies ≡ before.companies) × (after.admin_users ≡ before.admin_users)

-- The same in a world, which has the generator of ids that the first one had.
abbrev pub Kept : Db → (ℕ → String) → World → Type 0
Kept before cuid v = SameAccounts before v.db × (v.cuid ≡ cuid)

abbrev pub SignupOutcome :
    Libraries → (ℕ → String) → SignupRequest → Db → Result SignupReply → Db → Type 0
SignupOutcome libs cuid req before (ok (signed_up token user)) after =
    ((settings_of before.platform_settings).signups_enabled ≡ true)
    × (sent : SignupData) × (signup_data libs req ≡ some sent)
    × Founded libs cuid sent before after
SignupOutcome libs cuid req before (ok (rate_limited reply)) after = SameAccounts before after
SignupOutcome libs cuid req before (ok (refused status error)) after = SameAccounts before after
SignupOutcome libs cuid req before (thrown e) after = SameAccounts before after

create_company-ok :
    (name : String) (slug : Text) (db : Db) (now : ℕ) (cuid : ℕ → String)
    (l : List (Option DbError)) (c : Company) (v : World)
    → checked_write
        (create_company name slug)
        (record { db = db; now = now; faults = l; cuid = cuid })
      ≡ (ok c, v)
    → (v.db.companies ≡ db.companies ++ c ∷ [])
      × (v.db.admin_users ≡ db.admin_users)
      × (c.slug ≡ slug)
      × (c.id ≡ cuid db.minted)
      × (v.cuid ≡ cuid)
      × (any (has_company_slug slug) db.companies ≡ false)
unfolding checked_write create_company
create_company-ok name slug db now cuid [] c v h = ground arith
create_company-ok name slug db now cuid (none ∷ l) c v h = ground arith
create_company-ok name slug db now cuid (some e ∷ l) c v h =
    absurd (let stop : ◌≡◌ {A = Result Company} (thrown e) (ok c) = ap (λ t. t.0) h in cc)

create_user-ok :
    (n : NewUser) (db : Db) (now : ℕ) (cuid : ℕ → String) (l : List (Option DbError))
    (u : AdminUser) (v : World)
    → checked_write (create_user n) (record { db = db; now = now; faults = l; cuid = cuid })
      ≡ (ok u, v)
    → (v.db.companies ≡ db.companies)
      × (v.db.admin_users ≡ db.admin_users ++ u ∷ [])
      × (u.email ≡ n.email)
      × (u.password_hash ≡ n.password_hash)
      × (u.role ≡ n.role)
      × (u.company_id ≡ n.company_id)
unfolding checked_write create_user
create_user-ok n db now cuid [] u v h = ground arith
create_user-ok n db now cuid (none ∷ l) u v h = ground arith
create_user-ok n db now cuid (some e ∷ l) u v h =
    absurd (let stop : ◌≡◌ {A = Result AdminUser} (thrown e) (ok u) = ap (λ t. t.0) h in cc)

pair_of-ok : {A : Type 0} (r : Result A × World) (a : A) → r.0 ≡ ok a → r ≡ (ok a, r.1)
pair_of-ok (ok b, v) a h = ap (λ t. (t, v)) h
pair_of-ok (thrown e, v) a h = ap (λ t. (t, v)) h

create_founder-ok :
    (libs : Libraries) (sent : SignupData) (w : World) (user : AdminUser)
    → (create_founder libs sent w).0 ≡ ok user
    → Founded libs w.cuid sent w.db (create_founder libs sent w).1.db
create_founder-ok libs sent w user h =
    let first = checked_write (create_company sent.company_name sent.slug) in
    let second : Company → Async AdminUser =
      λ company. checked_write (create_user (founder libs sent company)) in
    let (c, v, e, k) = >>=-eq-ok first second w h in
    let whole = >>=-of-ok first second w v e in
    let (cs, us, slug, minted, same, free) =
      create_company-ok sent.company_name sent.slug w.db w.now w.cuid w.faults c v e in
    let (cs', us', email, hash, role, company) =
      create_user-ok (founder libs sent c) v.db v.now v.cuid v.faults user (second c v).1
        (pair_of-ok (second c v) user k) in
    record {
      company = c;
      admin = user;
      companies_grow = ap (λ t. t.1.db.companies) whole ∙ (cs' ∙ cs);
      admins_grow = ap (λ t. t.1.db.admin_users) whole ∙ (us' ∙ ap (λ t. t ++ user ∷ []) us);
      slug_asked = slug;
      slug_free = free;
      email_asked = email;
      password_hashed = hash;
      admin_role = role;
      admin_company = company;
      id_number = w.db.minted;
      id_minted = minted;
    }

module _ (libs : Libraries) (cuid : ℕ → String) (req : SignupRequest) (before : Db) where
  abbrev Outcome : Result SignupReply × World → Type 0
  Outcome r = SignupOutcome libs cuid req before r.0 r.1.db

  -- A sequence whose first part leaves the accounts alone.
  pub continue_with-Outcome :
      {A : Type 0} (f : A → Async SignupReply) (r : Result A × World)
      → Kept before cuid r.1
      → ((a : A) (v : World) → r.0 ≡ ok a → Kept before cuid v → Outcome (f a v))
      → Outcome (continue_with f r)
  continue_with-Outcome f (ok a, v) same rest = rest a v refl same
  continue_with-Outcome f (thrown e, v) same rest = same.0

  coded-Outcome :
      (code : String) (conflict : Bool) (v : World)
      → SameAccounts before v.db
      → Outcome (
          (if conflict
              then pure (refused 409 "That company URL or email is already taken")
              else rethrow (known_request code))
            v)
  coded-Outcome code true v same = same
  coded-Outcome code false v same = same

  signup_failure-Outcome :
      (e : DbError) (v : World) → SameAccounts before v.db → Outcome (signup_failure e v)
  signup_failure-Outcome (known_request code) v same = coded-Outcome code (code == "P2002") v same
  signup_failure-Outcome initialization v same = same
  signup_failure-Outcome rust_panic v same = same
  signup_failure-Outcome (other message) v same = same

  recover_with-Outcome :
      (r : Result SignupReply × World) → Outcome r → Outcome (recover_with signup_failure r)
  recover_with-Outcome (ok reply, v) h = h
  recover_with-Outcome (thrown e, v) h = signup_failure-Outcome e v h

  module _ (sent : SignupData) (parsed : signup_data libs req ≡ some sent)
      (enabled : (settings_of before.platform_settings).signups_enabled ≡ true) where
    Founded-from :
        (db after : Db) (ids : ℕ → String)
        → SameAccounts before db
        → ids ≡ cuid
        → Founded libs ids sent db after
        → Founded libs cuid sent before after
    Founded-from db after ids (cs, us) same f = record {
      company = f.company;
      admin = f.admin;
      companies_grow = f.companies_grow ∙ ap (λ t. t ++ f.company ∷ []) cs;
      admins_grow = f.admins_grow ∙ ap (λ t. t ++ f.admin ∷ []) us;
      slug_asked = f.slug_asked;
      slug_free = ap (λ t. any (has_company_slug sent.slug) t) (sym cs) ∙ f.slug_free;
      email_asked = f.email_asked;
      password_hashed = f.password_hashed;
      admin_role = f.admin_role;
      admin_company = f.admin_company;
      id_number = f.id_number;
      id_minted = f.id_minted ∙ ap (λ g. g f.id_number) same;
    }

    Founded-Outcome :
        (w : World) (r : Result AdminUser × World)
        → Kept before cuid w
        → ((user : AdminUser) → r.0 ≡ ok user → Founded libs w.cuid sent w.db r.1.db)
        → Outcome (continue_with (λ user. pure (session_of libs user)) (commit_or_roll_back w.db r))
    Founded-Outcome w (ok user, v) (same, ids) founded =
        (enabled, sent, parsed, Founded-from w.db v.db w.cuid same ids (founded user refl))
    Founded-Outcome w (thrown e, v) (same, ids) founded = same

    found_and_sign_in-Outcome :
        (v : World) → Kept before cuid v → Outcome (found_and_sign_in libs sent v)
    unfolding try_catch transaction ◌>>=◌
    found_and_sign_in-Outcome v same =
        let r = create_founder libs sent v in
        recover_with-Outcome
          (continue_with (λ user. pure (session_of libs user)) (commit_or_roll_back v.db r))
          (Founded-Outcome v r same (λ user h. create_founder-ok libs sent v user h))

    pub found_company-Outcome :
        (slug_taken email_taken : Bool) (v : World)
        → Kept before cuid v
        → Outcome (
            branch slug_taken
              (pure (refused 409 "That company URL is already taken"))
              (found_unless_email libs sent email_taken)
              v)
    found_company-Outcome true email_taken v same = same.0
    found_company-Outcome false true v same = same.0
    found_company-Outcome false false v same = found_and_sign_in-Outcome v same
