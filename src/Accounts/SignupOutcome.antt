-- ===== src/Accounts/SignupOutcome.antt =====
-- src/admin/auth.ts: what a signup leaves in the database, on every path.
use adms.Store.Preserves.{all_results-world}
use adms.Retention.{get_or_create_platform_settings, settings_row}
use adms.Prelude.{
  ◌∷◌, [], true, false, Bool, is_given, sym, ℕ, String, Option, none, some, List, ◌≡◌, ap, ◌∙◌,
  string_eq, refl,
}
use adms.Store.{Db, PlatformSettings, default_settings}
use adms.Store.Exec.{promise_all, branch, run_or_fail, write, read, pure, World, ok, DbError, ◌>>=◌}
use adms.Accounts.{Libraries, user_of_email}
use adms.Accounts.Signup.{
  signup, signup_parsed, company_with_slug, found_company, SignupRequest, SignupData, refused,
  signup_data,
}
use adms.Accounts.Founding.{
  found_company-Outcome, settings_of, SameAccounts, Kept, SignupOutcome, continue_with-Outcome,
}

Kept-read :
    {A : Type 0} (f : Db → A) (before : Db) (cuid : ℕ → String) (v : World)
    → Kept before cuid v
    → Kept before cuid (read f v).1
unfolding read
Kept-read f before cuid v (cs, us) = go v.faults
  where
    go : (l : List (Option DbError)) → Kept before cuid (run_or_fail (λ v. (ok (f v.db), v)) v l).1
    go [] = (cs, us)
    go (none ∷ l) = (cs, us)
    go (some e ∷ l) = (cs, us)

settings-ok :
    (db : Db) (now : ℕ) (cuid : ℕ → String) (l : List (Option DbError))
    → let r =
        get_or_create_platform_settings (record { db = db; now = now; faults = l; cuid = cuid }) in
      Kept db cuid r.1
      × ((s : PlatformSettings) → r.0 ≡ ok s → s ≡ settings_of db.platform_settings)
unfolding get_or_create_platform_settings write settings_row
settings-ok db now cuid [] = let r = go db.platform_settings in ((r.0, refl), r.1)
  where
    go :
        (o : Option PlatformSettings)
        → let r : PlatformSettings × Db = elim o [
          | some s ↦ (s, db)
          | none ↦ (default_settings, record db { platform_settings = some default_settings })
        ] in
          SameAccounts db r.1 × ((s : PlatformSettings) → ok r.0 ≡ ok s → s ≡ settings_of o)
    go none = ((refl, refl), λ s h. cc)
    go (some t) = ((refl, refl), λ s h. cc)
settings-ok db now cuid (none ∷ l) = let r = go db.platform_settings in ((r.0, refl), r.1)
  where
    go :
        (o : Option PlatformSettings)
        → let r : PlatformSettings × Db = elim o [
          | some s ↦ (s, db)
          | none ↦ (default_settings, record db { platform_settings = some default_settings })
        ] in
          SameAccounts db r.1 × ((s : PlatformSettings) → ok r.0 ≡ ok s → s ≡ settings_of o)
    go none = ((refl, refl), λ s h. cc)
    go (some t) = ((refl, refl), λ s h. cc)
settings-ok db now cuid (some e ∷ l) = (((refl, refl), refl), λ s h. absurd (cc))

taken-Kept :
    (sent : SignupData) (before : Db) (cuid : ℕ → String) (v : World)
    → Kept before cuid v
    → Kept before cuid
        (promise_all (read (company_with_slug sent.slug)) (read (user_of_email sent.email)) v).1
unfolding promise_all
taken-Kept sent before cuid v same =
    let first = read (company_with_slug sent.slug) v in
    let second = read (user_of_email sent.email) first.1 in
    let (accounts, ids) =
      Kept-read (user_of_email sent.email) before cuid first.1
        (Kept-read (company_with_slug sent.slug) before cuid v same) in
    let whole = all_results-world first.0 second in
    (
      (ap (λ u. u.db.companies) whole ∙ accounts.0, ap (λ u. u.db.admin_users) whole ∙ accounts.1),
      ap (λ u. u.cuid) whole ∙ ids,
    )

module _ (libs : Libraries) (cuid : ℕ → String) (req : SignupRequest) (before : Db) where
  signup_parsed-Outcome :
      (parsed : Option SignupData) (v : World)
      → signup_data libs req ≡ parsed
      → (settings_of before.platform_settings).signups_enabled ≡ true
      → Kept before cuid v
      → let r = signup_parsed libs parsed v in SignupOutcome libs cuid req before r.0 r.1.db
  unfolding ◌>>=◌
  signup_parsed-Outcome none v e enabled same = same.0
  signup_parsed-Outcome (some sent) v e enabled same =
      continue_with-Outcome libs cuid req before (found_company libs sent)
        (promise_all (read (company_with_slug sent.slug)) (read (user_of_email sent.email)) v)
        (taken-Kept sent before cuid v same)
        (λ taken u is kept.
          found_company-Outcome libs cuid req before sent e enabled (is_given taken.0)
            (is_given taken.1) u kept)

  enabled-Outcome :
      (enabled : Bool) (v : World)
      → (enabled ≡ true → (settings_of before.platform_settings).signups_enabled ≡ true)
      → Kept before cuid v
      → let r =
          branch enabled
            (signup_parsed libs (signup_data libs req))
            (pure (refused 403 "Public signups are currently disabled"))
            v in
        SignupOutcome libs cuid req before r.0 r.1.db
  enabled-Outcome false v is same = same.0
  enabled-Outcome true v is same =
      signup_parsed-Outcome (signup_data libs req) v refl (is refl) same

-- A signup that succeeds adds one company, with the slug asked for, which no company had, and one
-- account, an admin of that company with the address that was sent and the hash of the password that
-- was sent; signups were enabled, and what was sent passed the schema. A signup that is refused or
-- that rejects leaves companies and accounts as they were, whatever statements fail.
pub signup-SignupOutcome :
    (libs : Libraries) (req : SignupRequest) (w : World)
    → SignupOutcome libs w.cuid req w.db (signup libs req w).0 (signup libs req w).1.db
unfolding signup ◌>>=◌
signup-SignupOutcome libs req w =
    let (same, is) = settings-ok w.db w.now w.cuid w.faults in
    continue_with-Outcome libs w.cuid req w.db
      (λ settings.
        branch settings.signups_enabled (signup_parsed libs (signup_data libs req))
          (pure (refused 403 "Public signups are currently disabled")))
      (get_or_create_platform_settings w) same
      (λ settings v e kept.
        enabled-Outcome libs w.cuid req w.db settings.signups_enabled v
          (λ on. ap (λ s. s.signups_enabled) (sym (is settings e)) ∙ on) kept)
