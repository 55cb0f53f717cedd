-- ===== src/Settings.antt =====
-- src/admin/settings.ts: the platform's settings and their bounds.
pub mod Bounds
use adms.Prelude.{
  ℕ, String, Bool, true, false, ◌&&◌, ◌||◌, not, Option, none, some, leb, is_given, if◌then◌else◌,
}
use adms.Store.{Db, PlatformSettings}
use adms.Store.Exec.{
  World, Result, ok, thrown, known_request, Async, pure, branch, ◌>>=◌, ◌>>◌, checked_write,
}
use adms.Access.{AdminIdentity, is_super_admin}
use adms.Retention.{
  min_data_retention_days, max_data_retention_days, get_or_create_platform_settings,
}

-- A partial update, its numbers already coerced; `none` is a key that is absent.
pub record SettingsUpdate : Type 0 where
  pub data_retention_days : Option ℕ
  pub webhook_max_attempts : Option ℕ
  pub webhook_timeout_ms : Option ℕ
  pub signups_enabled : Option Bool

abbrev pub within : ℕ → ℕ → Option ℕ → Bool
within low high none = true
within low high (some n) = leb low n && leb n high

-- `updateSchema`
unfoldable pub is_valid_update : SettingsUpdate → Bool
is_valid_update u =
    within min_data_retention_days max_data_retention_days u.data_retention_days
    && (within 1 50 u.webhook_max_attempts
        && (within 1000 120000 u.webhook_timeout_ms
            && (is_given u.data_retention_days
                || (is_given u.webhook_max_attempts
                    || (is_given u.webhook_timeout_ms || is_given u.signups_enabled)))))

abbrev pub or_kept {ℓ} : {A : Type ℓ} → A → Option A → A
or_kept old none = old
or_kept old (some new) = new

unfoldable pub apply_update : SettingsUpdate → PlatformSettings → PlatformSettings
apply_update u s = record {
  data_retention_days = or_kept s.data_retention_days u.data_retention_days;
  webhook_max_attempts = or_kept s.webhook_max_attempts u.webhook_max_attempts;
  webhook_timeout_ms = or_kept s.webhook_timeout_ms u.webhook_timeout_ms;
  signups_enabled = or_kept s.signups_enabled u.signups_enabled;
}

-- `platformSettings.update`, which fails where there is no row.
unfoldable pub update_settings : SettingsUpdate → World → Result PlatformSettings × Db
unfolding apply_update
update_settings u w = elim db.platform_settings [
  | none ↦ (thrown (known_request "P2025"), db)
  | some s ↦ (ok (apply_update u s), record db { platform_settings = some (apply_update u s) })
]
  where
    open w use {db}

pub data SettingsReply : Type 0 where
  settings : PlatformSettings → SettingsReply
  refused : (status : ℕ) → SettingsReply

-- GET /
unfoldable pub get_settings : AdminIdentity → Async SettingsReply
get_settings admin =
    branch (is_super_admin admin.role) (do s ← get_or_create_platform_settings; pure (settings s))
      (pure (refused 403))

-- PATCH /
unfoldable pub patch_settings : AdminIdentity → SettingsUpdate → Async SettingsReply
unfolding is_valid_update update_settings
patch_settings admin u =
    branch (is_super_admin admin.role)
      (branch (is_valid_update u)
        (do
          s ← get_or_create_platform_settings
          t ← checked_write (update_settings u)
          pure (settings t))
        (pure (refused 400)))
      (pure (refused 403))
