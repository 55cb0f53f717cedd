-- ===== src/Settings/Bounds.antt =====
-- That the settings stay within their bounds.
use adms.Prelude.{◌⊎◌, refl, Bool, inl, inr, none, some, ◌≤◌, ◌≡◌, true, false, Option, arith}
use adms.Store.{default_settings, Db, PlatformSettings}
use adms.Store.Exec.{branch, Async, World, checked_write}
use adms.Store.Preserves.{
  Preserves->>=, Preserves-pure, preserve_rules, Preserves-branch, Preserves, Preserves-write,
  Preserves-checked_write,
}
use adms.Access.{is_super_admin, AdminIdentity}
use adms.Retention.{get_or_create_platform_settings, settings_row}
use adms.Settings.{patch_settings, SettingsUpdate, is_valid_update, apply_update, update_settings}

pub record InBounds (s : PlatformSettings) : Type 0 where
  pub retention : (1 ≤ s.data_retention_days) × (s.data_retention_days ≤ 3650)
  pub attempts : (1 ≤ s.webhook_max_attempts) × (s.webhook_max_attempts ≤ 50)
  pub timeout : (1000 ≤ s.webhook_timeout_ms) × (s.webhook_timeout_ms ≤ 120000)

abbrev pub RowInBounds : Option PlatformSettings → Type 0
RowInBounds none = Unit
RowInBounds (some s) = InBounds s

-- The row of settings, if there is one, is within the bounds.
pub record SettingsInBounds (db : Db) : Type 0 where
  pub row : RowInBounds db.platform_settings

apply_update-InBounds :
    (u : SettingsUpdate) (s : PlatformSettings)
    → is_valid_update u ≡ true
    → InBounds s
    → InBounds (apply_update u s)
unfolding is_valid_update apply_update
apply_update-InBounds u s h b =
    let (r1, r2) = b.retention in
    let (a1, a2) = b.attempts in
    let (t1, t2) = b.timeout in
    record {
      retention = (ground arith, ground arith);
      attempts = (ground arith, ground arith);
      timeout = (ground arith, ground arith);
    }

pub default-InBounds : InBounds default_settings
default-InBounds = record {
  retention = (omega arith, omega arith);
  attempts = (omega arith, omega arith);
  timeout = (omega arith, omega arith);
}

settings_row-row :
    (v : World)
    → ((settings_row v).1.platform_settings ≡ v.db.platform_settings)
      ⊎ ((settings_row v).1.platform_settings ≡ some default_settings)
unfolding settings_row
settings_row-row v = ground arith

row_of-default : (o : Option PlatformSettings) → o ≡ some default_settings → RowInBounds o
row_of-default o e = rw e default-InBounds

row_of-same : (o p : Option PlatformSettings) → o ≡ p → RowInBounds p → RowInBounds o
row_of-same o p e h = rw e h

settings_row-keeps : Preserves SettingsInBounds get_or_create_platform_settings
unfolding get_or_create_platform_settings
settings_row-keeps = Preserves-write SettingsInBounds settings_row (λ v h.
    elim (settings_row-row v) [
      | inl e ↦ record { row = row_of-same _ _ e h.row }
      | inr e ↦ record { row = row_of-default _ e }
    ])

abbrev changed : SettingsUpdate → Option PlatformSettings → Option PlatformSettings
changed u none = none
changed u (some s) = some (apply_update u s)

updated_row :
    (u : SettingsUpdate) (o : Option PlatformSettings)
    → is_valid_update u ≡ true
    → RowInBounds o
    → RowInBounds (changed u o)
updated_row u none valid h = tt
updated_row u (some s) valid h = apply_update-InBounds u s valid h

update_settings-row :
    (u : SettingsUpdate) (v : World)
    → (update_settings u v).1.platform_settings ≡ changed u v.db.platform_settings
unfolding update_settings
update_settings-row u v = ground arith

update_settings-keeps :
    (u : SettingsUpdate)
    → is_valid_update u ≡ true
    → Preserves SettingsInBounds (checked_write (update_settings u))
update_settings-keeps u valid = Preserves-checked_write SettingsInBounds (update_settings u) (λ v h.
    record {
      row =
          row_of-same _ _ (update_settings-row u v)
            (updated_row u v.db.platform_settings valid h.row);
    })

guarded-keeps :
    {A : Type 0} (b : Bool) (m k : Async A)
    → (b ≡ true → Preserves SettingsInBounds m)
    → Preserves SettingsInBounds k
    → Preserves SettingsInBounds (branch b m k)
guarded-keeps true m k pm pk = pm refl
guarded-keeps false m k pm pk = pk

-- A change of the settings, whoever asks for whatever values and whatever statements fail, leaves
-- them within their bounds: 1 to 3650 days, 1 to 50 attempts, 1 to 120 seconds.
pub patch_settings-SettingsInBounds :
    (admin : AdminIdentity) (u : SettingsUpdate) (w : World)
    → SettingsInBounds w.db
    → SettingsInBounds (patch_settings admin u w).1.db
unfolding patch_settings
patch_settings-SettingsInBounds admin u w h =
    let kept : Preserves SettingsInBounds (patch_settings admin u) =
      Preserves-branch SettingsInBounds (is_super_admin admin.role) _ _
        (guarded-keeps (is_valid_update u) _ _
          (λ valid.
            Preserves->>= SettingsInBounds get_or_create_platform_settings _ settings_row-keeps
              (λ s.
                Preserves->>= SettingsInBounds (checked_write (update_settings u)) _
                  (update_settings-keeps u valid) (λ t. Preserves-pure SettingsInBounds _)))
          (search preserve_rules))
        (search preserve_rules) in
    kept.from w h
