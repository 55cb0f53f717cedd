-- ===== src/Devices/Scope.antt =====
-- src/admin/devices.ts: that an admin of a company changes nothing of another company's devices.
use adms.Prelude.{
  inl, inr, ◌⊎◌, String, true, some, List, [], ◌∷◌, ◌++◌, ◌≡◌, refl, ◌∙◌, sym, string_eq, eq_iff,
  ◌==◌, arith,
}
use adms.Store.{Db, Device, AdminRole}
use adms.Store.Exec.{World}
use adms.Store.Preserves.{}
use adms.Access.{AdminIdentity}
use adms.Devices.{ClaimRequest, create_device, delete_pending, claimed_device, may_act_for, World}
use adms.Devices.Edit.{CreateDevice, insert_device, new_device}
use adms.Devices.Foreign.{foreign_rows, foreign-add}

pub may_act_for-own :
    (admin : AdminIdentity) (c company : String)
    → admin.role ≡ AdminRole.company_admin
    → admin.company_id ≡ some c
    → may_act_for admin company ≡ true
    → company ≡ c
unfolding may_act_for
may_act_for-own admin c company role own h =
    let same : (c == company) ≡ true = rw (role, own) at h in sym ((eq_iff c company).0 same)

-- What is the same for the other companies.
module _ (c : String) (ds : List Device) (before : Db) where
  abbrev pub Same : Db → Type 0
  Same db = foreign_rows c ds db ≡ foreign_rows c ds before

  -- A step that only adds a device of the company.
  add-Same :
      (db after : Db) (d : Device)
      → after.devices ≡ db.devices ++ d ∷ []
      → d.company_id ≡ c
      → after.device_commands ≡ db.device_commands
      → after.punch_records ≡ db.punch_records
      → after.device_raw_logs ≡ db.device_raw_logs
      → Same db
      → Same after
  unfolding foreign_rows
  add-Same db after d devices own commands punches logs h =
      rw (devices, commands, punches, logs, foreign-add c db.devices d own) refl ∙ h

  pub quiet-Same :
      (db after : Db)
      → after.devices ≡ db.devices
      → after.device_commands ≡ db.device_commands
      → after.punch_records ≡ db.punch_records
      → after.device_raw_logs ≡ db.device_raw_logs
      → Same db
      → Same after
  unfolding foreign_rows
  quiet-Same db after devices commands punches logs h =
      rw (devices, commands, punches, logs) refl ∙ h

  pub insert_device-Same :
      (fresh : String) (req : CreateDevice) (v : World)
      → req.company_id ≡ c
      → Same v.db
      → Same (insert_device fresh req v).1
  insert_device-Same fresh req v own h = elim (insert_device-devices v) [
    | inl same ↦
        quiet-Same v.db (insert_device fresh req v).1 same (commands v) (punches v) (logs v) h
    | inr more ↦
        add-Same v.db (insert_device fresh req v).1
          (new_device fresh req (v.cuid v.db.minted) v.now) more (mine v) (commands v) (punches v)
          (logs v) h
  ]
    where
      insert_device-devices :
          (v : World)
          → ((insert_device fresh req v).1.devices ≡ v.db.devices)
            ⊎ ((insert_device fresh req v).1.devices
                ≡ v.db.devices ++ new_device fresh req (v.cuid v.db.minted) v.now ∷ [])
      insert_device-devices v = unfold insert_device in ground arith

      commands : (v : World) → (insert_device fresh req v).1.device_commands ≡ v.db.device_commands
      commands v = unfold insert_device in ground arith

      punches : (v : World) → (insert_device fresh req v).1.punch_records ≡ v.db.punch_records
      punches v = unfold insert_device in ground arith

      logs : (v : World) → (insert_device fresh req v).1.device_raw_logs ≡ v.db.device_raw_logs
      logs v = unfold insert_device in ground arith

      mine : (v : World) → (new_device fresh req (v.cuid v.db.minted) v.now).company_id ≡ c
      mine v = unfold new_device in own

  pub create_device-Same :
      (req : ClaimRequest) (secret : String) (v : World)
      → req.company_id ≡ c
      → Same v.db
      → Same (create_device req secret v).1
  create_device-Same req secret v own h = elim (create_device-devices v) [
    | inl same ↦
        quiet-Same v.db (create_device req secret v).1 same (commands v) (punches v) (logs v) h
    | inr more ↦
        add-Same v.db (create_device req secret v).1
          (claimed_device req secret (v.cuid v.db.minted) v.now) more (mine v) (commands v)
          (punches v) (logs v) h
  ]
    where
      create_device-devices :
          (v : World)
          → ((create_device req secret v).1.devices ≡ v.db.devices)
            ⊎ ((create_device req secret v).1.devices
                ≡ v.db.devices ++ claimed_device req secret (v.cuid v.db.minted) v.now ∷ [])
      create_device-devices v = unfold create_device in ground arith

      commands : (v : World) → (create_device req secret v).1.device_commands ≡ v.db.device_commands
      commands v = unfold create_device in ground arith

      punches : (v : World) → (create_device req secret v).1.punch_records ≡ v.db.punch_records
      punches v = unfold create_device in ground arith

      logs : (v : World) → (create_device req secret v).1.device_raw_logs ≡ v.db.device_raw_logs
      logs v = unfold create_device in ground arith

      mine : (v : World) → (claimed_device req secret (v.cuid v.db.minted) v.now).company_id ≡ c
      mine v = unfold claimed_device in own

  pub delete_pending-Same : (sn : String) (v : World) → Same v.db → Same (delete_pending sn v).1
  delete_pending-Same sn v h =
      quiet-Same v.db (delete_pending sn v).1 (devices v) (commands v) (punches v) (logs v) h
    where
      devices : (v : World) → (delete_pending sn v).1.devices ≡ v.db.devices
      devices v = unfold delete_pending in ground arith

      commands : (v : World) → (delete_pending sn v).1.device_commands ≡ v.db.device_commands
      commands v = unfold delete_pending in ground arith

      punches : (v : World) → (delete_pending sn v).1.punch_records ≡ v.db.punch_records
      punches v = unfold delete_pending in ground arith

      logs : (v : World) → (delete_pending sn v).1.device_raw_logs ≡ v.db.device_raw_logs
      logs v = unfold delete_pending in ground arith
