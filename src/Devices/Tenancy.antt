-- ===== src/Devices/Tenancy.antt =====
-- src/admin/devices.ts: each route of an admin of a company, and the devices of other companies.
use adms.Prelude.{
  ap, change_first, any, refl, ◌∙◌, find, Bool-cases, inl, inr, ℕ, String, Bool, true, false,
  Option, none, some, List, ◌≡◌, ◌==◌, string_eq, if◌then◌else◌,
}
use adms.Store.{Db, Device, AdminRole, PendingDevice}
use adms.Store.Exec.{World, DbError, Async, pure, branch, ◌>>=◌, read, checked_write}
use adms.Store.Preserves.{
  read_then-keeps, checked_then-keeps, Preserves, preserve_rules, Preserves-guarded,
  Preserves-branch, Preserves->>=, Preserves->>, Preserves-pure, Preserves-read,
  Preserves-try_catch, Preserves-transaction, Preserves-checked_write,
}
use adms.Timezone.{Intl}
use adms.Access.{AdminIdentity}
use adms.SsrfGuard.{Network}
use adms.Worker.{is_device}
use adms.Devices.{
  ClaimReply, ComputedDeviceStatus, ClaimRequest, claim, claim_failure, create_device,
  delete_pending, delete_if_pending, may_act_for, may_take, is_valid_claim, pending_of,
  claimed_secret, rethrow,
}
use adms.Devices.Edit.{
  delete_device, on_device, on_found, device_with_id, shown, CreateDevice, DeviceReply, create,
  insert_device, insert_failure, with_status, is_valid_create, passes_guard, given_text, created,
}
use adms.Devices.Patch.{
  UpdateDevice, patch, patch_found, update_device, edited, is_valid_update, sent_url,
}
use adms.Devices.Foreign.{foreign_rows, foreign-change, foreign-drop, IdsAreKeys}
use adms.Devices.Scope.{
  may_act_for-own, Same, insert_device-Same, create_device-Same, delete_pending-Same,
}

module _ (admin : AdminIdentity) (c : String) (role : admin.role ≡ AdminRole.company_admin)
    (own : admin.company_id ≡ some c) (ds : List Device) (before : Db) where
  abbrev Keeps : Db → Type 0
  Keeps = Same c ds before

  insert_failure-Keeps : (e : DbError) → Preserves Keeps (insert_failure e)
  insert_failure-Keeps (DbError.known_request code) = go (code == "P2002") (code == "P2003")
    where
      go :
          (conflict missing : Bool)
          → Preserves Keeps (
              if conflict
              then pure (DeviceReply.refused 409)
              else if missing
              then pure (DeviceReply.refused 400)
              else rethrow (DbError.known_request code))
      go true missing = record { from = λ w h. h }
      go false true = record { from = λ w h. h }
      go false false = record { from = λ w h. h }
  insert_failure-Keeps DbError.initialization = record { from = λ w h. h }
  insert_failure-Keeps DbError.rust_panic = record { from = λ w h. h }
  insert_failure-Keeps (DbError.other message) = record { from = λ w h. h }

  with_status-Keeps :
      (reply : Device → ComputedDeviceStatus → DeviceReply) (threshold : ℕ) (d : Device)
      → Preserves Keeps (with_status reply threshold d)
  with_status-Keeps reply threshold d = record { from = λ w h. h }

  pub create-Keeps :
      (intl : Intl) (net : Network) (threshold : ℕ) (fresh : String) (req : CreateDevice)
      → Preserves Keeps (create intl net threshold fresh admin req)
  unfolding create
  create-Keeps intl net threshold fresh req =
      Preserves-branch Keeps (is_valid_create intl net req) _ _
        (Preserves-guarded Keeps (may_act_for admin req.company_id) _ _
          (λ act.
            let mine = may_act_for-own admin c req.company_id role own act in
            Preserves-branch Keeps (passes_guard net (given_text req.webhook_url)) _ _
              (Preserves-try_catch Keeps _ insert_failure
                (Preserves->>= Keeps (checked_write (insert_device fresh req)) _
                  (Preserves-checked_write Keeps (insert_device fresh req)
                    (λ v h. insert_device-Same c ds before fresh req v mine h))
                  (λ d. with_status-Keeps created threshold d))
                insert_failure-Keeps)
              (search preserve_rules))
          (λ e. search preserve_rules))
        (search preserve_rules)

  claim_failure-Keeps : (e : DbError) → Preserves Keeps (claim_failure e)
  claim_failure-Keeps (DbError.known_request code) = go (code == "P2002") (code == "P2003")
    where
      go :
          (conflict missing : Bool)
          → Preserves Keeps (
              if conflict
              then pure (ClaimReply.refused 409)
              else if missing
              then pure (ClaimReply.refused 400)
              else rethrow (DbError.known_request code))
      go true missing = record { from = λ w h. h }
      go false true = record { from = λ w h. h }
      go false false = record { from = λ w h. h }
  claim_failure-Keeps DbError.initialization = record { from = λ w h. h }
  claim_failure-Keeps DbError.rust_panic = record { from = λ w h. h }
  claim_failure-Keeps (DbError.other message) = record { from = λ w h. h }

  delete_if_pending-Keeps :
      (sn : String) (pending : Option PendingDevice)
      → Preserves Keeps (delete_if_pending sn pending)
  delete_if_pending-Keeps sn none = search preserve_rules
  delete_if_pending-Keeps sn (some p) =
      Preserves-checked_write Keeps (delete_pending sn)
        (λ v h. delete_pending-Same c ds before sn v h)

  pub claim-Keeps :
      (intl : Intl) (fresh : String) (req : ClaimRequest)
      → Preserves Keeps (claim intl fresh admin req)
  unfolding claim
  claim-Keeps intl fresh req =
      Preserves-branch Keeps (is_valid_claim intl req) _ _
        (Preserves-guarded Keeps (may_act_for admin req.company_id) _ _
          (λ act.
            let mine = may_act_for-own admin c req.company_id role own act in
            Preserves->>= Keeps (read (pending_of req.serial_number)) _
              (Preserves-read Keeps (pending_of req.serial_number))
              (λ pending.
                Preserves-branch Keeps (may_take admin req.company_id pending) _ _
                  (Preserves-try_catch Keeps _ claim_failure
                    (Preserves-transaction Keeps _ (
                      Preserves->>= Keeps
                        (checked_write (create_device req (claimed_secret fresh pending))) _
                        (Preserves-checked_write Keeps
                          (create_device req (claimed_secret fresh pending))
                          (λ v h.
                            create_device-Same c ds before req (claimed_secret fresh pending) v mine
                              h))
                        (λ d.
                          Preserves->> Keeps (delete_if_pending req.serial_number pending) _
                            (delete_if_pending-Keeps req.serial_number pending)
                            (Preserves-pure Keeps _))))
                    claim_failure-Keeps)
                  (search preserve_rules)))
          (λ e. search preserve_rules))
        (search preserve_rules)

  with_status-db :
      (reply : Device → ComputedDeviceStatus → DeviceReply) (threshold : ℕ) (d : Device) (v : World)
      → (with_status reply threshold d v).1.db ≡ v.db
  with_status-db reply threshold d v = refl

  -- A route on one device of the company.
  pub on_device-Keeps :
      (id : String) (k : Device → Async DeviceReply) (w : World)
      → Keeps w.db
      → ((d : Device) (v : World)
          → v.db ≡ w.db
          → find (is_device id) w.db.devices ≡ some d
          → d.company_id ≡ c
          → Keeps (k d v).1.db)
      → Keeps (on_device admin id k w).1.db
  on_device-Keeps id k w h rest =
      read_then-keeps Keeps (device_with_id id) (on_found admin k) w h
        (λ v same. go (find (is_device id) w.db.devices) v same refl)
    where
      go :
          (found : Option Device) (v : World)
          → v.db ≡ w.db
          → find (is_device id) w.db.devices ≡ found
          → Keeps (on_found admin k found v).1.db
      go none v same e = rw same h
      go (some d) v same e = elim (Bool-cases (may_act_for admin d.company_id)) [
        | inl act ↦ rw act (rest d v same e (may_act_for-own admin c d.company_id role own act))
        | inr refuse ↦ rw refuse (rw same h)
      ]

module _ (admin : AdminIdentity) (c : String) (role : admin.role ≡ AdminRole.company_admin)
    (own : admin.company_id ≡ some c) (w : World) where
  abbrev Kept : Db → Type 0
  Kept = Same c w.db.devices w.db

  update_device-db :
      (id : String) (f : Device → Device) (d : Device) (v : World)
      → find (is_device id) v.db.devices ≡ some d
      → (update_device id f v).1
        ≡ record v.db { devices = change_first (is_device id) f v.db.devices }
  unfolding update_device
  update_device-db id f d v found = rw (found, update_device) refl

  update_device-Kept :
      (id : String) (f : Device → Device) (d : Device) (v : World)
      → v.db ≡ w.db
      → find (is_device id) w.db.devices ≡ some d
      → d.company_id ≡ c
      → (f d).company_id ≡ c
      → Kept (update_device id f v).1
  unfolding foreign_rows
  update_device-Kept id f d v same found mine kept =
      let there : find (is_device id) v.db.devices ≡ some d =
        ap (λ db. find (is_device id) db.devices) same ∙ found in
      let changed : (update_device id f v).1
          ≡ record w.db { devices = change_first (is_device id) f w.db.devices } =
        update_device-db id f d v there
        ∙ ap {B = Db}
            (λ (db : Db). record db { devices = change_first (is_device id) f db.devices }) same in
      rw changed (rw (foreign-change c id f w.db.devices d found mine kept) refl)

  pub patch-Kept :
      (intl : Intl) (net : Network) (threshold : ℕ) (fresh id : String) (req : UpdateDevice)
      → Kept (patch intl net threshold fresh admin id req w).1.db
  unfolding patch
  patch-Kept intl net threshold fresh id req =
      on_device-Keeps admin c role own w.db.devices w.db id
        (patch_found intl net threshold fresh id req) w refl
        (λ d v same found mine.
          go d v same found mine (is_valid_update intl net req)
            (passes_guard net (given_text (sent_url req.webhook_url))))
    where
      go :
          (d : Device) (v : World)
          → v.db ≡ w.db
          → find (is_device id) w.db.devices ≡ some d
          → d.company_id ≡ c
          → (valid guarded : Bool)
          → Kept
              (branch valid
                (branch guarded
                  (do
                    changed ← checked_write (update_device id (edited fresh req d))
                    with_status shown threshold changed)
                  (pure (DeviceReply.refused 400)))
                (pure (DeviceReply.refused 400))
                v).1.db
      go d v same found mine false guarded = rw same refl
      go d v same found mine true false = rw same refl
      go d v same found mine true true =
          checked_then-keeps Kept (update_device id (edited fresh req d))
            (with_status shown threshold) v (λ a u. refl) (rw same refl)
            (λ u equal.
              update_device-Kept id (edited fresh req d) d u (equal ∙ same) found mine
                (unfold edited in mine))

  pub delete_device-Kept :
      (id : String) (d : Device) (v : World)
      → v.db ≡ w.db
      → find (is_device id) w.db.devices ≡ some d
      → d.company_id ≡ c
      → IdsAreKeys w.db.devices
      → Kept (delete_device id v).1
  unfolding delete_device
  delete_device-Kept id d v same found mine keys =
      rw same (elim (Bool-cases (any (is_device id) w.db.devices)) [
        | inl e ↦ rw e (foreign-drop c id w.db.devices d found mine w.db refl keys)
        | inr e ↦ rw e refl
      ])
