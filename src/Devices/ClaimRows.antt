-- ===== src/Devices/ClaimRows.antt =====
-- The rows that a claim creates and deletes.
use adms.Store.Exec.{
  DbError, World, Async, ◌>>◌, pure, continue_with, checked_write, Result, ok, thrown,
}
use adms.Store.Preserves.{Preserves, preserve_rules, Preserves-checked_write}
use adms.Prelude.{
  none, List, Option, refl, ◌∙◌, true, false, string_eq, ◌==◌, ℕ, [], ◌∷◌, some, ap, ◌≡◌, String,
  ◌++◌, arith, any, find, filter, Bool-cases, not, inl, inr,
}
use adms.Store.{PendingDevice, Db, Device}
use adms.Devices.{
  delete_if_pending, create_device, delete_pending, ClaimRequest, ClaimReply, claimed,
  claimed_device, List, Option, Device, filter, any, find, has_serial, not,
}

abbrev pub others : String → List PendingDevice → List PendingDevice
others sn ps = filter (λ p. not (p.serial_number == sn)) ps

pub create_device-ok :
    (req : ClaimRequest) (secret : String) (db : Db) (now : ℕ) (cuid : ℕ → String)
    (l : List (Option DbError)) (d : Device) (v : World)
    → checked_write
        (create_device req secret)
        (record { db = db; now = now; faults = l; cuid = cuid })
      ≡ (ok d, v)
    → (v.db.devices ≡ db.devices ++ d ∷ [])
      × (d.serial_number ≡ req.serial_number)
      × (d.company_id ≡ req.company_id)
      × (d.timezone ≡ req.timezone)
      × (any (has_serial req.serial_number) db.devices ≡ false)
      × (v.db.pending_devices ≡ db.pending_devices)
      × (d.device_secret ≡ secret)
unfolding checked_write create_device claimed_device
create_device-ok req secret db now cuid [] d v h = ground arith
create_device-ok req secret db now cuid (none ∷ l) d v h = ground arith
create_device-ok req secret db now cuid (some e ∷ l) d v h =
    absurd (let stop : ◌≡◌ {A = Result Device} (thrown e) (ok d) = ap (λ t. t.0) h in cc)

delete_pending-devices : (sn : String) (v : World) → (delete_pending sn v).1.devices ≡ v.db.devices
unfolding delete_pending
delete_pending-devices sn v = ground arith

delete_if_pending-keeps :
    (devices : List Device) (sn : String) (pending : Option PendingDevice)
    → Preserves (λ db. db.devices ≡ devices) (delete_if_pending sn pending)
delete_if_pending-keeps devices sn none = search preserve_rules
delete_if_pending-keeps devices sn (some p) =
    Preserves-checked_write _ (delete_pending sn) (λ v h. delete_pending-devices sn v ∙ h)

abbrev pub finish : ClaimRequest → Option PendingDevice → Device → Async ClaimReply
finish req pending d = delete_if_pending req.serial_number pending >> pure (claimed d)

pub finish-ok :
    (req : ClaimRequest) (pending : Option PendingDevice) (d : Device) (w : World)
    (reply : ClaimReply)
    → (finish req pending d w).0 ≡ ok reply
    → reply ≡ claimed d
unfolding ◌>>◌
finish-ok req pending d w reply h = go (delete_if_pending req.serial_number pending w) h
  where
    go :
        (r : Result (Unit {0}) × World)
        → (continue_with (λ _. pure (claimed d)) r).0 ≡ ok reply
        → reply ≡ claimed d
    go (ok a, v) k = cc
    go (thrown e, v) k =
        absurd (let stop : ◌≡◌ {A = Result ClaimReply} (thrown e) (ok reply) = k in cc)

pub finish-devices :
    (req : ClaimRequest) (pending : Option PendingDevice) (d : Device) (w : World)
    → (finish req pending d w).1.db.devices ≡ w.db.devices
finish-devices req pending d w =
    let kept : Preserves (λ db. db.devices ≡ w.db.devices) (finish req pending d) =
      search (preserve_rules, delete_if_pending-keeps w.db.devices) in
    kept.from w refl

others_of_none :
    (sn : String) (ps : List PendingDevice)
    → find (λ p. p.serial_number == sn) ps ≡ none
    → ps ≡ others sn ps
others_of_none sn [] h = refl
others_of_none sn (p ∷ ps) h = elim (Bool-cases (p.serial_number == sn)) [
  | inl e ↦ absurd (let stop : ◌≡◌ {A = Option PendingDevice} (some p) none = rw e at h in cc)
  | inr e ↦ rw e (ap (λ t. p ∷ t) (others_of_none sn ps (rw e at h)))
]

any_of_find :
    (sn : String) (ps : List PendingDevice) (p : PendingDevice)
    → find (λ x. x.serial_number == sn) ps ≡ some p
    → any (λ x. x.serial_number == sn) ps ≡ true
any_of_find sn [] p h = cc
any_of_find sn (q ∷ ps) p h = elim (Bool-cases (q.serial_number == sn)) [
  | inl e ↦ rw e refl
  | inr e ↦ rw e (any_of_find sn ps p (rw e at h))
]

pub finish-pending :
    (req : ClaimRequest) (pending : Option PendingDevice) (d : Device) (db : Db) (now : ℕ)
    (cuid : ℕ → String) (l : List (Option DbError)) (reply : ClaimReply)
    → find (λ p. p.serial_number == req.serial_number) db.pending_devices ≡ pending
    → (finish req pending d (record { db = db; now = now; faults = l; cuid = cuid })).0 ≡ ok reply
    → (finish req pending d
        (record { db = db; now = now; faults = l; cuid = cuid })).1.db.pending_devices
      ≡ others req.serial_number db.pending_devices
unfolding ◌>>◌ checked_write delete_pending
finish-pending req none d db now cuid l reply h k =
    others_of_none req.serial_number db.pending_devices h
finish-pending req (some p) d db now cuid [] reply h k =
    let found = any_of_find req.serial_number db.pending_devices p h in rw found refl
finish-pending req (some p) d db now cuid (none ∷ l) reply h k =
    let found = any_of_find req.serial_number db.pending_devices p h in rw found refl
finish-pending req (some p) d db now cuid (some e ∷ l) reply h k =
    absurd (let stop : ◌≡◌ {A = Result ClaimReply} (thrown e) (ok reply) = k in cc)
