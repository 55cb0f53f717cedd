-- ===== src/Devices/ClaimSteps.antt =====
-- The steps of a claim, up to the database it leaves.
use adms.Devices.ClaimRows.{
  others, finish, create_device-ok, finish-ok, finish-devices, finish-pending,
}
use adms.Timezone.{Intl}
use adms.Access.{AdminIdentity}
use adms.Store.Exec.{
  read, DbError, World, ◌>>=◌, pure, recover_with, commit_or_roll_back, try_catch, transaction,
  branch, known_request, initialization, rust_panic, other, checked_write, Result, ok, thrown,
}
use adms.Store.Total.{>>=-eq-ok, >>=-of-ok}
use adms.Prelude.{
  none, List, Option, refl, ◌∙◌, Bool, true, false, if◌then◌else◌, string_eq, ◌==◌, ℕ, [], ◌∷◌,
  some, ap, ◌≡◌, String, ◌++◌, any, find,
}
use adms.Store.{PendingDevice, Db, Device}
use adms.Devices.{
  is_valid_claim, claim, claim_pending, claim_failure, rethrow, refused, create_device,
  create_claimed, ClaimRequest, ClaimReply, claimed, may_act_for, may_take, claimed_secret,
  pending_of, List, Option, Device, any, find, has_serial,
}

-- What becomes of the database, in terms of the code's own tests.
abbrev pub Coded : AdminIdentity → String → ClaimRequest → Db → Result ClaimReply → Db → Type 0
Coded admin fresh req before (ok (claimed d)) after =
    (after.devices ≡ before.devices ++ d ∷ [])
    × (d.serial_number ≡ req.serial_number)
    × (d.company_id ≡ req.company_id)
    × (d.timezone ≡ req.timezone)
    × (any (has_serial req.serial_number) before.devices ≡ false)
    × (after.pending_devices ≡ others req.serial_number before.pending_devices)
    × (d.device_secret ≡ claimed_secret fresh (pending_of req.serial_number before))
    × (may_act_for admin req.company_id ≡ true)
    × (may_take admin req.company_id (pending_of req.serial_number before) ≡ true)
Coded admin fresh req before (ok (refused status)) after = after ≡ before
Coded admin fresh req before (thrown e) after = after ≡ before

create_claimed-ok :
    (req : ClaimRequest) (secret : String) (pending : Option PendingDevice) (w : World)
    (reply : ClaimReply)
    → find (λ p. p.serial_number == req.serial_number) w.db.pending_devices ≡ pending
    → (create_claimed req secret pending w).0 ≡ ok reply
    → (d : Device) × (reply ≡ claimed d)
      × ((create_claimed req secret pending w).1.db.devices ≡ w.db.devices ++ d ∷ [])
      × (d.serial_number ≡ req.serial_number)
      × (d.company_id ≡ req.company_id)
      × (d.timezone ≡ req.timezone)
      × (any (has_serial req.serial_number) w.db.devices ≡ false)
      × ((create_claimed req secret pending w).1.db.pending_devices
          ≡ others req.serial_number w.db.pending_devices)
      × (d.device_secret ≡ secret)
create_claimed-ok req secret pending w reply found h =
    let (d, v, e, k) =
      >>=-eq-ok (checked_write (create_device req secret)) (finish req pending) w h in
    let (ds, sn, c, tz, new, kept, s) =
      create_device-ok req secret w.db w.now w.cuid w.faults d v e in
    let whole = >>=-of-ok (checked_write (create_device req secret)) (finish req pending) w v e in
    (
      d,
      finish-ok req pending d v reply k,
      ap (λ t. t.1.db.devices) whole ∙ (finish-devices req pending d v ∙ ds),
      sn,
      c,
      tz,
      new,
      ap (λ t. t.1.db.pending_devices) whole
          ∙ (finish-pending req pending d v.db v.now v.cuid v.faults reply
                (ap (find (λ p. p.serial_number == req.serial_number)) kept ∙ found) k
              ∙ ap (others req.serial_number) kept),
      s,
    )

module _ (admin : AdminIdentity) (fresh : String) (req : ClaimRequest) (db : Db) where
  abbrev waiting : Option PendingDevice
  waiting = pending_of req.serial_number db

  abbrev Outcome : Result ClaimReply × World → Type 0
  Outcome r = Coded admin fresh req db r.0 r.1.db

  coded-Outcome :
      (code : String) (conflict missing : Bool) (v : World)
      → v.db ≡ db
      → Outcome (
          (if conflict
              then pure (refused 409)
              else if missing
              then pure (refused 400)
              else rethrow (known_request code))
            v)
  coded-Outcome code true missing v h = h
  coded-Outcome code false true v h = h
  coded-Outcome code false false v h = h

  claim_failure-Outcome : (e : DbError) (v : World) → v.db ≡ db → Outcome (claim_failure e v)
  claim_failure-Outcome (known_request code) v h =
      coded-Outcome code (code == "P2002") (code == "P2003") v h
  claim_failure-Outcome initialization v h = h
  claim_failure-Outcome rust_panic v h = h
  claim_failure-Outcome (other message) v h = h

  caught-Outcome :
      (r : Result ClaimReply × World)
      → ((reply : ClaimReply) → r.0 ≡ ok reply → Coded admin fresh req db (ok reply) r.1.db)
      → Outcome (recover_with claim_failure (commit_or_roll_back db r))
  caught-Outcome (ok reply, v) h = h reply refl
  caught-Outcome (thrown e, v) h = claim_failure-Outcome e (record v { db = db }) refl

  done-Outcome :
      (reply : ClaimReply) (d : Device) (after : Db)
      → reply ≡ claimed d
      → Coded admin fresh req db (ok (claimed d)) after
      → Coded admin fresh req db (ok reply) after
  done-Outcome reply d after e h = rw e h

  module _ (now : ℕ) (cuid : ℕ → String) (act : may_act_for admin req.company_id ≡ true) where
    claim_pending-Outcome :
        (take : Bool) (l : List (Option DbError))
        → (take ≡ true → may_take admin req.company_id waiting ≡ true)
        → Outcome (
            branch take
              (try_catch
                (transaction (create_claimed req (claimed_secret fresh waiting) waiting))
                claim_failure)
              (pure (refused 403))
              (record { db = db; now = now; faults = l; cuid = cuid }))
    unfolding try_catch transaction
    claim_pending-Outcome false l may = refl
    claim_pending-Outcome true l may =
        let w : World = record { db = db; now = now; faults = l; cuid = cuid } in
        caught-Outcome (create_claimed req (claimed_secret fresh waiting) waiting w) (λ reply e.
          let (d, is, ds, sn, c, tz, new, gone, s) =
            create_claimed-ok req (claimed_secret fresh waiting) waiting w reply refl e in
          done-Outcome reply d _ is (ds, sn, c, tz, new, gone, s, act, may refl))

    read_pending-Outcome :
        (l : List (Option DbError))
        → Outcome (
            (read (pending_of req.serial_number) >>= λ pending.
            claim_pending admin fresh req pending)
              (record { db = db; now = now; faults = l; cuid = cuid }))
    unfolding read ◌>>=◌
    read_pending-Outcome [] =
        claim_pending-Outcome (may_take admin req.company_id waiting) [] (λ e. e)
    read_pending-Outcome (none ∷ l) =
        claim_pending-Outcome (may_take admin req.company_id waiting) l (λ e. e)
    read_pending-Outcome (some e ∷ l) = refl

  allowed-Outcome :
      (valid act : Bool) (w : World)
      → w ≡ record w { db = db }
      → (act ≡ true → may_act_for admin req.company_id ≡ true)
      → Outcome (
          branch valid
            (branch act
              (read (pending_of req.serial_number) >>= λ pending.
                claim_pending admin fresh req pending)
              (pure (refused 403)))
            (pure (refused 400))
            w)
  allowed-Outcome false act w same h = ap (λ t. t.db) same
  allowed-Outcome true false w same h = ap (λ t. t.db) same
  allowed-Outcome true true w same h =
      let ran = read_pending-Outcome w.now w.cuid (h refl) w.faults in rw same ran

pub claim-Coded :
    (intl : Intl) (fresh : String) (admin : AdminIdentity) (req : ClaimRequest) (w : World)
    → Coded admin fresh req w.db
        (claim intl fresh admin req w).0
        (claim intl fresh admin req w).1.db
unfolding claim
claim-Coded intl fresh admin req w =
    allowed-Outcome admin fresh req w.db (is_valid_claim intl req)
      (may_act_for admin req.company_id) w refl (λ e. e)
