-- ===== src/Devices/Requests.antt =====
-- src/admin/devices.ts: the requests about devices, all routes that change the database.
use adms.Prelude.{
  find-holds, eq_iff, ap, ◌∙◌, arith, codes, filter-append, append-nil, Bool-cases, inl, inr, false,
  [], ◌∷◌, ◌++◌, filter, none, refl, ℕ, String, Text, Bool, true, Option, some, List, ◌≡◌, find,
}
use adms.Store.{Db, Device, AdminRole, DeviceCommand}
use adms.Store.Exec.{World, pure, branch, ◌>>=◌, write}
use adms.Store.Preserves.{write_then-keeps, checked_then-keeps, read_then-keeps}
use adms.Timezone.{Intl}
use adms.Access.{AdminIdentity}
use adms.SsrfGuard.{Network}
use adms.Worker.{is_device}
use adms.Devices.{ClaimRequest, claim, may_act_for}
use adms.Devices.Edit.{
  remove_found, CreateDevice, create, remove, device_with_id, delete_device, done,
}
use adms.Devices.Patch.{UpdateDevice, patch}
use adms.Devices.Commands.{
  queue_for, for_found, is_command, queued, CommandReply, add_command, new_command, send_command,
}
use adms.Devices.Logs.{remove_log, remove_logs}
use adms.Devices.Pending.{delete_unregistered, delete_unregistered_bulk}
use adms.Devices.Foreign.{is_foreign, is_foreign_id, foreign_rows, foreign_or_none, IdsAreKeys}
use adms.Devices.Scope.{may_act_for-own, Same}
use adms.Devices.Tenancy.{
  create-Keeps, claim-Keeps, patch-Kept, delete_device-Kept, on_device-Keeps,
}

pub data DeviceRequest : Type 0 where
  post : CreateDevice → DeviceRequest
  post_claim : ClaimRequest → DeviceRequest
  edit : (id : String) → UpdateDevice → DeviceRequest
  delete : (id : String) → DeviceRequest
  post_command : (id : String) → (command : Text) → DeviceRequest
  delete_log : (id log_id : String) → DeviceRequest
  delete_logs : (id : String) → (log_ids : List String) → DeviceRequest
  delete_ping : (serial_number : String) → DeviceRequest
  delete_pings : (serial_numbers : List String) → DeviceRequest

-- What the routes take from outside: time zones, the network, the offline threshold, the random text.
pub record Environment : Type 0 where
  pub intl : Intl
  pub net : Network
  pub threshold : ℕ
  pub fresh : String

-- The database that a request leaves.
unfoldable pub handle : Environment → AdminIdentity → DeviceRequest → World → Db
handle env admin (post req) w = (create env.intl env.net env.threshold env.fresh admin req w).1.db
handle env admin (post_claim req) w = (claim env.intl env.fresh admin req w).1.db
handle env admin (edit id req) w =
    (patch env.intl env.net env.threshold env.fresh admin id req w).1.db
handle env admin (delete id) w = (remove admin id w).1.db
handle env admin (post_command id command) w = (send_command admin id command w).1.db
handle env admin (delete_log id log_id) w = (remove_log admin id log_id w).1.db
handle env admin (delete_logs id log_ids) w = (remove_logs admin id log_ids w).1.db
handle env admin (delete_ping sn) w = (delete_unregistered admin sn w).1.db
handle env admin (delete_pings sns) w = (delete_unregistered_bulk admin sns w).1.db

module _ (admin : AdminIdentity) (c : String) (role : admin.role ≡ AdminRole.company_admin)
    (own : admin.company_id ≡ some c) (w : World) where
  abbrev Kept : Db → Type 0
  Kept = Same c w.db.devices w.db

  remove-Kept : (id : String) → IdsAreKeys w.db.devices → Kept (remove admin id w).1.db
  unfolding remove
  remove-Kept id keys =
      on_device-Keeps admin c role own w.db.devices w.db id (remove_found id) w refl
        (λ d v same found mine.
          checked_then-keeps Kept (delete_device id) (λ gone. pure done) v (λ a u. refl)
            (rw same refl)
            (λ u equal.
              delete_device-Kept admin c role own w id d u (equal ∙ same) found mine keys))

  add_command-Kept :
      (id : String) (d : Device) (command : Text) (v : World)
      → v.db ≡ w.db
      → find (is_device id) w.db.devices ≡ some d
      → d.company_id ≡ c
      → Kept (add_command d.id command v).1
  unfolding add_command foreign_rows
  add_command-Kept id d command v same found mine =
      let ds = w.db.devices in
      let named : d.id ≡ id = (eq_iff d.id id).0 (find-holds (is_device id) ds d found) in
      let here : find (is_device d.id) ds ≡ some d =
        ap (λ i. find (is_device i) ds) named ∙ found in
      let ours : is_foreign_id c ds d.id ≡ false =
        ap (foreign_or_none c) here
        ∙ (let own_one : is_foreign c d ≡ false = ground (arith, eq_iff d.company_id c) in
            own_one) in
      let row = new_command (codes (v.cuid w.db.minted)) d.id command v.now in
      let test : DeviceCommand → Bool = λ k. is_foreign_id c ds k.device_id in
      let one : filter test (row ∷ []) ≡ [] = rw ours refl in
      let commands : filter test (w.db.device_commands ++ row ∷ [])
          ≡ filter test w.db.device_commands =
        filter-append test w.db.device_commands (row ∷ [])
        ∙ (ap (λ t. filter test w.db.device_commands ++ t) one
            ∙ append-nil (filter test w.db.device_commands)) in
      rw same (ap (λ t. record (foreign_rows c ds w.db) { commands = t }) commands)

  send_command-Kept : (id : String) (command : Text) → Kept (send_command admin id command w).1.db
  unfolding send_command
  send_command-Kept id command =
      read_then-keeps Kept (device_with_id id) (for_found admin (queue_for command)) w refl
        (λ v same. go (find (is_device id) w.db.devices) v same refl)
    where
      queue :
          (d : Device) (v : World)
          → v.db ≡ w.db
          → find (is_device id) w.db.devices ≡ some d
          → d.company_id ≡ c
          → (fits : Bool)
          → Kept
              (branch fits
                (do row ← write (add_command d.id command); pure (queued row))
                (pure (CommandReply.refused 400))
                v).1.db
      queue d v same found mine false = rw same refl
      queue d v same found mine true =
          write_then-keeps Kept (add_command d.id command) (λ row. pure (queued row)) v
            (λ a u. refl) (rw same refl)
            (λ u equal. add_command-Kept id d command u (equal ∙ same) found mine)

      go :
          (found : Option Device) (v : World)
          → v.db ≡ w.db
          → find (is_device id) w.db.devices ≡ found
          → Kept (for_found admin (queue_for command) found v).1.db
      go none v same e = rw same refl
      go (some d) v same e = elim (Bool-cases (may_act_for admin d.company_id)) [
        | inl act ↦ rw act (
            queue d v same e (may_act_for-own admin c d.company_id role own act)
              (is_command command))
        | inr refuse ↦ rw refuse (rw same refl)
      ]

-- Whatever an admin of a company asks for about whatever devices, and whatever statements fail, the
-- devices of all other companies, the commands queued for them, their punches and their raw logs stay
-- as they are. Ids are the primary key of the devices.
pub handle-foreign_rows :
    (env : Environment) (admin : AdminIdentity) (c : String) (req : DeviceRequest) (w : World)
    → admin.role ≡ AdminRole.company_admin
    → admin.company_id ≡ some c
    → IdsAreKeys w.db.devices
    → foreign_rows c w.db.devices (handle env admin req w) ≡ foreign_rows c w.db.devices w.db
unfolding handle remove_log remove_logs delete_unregistered delete_unregistered_bulk
handle-foreign_rows env admin c (post req) w role own keys =
    (create-Keeps admin c role own w.db.devices w.db env.intl env.net env.threshold env.fresh
        req).from
      w refl
handle-foreign_rows env admin c (post_claim req) w role own keys =
    (claim-Keeps admin c role own w.db.devices w.db env.intl env.fresh req).from w refl
handle-foreign_rows env admin c (edit id req) w role own keys =
    patch-Kept admin c role own w env.intl env.net env.threshold env.fresh id req
handle-foreign_rows env admin c (delete id) w role own keys = remove-Kept admin c role own w id keys
handle-foreign_rows env admin c (post_command id command) w role own keys =
    send_command-Kept admin c role own w id command
handle-foreign_rows env admin c (delete_log id log_id) w role own keys = rw role refl
handle-foreign_rows env admin c (delete_logs id log_ids) w role own keys = rw role refl
handle-foreign_rows env admin c (delete_ping sn) w role own keys = rw role refl
handle-foreign_rows env admin c (delete_pings sns) w role own keys = rw role refl
