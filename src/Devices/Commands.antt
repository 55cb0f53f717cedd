-- ===== src/Devices/Commands.antt =====
-- src/admin/devices.ts: the queue of raw commands of a device.
use adms.Prelude.{
  ℕ, suc, String, Text, codes, Bool, ◌&&◌, Option, none, some, List, [], ◌∷◌, ◌++◌, filter, take,
  leb, length, ◌==◌, string_eq,
}
use adms.Store.{Db, Device, DeviceCommand, DeviceCommandStatus}
use adms.Store.Exec.{World, Async, pure, branch, ◌>>=◌, read, write}
use adms.Access.{AdminIdentity}
use adms.Devices.{may_act_for}
use adms.Devices.Edit.{device_with_id}

pub data CommandReply : Type 0 where
  queued : DeviceCommand → CommandReply
  commands : List DeviceCommand → CommandReply
  refused : (status : ℕ) → CommandReply

abbrev pub new_command : Text → String → Text → ℕ → DeviceCommand
new_command id device_id command now = record {
  id = id;
  device_id = device_id;
  command = command;
  status = DeviceCommandStatus.pending;
  response = none;
  created_at = now;
  sent_at = none;
  acked_at = none;
}

-- `deviceCommand.create`
unfoldable pub add_command : String → Text → World → DeviceCommand × Db
add_command device_id command w =
    let row = new_command (codes (w.cuid w.db.minted)) device_id command w.now in
    (
      row,
      record w.db { device_commands = w.db.device_commands ++ row ∷ []; minted = suc w.db.minted },
    )

-- `sendCommandSchema`; a body without a text is as good as an empty one.
abbrev pub is_command : Text → Bool
is_command command = leb 1 (length command) && leb (length command) 1000

abbrev pub queue_for : Text → Device → Async CommandReply
queue_for command d =
    branch (is_command command) (do row ← write (add_command d.id command); pure (queued row))
      (pure (refused 400))

-- A route on one device: 404 if there is none, 403 for an admin of another company.
abbrev pub for_found :
    AdminIdentity → (Device → Async CommandReply) → Option Device → Async CommandReply
for_found admin k none = pure (refused 404)
for_found admin k (some d) = branch (may_act_for admin d.company_id) (k d) (pure (refused 403))

-- POST /:id/commands
unfoldable pub send_command : AdminIdentity → String → Text → Async CommandReply
unfolding may_act_for add_command
send_command admin id command = do
  found ← read (device_with_id id)
  for_found admin (queue_for command) found

abbrev is_command_of : String → DeviceCommand → Bool
is_command_of id c = c.device_id == id

-- GET /:id/commands; `newest_first` is the database's `ORDER BY createdAt DESC`.
unfoldable pub list_commands :
    (List DeviceCommand → List DeviceCommand) → AdminIdentity → String → Async CommandReply
unfolding may_act_for
list_commands newest_first admin id = do
  found ← read (device_with_id id)
  for_found admin
      (λ d.
        read (λ db.
          commands (take 20 (newest_first (filter (is_command_of d.id) db.device_commands)))))
      found
