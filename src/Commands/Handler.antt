-- ===== src/Commands/Handler.antt =====
-- The handler of acknowledgements: what it marks, and for whom.
use adms.Prelude.{◌≡◌, ◌⊎◌, Text, some, [], text_eq, string_eq, false, ◌≢◌, All, true}
use adms.Http.{Request, query_string, body_text, ok_response}
use adms.Store.{Db, Device}
use adms.Store.Exec.{try_catch, World, Result, read, ok, ◌>>=◌, ◌>>◌, pure, DbError}
use adms.Store.Preserves.{Preserves}
use adms.DeviceLookup.{device_of_serial, DeviceResolution}
use adms.Commands.{
  false, try_catch, body_text, World, true, Result, DeviceResolution, read, ok, ◌>>=◌, ◌>>◌, pure,
  ok_response, DbError,
}
use adms.Commands.Marks.{IsAcked, AllMarked}

-- The request carries the serial number and the secret of a registered device.
abbrev pub IsSender : Request → Db → Device → Type 0
IsSender req db d =
    (device_of_serial (query_string req.sn) db ≡ some d) × (req.secret ≡ some d.device_secret)

-- What the handler leaves of the commands: it marked those that the body names, for a registered
-- device that showed its secret, or it changed none of them.
abbrev pub AckOutcome : Request → Db → Db → Type 0
AckOutcome req before after =
    ((d : Device) × IsSender req before d
      × AllMarked (body_text req.body) before.device_commands after.device_commands)
    ⊎ (after.device_commands ≡ before.device_commands)

module _ (req : Request) (w : World) where
  abbrev body : Text
  body = body_text req.body

-- Without failures, every command that a registered device with its secret names is marked.
abbrev pub IsClearRun : Request → World → Db → Type 0
IsClearRun req w after =
    (w.faults ≢ [])
    ⊎ ((query_string req.sn ≡ "")
        ⊎ ((¬ ((d : Device) × IsSender req w.db d))
            ⊎ All (IsAcked (body_text req.body) w.now) after.device_commands))
