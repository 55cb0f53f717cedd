-- ===== src/Commands.antt =====
-- src/adms/getrequest.ts and src/adms/devicecmd.ts: the queue of commands for a device.
pub mod Queue
pub mod Acks
pub mod Sender
pub mod Marks
pub mod Handler
use adms.Prelude.{
  sort_by, ℕ, zero, suc, String, Text, codes, Bool, true, false, ◌&&◌, not, Option, none, some,
  List, [], ◌∷◌, ◌++◌, map, filter, take, any, includes, ◌==◌, string_eq, text_eq, eqb, leb,
  if◌then◌else◌, is_space, is_empty, strip_prefix, take_while,
}
use adms.Http.{Request, Response, body_text, ok_response, send_plain_text}
use adms.Store.{Db, DeviceCommand, DeviceCommandStatus, Device}
use adms.Store.Exec.{
  World, Result, ok, thrown, DbError, known_request, Async, pure, branch, ◌>>=◌, ◌>>◌, try_catch,
  read, write, checked_write,
}
use adms.DeviceLookup.{
  DeviceResolution, resolve_device, touch_device, send_rejected, send_unclaimed,
}

abbrev pub is_pending : DeviceCommandStatus → Bool
is_pending DeviceCommandStatus.pending = true
is_pending DeviceCommandStatus.sent = false
is_pending DeviceCommandStatus.acked = false
is_pending DeviceCommandStatus.failed = false

abbrev pub waits_for : String → DeviceCommand → Bool
waits_for device_id c = c.device_id == device_id && is_pending c.status

abbrev pub command_time : DeviceCommand → ℕ
command_time c = c.created_at

-- The commands that one poll hands out: `orderBy: { createdAt: "asc" }`, `take: 10`.
unfoldable pub next_commands : String → List DeviceCommand → List DeviceCommand
unfolding sort_by
next_commands device_id cs = take 10 (sort_by command_time (filter (waits_for device_id) cs))

abbrev command_id : DeviceCommand → Text
command_id c = c.id

unfoldable pub set_sent : List Text → ℕ → DeviceCommand → DeviceCommand
set_sent ids now c =
    if includes ids c.id
    then record c { status = DeviceCommandStatus.sent; sent_at = some now }
    else c

unfoldable pub mark_sent : List Text → World → Unit {0} × Db
unfolding set_sent
mark_sent ids w = (tt, record db { device_commands = map (set_sent ids w.now) db.device_commands })
  where
    open w use {db}

-- "C:<id>:<command>", one to a line.
unfoldable pub command_lines : List DeviceCommand → Text
command_lines [] = []
command_lines (c ∷ cs) =
    codes "C:" ++ (c.id ++ (codes ":" ++ (c.command ++ (codes "\n" ++ command_lines cs))))

abbrev pub hand_out : List DeviceCommand → Async Response
hand_out [] = pure ok_response
hand_out (c ∷ cs) = do
  write (mark_sent (map command_id (c ∷ cs)))
  pure (send_plain_text (command_lines (c ∷ cs)) 200)

unfoldable pub poll : String → Async Response
unfolding next_commands mark_sent command_lines
poll device_id = do
  pending ← read (λ db. next_commands device_id db.device_commands)
  hand_out pending

abbrev pub poll_from : DeviceResolution → Async Response
poll_from r w = elim r.device [
  | none ↦ pure ok_response w
  | some d ↦ branch r.trusted (do touch_device d.id; poll d.id) (pure send_rejected) w
]

-- GET /iclock/getrequest
unfoldable pub handle_get_request : Request → Async Response
handle_get_request req = do r ← resolve_device req none; poll_from r

abbrev pub in_id : ℕ → Bool
in_id c = not (eqb c b'&') && not (is_space c)

abbrev id_here : Option Text → Option Text
id_here none = none
id_here (some rest) = let id = take_while in_id rest in if is_empty id then none else some id

abbrev first_match : Option Text → Option Text → Option Text
first_match none later = later
first_match (some id) later = some id

-- `/ID=([^&\s]+)/.exec(body)`, its group
unfoldable pub id_match : Text → Option Text
unfolding strip_prefix take_while is_empty is_space
id_match [] = none
id_match (c ∷ s) = first_match (id_here (strip_prefix (codes "ID=") (c ∷ s))) (id_match s)

abbrev pub has_id : Text → DeviceCommand → Bool
has_id id c = c.id == id

unfoldable pub set_acked : Text → Text → ℕ → DeviceCommand → DeviceCommand
set_acked id body now c =
    if c.id == id
    then record c { status = DeviceCommandStatus.acked; acked_at = some now; response = some body }
    else c

-- `update` of one row, which fails with P2025 where there is none.
unfoldable pub acknowledge : Text → Text → World → Result (Unit {0}) × Db
unfolding set_acked
acknowledge id body w =
    if any (has_id id) db.device_commands
    then (ok tt, record db { device_commands = map (set_acked id body w.now) db.device_commands })
    else (thrown (known_request "P2025"), db)
  where
    open w use {db}

unfoldable pub acknowledge_match : Option Text → Text → Async (Unit {0})
unfolding acknowledge
acknowledge_match none body = pure tt
acknowledge_match (some id) body = try_catch (checked_write (acknowledge id body)) (λ e. pure tt)

abbrev pub ack_from : Text → DeviceResolution → Async Response
ack_from body r w = elim r.device [
  | none ↦ pure send_unclaimed w
  | some d ↦
      branch r.trusted
        (do touch_device d.id; acknowledge_match (id_match body) body; pure ok_response)
        (pure send_rejected) w
]

-- POST /iclock/devicecmd
unfoldable pub handle_device_cmd : Request → Async Response
unfolding id_match acknowledge_match
handle_device_cmd req =
    let body = body_text req.body in do r ← resolve_device req (some body); ack_from body r
