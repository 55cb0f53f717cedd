-- ===== src/Commands/Sender.antt =====
-- That the look-up of a sender leaves the commands alone.
use adms.Prelude.{
  ◌≡◌, String, Text, Bool, Option, none, some, List, text_eq, string_eq, ◌==◌, false,
}
use adms.Http.{Request}
use adms.Store.{Db, Device, DeviceCommand}
use adms.Store.Exec.{Async, write, pure}
use adms.Store.Preserves.{
  Preserves, preserve_rules, Preserves-write, Preserves-branch, Preserves-pure,
}
use adms.DeviceLookup.{
  PendingWrite, resolve_device, resolve_found, resolve_unregistered, find_device_by_serial,
  upsert_pending_device, pending_write, when_some, log_unregistered_ping, unregistered_ping,
  resolve_company_id_from_slug,
}
use adms.Commands.{pure, false}

-- The commands stay as they are while the sender is looked up.
module _ (cs : List DeviceCommand) where
  abbrev Same : Db → Type 0
  Same db = db.device_commands ≡ cs

  pending_write-Same :
      (sn : String) (k : PendingWrite) → Preserves Same (write (pending_write sn k))
  unfolding pending_write
  pending_write-Same sn k = Preserves-write Same (pending_write sn k) (λ v h. h)

  ping-Same :
      (req : Request) (sn : String) (body : Option Text)
      → Preserves Same (write (unregistered_ping req sn body))
  unfolding unregistered_ping
  ping-Same req sn body = Preserves-write Same (unregistered_ping req sn body) (λ v h. h)

  when_some-Same :
      (o : Option String) (f : String → Async Bool)
      → ((s : String) → Preserves Same (f s))
      → Preserves Same (when_some o f)
  when_some-Same none f kept = record { from = λ w h. h }
  when_some-Same (some s) f kept =
      Preserves-branch Same (s == "") (pure false) (f s) (Preserves-pure Same false) (kept s)

  company-Same : (slug : Option Text) → Preserves Same (resolve_company_id_from_slug slug)
  unfolding resolve_company_id_from_slug
  company-Same none = search preserve_rules
  company-Same (some slug) = search preserve_rules

  upsert-Same :
      (sn : String) (secret company : Option String)
      → Preserves Same (upsert_pending_device sn secret company)
  unfolding upsert_pending_device
  upsert-Same sn secret company =
      search (preserve_rules, pending_write-Same, when_some-Same) depth 12

  resolve_found-Same :
      (req : Request) (sn : String) (body : Option Text) (found : Option Device)
      → Preserves Same (resolve_found req sn body found)
  unfolding resolve_unregistered log_unregistered_ping
  resolve_found-Same req sn body none =
      search (preserve_rules, company-Same, upsert-Same, ping-Same) depth 12
  resolve_found-Same req sn body (some d) = search preserve_rules

  pub resolve_device-Same :
      (req : Request) (body : Option Text) → Preserves Same (resolve_device req body)
  unfolding resolve_device find_device_by_serial
  resolve_device-Same req body = search (preserve_rules, resolve_found-Same)
