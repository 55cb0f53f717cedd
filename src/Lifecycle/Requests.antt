-- ===== src/Lifecycle/Requests.antt =====
-- src/adms: that every request of a device, on every path, only adds punches.
use adms.Store.Exec.{write, checked_write, Async, pure, World}
use adms.Router.{
  dropped_request, async_handler, run_endpoint, handle_error, adms_router, RouteError, Endpoint,
  run_route, Incoming, too_large, rejected, oversized, parsed, unreadable_body, unreadable,
}
use adms.Cdata.{
  raw_request, raw_data, store_attlog, store_raw, log_device_raw_data, store_push, handshake_from,
  push_from, log_raw_request, handle_cdata_get, handle_cdata_post,
}
use adms.Http.{body_text, Request, query_string}
use adms.Commands.{
  poll, acknowledge_match, acknowledge, mark_sent, has_id, poll_from, hand_out, ack_from,
  handle_get_request, handle_device_cmd,
}
use adms.Timezone.{Intl}
use adms.Store.{WebhookDelivery, DeviceCommand, Device, Db}
use adms.Prelude.{
  List, Text, Option, inl, ℕ, String, some, Bool-cases, none, Bool, arith, any, refl, inr, ◌==◌,
  ◌∷◌, [], false, string_eq, to_upper_case, codes, text_eq, ◌≡◌, ◌≤◌,
}
use adms.Store.Maintains.{
  Maintains, Maintains-write, Maintains-checked_write, Maintains-branch, Maintains-pure,
  maintain_rules, Maintains->>, Maintains->>=,
}
use adms.Lifecycle.Push.{Grows, elsewhere, store_batch-keeps}
use adms.DeviceLookup.{
  unregistered_ping, touch_device, resolve_device, pending_write, resolve_company_id_from_slug,
  touch, upsert_pending_device, resolve_unregistered, log_unregistered_ping, find_device_by_serial,
  resolve_found, PendingWrite, when_some,
}

module _ (log : List WebhookDelivery) where
  -- The writes to other tables.
  write_elsewhere :
      {A : Type 0} (f : World → A × Db)
      → ((v : World) → (f v).1.webhook_deliveries ≡ v.db.webhook_deliveries)
      → ((v : World) → (f v).1.punch_records ≡ v.db.punch_records)
      → ((v : World) → v.db.minted ≤ (f v).1.minted)
      → Maintains (Grows log) (write f)
  write_elsewhere f ds ps more =
      Maintains-write (Grows log) f
        (λ v h. elsewhere log v.cuid v.db (f v).1 (ds v) (ps v) (more v) h)

  raw_data-keeps :
      (req : Request) (id : String) (table : Option Text) (body : Text)
      → Maintains (Grows log) (write (raw_data req id table body))
  unfolding raw_data
  raw_data-keeps req id table body =
      write_elsewhere (raw_data req id table body) (λ v. refl) (λ v. refl) (λ v. omega arith)

  raw_request-keeps : (req : Request) → Maintains (Grows log) (write (raw_request req))
  unfolding raw_request
  raw_request-keeps req =
      write_elsewhere (raw_request req) (λ v. refl) (λ v. refl) (λ v. omega arith)

  dropped_request-keeps :
      (req : Request) (size limit : Option ℕ)
      → Maintains (Grows log) (write (dropped_request req size limit))
  unfolding dropped_request
  dropped_request-keeps req size limit =
      write_elsewhere (dropped_request req size limit) (λ v. refl) (λ v. refl) (λ v. omega arith)

  touch-keeps : (id : String) → Maintains (Grows log) (write (touch id))
  unfolding touch
  touch-keeps id = write_elsewhere (touch id) (λ v. refl) (λ v. refl) (λ v. omega arith)

  unregistered_ping-keeps :
      (req : Request) (sn : String) (body : Option Text)
      → Maintains (Grows log) (write (unregistered_ping req sn body))
  unfolding unregistered_ping
  unregistered_ping-keeps req sn body =
      write_elsewhere (unregistered_ping req sn body) (λ v. refl) (λ v. refl) (λ v. omega arith)

  pending_write-keeps :
      (sn : String) (k : PendingWrite) → Maintains (Grows log) (write (pending_write sn k))
  unfolding pending_write
  pending_write-keeps sn k =
      write_elsewhere (pending_write sn k) (λ v. refl) (λ v. refl) (λ v. omega arith)

  mark_sent-keeps : (ids : List Text) → Maintains (Grows log) (write (mark_sent ids))
  unfolding mark_sent
  mark_sent-keeps ids = write_elsewhere (mark_sent ids) (λ v. refl) (λ v. refl) (λ v. omega arith)

  acknowledge-keeps : (id body : Text) → Maintains (Grows log) (checked_write (acknowledge id body))
  unfolding acknowledge
  acknowledge-keeps id body = Maintains-checked_write (Grows log) (acknowledge id body) (λ v h.
      elim (Bool-cases (any (has_id id) v.db.device_commands)) [
        | inl found ↦ rw found (elsewhere log v.cuid v.db _ refl refl (omega arith) h)
        | inr missing ↦ rw missing h
      ])

  -- The parts of the handlers.
  when_some-keeps :
      (o : Option String) (f : String → Async Bool)
      → ((s : String) → Maintains (Grows log) (f s))
      → Maintains (Grows log) (when_some o f)
  when_some-keeps none f kept = record { from = λ w h. h }
  when_some-keeps (some s) f kept =
      Maintains-branch (Grows log) (s == "") (pure false) (f s) (Maintains-pure (Grows log) false)
        (kept s)

  resolve_company-keeps :
      (slug : Option Text) → Maintains (Grows log) (resolve_company_id_from_slug slug)
  unfolding resolve_company_id_from_slug
  resolve_company-keeps none = search maintain_rules
  resolve_company-keeps (some slug) = search maintain_rules

  upsert_pending_device-keeps :
      (sn : String) (secret company : Option String)
      → Maintains (Grows log) (upsert_pending_device sn secret company)
  unfolding upsert_pending_device
  upsert_pending_device-keeps sn secret company =
      search (maintain_rules, pending_write-keeps, when_some-keeps) depth 12

  resolve_unregistered-keeps :
      (req : Request) (sn : String) (body : Option Text)
      → Maintains (Grows log) (resolve_unregistered req sn body)
  unfolding resolve_unregistered log_unregistered_ping
  resolve_unregistered-keeps req sn body =
      search
        (
          maintain_rules, resolve_company-keeps, upsert_pending_device-keeps,
          unregistered_ping-keeps,
        )
        depth 12

  resolve_found-keeps :
      (req : Request) (sn : String) (body : Option Text) (found : Option Device)
      → Maintains (Grows log) (resolve_found req sn body found)
  resolve_found-keeps req sn body none = resolve_unregistered-keeps req sn body
  resolve_found-keeps req sn body (some d) = search maintain_rules

  resolve_device-keeps :
      (req : Request) (body : Option Text) → Maintains (Grows log) (resolve_device req body)
  unfolding resolve_device find_device_by_serial
  resolve_device-keeps req body = search (maintain_rules, resolve_found-keeps)

  touch_device-keeps : (id : String) → Maintains (Grows log) (touch_device id)
  unfolding touch_device
  touch_device-keeps id = search (maintain_rules, touch-keeps)

  module _ (intl : Intl) where
    store_push-keeps :
        (req : Request) (d : Device) (body : Text)
        → Maintains (Grows log) (store_push intl req d body)
    unfolding store_attlog store_raw log_device_raw_data
    store_push-keeps req d body =
        let table = to_upper_case (codes (query_string req.table)) in
        record {
          from = λ w h.
              (Maintains-branch (Grows log) (table == codes "ATTLOG") _
                  (store_raw req d.id table body) (store_batch-keeps log _)
                  (search (maintain_rules, raw_data-keeps))).from
                w h;
        }

    push_from-keeps :
        (req : Request) (body : Text) (device : Option Device) (trusted : Bool)
        → Maintains
            (Grows log)
            (push_from intl req body (record { device = device; trusted = trusted }))
    push_from-keeps req body none trusted = record { from = λ w h. h }
    push_from-keeps req body (some d) trusted =
        Maintains-branch (Grows log) trusted _ _
          (search (maintain_rules, touch_device-keeps, store_push-keeps)) (search maintain_rules)

    handshake_from-keeps :
        (device : Option Device) (trusted : Bool)
        → Maintains
            (Grows log)
            (handshake_from intl (record { device = device; trusted = trusted }))
    handshake_from-keeps none trusted = record { from = λ w h. h }
    handshake_from-keeps (some d) trusted =
        Maintains-branch (Grows log) trusted _ _
          (Maintains->> (Grows log) _ _ (touch_device-keeps d.id) (record { from = λ w h. h }))
          (search maintain_rules)

  hand_out-keeps : (cs : List DeviceCommand) → Maintains (Grows log) (hand_out cs)
  hand_out-keeps [] = search maintain_rules
  hand_out-keeps (c ∷ cs) = search (maintain_rules, mark_sent-keeps)

  poll_from-keeps :
      (device : Option Device) (trusted : Bool)
      → Maintains (Grows log) (poll_from (record { device = device; trusted = trusted }))
  unfolding poll
  poll_from-keeps none trusted = record { from = λ w h. h }
  poll_from-keeps (some d) trusted =
      Maintains-branch (Grows log) trusted _ _
        (search (maintain_rules, touch_device-keeps, hand_out-keeps)) (search maintain_rules)

  acknowledge_match-keeps :
      (id : Option Text) (body : Text) → Maintains (Grows log) (acknowledge_match id body)
  unfolding acknowledge_match
  acknowledge_match-keeps none body = search maintain_rules
  acknowledge_match-keeps (some id) body = search (maintain_rules, acknowledge-keeps)

  ack_from-keeps :
      (body : Text) (device : Option Device) (trusted : Bool)
      → Maintains (Grows log) (ack_from body (record { device = device; trusted = trusted }))
  ack_from-keeps body none trusted = record { from = λ w h. h }
  ack_from-keeps body (some d) trusted =
      Maintains-branch (Grows log) trusted _ _
        (search (maintain_rules, touch_device-keeps, acknowledge_match-keeps))
        (search maintain_rules)

  -- Routes, the wrapper of handlers and the error middleware.
  handle_error-keeps : (req : Request) (e : RouteError) → Maintains (Grows log) (handle_error req e)
  unfolding handle_error
  handle_error-keeps req (too_large size limit) = search (maintain_rules, dropped_request-keeps)
  handle_error-keeps req unreadable_body = search maintain_rules
  handle_error-keeps req (rejected e) = search maintain_rules

  module _ (intl : Intl) where
    run_endpoint-keeps :
        (endpoint : Endpoint) (req : Request)
        → Maintains (Grows log) (run_endpoint intl endpoint req)
    unfolding run_endpoint handle_cdata_get handle_cdata_post handle_get_request handle_device_cmd
    run_endpoint-keeps Endpoint.cdata_get req =
        Maintains->>= (Grows log) _ _ (resolve_device-keeps req none)
          (λ r. handshake_from-keeps intl r.device r.trusted)
    run_endpoint-keeps Endpoint.cdata_post req =
        Maintains->>= (Grows log) _ _ (resolve_device-keeps req (some (body_text req.body)))
          (λ r. push_from-keeps intl req (body_text req.body) r.device r.trusted)
    run_endpoint-keeps Endpoint.get_request req =
        Maintains->>= (Grows log) _ _ (resolve_device-keeps req none)
          (λ r. poll_from-keeps r.device r.trusted)
    run_endpoint-keeps Endpoint.device_cmd req =
        Maintains->>= (Grows log) _ _ (resolve_device-keeps req (some (body_text req.body)))
          (λ r. ack_from-keeps (body_text req.body) r.device r.trusted)
    run_endpoint-keeps Endpoint.test req = search maintain_rules

    run_route-keeps :
        (req : Request) (endpoint : Option Endpoint)
        → Maintains (Grows log) (run_route intl req endpoint)
    unfolding async_handler
    run_route-keeps req none = search maintain_rules
    run_route-keeps req (some endpoint) =
        search (maintain_rules, run_endpoint-keeps, handle_error-keeps)

    pub adms_router-keeps : (req : Incoming) → Maintains (Grows log) (adms_router intl req)
    unfolding adms_router log_raw_request
    adms_router-keeps (oversized req size limit) = search (maintain_rules, handle_error-keeps)
    adms_router-keeps (unreadable req) = search maintain_rules
    adms_router-keeps (parsed req) = search (maintain_rules, raw_request-keeps, run_route-keeps)
