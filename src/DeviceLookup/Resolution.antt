-- ===== src/DeviceLookup/Resolution.antt =====
-- What `resolveDevice` answers, and what it leaves alone.
use adms.Store.{Db, Device}
use adms.Store.Exec.{World, ok, read, DbError, thrown}
use adms.Prelude.{
  Bool, Option, none, some, String, Text, string_eq, ◌≡◌, true, ◌↔◌, arith, eq_iff, ◌⊎◌, false, inr,
  List, ◌∷◌, refl, inl, sym,
}
use adms.Http.{Request, query_string}
use adms.Store.Total.{NeverThrows, total_rules, >>=-eq-ok, >>=-eq-thrown, >>=-of-ok}
use adms.DeviceLookup.{
  resolve_unregistered, resolve_company_id_from_slug, upsert_pending_device, log_unregistered_ping,
  log_if, is_device_request_trusted, DeviceResolution, device_of_serial, unregistered,
  find_device_by_serial, resolve_found, resolve_device,
}

resolve_company_id_from_slug-total :
    (slug : Option Text) → NeverThrows (resolve_company_id_from_slug slug)
unfolding resolve_company_id_from_slug
resolve_company_id_from_slug-total none = search total_rules
resolve_company_id_from_slug-total (some slug) = search total_rules

upsert_pending_device-total :
    (sn : String) (secret company : Option String)
    → NeverThrows (upsert_pending_device sn secret company)
unfolding upsert_pending_device
upsert_pending_device-total sn secret company = search total_rules

log_if-total :
    (b : Bool) (req : Request) (sn : String) (body : Option Text)
    → NeverThrows (log_if b (log_unregistered_ping req sn body))
unfolding log_unregistered_ping
log_if-total b req sn body = search total_rules

pub resolve_unregistered-total :
    (req : Request) (sn : String) (body : Option Text)
    → NeverThrows (resolve_unregistered req sn body)
unfolding resolve_unregistered
resolve_unregistered-total req sn body =
    search
      (total_rules, resolve_company_id_from_slug-total, upsert_pending_device-total, log_if-total)

-- What `resolveDevice` may answer in the world `w`: a device that the database holds under the
-- request's serial number, trusted exactly if the request carries its secret, with the database
-- untouched; or nobody, untrusted, where the database holds none under it.
abbrev pub Answer : Request → World → DeviceResolution → Db → Type 0
Answer req w r after =
    ((d : Device) × (r.device ≡ some d)
      × (device_of_serial (query_string req.sn) w.db ≡ some d)
      × ((r.trusted ≡ true) ↔ (req.secret ≡ some d.device_secret))
      × (after ≡ w.db))
    ⊎ ((r.device ≡ none)
        × (r.trusted ≡ false)
        × ((query_string req.sn ≡ "") ⊎ (device_of_serial (query_string req.sn) w.db ≡ none)))

pub trusted_iff :
    (secret : String) (given : Option String)
    → (is_device_request_trusted secret given ≡ true) ↔ (given ≡ some secret)
unfolding is_device_request_trusted
trusted_iff secret none = (λ e. cc, λ e. cc)
trusted_iff secret (some g) = ground (arith, eq_iff secret g)

resolve_unregistered-answer :
    (req : Request) (sn : String) (body : Option Text) (w : World) (r : DeviceResolution)
    → (resolve_unregistered req sn body w).0 ≡ ok r
    → r ≡ unregistered
unfolding resolve_unregistered
resolve_unregistered-answer req sn body w r h =
    let (company, v₁, e₁, h₁) = >>=-eq-ok _ _ w h in
    let (is_new, v₂, e₂, h₂) = >>=-eq-ok _ _ v₁ h₁ in
    let (logged, v₃, e₃, h₃) = >>=-eq-ok _ _ v₂ h₂ in cc

find_device_by_serial-answer :
    (sn : String) (w v : World) (o : Option Device)
    → find_device_by_serial sn w ≡ (ok o, v)
    → (v.db ≡ w.db) × (((sn ≡ "") × (o ≡ none)) ⊎ (o ≡ device_of_serial sn w.db))
unfolding find_device_by_serial read
find_device_by_serial-answer sn w v o h = ground (arith, eq_iff sn "")

resolve_found-Answer :
    (req : Request) (body : Option Text) (w v : World) (o : Option Device) (r : DeviceResolution)
    → v.db ≡ w.db
    → ((query_string req.sn ≡ "") × (o ≡ none)) ⊎ (o ≡ device_of_serial (query_string req.sn) w.db)
    → (resolve_found req (query_string req.sn) body o v).0 ≡ ok r
    → Answer req w r (resolve_found req (query_string req.sn) body o v).1.db
resolve_found-Answer req body w v none r same found h =
    let e = resolve_unregistered-answer req (query_string req.sn) body v r h in
    inr (ground arith, ground arith, absent found)
  where
    absent :
        ((query_string req.sn ≡ "") × (◌≡◌ {A = Option Device} none none))
          ⊎ (none ≡ device_of_serial (query_string req.sn) w.db)
        → (query_string req.sn ≡ "") ⊎ (device_of_serial (query_string req.sn) w.db ≡ none)
    absent (inl (empty, _)) = inl empty
    absent (inr missing) = inr (sym missing)
resolve_found-Answer req body w v (some d) r same found h =
    inl
      (d, ground arith, ground arith, ground (arith, trusted_iff d.device_secret req.secret), same)

-- Whatever statements fail, what `resolveDevice` returns is one of the two answers.
pub resolve_device-Answer :
    (req : Request) (body : Option Text) (w : World) (r : DeviceResolution)
    → (resolve_device req body w).0 ≡ ok r
    → Answer req w r (resolve_device req body w).1.db
unfolding resolve_device
resolve_device-Answer req body w r h =
    let (o, v, e, k) = >>=-eq-ok (find_device_by_serial (query_string req.sn)) _ w h in
    let (same, found) = find_device_by_serial-answer (query_string req.sn) w v o e in
    rw
      (>>=-of-ok (find_device_by_serial (query_string req.sn))
        (resolve_found req (query_string req.sn) body) w v e)
      (resolve_found-Answer req body w v o r same found k)

resolve_found-total :
    (req : Request) (body : Option Text) (o : Option Device)
    → NeverThrows (resolve_found req (query_string req.sn) body o)
resolve_found-total req body none = record {
  returns = λ w. (resolve_unregistered-total req (query_string req.sn) body).returns w;
}
resolve_found-total req body (some d) = record { returns = λ w. (_, refl) }

find_device_by_serial-throws :
    (sn : String) (w : World) (x : DbError)
    → (find_device_by_serial sn w).0 ≡ thrown x
    → (l : List (Option DbError)) × (w.faults ≡ some x ∷ l)
unfolding find_device_by_serial read
find_device_by_serial-throws sn w x h = ground (arith, eq_iff sn "")

-- It rejects only where its first statement, the search for the serial number, fails.
pub resolve_device-throws :
    (req : Request) (body : Option Text) (w : World) (x : DbError)
    → (resolve_device req body w).0 ≡ thrown x
    → (l : List (Option DbError)) × (w.faults ≡ some x ∷ l)
unfolding resolve_device
resolve_device-throws req body w x h = find_device_by_serial-throws (query_string req.sn) w x (
    >>=-eq-thrown (find_device_by_serial (query_string req.sn)) _ w (resolve_found-total req body)
      h)
