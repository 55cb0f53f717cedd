-- ===== src/Cdata/Push.antt =====
-- A push of punches by a known device, from the request to the answer.
use adms.Cdata.Batch.{store_attlog_answer}
use adms.Store.Total.{>>=-eq-ok, >>=-of-ok}
use adms.Punches.{PunchData}
use adms.Timezone.{Intl}
use adms.Prelude.{
  ◌-◌, text_eq, to_upper_case, codes, ℕ, ◌≤◌, ◌≡◌, ◌≢◌, refl, ap, ◌∙◌, String, Text, Bool, true,
  false, Option, none, some, List, [], ◌∷◌, arith, eq_iff, string_eq, ◌&&◌, sym,
}
use adms.Http.{Request, Response, query_string, body_text}
use adms.Store.{Db, Device}
use adms.Store.Exec.{
  continue_with, Async, pure, branch, ◌>>=◌, ◌>>◌, World, ok, DbError, try_catch, read, write,
}
use adms.DeviceLookup.{
  find_device_by_serial, device_of_serial, resolve_found, is_device_request_trusted,
  DeviceResolution, touch_device, resolve_device,
}
use adms.Cdata.{
  handle_cdata_post, push_from, store_push, store_attlog, store_raw, attlog_rows, non_empty_url,
  acknowledge, Intl, resolve_device, PunchData, body_text,
}
use adms.Cdata.Ack.{IsGenuine, data_faults, missing}

abbrev rest_of : List (Option DbError) → List (Option DbError)
rest_of [] = []
rest_of (f ∷ l) = l

rest_of-IsGenuine : (l : List (Option DbError)) → IsGenuine l → IsGenuine (rest_of l)
rest_of-IsGenuine [] g = tt
rest_of-IsGenuine (none ∷ l) g = g
rest_of-IsGenuine (some e ∷ l) g = g.1

data_faults-rest_of : (l : List (Option DbError)) → data_faults (rest_of l) ≤ data_faults l
unfolding data_faults
data_faults-rest_of [] = omega arith
data_faults-rest_of (none ∷ l) = omega arith
data_faults-rest_of (some e ∷ l) = ground arith

-- The resolution of a request that comes from a registered device and carries its secret.
abbrev known : Device → DeviceResolution
known d = record { device = some d; trusted = true }

module _ (req : Request) (body : Option Text) (d : Device) (db : Db) (now : ℕ)
    (cuid : ℕ → String) where
  found-known :
      (v : World)
      → req.secret ≡ some d.device_secret
      → resolve_found req (query_string req.sn) body (some d) v ≡ (ok (known d), v)
  unfolding is_device_request_trusted
  found-known v s = ground (arith, eq_iff d.device_secret d.device_secret)

  find_device-known :
      (l : List (Option DbError)) (o : Option Device) (v : World)
      → query_string req.sn ≢ ""
      → device_of_serial (query_string req.sn) db ≡ some d
      → find_device_by_serial
          (query_string req.sn)
          (record { db = db; now = now; faults = l; cuid = cuid })
        ≡ (ok o, v)
      → (o ≡ some d) × (v ≡ record { db = db; now = now; faults = rest_of l; cuid = cuid })
  unfolding find_device_by_serial read
  find_device-known [] o v ne f h = ground (arith, eq_iff (query_string req.sn) "")
  find_device-known (none ∷ l) o v ne f h = ground (arith, eq_iff (query_string req.sn) "")
  find_device-known (some e ∷ l) o v ne f h = ground (arith, eq_iff (query_string req.sn) "")

touch_device-runs :
    (id : String) (db : Db) (now : ℕ) (cuid : ℕ → String) (l : List (Option DbError))
    → (after : Db) × (touch_device id (record { db = db; now = now; faults = l; cuid = cuid })
        ≡ (ok tt, record { db = after; now = now; faults = rest_of l; cuid = cuid }))
unfolding touch_device write try_catch
touch_device-runs id db now cuid [] = (_, refl)
touch_device-runs id db now cuid (none ∷ l) = (_, refl)
touch_device-runs id db now cuid (some e ∷ l) = (_, refl)

acknowledge-200 :
    (stored : Bool) (r : Response) → acknowledge stored ≡ r → r.status ≡ 200 → stored ≡ true
acknowledge-200 true r e h = refl
acknowledge-200 false r e h =
    absurd (let stop : 500 ≡ 200 = ap (λ t. t.status) e ∙ h in omega (arith, stop))

module _ (intl : Intl) (req : Request) (d : Device) (body : Text) where
  abbrev pub active : Bool
  active = d.webhook_enabled && non_empty_url d.webhook_url

  -- The rows that the request's body carries.
  abbrev pub pushed : List PunchData
  pushed = attlog_rows intl d.id active d.timezone body

  store_push-attlog :
      (w : World)
      → to_upper_case (codes (query_string req.table)) ≡ codes "ATTLOG"
      → store_push intl req d body w ≡ store_attlog intl d.id active d.timezone body w
  store_push-attlog w e =
      ap
        (λ b.
          branch b (store_attlog intl d.id active d.timezone body)
            (store_raw req d.id (to_upper_case (codes (query_string req.table))) body) w)
        ((text_eq.same_iff (to_upper_case (codes (query_string req.table))) (codes "ATTLOG")).1 e)

  abbrev answer_push : Async Response
  answer_push = store_push intl req d body >>= λ stored. pure (acknowledge stored)

  answer_push-200 :
      (w : World) (r : Response)
      → IsGenuine w.faults
      → to_upper_case (codes (query_string req.table)) ≡ codes "ATTLOG"
      → (answer_push w).0 ≡ ok r
      → r.status ≡ 200
      → missing pushed (answer_push w).1.db ≤ data_faults w.faults - 1
  answer_push-200 w r g t h two =
      let (stored, v, e, k) =
        >>=-eq-ok (store_push intl req d body) (λ stored. pure (acknowledge stored)) w h in
      let answered : acknowledge stored ≡ r = cc in
      let yes = acknowledge-200 stored r answered two in
      let same = store_push-attlog w t in
      let (b, eb, few, _, _) = store_attlog_answer intl d.id active d.timezone body w g in
      let b_yes : b ≡ true = cc in
      let after : (answer_push w).1.db ≡ (store_attlog intl d.id active d.timezone body w).1.db =
        ap (λ t. t.1.db)
          (>>=-of-ok (store_push intl req d body) (λ stored. pure (acknowledge stored)) w v e)
        ∙ (ap (λ t. t.1.db) (sym e) ∙ ap (λ t. t.1.db) same) in
      rw after (few b_yes)

  push_from-200 :
      (db : Db) (now : ℕ) (cuid : ℕ → String) (l : List (Option DbError)) (r : Response)
      → IsGenuine l
      → to_upper_case (codes (query_string req.table)) ≡ codes "ATTLOG"
      → (push_from intl req body
          (known d)
          (record { db = db; now = now; faults = l; cuid = cuid })).0
        ≡ ok r
      → r.status ≡ 200
      → missing pushed
          (push_from intl req body
            (known d)
            (record { db = db; now = now; faults = l; cuid = cuid })).1.db
        ≤ data_faults (rest_of l) - 1
  unfolding ◌>>◌
  push_from-200 db now cuid l r g t h two =
      let (after, run) = touch_device-runs d.id db now cuid l in
      let next : push_from intl req body (known d)
            (record { db = db; now = now; faults = l; cuid = cuid })
          ≡ answer_push (record { db = after; now = now; faults = rest_of l; cuid = cuid }) =
        ap (λ t. continue_with (λ _. answer_push) t) run in
      rw next (
        answer_push-200 (record { db = after; now = now; faults = rest_of l; cuid = cuid }) r
          (rest_of-IsGenuine l g) t (ap (λ t. t.0) (sym next) ∙ h) two)

-- A device that is registered, and pushes punches under its serial number and with its secret, is
-- told 200 only if the table holds every punch of the body, except for fewer than the statements
-- that failed with a data error, whatever other statements fail.
pub handle_cdata_post-200 :
    (intl : Intl) (req : Request) (d : Device) (w : World) (r : Response)
    → IsGenuine w.faults
    → query_string req.sn ≢ ""
    → device_of_serial (query_string req.sn) w.db ≡ some d
    → req.secret ≡ some d.device_secret
    → to_upper_case (codes (query_string req.table)) ≡ codes "ATTLOG"
    → (handle_cdata_post intl req w).0 ≡ ok r
    → r.status ≡ 200
    → missing (pushed intl req d (body_text req.body)) (handle_cdata_post intl req w).1.db
      ≤ data_faults w.faults - 1
unfolding handle_cdata_post resolve_device
handle_cdata_post-200 intl req d w r g ne f s t h two =
    let body = body_text req.body in
    let sn = query_string req.sn in
    let (res, u, e₁, h₁) =
      >>=-eq-ok (resolve_device req (some body)) (push_from intl req body) w h in
    let (o, v, e, k) =
      >>=-eq-ok (find_device_by_serial sn) (resolve_found req sn (some body)) w
        (ap (λ t. t.0) e₁) in
    let (eo, ev) = find_device-known req (some body) d w.db w.now w.cuid w.faults o v ne f e in
    let resolved = >>=-of-ok (find_device_by_serial sn) (resolve_found req sn (some body)) w v e in
    let settled : resolve_device req (some body) w ≡ (ok (known d), v) =
      resolved
      ∙ (ap (λ t. resolve_found req sn (some body) t v) eo
          ∙ found-known req (some body) d w.db w.now w.cuid v s) in
    let whole : handle_cdata_post intl req w
        ≡ push_from intl req body (known d)
            (record { db = w.db; now = w.now; faults = rest_of w.faults; cuid = w.cuid }) =
      >>=-of-ok (resolve_device req (some body)) (push_from intl req body) w v settled
      ∙ ap (push_from intl req body (known d)) ev in
    let few =
      push_from-200 intl req d body w.db w.now w.cuid (rest_of w.faults) r
        (rest_of-IsGenuine w.faults g) t (ap (λ t. t.0) (sym whole) ∙ h) two in
    let le = data_faults-rest_of w.faults in
    let le₂ = data_faults-rest_of (rest_of w.faults) in rw whole (omega (arith, few, le, le₂))
