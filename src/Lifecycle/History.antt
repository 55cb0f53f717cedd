-- ===== src/Lifecycle/History.antt =====
-- The requests of devices, the ticks of the worker, and the panel's retries and deletions, in any
-- order: what they make of the punches and of the delivery log.
use adms.Accounts.Companies.{remove_company}
use adms.Devices.Edit.{remove}
use adms.Access.{AdminIdentity}
use adms.PunchRecords.{delete_one, retry, retry_bulk, delete_bulk}
use adms.Worker.Loop.{Dispatch, tick}
use adms.Router.{Incoming, adms_router}
use adms.Store.{Db}
use Prim.Native.Nat.{ℕ}
use adms.Store.Exec.{World}
use adms.Timezone.{Intl}
use adms.Prelude.{◌∷◌, [], ℕ, List, String, Bool, refl}
use adms.Lifecycle.Sound.{Sound}
use adms.Lifecycle.Panel.{
  tick-Sound, retry-Sound, retry_bulk-Sound, delete_one-Sound, delete_bulk-Sound, remove-Sound,
  remove_company-Sound,
}
use adms.Lifecycle.Push.{GivesNew}
use adms.Lifecycle.Requests.{adms_router-keeps}
use adms.Accounts.History.{Moment, at_moment}

pub data Step : Type 0 where
  device_request : Intl → Incoming → Step
  worker_tick :
      Dispatch
      → (locked : List String) → (batch_size : ℕ) → (stopping : List String → Bool)
      → (next_sweep_at : ℕ) → Step
  retry_punch : AdminIdentity → String → Step
  retry_punches : AdminIdentity → List String → Step
  delete_punch : AdminIdentity → String → Step
  delete_punches : AdminIdentity → List String → Step
  remove_device : AdminIdentity → String → Step
  remove_owner : AdminIdentity → (company : String) → Step

-- The database that a step leaves.
unfoldable pub handle : Step → World → Db
handle (device_request intl req) w = (adms_router intl req w).1.db
handle (worker_tick dispatch locked n stopping next) w =
    (tick dispatch locked n stopping next w).1.db
handle (retry_punch admin id) w = (retry admin id w).1.db
handle (retry_punches admin ids) w = (retry_bulk admin ids w).1.db
handle (delete_punch admin id) w = (delete_one admin id w).1.db
handle (delete_punches admin ids) w = (delete_bulk admin ids w).1.db
handle (remove_device admin id) w = (remove admin id w).1.db
handle (remove_owner admin id) w = (remove_company admin id w).1.db

unfoldable pub handle_all : List (Step × Moment) → Db → Db
unfolding handle
handle_all [] db = db
handle_all ((step, m) ∷ steps) db = handle_all steps (handle step (at_moment m db))

-- The ids that a request of a device is given are new at that time.
abbrev pub IsGivenNew : Step → (ℕ → String) → Db → Type 0
IsGivenNew (device_request intl req) cuid db =
    GivesNew cuid db.webhook_deliveries db.punch_records db.minted
IsGivenNew _ cuid db = Unit

abbrev pub GiveNewIds : List (Step × Moment) → Db → Type 0
GiveNewIds [] db = Unit
GiveNewIds ((step, m) ∷ steps) db =
    IsGivenNew step m.cuid db × GiveNewIds steps (handle step (at_moment m db))

handle-Sound :
    (step : Step) (w : World) → IsGivenNew step w.cuid w.db → Sound w.db → Sound (handle step w)
unfolding handle
handle-Sound (device_request intl req) w new h =
    let grown =
      (adms_router-keeps w.db.webhook_deliveries intl req).from w
        (record { same_log = refl; counted = h.counted.counted; keys = h.keys; new_ids = new }) in
    record { counted = record { counted = rw grown.same_log grown.counted }; keys = grown.keys }
handle-Sound (worker_tick dispatch locked n stopping next) w new h =
    (tick-Sound dispatch locked n stopping next).from w h
handle-Sound (retry_punch admin id) w new h = (retry-Sound admin id).from w h
handle-Sound (retry_punches admin ids) w new h = (retry_bulk-Sound admin ids).from w h
handle-Sound (delete_punch admin id) w new h = (delete_one-Sound admin id).from w h
handle-Sound (delete_punches admin ids) w new h = (delete_bulk-Sound admin ids).from w h
handle-Sound (remove_device admin id) w new h = (remove-Sound admin id).from w h
handle-Sound (remove_owner admin id) w new h = (remove_company-Sound admin id).from w h

-- Whatever devices send, whatever webhooks answer, whatever admins retry or delete, in whatever order,
-- and whatever statements fail, every punch has been attempted as often as the delivery log has rows
-- for it, and ids stay keys of the punches; the ids that a request of a device is given are new.
pub handle_all-Sound :
    (steps : List (Step × Moment)) (db : Db)
    → GiveNewIds steps db
    → Sound db
    → Sound (handle_all steps db)
unfolding handle_all
handle_all-Sound [] db new h = h
handle_all-Sound ((step, m) ∷ steps) db new h =
    handle_all-Sound steps (handle step (at_moment m db)) new.1
      (handle-Sound step (at_moment m db) new.0 h)
