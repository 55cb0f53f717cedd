-- ===== src/Tests/Histories.antt =====
-- A day of a gate: a push, a delivery that fails, a retry, and the removal of another device.

use adms.Store.Exec.{ok}
use adms.Accounts.History.{Moment}
use adms.Store.{Db}
use adms.Router.{Incoming}
use adms.Lifecycle.Sound.{Sound}
use adms.Worker.Loop.{Dispatch}
use adms.Prelude.{
  length, ℕ, List, codes, String, ◌<◌, [], false, ◌==◌, ◌≡◌, suc, ◌∷◌, ap, refl, none, Bool-cases,
  zero, some, inr, inl, eq_iff, sym, ◌∙◌, arith, string_eq,
}
use adms.Lifecycle.History.{
  handle_all, handle_all-Sound, Step, device_request, worker_tick, retry_punches, remove_device,
  GiveNewIds,
}
use adms.Tests.{office, manager, first_day, push, ℕ, Db, List}

-- Texts of so many letters.
abbrev letters : ℕ → String
letters zero = String.[]
letters (suc n) = String.◌∷◌ "a" (letters n)

length-letters : (n : ℕ) → length (codes (letters n)) ≡ n
length-letters zero = refl
length-letters (suc n) = ap suc (length-letters n)

letters-apart : (i j : ℕ) → i < j → (letters i == letters j) ≡ false
letters-apart i j less = elim (Bool-cases (letters i == letters j)) [
  | inr other ↦ other
  | inl same ↦
      let e : letters i ≡ letters j = (eq_iff (letters i) (letters j)).0 same in
      let lengths : i ≡ j =
        sym (length-letters i) ∙ (ap (λ s. length (codes s)) e ∙ length-letters j) in
      absurd (omega (arith, less, lengths))
]

abbrev quiet : Db
quiet = record office { punch_records = []; webhook_deliveries = [] }

abbrev at : ℕ → Moment
at now = record { now = now; faults = []; cuid = letters }

abbrev unreachable : Dispatch
unreachable p d company timeout = ok (record {
  success = false;
  status_code = none;
  response_body = none;
  error = some (codes "timed out");
  request_body = [];
  request_headers = [];
  elapsed_ms = 8000;
})

abbrev day : List (Step × Moment)
day =
    (device_request first_day (Incoming.parsed push), at 1000)
    ∷ (worker_tick unreachable [] 10 (λ ids. false) 900000, at 2000)
    ∷ (retry_punches manager ("a" ∷ []), at 60000)
    ∷ (remove_device manager "d2", at 61000)
    ∷ []

-- One punch, attempted once.
day_rows :
    (length (handle_all day quiet).punch_records ≡ 1)
    × (length (handle_all day quiet).webhook_deliveries ≡ 1)
unfolding handle_all adms.Devices.Edit.remove adms.Store.Exec.◌>>=◌ adms.Store.Exec.read
    adms.PunchRecords.retry_bulk adms.Store.Exec.◌>>◌ adms.Store.Exec.write adms.Worker.Loop.tick
    adms.Store.Exec.try_catch adms.Retention.get_or_create_platform_settings
    adms.Store.Exec.transaction adms.Router.adms_router adms.Cdata.log_raw_request
    adms.Cdata.handle_cdata_post adms.DeviceLookup.resolve_device
    adms.DeviceLookup.find_device_by_serial adms.Http.query_string adms.Cdata.raw_request
    adms.DeviceLookup.is_device_request_trusted adms.DeviceLookup.touch_device adms.Prelude.text_beq
    adms.Prelude.to_upper_case adms.Cdata.store_attlog adms.Cdata.store_batch
    adms.Attlog.parse_attlog_body adms.Cdata.store_rows adms.Punches.create_many
    adms.Punches.insert_all adms.Punches.insert_new adms.DeviceLookup.touch adms.Punches.add_punch
    adms.Punches.new_punch adms.Cdata.punch_row adms.Store.Exec.checked_write
day_rows = (refl, refl)

day-GiveNewIds : GiveNewIds day quiet
unfolding adms.Lifecycle.Keys.has_punch_id adms.Worker.Attempts.deliveries_of
day-GiveNewIds = (
  record { no_punch = λ n le. refl; no_delivery = λ n. refl; apart = letters-apart },
  (tt, (tt, (tt, tt))),
)

quiet-Sound : Sound quiet
quiet-Sound = record { counted = record { counted = tt }; keys = tt }

handle_all-Sound_example : Sound (handle_all day quiet)
handle_all-Sound_example = handle_all-Sound day quiet day-GiveNewIds quiet-Sound
