-- ===== src/Worker/Attempts.antt =====
-- The count of attempts of a punch, and its rows in the delivery log.
use adms.Prelude.{
  ℕ, suc, ◌+◌, ◌≡◌, refl, ap, sym, ◌∙◌, String, false, List, [], ◌∷◌, map, All, Bool-cases, inl,
  inr, ◌==◌, string_eq, eq_iff, arith, if◌then◌else◌,
}
use adms.Store.{Db, PunchRecord, WebhookDelivery}
use adms.Store.Exec.{World, ok}
use adms.Store.Preserves.{transaction_pair-keeps}
use adms.Worker.{
  log_attempt, DispatchResult, record_outcome, update_punch, add_delivery, delivery_of,
}

-- The rows of the delivery log for a punch.
unfoldable pub deliveries_of : String → List WebhookDelivery → ℕ
deliveries_of id [] = 0
deliveries_of id (d ∷ ds) =
    let rest = deliveries_of id ds in if d.punch_record_id == id then suc rest else rest

abbrev pub IsCounted : List WebhookDelivery → PunchRecord → Type 0
IsCounted ds p = p.webhook_attempts ≡ deliveries_of p.id ds

-- Every punch has been attempted as often as the log has rows for it.
pub record AttemptsAreLogged (db : Db) : Type 0 where
  pub counted : All (IsCounted db.webhook_deliveries) db.punch_records

record_outcome-attempts :
    (result : DispatchResult) (attempt max now : ℕ) (p : PunchRecord)
    → ((record_outcome result attempt max now p).webhook_attempts ≡ attempt)
      × ((record_outcome result attempt max now p).id ≡ p.id)
unfolding record_outcome
record_outcome-attempts result attempt max now p = ground arith

deliveries_of-hit :
    (id : String) (row : WebhookDelivery) (ds : List WebhookDelivery)
    → row.punch_record_id ≡ id
    → deliveries_of id (row ∷ ds) ≡ suc (deliveries_of id ds)
unfolding deliveries_of
deliveries_of-hit id row ds e = ground (arith, eq_iff row.punch_record_id id)

deliveries_of-miss :
    (id other : String) (row : WebhookDelivery) (ds : List WebhookDelivery)
    → row.punch_record_id ≡ id
    → (other == id) ≡ false
    → deliveries_of other (row ∷ ds) ≡ deliveries_of other ds
unfolding deliveries_of
deliveries_of-miss id other row ds e h =
    ground (arith, eq_iff row.punch_record_id other, eq_iff other id)

module _ (result : DispatchResult) (id : String) (attempt max now : ℕ) where
  abbrev updated : PunchRecord → PunchRecord
  updated p = if p.id == id then record_outcome result attempt max now p else p

  module _ (row : WebhookDelivery) (ds : List WebhookDelivery) (e : row.punch_record_id ≡ id)
      (k : attempt ≡ suc (deliveries_of id ds)) where
    attempted-IsCounted :
        (q : PunchRecord) → q.webhook_attempts ≡ attempt → q.id ≡ id → IsCounted (row ∷ ds) q
    attempted-IsCounted q a i =
        a
        ∙ (k ∙ (sym (deliveries_of-hit id row ds e) ∙ ap (λ t. deliveries_of t (row ∷ ds)) (sym i)))

    updated_one-IsCounted : (p : PunchRecord) → IsCounted ds p → IsCounted (row ∷ ds) (updated p)
    updated_one-IsCounted p h =
        elim (Bool-cases (p.id == id)) as (λ _. IsCounted (row ∷ ds) (updated p)) [
          | inl same ↦
              let (a, i) = record_outcome-attempts result attempt max now p in
              let here : updated p ≡ record_outcome result attempt max now p =
                ap (λ b. if b then record_outcome result attempt max now p else p) same in
              attempted-IsCounted (updated p) (ap (λ q. q.webhook_attempts) here ∙ a)
                (ap (λ q. q.id) here ∙ (i ∙ (eq_iff p.id id).0 same))
          | inr other ↦
              let here : updated p ≡ p =
                ap (λ b. if b then record_outcome result attempt max now p else p) other in
              ap (λ q. q.webhook_attempts) here
              ∙ (h
                  ∙ (sym (deliveries_of-miss id p.id row ds e other)
                      ∙ ap (λ q. deliveries_of q.id (row ∷ ds)) (sym here)))
        ]

    updated-IsCounted :
        (ps : List PunchRecord)
        → All (IsCounted ds) ps
        → All (IsCounted (row ∷ ds)) (map updated ps)
    updated-IsCounted [] h = tt
    updated-IsCounted (p ∷ ps) h = (updated_one-IsCounted p h.0, updated-IsCounted ps h.1)

pub IsCounted-of :
    (ds es : List WebhookDelivery) (ps qs : List PunchRecord)
    → ds ≡ es
    → ps ≡ qs
    → All (IsCounted es) qs
    → All (IsCounted ds) ps
IsCounted-of ds es ps qs e f h = rw e (rw f h)

update_punch-rows :
    (result : DispatchResult) (id : String) (attempt max : ℕ) (v : World)
    → (update_punch result id attempt max v).0 ≡ ok tt
    → ((update_punch result id attempt max v).1.punch_records
        ≡ map (updated result id attempt max v.now) v.db.punch_records)
      × ((update_punch result id attempt max v).1.webhook_deliveries ≡ v.db.webhook_deliveries)
unfolding update_punch
update_punch-rows result id attempt max v h = ground arith

pub log_attempt-keeps :
    (result : DispatchResult) (p : PunchRecord) (url : String) (max : ℕ) (w : World)
    → p.webhook_attempts ≡ deliveries_of p.id w.db.webhook_deliveries
    → AttemptsAreLogged w.db
    → AttemptsAreLogged (log_attempt result p url max w).1.db
unfolding log_attempt add_delivery
log_attempt-keeps result p url max w here h =
    transaction_pair-keeps AttemptsAreLogged (add_delivery result p url (p.webhook_attempts + 1))
      (update_punch result p.id (p.webhook_attempts + 1) max) w.db w.now w.cuid w.faults h
      (λ u v eu ev done.
        let (rows, log) = update_punch-rows result p.id (p.webhook_attempts + 1) max v done in
        let row = delivery_of result p url (p.webhook_attempts + 1) u.now in
        record {
          counted =
              IsCounted-of _ (row ∷ w.db.webhook_deliveries) _
                (map (updated result p.id (p.webhook_attempts + 1) max v.now) w.db.punch_records)
                (log
                  ∙ (ap (λ d. d.webhook_deliveries) ev ∙ ap (λ d. row ∷ d.webhook_deliveries) eu))
                (rows
                  ∙ ap (map (updated result p.id (p.webhook_attempts + 1) max v.now))
                      (ap (λ d. d.punch_records) ev ∙ ap (λ d. d.punch_records) eu))
                (updated-IsCounted result p.id (p.webhook_attempts + 1) max v.now row
                  w.db.webhook_deliveries refl (omega (arith, here)) w.db.punch_records h.counted);
        })

-- A change of rows that keeps their ids and their counts.
pub map-IsCounted :
    (f : PunchRecord → PunchRecord)
    → ((p : PunchRecord) → ((f p).id ≡ p.id) × ((f p).webhook_attempts ≡ p.webhook_attempts))
    → (ds : List WebhookDelivery) (ps : List PunchRecord) → All (IsCounted ds) ps
    → All (IsCounted ds) (map f ps)
map-IsCounted f keeps ds [] h = tt
map-IsCounted f keeps ds (p ∷ ps) h =
    let (i, a) = keeps p in
    (a ∙ (h.0 ∙ ap (λ t. deliveries_of t ds) (sym i)), map-IsCounted f keeps ds ps h.1)
