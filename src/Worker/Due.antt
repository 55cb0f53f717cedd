-- ===== src/Worker/Due.antt =====
-- What a claim takes and what it leaves, in terms of the rows themselves.
use adms.Worker.Claims.{claim_batch-answer, All-map-punch_id, length-map-punch_id}
use adms.Store.Exec.{World, ok}
use mathlib.Core.List.Memᴰ.{head, tail}
use adms.Prelude.{
  ℕ, ◌≤◌, ◌≡◌, ◌⊎◌, inl, inr, refl, String, true, false, Option, none, some, List, Memᴰ, find,
  includes, length, All, Option-cases, leb→le, le→leb, ◌==◌, string_eq, arith, take, map, All-both,
  Bool, Bool-cases, All-imp, first-Mem, length-first, sort_by, sym, ◌∷◌, All-first, [], filter, ap,
  ◌∙◌, first_complete, All-Mem, All-filter,
}
use adms.Store.{Db, Device, PunchRecord}
use adms.Worker.{is_due, is_claimable, has_webhook, due_ids, World, punch_id, claim_batch, due_time}

-- A row that a claim may take: no other worker has locked it, its webhook is neither delivered nor
-- held, its time has come, and its device has a webhook that is enabled.
pub record IsDue (locked : List String) (db : Db) (now : ℕ) (p : PunchRecord) : Type 0 where
  pub unlocked : includes locked p.id ≡ false
  pub undelivered : p.webhook_delivered ≡ false
  pub unheld : p.webhook_held ≡ false
  pub in_time : p.next_attempt_at ≤ now
  pub webhook :
      (d : Device) × (url : String) × (find (λ x. x.id == p.device_id) db.devices ≡ some d)
      × (d.webhook_enabled ≡ true)
      × (d.webhook_url ≡ some url)

has_webhook-url :
    (o : Option Device)
    → has_webhook o ≡ true
    → (d : Device) × (url : String) × (o ≡ some d)
      × (d.webhook_enabled ≡ true)
      × (d.webhook_url ≡ some url)
has_webhook-url none h = cc
has_webhook-url (some d) h = elim (Option-cases d.webhook_url) [
  | inl e ↦ absurd (let stop = rw e at h in ground arith)
  | inr (url, e) ↦ (d, url, refl, ground arith, e)
]

module _ (locked : List String) (db : Db) (now : ℕ) where
  is_due-IsDue : (p : PunchRecord) → is_due locked db.devices now p ≡ true → IsDue locked db now p
  unfolding is_claimable
  is_due-IsDue p h = record {
    unlocked = ground arith;
    undelivered = ground arith;
    unheld = ground arith;
    in_time = leb→le _ _ (ground arith);
    webhook = has_webhook-url (find (λ x. x.id == p.device_id) db.devices) (ground arith);
  }

  IsDue-is_due : (p : PunchRecord) → IsDue locked db now p → is_due locked db.devices now p ≡ true
  unfolding is_claimable
  IsDue-is_due p h =
      let (d, url, found, enabled, given) = h.webhook in
      let time = le→leb _ _ h.in_time in
      rw (h.unlocked, h.undelivered, h.unheld, time, found, enabled, given) refl

  -- An id that a claim takes: that of a row which is due.
  abbrev pub Taken : String → Type 0
  Taken id = (p : PunchRecord) × Memᴰ p db.punch_records × (p.id ≡ id) × IsDue locked db now p

  -- What a claim of at most `n` leaves of a row: it is not due, or taken, or `n` rows are taken and
  -- each comes no later than it.
  abbrev pub Passed : ℕ → List String → PunchRecord → Type 0
  Passed n ids p =
      (¬ IsDue locked db now p)
      ⊎ (Memᴰ p.id ids
          ⊎ ((length ids ≡ n)
              × All
                  (λ id.
                    (q : PunchRecord) × Memᴰ q db.punch_records
                    × (q.id ≡ id)
                    × (q.next_attempt_at ≤ p.next_attempt_at))
                  ids))

Mem-punch_ids : (p : PunchRecord) (ps : List PunchRecord) → Memᴰ p ps → Memᴰ p.id (map punch_id ps)
Mem-punch_ids p [] m = elim m [ ]
Mem-punch_ids p (q ∷ ps) (head e) = head (ap punch_id e)
Mem-punch_ids p (q ∷ ps) (tail m) = tail (Mem-punch_ids p ps m)

module _ (locked : List String) (n : ℕ) (db : Db) (now : ℕ) where
  abbrev test : PunchRecord → Bool
  test = is_due locked db.devices now

  abbrev queue : List PunchRecord
  queue = take n (sort_by due_time (filter test db.punch_records))

  taken_rows : All (λ p. Memᴰ p db.punch_records × IsDue locked db now p) queue
  taken_rows = All-both _ _ queue (first-Mem due_time test n db.punch_records) (
      All-first due_time test n db.punch_records _
        (All-imp _ _ _ (is_due-IsDue locked db now) (All-filter test db.punch_records)))

  due_ids-Taken : All (Taken locked db now) (due_ids locked n db now)
  unfolding due_ids
  due_ids-Taken =
      All-map-punch_id (Taken locked db now) queue
        (All-imp _ (λ p. Taken locked db now p.id) queue (λ p h. (p, h.0, refl, h.1)) taken_rows)

  not_after :
      (p : PunchRecord)
      → All (λ q. q.next_attempt_at ≤ p.next_attempt_at) queue
      → All
          (λ id.
            (q : PunchRecord) × Memᴰ q db.punch_records
            × (q.id ≡ id)
            × (q.next_attempt_at ≤ p.next_attempt_at))
          (map punch_id queue)
  not_after p h = All-map-punch_id _ queue (
      All-imp _
        (λ q.
          (r : PunchRecord) × Memᴰ r db.punch_records
          × (r.id ≡ q.id)
          × (r.next_attempt_at ≤ p.next_attempt_at))
        queue (λ q k. (q, k.0, refl, k.1))
        (All-both _ _ queue (first-Mem due_time test n db.punch_records) h))

  due_ids-Passed :
      (p : PunchRecord)
      → Memᴰ p db.punch_records
      → Passed locked db now n (due_ids locked n db now) p
  unfolding due_ids
  due_ids-Passed p m = elim (Bool-cases (is_due locked db.devices now p)) [
    | inr late ↦ inl (λ h.
        absurd (
          let stop : ◌≡◌ {A = Bool} true false = sym (IsDue-is_due locked db now p h) ∙ late in cc))
    | inl due ↦ elim (first_complete due_time test n db.punch_records p due m) [
      | inl here ↦ inr (inl (Mem-punch_ids p queue here))
      | inr (full, after) ↦ inr (inr (length-map-punch_id queue ∙ full, not_after p after))
    ]
  ]

  due_ids-length : length (due_ids locked n db now) ≤ n
  unfolding due_ids
  due_ids-length =
      omega (arith, length-map-punch_id queue, length-first due_time test n db.punch_records)

-- A claim that succeeds returns at most a batch of ids, each of a row of the table that is due; and
-- a row that is due and not returned is left only by a full batch, of rows whose times are none
-- later than its own.
pub claim_batch-due :
    (locked : List String) (n : ℕ) (w : World) (ids : List String)
    → (claim_batch locked n w).0 ≡ ok ids
    → (length ids ≤ n)
      × All (Taken locked w.db w.now) ids
      × All (Passed locked w.db w.now n ids) w.db.punch_records
claim_batch-due locked n w ids h =
    let (e, _, _) = claim_batch-answer locked n w ids h in
    rw e (
      due_ids-length locked n w.db w.now,
      due_ids-Taken locked n w.db w.now,
      All-imp _ _ w.db.punch_records (due_ids-Passed locked n w.db w.now)
          (All-Mem w.db.punch_records),
    )
