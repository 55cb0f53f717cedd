-- ===== src/Lifecycle/Push.antt =====
-- src/adms: what the requests of devices leave of the punches and of the delivery log.
use adms.Store.Exec.{pure}
use adms.Cdata.{
  create_one, store_batch, store_each, store_rows, lost, lost, inserted, duplicate, skipped,
  RowOutcome,
}
use adms.Store.{WebhookDelivery, PunchRecord, Db}
use Prim.Native.Nat.{ℕ}
use adms.Prelude.{
  List, ℕ, String, Bool-cases, arith, ◌≤◌, ◌≡◌, inl, ◌∷◌, ◌∙◌, false, All, All-append, inr, [],
  ◌==◌, ◌<◌, sym, string_eq,
}
use adms.Store.Maintains.{
  Maintains, Maintains-write, Maintains-checked_write, maintain_rules, Maintains->>=,
}
use adms.Lifecycle.Keys.{has_punch_id, HaveKeys, added-HaveKeys, has_punch_id-append}
use adms.Worker.Attempts.{IsCounted, deliveries_of}
use adms.Punches.{
  PunchData, add_punch, insert_new, insert_all, insert_one, create, create_many, is_stored,
  new_punch,
}

-- Ids that a generator may give from some number on: in no punch, in no row of the log, and different
-- from each other.
pub record GivesNew (cuid : ℕ → String) (log : List WebhookDelivery) (ps : List PunchRecord)
    (minted : ℕ) : Type 0 where
  pub no_punch : (n : ℕ) → minted ≤ n → has_punch_id (cuid n) ps ≡ false
  pub no_delivery : (n : ℕ) → deliveries_of (cuid n) log ≡ 0
  pub apart : (i j : ℕ) → i < j → (cuid i == cuid j) ≡ false

-- While a request of a device runs: the log is as it was, and the punches have keys and counts.
pub record Grows (log : List WebhookDelivery) (cuid : ℕ → String) (db : Db) : Type 0 where
  pub same_log : db.webhook_deliveries ≡ log
  pub counted : All (IsCounted log) db.punch_records
  pub keys : HaveKeys db.punch_records
  pub new_ids : GivesNew cuid log db.punch_records db.minted

module _ (log : List WebhookDelivery) where
  -- A change of other tables.
  pub elsewhere :
      (cuid : ℕ → String) (before after : Db)
      → after.webhook_deliveries ≡ before.webhook_deliveries
      → after.punch_records ≡ before.punch_records
      → before.minted ≤ after.minted
      → Grows log cuid before
      → Grows log cuid after
  elsewhere cuid before after ds ps more h = record {
    same_log = ds ∙ h.same_log;
    counted = rw ps h.counted;
    keys = rw ps h.keys;
    new_ids = record {
      no_punch = λ n le. rw ps (h.new_ids.no_punch n (omega (arith, more, le)));
      no_delivery = h.new_ids.no_delivery;
      apart = h.new_ids.apart;
    };
  }

  add_punch-Grows :
      (r : PunchData) (cuid : ℕ → String) (now : ℕ) (db : Db)
      → Grows log cuid db
      → Grows log cuid (add_punch r cuid now db)
  unfolding add_punch new_punch
  add_punch-Grows r cuid now db h =
      let x = new_punch r (cuid db.minted) now in
      let free = h.new_ids.no_punch db.minted (omega arith) in
      record {
        same_log = h.same_log;
        counted =
            All-append (IsCounted log) db.punch_records (x ∷ []) h.counted
              (sym (h.new_ids.no_delivery db.minted), tt);
        keys = added-HaveKeys db.punch_records x h.keys free;
        new_ids = record {
          no_punch = λ n le.
              has_punch_id-append (cuid n) db.punch_records x
                (h.new_ids.no_punch n (omega (arith, le)))
                (h.new_ids.apart db.minted n (omega (arith, le)));
          no_delivery = h.new_ids.no_delivery;
          apart = h.new_ids.apart;
        };
      }

  insert_new-Grows :
      (r : PunchData) (cuid : ℕ → String) (now : ℕ) (db : Db)
      → Grows log cuid db
      → Grows log cuid (insert_new r cuid now db)
  unfolding insert_new
  insert_new-Grows r cuid now db h = elim (Bool-cases (is_stored r db.punch_records)) [
    | inl old ↦ rw old h
    | inr fresh ↦ rw fresh (add_punch-Grows r cuid now db h)
  ]

  insert_all-Grows :
      (rs : List PunchData) (cuid : ℕ → String) (now : ℕ) (db : Db)
      → Grows log cuid db
      → Grows log cuid (insert_all rs cuid now db)
  unfolding insert_all
  insert_all-Grows [] cuid now db h = h
  insert_all-Grows (r ∷ rs) cuid now db h =
      insert_all-Grows rs cuid now (insert_new r cuid now db) (insert_new-Grows r cuid now db h)

  create_many-keeps : (rows : List PunchData) → Maintains (Grows log) (create_many rows)
  unfolding create_many
  create_many-keeps rows =
      Maintains-write (Grows log) (λ w. (tt, insert_all rows w.cuid w.now w.db))
        (λ v h. insert_all-Grows rows v.cuid v.now v.db h)

  create-keeps : (r : PunchData) → Maintains (Grows log) (create r)
  unfolding create insert_one
  create-keeps r = Maintains-checked_write (Grows log) (insert_one r) (λ v h.
      elim (Bool-cases (is_stored r v.db.punch_records)) [
        | inl old ↦ rw old h
        | inr fresh ↦ rw fresh (add_punch-Grows r v.cuid v.now v.db h)
      ])

  create_one-keeps : (r : PunchData) → Maintains (Grows log) (create_one r)
  unfolding create_one
  create_one-keeps r = search (maintain_rules, create-keeps)

  outcome-keeps :
      (rows : List PunchData)
      → Maintains (Grows log) (store_each rows)
      → (o : RowOutcome)
      → Maintains (Grows log) (elim o [ lost ↦ pure false | _ ↦ store_each rows ])
  outcome-keeps rows rest lost = search maintain_rules
  outcome-keeps rows rest inserted = rest
  outcome-keeps rows rest duplicate = rest
  outcome-keeps rows rest skipped = rest

  store_each-keeps : (rows : List PunchData) → Maintains (Grows log) (store_each rows)
  unfolding store_each
  store_each-keeps [] = search maintain_rules
  store_each-keeps (r ∷ rows) =
      Maintains->>= (Grows log) (create_one r) _ (create_one-keeps r)
        (outcome-keeps rows (store_each-keeps rows))

  pub store_batch-keeps : (rows : List PunchData) → Maintains (Grows log) (store_batch rows)
  unfolding store_batch store_rows
  store_batch-keeps [] = search maintain_rules
  store_batch-keeps (r ∷ rows) = search (maintain_rules, create_many-keeps, store_each-keeps)
