-- ===== src/Worker/Claims.antt =====
-- What a claim takes, and that its lease keeps the rows from the next claim.
use adms.Prelude.{
  ℕ, ◌+◌, ◌≤◌, ◌<◌, ◌≡◌, refl, ap, sym, ◌∙◌, String, Bool, true, false, ◌&&◌, Option, none, some,
  List, [], ◌∷◌, map, filter, take, any, includes, length, length-take, All, All-take, All-sort_by,
  sort_by, Bool-cases, inl, inr, ◌==◌, string_eq, eq_iff, arith, ◌⊎◌,
}
use adms.Store.{Db, Device, PunchRecord}
use adms.Store.Exec.{
  World, Result, ok, thrown, DbError, Async, ◌>>=◌, ◌>>◌, transaction, commit_or_roll_back, write,
}
use adms.Store.Total.{>>=-eq-ok, >>=-of-ok}
use adms.Worker.{
  claim_batch, take_lease, lease, set_lease, select_due, due_ids, is_due, is_claimable, punch_id,
  due_time,
}

-- Some row of the table has this id and is due.
unfoldable pub is_due_id : List String → List Device → ℕ → List PunchRecord → String → Bool
is_due_id locked devices now ps id = any (λ p. p.id == id && is_due locked devices now p) ps

weaken :
    (locked : List String) (devices : List Device) (now : ℕ) (p : PunchRecord)
    (ps qs : List PunchRecord)
    → All (λ q. is_due_id locked devices now ps q.id ≡ true) qs
    → All (λ q. is_due_id locked devices now (p ∷ ps) q.id ≡ true) qs
unfolding is_due_id
weaken locked devices now p ps [] h = tt
weaken locked devices now p ps (q ∷ qs) h = (ground arith, weaken locked devices now p ps qs h.1)

is_due-head :
    (locked : List String) (devices : List Device) (now : ℕ) (p : PunchRecord)
    (ps : List PunchRecord)
    → is_due locked devices now p ≡ true
    → is_due_id locked devices now (p ∷ ps) p.id ≡ true
unfolding is_due_id
is_due-head locked devices now p ps h = ground (arith, eq_iff p.id p.id)

filter-is_due :
    (locked : List String) (devices : List Device) (now : ℕ) (ps : List PunchRecord)
    → All (λ q. is_due_id locked devices now ps q.id ≡ true) (filter (is_due locked devices now) ps)
filter-is_due locked devices now [] = tt
filter-is_due locked devices now (p ∷ ps) =
    let rest =
      weaken locked devices now p ps (filter (is_due locked devices now) ps)
        (filter-is_due locked devices now ps) in
    elim (Bool-cases (is_due locked devices now p)) [
      | inl e ↦ rw e (is_due-head locked devices now p ps e, rest)
      | inr e ↦ rw e rest
    ]

pub All-map-punch_id :
    (P : String → Type 0) (ps : List PunchRecord) → All (λ p. P p.id) ps → All P (map punch_id ps)
All-map-punch_id P [] h = tt
All-map-punch_id P (p ∷ ps) h = (h.0, All-map-punch_id P ps h.1)

pub length-map-punch_id : (ps : List PunchRecord) → length (map punch_id ps) ≡ length ps
length-map-punch_id [] = refl
length-map-punch_id (p ∷ ps) = omega (arith, length-map-punch_id ps)

due_ids_lem :
    (locked : List String) (n : ℕ) (db : Db) (now : ℕ)
    → (length (due_ids locked n db now) ≤ n)
      × All
          (λ id. is_due_id locked db.devices now db.punch_records id ≡ true)
          (due_ids locked n db now)
unfolding due_ids
due_ids_lem locked n db now =
    let due = filter (is_due locked db.devices now) db.punch_records in
    let queue = sort_by due_time due in
    (
      omega (arith, length-take n queue, length-map-punch_id (take n queue)),
      All-map-punch_id (λ id. is_due_id locked db.devices now db.punch_records id ≡ true)
          (take n queue)
          (All-take _ n queue
            (All-sort_by due_time _ due (filter-is_due locked db.devices now db.punch_records))),
    )

-- The table after a claim of these ids.
abbrev pub leased : List String → ℕ → List PunchRecord → List PunchRecord
leased ids until ps = map (set_lease ids until) ps

leased-nil : (until : ℕ) (ps : List PunchRecord) → ps ≡ leased [] until ps
unfolding set_lease
leased-nil until [] = refl
leased-nil until (p ∷ ps) = ap (λ t. p ∷ t) (leased-nil until ps)

take_lease-answer :
    (ids got : List String) (db : Db) (now : ℕ) (cuid : ℕ → String) (l : List (Option DbError))
    → let run = take_lease ids (record { db = db; now = now; faults = l; cuid = cuid }) in
      run.0 ≡ ok got
      → (got ≡ ids)
        × (run.1.db.punch_records ≡ leased ids (now + 60000) db.punch_records)
        × (run.1.db.devices ≡ db.devices)
unfolding lease write ◌>>◌
take_lease-answer [] got db now cuid l h = (cc, leased-nil (now + 60000) db.punch_records, refl)
take_lease-answer (id ∷ ids) got db now cuid [] h = (cc, refl, refl)
take_lease-answer (id ∷ ids) got db now cuid (none ∷ l) h = (cc, refl, refl)
take_lease-answer (id ∷ ids) got db now cuid (some e ∷ l) h =
    absurd (let stop : ◌≡◌ {A = Result (List String)} (thrown e) (ok got) = h in cc)

transaction-eq-ok :
    {A : Type 0} (m : Async A) (w : World) {a : A}
    → (transaction m w).0 ≡ ok a
    → transaction m w ≡ m w
unfolding transaction
transaction-eq-ok {A} m w {a} h = go (m w) h
  where
    go :
        (r : Result A × World)
        → (commit_or_roll_back w.db r).0 ≡ ok a
        → commit_or_roll_back w.db r ≡ r
    go (ok b, v) k = refl
    go (thrown e, v) k = absurd (let stop : ◌≡◌ {A = Result A} (thrown e) (ok a) = k in cc)

select_due-answer :
    (locked : List String) (n : ℕ) (db : Db) (now : ℕ) (cuid : ℕ → String)
    (l : List (Option DbError)) (ids : List String) (v : World)
    → write (select_due locked n) (record { db = db; now = now; faults = l; cuid = cuid })
      ≡ (ok ids, v)
    → (ids ≡ due_ids locked n db now) × (v.db ≡ db) × (v.now ≡ now)
unfolding select_due write
select_due-answer locked n db now cuid [] ids v h = (cc, cc, cc)
select_due-answer locked n db now cuid (none ∷ l) ids v h = (cc, cc, cc)
select_due-answer locked n db now cuid (some e ∷ l) ids v h =
    absurd (let stop : ◌≡◌ {A = Result (List String)} (thrown e) (ok ids) = ap (λ t. t.0) h in cc)

-- What a claim that succeeds has done: the ids it returns are the due ones, the devices are as they
-- were, and the rows of those ids carry the lease.
pub claim_batch-answer :
    (locked : List String) (n : ℕ) (w : World) (ids : List String)
    → (claim_batch locked n w).0 ≡ ok ids
    → (ids ≡ due_ids locked n w.db w.now)
      × ((claim_batch locked n w).1.db.punch_records
          ≡ leased ids (w.now + 60000) w.db.punch_records)
      × ((claim_batch locked n w).1.db.devices ≡ w.db.devices)
unfolding claim_batch
claim_batch-answer locked n w ids h =
    let same = transaction-eq-ok (write (select_due locked n) >>= take_lease) w h in
    let (got, v, e, k) =
      >>=-eq-ok (write (select_due locked n)) take_lease w (ap (λ r. r.0) (sym same) ∙ h) in
    let whole = same ∙ >>=-of-ok (write (select_due locked n)) take_lease w v e in
    let (s, sdb, snow) = select_due-answer locked n w.db w.now w.cuid w.faults got v e in
    let (t, tps, tds) = take_lease-answer got ids v.db v.now v.cuid v.faults k in
    let moved : leased got (v.now + 60000) v.db.punch_records
        ≡ leased ids (w.now + 60000) w.db.punch_records =
      cc in
    let kept : v.db.devices ≡ w.db.devices = ap (λ d. d.devices) sdb in
    (
      t ∙ s,
      ap (λ r. r.1.db.punch_records) whole ∙ (tps ∙ moved),
      ap (λ r. r.1.db.devices) whole ∙ (tds ∙ kept),
    )

claim_batch-is_due :
    (locked : List String) (n : ℕ) (w : World) (ids : List String)
    → (claim_batch locked n w).0 ≡ ok ids
    → All (λ id. is_due_id locked w.db.devices w.now w.db.punch_records id ≡ true) ids
claim_batch-is_due locked n w ids h =
    let (e, _, _) = claim_batch-answer locked n w ids h in
    let (_, due) = due_ids_lem locked n w.db w.now in rw e due

All-not_included :
    (ids got : List String) (P : String → Type 0)
    → ((id : String) → includes ids id ≡ true → P id → ◌≡◌ {A = Bool} true false)
    → All P got
    → All (λ id. includes ids id ≡ false) got
All-not_included ids [] P f h = tt
All-not_included ids (id ∷ got) P f h = elim (Bool-cases (includes ids id)) [
  | inl e ↦ absurd (let stop = f id e h.0 in cc)
  | inr e ↦ (e, All-not_included ids got P f h.1)
]

-- A row whose lease is still as the claim of `ids` set it, or a row of another punch.
abbrev pub KeepsLease : List String → ℕ → PunchRecord → Type 0
KeepsLease ids until p = (includes ids p.id ≡ false) ⊎ (p.next_attempt_at ≡ until)

is_due-KeepsLease :
    (locked ids : List String) (devices : List Device) (until now : ℕ) (p : PunchRecord)
    → now < until
    → includes ids p.id ≡ true
    → KeepsLease ids until p
    → is_due locked devices now p ≡ false
unfolding is_claimable
is_due-KeepsLease locked ids devices until now p lt taken (inl other) =
    absurd (let stop : ◌≡◌ {A = Bool} true false = sym taken ∙ other in cc)
is_due-KeepsLease locked ids devices until now p lt taken (inr e) = ground arith

KeepsLease-not_due :
    (locked ids : List String) (devices : List Device) (until now : ℕ) (id : String)
    (ps : List PunchRecord)
    → now < until
    → includes ids id ≡ true
    → All (KeepsLease ids until) ps
    → is_due_id locked devices now ps id ≡ false
unfolding is_due_id
KeepsLease-not_due locked ids devices until now id [] lt taken h = refl
KeepsLease-not_due locked ids devices until now id (p ∷ ps) lt taken (here, h) =
    let rest = KeepsLease-not_due locked ids devices until now id ps lt taken h in
    elim (Bool-cases (p.id == id)) [
      | inl e ↦
          let same : p.id ≡ id = (eq_iff p.id id).0 e in
          let row =
            is_due-KeepsLease locked ids devices until now p lt (ap (includes ids) same ∙ taken)
              here in
          ground (arith, row, rest)
      | inr e ↦ ground (arith, e, rest)
    ]

leased-KeepsLease :
    (ids : List String) (until : ℕ) (ps : List PunchRecord)
    → All (KeepsLease ids until) (leased ids until ps)
unfolding set_lease
leased-KeepsLease ids until [] = tt
leased-KeepsLease ids until (p ∷ ps) = elim (Bool-cases (includes ids p.id)) [
  | inl e ↦ rw e (inr refl, leased-KeepsLease ids until ps)
  | inr e ↦ rw e (inl e, leased-KeepsLease ids until ps)
]

-- A claim leaves the rows of the ids it returns leased for 60 seconds, and no later claim within
-- them returns one of these ids while the rows keep that lease, whatever else has changed in the
-- database since and whatever rows are locked. What rewrites the time of such a row ends its lease:
-- the outcome of the attempt, or an admin's retry.
pub claim_batch-exclusive :
    (locked later_locked : List String) (n later_n : ℕ) (w v : World) (ids later_ids : List String)
    → (claim_batch locked n w).0 ≡ ok ids
    → All (KeepsLease ids (w.now + 60000)) v.db.punch_records
    → v.now < w.now + 60000
    → (claim_batch later_locked later_n v).0 ≡ ok later_ids
    → All (KeepsLease ids (w.now + 60000)) (claim_batch locked n w).1.db.punch_records
      × All (λ id. includes ids id ≡ false) later_ids
claim_batch-exclusive locked later_locked n later_n w v ids later_ids h kept soon k =
    let (_, rows, _) = claim_batch-answer locked n w ids h in
    let due = claim_batch-is_due later_locked later_n v later_ids k in
    let leases = leased-KeepsLease ids (w.now + 60000) w.db.punch_records in
    (
      rw rows leases,
      All-not_included ids later_ids _
          (λ id taken is_due.
            sym is_due
            ∙ KeepsLease-not_due later_locked ids v.db.devices (w.now + 60000) v.now id
                v.db.punch_records soon taken kept)
          due,
    )
