-- ===== src/Devices/Foreign.antt =====
-- src/admin/devices.ts: the rows of other companies' devices, and the statements that leave them alone.
use adms.Store.Cascade.{device_id, drop_devices}
use adms.Prelude.{
  All, includes, map, ◌||◌, refl, String, Bool, true, false, not, Option, none, some, List, [], ◌∷◌,
  ◌++◌, ◌≡◌, ap, ◌∙◌, sym, filter, find, change_first, ◌==◌, string_eq, eq_iff, Bool-cases, inl,
  inr, arith, filter-append, append-nil, if◌then◌else◌,
}
use adms.Store.{Db, Device, DeviceCommand, PunchRecord, DeviceRawLog}
use adms.Worker.{is_device}

-- A device of another company than `c`.
abbrev pub is_foreign : String → Device → Bool
is_foreign c d = not (d.company_id == c)

abbrev pub foreign_or_none : String → Option Device → Bool
foreign_or_none c none = true
foreign_or_none c (some d) = is_foreign c d

-- An id that is not one of a device of `c` among some devices.
abbrev pub is_foreign_id : String → List Device → String → Bool
is_foreign_id c ds id = foreign_or_none c (find (is_device id) ds)

pub record ForeignRows : Type 0 where
  pub devices : List Device
  pub commands : List DeviceCommand
  pub punches : List PunchRecord
  pub logs : List DeviceRawLog

-- What hangs on other companies' devices, as they are listed in `ds`.
unfoldable pub foreign_rows : String → List Device → Db → ForeignRows
foreign_rows c ds db = record {
  devices = filter (is_foreign c) db.devices;
  commands = filter (λ k. is_foreign_id c ds k.device_id) db.device_commands;
  punches = filter (λ p. is_foreign_id c ds p.device_id) db.punch_records;
  logs = filter (λ l. is_foreign_id c ds l.device_id) db.device_raw_logs;
}

-- The id of each device finds that device.
abbrev pub IdsAreKeys : List Device → Type 0
IdsAreKeys ds = All (λ d. find (is_device d.id) ds ≡ some d) ds

pub foreign-add :
    (c : String) (ds : List Device) (d : Device)
    → d.company_id ≡ c
    → filter (is_foreign c) (ds ++ d ∷ []) ≡ filter (is_foreign c) ds
foreign-add c ds d own =
    let mine : is_foreign c d ≡ false = ground (arith, eq_iff d.company_id c) in
    let one : filter (is_foreign c) (d ∷ []) ≡ [] = rw mine refl in
    filter-append (is_foreign c) ds (d ∷ [])
    ∙ (ap (λ t. filter (is_foreign c) ds ++ t) one ∙ append-nil (filter (is_foreign c) ds))

pub foreign-change :
    (c id : String) (f : Device → Device) (ds : List Device) (d : Device)
    → find (is_device id) ds ≡ some d
    → d.company_id ≡ c
    → (f d).company_id ≡ c
    → filter (is_foreign c) (change_first (is_device id) f ds) ≡ filter (is_foreign c) ds
foreign-change c id f [] d found own same = refl
foreign-change c id f (x ∷ ds) d found own same = elim (Bool-cases (is_device id x)) [
  | inl e ↦
      let head : ◌≡◌ {A = Option Device} (some x) (some d) =
        let first : find (is_device id) (x ∷ ds) ≡ some x = rw e refl in sym first ∙ found in
      let it : x ≡ d = cc in
      let here : (f x).company_id ≡ c = rw it same in
      let was : x.company_id ≡ c = rw it own in
      let gone : is_foreign c (f x) ≡ false = ground (arith, eq_iff (f x).company_id c) in
      let gone' : is_foreign c x ≡ false = ground (arith, eq_iff x.company_id c) in
      rw e (rw gone (rw gone' refl))
  | inr e ↦
      let rest : find (is_device id) ds ≡ some d =
        let skip : find (is_device id) (x ∷ ds) ≡ find (is_device id) ds = rw e refl in
        sym skip ∙ found in
      rw e
        (ap (λ t. if is_foreign c x then x ∷ t else t) (foreign-change c id f ds d rest own same))
]

-- Filters of which the second one keeps only what the first one keeps.
filter-under :
    {A : Type 0} (p q : A → Bool) (xs : List A)
    → All (λ x. q x ≡ true → p x ≡ true) xs
    → filter q (filter p xs) ≡ filter q xs
filter-under p q [] h = refl
filter-under p q (x ∷ xs) (here, h) = ground (arith, filter-under p q xs h, here)

All-of {ℓ} : {A : Type 0} (P : A → Type ℓ) (xs : List A) → ((x : A) → P x) → All P xs
All-of P [] h = tt
All-of P (x ∷ xs) h = (h x, All-of P xs h)

All-implies {ℓ κ} :
    {A : Type 0} (P : A → Type ℓ) (Q : A → Type κ) (xs : List A)
    → ((x : A) → P x → Q x)
    → All P xs
    → All Q xs
All-implies P Q [] h all_p = tt
All-implies P Q (x ∷ xs) h all_p = (h x all_p.0, All-implies P Q xs h all_p.1)

dropped-id :
    (id j : String) (ds : List Device)
    → includes (map device_id (filter (is_device id) ds)) j ≡ true
    → j ≡ id
dropped-id id j [] h = absurd (cc)
dropped-id id j (d ∷ ds) h = elim (Bool-cases (is_device id d)) [
  | inl e ↦
      let opened : (d.id == j || includes (map device_id (filter (is_device id) ds)) j) ≡ true =
        rw e at h in
      elim (Bool-cases (d.id == j)) [
        | inl same ↦ sym ((eq_iff d.id j).0 same) ∙ (eq_iff d.id id).0 e
        | inr other ↦ dropped-id id j ds (ground arith)
      ]
  | inr e ↦ dropped-id id j ds (rw e at h)
]

module _ (c id : String) (ds : List Device) (d : Device) (found : find (is_device id) ds ≡ some d)
    (own : d.company_id ≡ c) where
  own-not_foreign : is_foreign c d ≡ false
  own-not_foreign = ground (arith, eq_iff d.company_id c)

  -- A foreign device has another id.
  foreign-other :
      (x : Device)
      → find (is_device x.id) ds ≡ some x
      → is_foreign c x ≡ true
      → not (is_device id x) ≡ true
  foreign-other x key foreign = elim (Bool-cases (is_device id x)) [
    | inr other ↦ rw other refl
    | inl same ↦
        let ids : x.id ≡ id = (eq_iff x.id id).0 same in
        let both : ◌≡◌ {A = Option Device} (some x) (some d) =
          sym key ∙ (ap (λ i. find (is_device i) ds) ids ∙ found) in
        let it : x ≡ d = cc in
        let no : is_foreign c x ≡ false = ap (is_foreign c) it ∙ own-not_foreign in absurd (cc)
  ]

  -- What hangs on another id than a dropped one stays.
  foreign-kept :
      (j : String)
      → is_foreign_id c ds j ≡ true
      → not (includes (map device_id (filter (is_device id) ds)) j) ≡ true
  foreign-kept j foreign =
      elim (Bool-cases (includes (map device_id (filter (is_device id) ds)) j)) [
        | inr other ↦ rw other refl
        | inl dropped ↦
            let ids : j ≡ id = dropped-id id j ds dropped in
            let no : is_foreign_id c ds j ≡ false =
              ap (is_foreign_id c ds) ids ∙ (ap (foreign_or_none c) found ∙ own-not_foreign) in
            absurd (cc)
      ]

  pub foreign-drop :
      (db : Db)
      → db.devices ≡ ds
      → IdsAreKeys ds
      → foreign_rows c ds (drop_devices (is_device id) db) ≡ foreign_rows c ds db
  unfolding foreign_rows
  foreign-drop db same keys =
      let devices : filter (is_foreign c) (filter (λ x. not (is_device id x)) ds)
          ≡ filter (is_foreign c) ds =
        filter-under (λ x. not (is_device id x)) (is_foreign c) ds
          (All-implies (λ x. find (is_device x.id) ds ≡ some x)
            (λ x. is_foreign c x ≡ true → not (is_device id x) ≡ true) ds foreign-other keys) in
      let ids = map device_id (filter (is_device id) ds) in
      let commands =
        filter-under (λ (k : DeviceCommand). not (includes ids k.device_id))
          (λ k. is_foreign_id c ds k.device_id) db.device_commands
          (All-of _ db.device_commands (λ k. foreign-kept k.device_id)) in
      let punches =
        filter-under (λ (p : PunchRecord). not (includes ids p.device_id))
          (λ p. is_foreign_id c ds p.device_id) db.punch_records
          (All-of _ db.punch_records (λ p. foreign-kept p.device_id)) in
      let logs =
        filter-under (λ (l : DeviceRawLog). not (includes ids l.device_id))
          (λ l. is_foreign_id c ds l.device_id) db.device_raw_logs
          (All-of _ db.device_raw_logs (λ l. foreign-kept l.device_id)) in
      rw same (rw (devices, commands, punches, logs) refl)
