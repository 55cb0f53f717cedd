-- ===== src/Punches/Stored.antt =====
-- Rows that are stored stay stored, and insertion stores.
use adms.Prelude.{
  ℕ, String, ◌≡◌, true, List, [], ◌∷◌, any-append, All, arith, ==_refl, Bool-cases, inl, inr,
  int_eq, string_eq, text_eq, refl,
}
use adms.Store.{Db}
use adms.Store.Exec.{World}
use adms.Store.Preserves.{Preserves, Preserves-write, Preserves-checked_write}
use adms.Punches.{
  PunchData, same_key, is_stored, new_punch, add_punch, insert_all, insert_one, create_many, create,
  insert_new,
}

abbrev pub Stored : PunchData → Db → Type 0
Stored r db = is_stored r db.punch_records ≡ true

same_key-new_punch :
    (r : PunchData) (id : String) (now : ℕ) → same_key r (new_punch r id now) ≡ true
unfolding same_key new_punch
same_key-new_punch r id now = ground (
  arith,
  ==_refl r.device_id,
  ==_refl r.device_pin,
  ==_refl r.punch_time,
  ==_refl r.status,
  ==_refl r.verify_mode,
)

pub add_punch-Stored :
    (r s : PunchData) (cuid : ℕ → String) (now : ℕ) (db : Db)
    → Stored s db
    → Stored s (add_punch r cuid now db)
unfolding add_punch
add_punch-Stored r s cuid now db h =
    ground (arith, any-append (same_key s) db.punch_records (new_punch r (cuid db.minted) now ∷ []))

pub Stored-add_punch :
    (r : PunchData) (cuid : ℕ → String) (now : ℕ) (db : Db) → Stored r (add_punch r cuid now db)
unfolding add_punch
Stored-add_punch r cuid now db = ground (
  arith,
  any-append (same_key r) db.punch_records (new_punch r (cuid db.minted) now ∷ []),
  same_key-new_punch r (cuid db.minted) now,
)

insert_new-Stored :
    (r s : PunchData) (cuid : ℕ → String) (now : ℕ) (db : Db)
    → Stored s db
    → Stored s (insert_new r cuid now db)
unfolding insert_new
insert_new-Stored r s cuid now db h = ground (arith, add_punch-Stored r s cuid now db h)

pub Stored-insert_new :
    (r : PunchData) (cuid : ℕ → String) (now : ℕ) (db : Db) → Stored r (insert_new r cuid now db)
unfolding insert_new
Stored-insert_new r cuid now db = ground (arith, Stored-add_punch r cuid now db)

pub insert_all-Stored :
    (rs : List PunchData) (s : PunchData) (cuid : ℕ → String) (now : ℕ) (db : Db)
    → Stored s db
    → Stored s (insert_all rs cuid now db)
unfolding insert_all
insert_all-Stored [] s cuid now db h = h
insert_all-Stored (r ∷ rs) s cuid now db h =
    insert_all-Stored rs s cuid now (insert_new r cuid now db) (insert_new-Stored r s cuid now db h)

-- After `createMany` every row of the batch is stored.
pub All-Stored-insert_all :
    (rs : List PunchData) (cuid : ℕ → String) (now : ℕ) (db : Db)
    → All (λ r. Stored r (insert_all rs cuid now db)) rs
unfolding insert_all
All-Stored-insert_all [] cuid now db = tt
All-Stored-insert_all (r ∷ rs) cuid now db = (
  insert_all-Stored rs r cuid now (insert_new r cuid now db) (Stored-insert_new r cuid now db),
  All-Stored-insert_all rs cuid now (insert_new r cuid now db),
)

insert_one-Stored : (r s : PunchData) (w : World) → Stored s w.db → Stored s (insert_one r w).1
unfolding insert_one
insert_one-Stored r s w h = elim (Bool-cases (is_stored r w.db.punch_records)) [
  | inl old ↦ rw old h
  | inr new ↦ rw new (add_punch-Stored r s w.cuid w.now w.db h)
]

pub Stored-create_many :
    (s : PunchData) (rs : List PunchData) → Preserves (Stored s) (create_many rs)
unfolding create_many
Stored-create_many s rs =
    Preserves-write (Stored s) _ (λ v h. insert_all-Stored rs s v.cuid v.now v.db h)

pub Stored-create : (s r : PunchData) → Preserves (Stored s) (create r)
unfolding create
Stored-create s r =
    Preserves-checked_write (Stored s) (insert_one r) (λ v h. insert_one-Stored r s v h)

-- A batch that is stored already changes nothing.
pub insert_all_of_Stored :
    (rs : List PunchData) (cuid : ℕ → String) (now : ℕ) (db : Db)
    → All (λ r. Stored r db) rs
    → insert_all rs cuid now db ≡ db
unfolding insert_all insert_new
insert_all_of_Stored [] cuid now db h = refl
insert_all_of_Stored (r ∷ rs) cuid now db (old, h) = rw old (insert_all_of_Stored rs cuid now db h)
