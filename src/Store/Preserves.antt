-- ===== src/Store/Preserves.antt =====
-- Predicates of the database that a program keeps, whatever statements fail.
use adms.Prelude.{Option, none, some, List, [], ◌∷◌, Bool, true, false, ℕ, String, ◌≡◌, refl}
use adms.Store.{Db}
use adms.Store.Maintains.{
  Maintains, Maintains-branch, Maintains-guarded, Maintains-pure, Maintains->>=, Maintains->>,
  Maintains-try_catch, Maintains-read, Maintains-write, Maintains-checked_write,
}
use adms.Store.Exec.{
  World, Result, ok, thrown, Async, DbError, pure, branch, continue_with, ◌>>=◌, ◌>>◌, recover_with,
  try_catch, run_or_fail, commit_or_roll_back, transaction, read, write, checked_write, promise_all,
  all_results,
}

-- What a program keeps of the database, whatever fails and whatever ids it is given.
abbrev pub Preserves : (P : Db → Type 0) → {A : Type 0} → Async A → Type 0
Preserves P m = Maintains (λ cuid. P) m

module _ (P : Db → Type 0) where
  pub Preserves-branch :
      {A : Type 0} (b : Bool) (m k : Async A)
      → Preserves P m
      → Preserves P k
      → Preserves P (branch b m k)
  Preserves-branch b m k pm pk = Maintains-branch (λ cuid. P) b m k pm pk

  -- A branch whose parts may use what the test says.
  pub Preserves-guarded :
      {A : Type 0} (b : Bool) (m k : Async A)
      → (b ≡ true → Preserves P m)
      → (b ≡ false → Preserves P k)
      → Preserves P (branch b m k)
  Preserves-guarded b m k pm pk = Maintains-guarded (λ cuid. P) b m k pm pk

  pub Preserves-pure : {A : Type 0} (a : A) → Preserves P (pure a)
  Preserves-pure a = Maintains-pure (λ cuid. P) a

  commit_or_roll_back-keeps :
      {A : Type 0} (before : Db) (r : Result A × World)
      → P before
      → P r.1.db
      → P (commit_or_roll_back before r).1.db
  commit_or_roll_back-keeps before (ok a, w) hb h = h
  commit_or_roll_back-keeps before (thrown e, w) hb h = hb

  pub Preserves->>= :
      {A B : Type 0} (m : Async A) (f : A → Async B)
      → Preserves P m
      → ((a : A) → Preserves P (f a))
      → Preserves P (m >>= f)
  Preserves->>= m f pm pf = Maintains->>= (λ cuid. P) m f pm pf

  pub Preserves->> :
      {B : Type 0} (m : Async (Unit {0})) (k : Async B)
      → Preserves P m
      → Preserves P k
      → Preserves P (m >> k)
  Preserves->> m k pm pk = Maintains->> (λ cuid. P) m k pm pk

  pub Preserves-try_catch :
      {A : Type 0} (m : Async A) (f : DbError → Async A)
      → Preserves P m
      → ((e : DbError) → Preserves P (f e))
      → Preserves P (try_catch m f)
  Preserves-try_catch m f pm pf = Maintains-try_catch (λ cuid. P) m f pm pf

  pub Preserves-transaction :
      {A : Type 0} (m : Async A) → Preserves P m → Preserves P (transaction m)
  unfolding transaction
  Preserves-transaction m pm = record {
    from = λ w h. commit_or_roll_back-keeps w.db (m w) h (pm.from w h);
  }

  pub Preserves-read : {A : Type 0} (f : Db → A) → Preserves P (read f)
  Preserves-read f = Maintains-read (λ cuid. P) f

  pub Preserves-write :
      {A : Type 0} (f : World → A × Db) → ((v : World) → P v.db → P (f v).1) → Preserves P (write f)
  Preserves-write f pf = Maintains-write (λ cuid. P) f pf

  pub Preserves-checked_write :
      {A : Type 0} (f : World → Result A × Db)
      → ((v : World) → P v.db → P (f v).1)
      → Preserves P (checked_write f)
  Preserves-checked_write f pf = Maintains-checked_write (λ cuid. P) f pf

-- What runs side by side.
pub all_results-world :
    {A B : Type 0} (a : Result A) (r : Result B × World) → (all_results a r).1 ≡ r.1
all_results-world (ok a) (ok b, w) = refl
all_results-world (ok a) (thrown e, w) = refl
all_results-world (thrown e) (r, w) = refl

pub Preserves-promise_all :
    {A B : Type 0} (P : Db → Type 0) (m : Async A) (k : Async B)
    → Preserves P m
    → Preserves P k
    → Preserves P (promise_all m k)
unfolding promise_all
Preserves-promise_all P m k pm pk = record {
  from = λ w h. rw (all_results-world (m w).0 (k (m w).1)) (pk.from (m w).1 (pm.from w h));
}

-- One write, from one world.
module _ (P : Db → Type 0) {A : Type 0} (f : World → Result A × Db) where
  pub checked_write-keeps :
      (w : World) → P w.db → ((v : World) → v.db ≡ w.db → P (f v).1) → P (checked_write f w).1.db
  unfolding checked_write
  checked_write-keeps w h after = go w.faults
    where
      go :
          (l : List (Option DbError))
          → P (run_or_fail (λ v. ((f v).0, record v { db = (f v).1 })) w l).1.db
      go [] = after w refl
      go (none ∷ l) = after (record w { faults = l }) refl
      go (some e ∷ l) = h

  -- The same where the answer comes after it, and another one where it fails.
  pub tried_write-keeps :
      {B : Type 0} (answer : A → B) (failure : B) (w : World)
      → P w.db
      → ((v : World) → v.db ≡ w.db → P (f v).1)
      → P (try_catch (checked_write f >>= λ a. pure (answer a)) (λ e. pure failure) w).1.db
  unfolding try_catch ◌>>=◌
  tried_write-keeps {B} answer failure w h after =
      go (checked_write f w) (checked_write-keeps w h after)
    where
      go :
          (r : Result A × World)
          → P r.1.db
          → P (recover_with (λ e. pure failure) (continue_with (λ a. pure (answer a)) r)).1.db
      go (ok a, v) kept = kept
      go (thrown e, v) kept = kept

-- A write, and then what leaves the database alone.
pub checked_then-keeps :
    (P : Db → Type 0) {A B : Type 0} (f : World → Result A × Db) (k : A → Async B) (w : World)
    → ((a : A) (v : World) → (k a v).1.db ≡ v.db)
    → P w.db
    → ((v : World) → v.db ≡ w.db → P (f v).1)
    → P ((checked_write f >>= k) w).1.db
unfolding ◌>>=◌
checked_then-keeps P {A} {B} f k w still h after =
    go (checked_write f w) (checked_write-keeps P f w h after)
  where
    go : (r : Result A × World) → P r.1.db → P (continue_with k r).1.db
    go (ok a, v) kept = rw (still a v) kept
    go (thrown e, v) kept = kept

pub write_then-keeps :
    (P : Db → Type 0) {A B : Type 0} (f : World → A × Db) (k : A → Async B) (w : World)
    → ((a : A) (v : World) → (k a v).1.db ≡ v.db)
    → P w.db
    → ((v : World) → v.db ≡ w.db → P (f v).1)
    → P ((write f >>= k) w).1.db
unfolding write ◌>>=◌
write_then-keeps P {A} {B} f k w still h after = go w.faults
  where
    go :
        (l : List (Option DbError))
        → P (continue_with k (run_or_fail (λ v. (ok (f v).0, record v { db = (f v).1 })) w l)).1.db
    go [] = rw (still (f w).0 (record w { db = (f w).1 })) (after w refl)
    go (none ∷ l) =
        let v : World = record w { faults = l } in
        rw (still (f v).0 (record v { db = (f v).1 })) (after v refl)
    go (some e ∷ l) = h

-- What comes after a read runs on the database that was read.
pub read_then-keeps :
    (P : Db → Type 0) {A B : Type 0} (f : Db → A) (k : A → Async B) (w : World)
    → P w.db
    → ((v : World) → v.db ≡ w.db → P (k (f w.db) v).1.db)
    → P ((read f >>= k) w).1.db
unfolding read ◌>>=◌
read_then-keeps P {A} {B} f k w h rest = go w.faults
  where
    go :
        (l : List (Option DbError))
        → P (continue_with k (run_or_fail (λ v. (ok (f v.db), v)) w l)).1.db
    go [] = rest w refl
    go (none ∷ l) = rest (record w { faults = l }) refl
    go (some e ∷ l) = h

-- What comes after a read knows what the database holds.
pub Preserves-read_then :
    (P : Db → Type 0) {A B : Type 0} (f : Db → A) (k : A → Async B)
    → ((w : World) → P w.db → P (k (f w.db) w).1.db)
    → Preserves P (read f >>= k)
unfolding read ◌>>=◌
Preserves-read_then P {A} {B} f k rest = record { from = λ w h. go w w.faults h }
  where
    go :
        (w : World) (l : List (Option DbError))
        → P w.db
        → P (continue_with k (run_or_fail (λ v. (ok (f v.db), v)) w l)).1.db
    go w [] h = rest w h
    go w (none ∷ l) h = rest (record w { faults = l }) h
    go w (some e ∷ l) h = h

committed-keeps :
    (P : Db → Type 0) (before : Db) (r : Result (Unit {0})) (v : World)
    → P before
    → (r ≡ ok tt → P v.db)
    → P (commit_or_roll_back before (r, v)).1.db
committed-keeps P before (ok a) v h k = k refl
committed-keeps P before (thrown e) v h k = h

-- A transaction of a write and a checked write keeps what they keep together.
pub transaction_pair-keeps :
    (P : Db → Type 0) (f : World → Unit {0} × Db) (g : World → Result (Unit {0}) × Db) (db : Db)
    (now : ℕ) (cuid : ℕ → String) (l : List (Option DbError))
    → P db
    → ((u v : World) → u.db ≡ db → v.db ≡ (f u).1 → (g v).0 ≡ ok tt → P (g v).1)
    → P
        (transaction
          (write f >> checked_write g)
          (record { db = db; now = now; faults = l; cuid = cuid })).1.db
unfolding transaction write checked_write ◌>>◌
transaction_pair-keeps P f g db now cuid [] h k =
    committed-keeps P db _ _ h
      (k (record { db = db; now = now; faults = []; cuid = cuid }) _ refl refl)
transaction_pair-keeps P f g db now cuid (some e ∷ l) h k = h
transaction_pair-keeps P f g db now cuid (none ∷ []) h k =
    committed-keeps P db _ _ h
      (k (record { db = db; now = now; faults = []; cuid = cuid }) _ refl refl)
transaction_pair-keeps P f g db now cuid (none ∷ some e ∷ l) h k = h
transaction_pair-keeps P f g db now cuid (none ∷ none ∷ l) h k =
    committed-keeps P db _ _ h
      (k (record { db = db; now = now; faults = none ∷ l; cuid = cuid }) _ refl refl)

-- The rules, without the one for `write`, whose premise is the statement's own lemma.
pub ruleset preserve_rules = (
  Preserves-pure, Preserves-branch, Preserves->>=, Preserves->>, Preserves-try_catch,
  Preserves-transaction, Preserves-read,
)
