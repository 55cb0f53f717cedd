-- ===== src/Store/Maintains.antt =====
-- Predicates of the database and of the generator of ids that a program keeps, whatever fails.
use adms.Prelude.{Option, none, some, List, [], ◌∷◌, Bool, true, false, ℕ, String, ◌≡◌, refl}
use adms.Store.{Db}
use adms.Store.Exec.{
  World, Result, ok, thrown, Async, DbError, pure, branch, continue_with, ◌>>=◌, ◌>>◌, recover_with,
  try_catch, run_or_fail, read, write, checked_write,
}

-- What a program keeps of the database and the generator of its ids, whatever fails.
pub record Maintains (P : (ℕ → String) → Db → Type 0) {A : Type 0} (m : Async A) : Type 0 where
  pub from : (w : World) → P w.cuid w.db → P (m w).1.cuid (m w).1.db

module _ (P : (ℕ → String) → Db → Type 0) where
  pub Maintains-branch :
      {A : Type 0} (b : Bool) (m k : Async A)
      → Maintains P m
      → Maintains P k
      → Maintains P (branch b m k)
  Maintains-branch true m k pm pk = pm
  Maintains-branch false m k pm pk = pk

  -- A branch whose parts may use what the test says.
  pub Maintains-guarded :
      {A : Type 0} (b : Bool) (m k : Async A)
      → (b ≡ true → Maintains P m)
      → (b ≡ false → Maintains P k)
      → Maintains P (branch b m k)
  Maintains-guarded true m k pm pk = pm refl
  Maintains-guarded false m k pm pk = pk refl

  pub Maintains-pure : {A : Type 0} (a : A) → Maintains P (pure a)
  Maintains-pure a = record { from = λ w h. h }

  continue_with-keeps :
      {A B : Type 0} (f : A → Async B) (r : Result A × World)
      → ((a : A) → Maintains P (f a))
      → P r.1.cuid r.1.db
      → P (continue_with f r).1.cuid (continue_with f r).1.db
  continue_with-keeps f (ok a, w) pf h = (pf a).from w h
  continue_with-keeps f (thrown e, w) pf h = h

  recover_with-keeps :
      {A : Type 0} (f : DbError → Async A) (r : Result A × World)
      → ((e : DbError) → Maintains P (f e))
      → P r.1.cuid r.1.db
      → P (recover_with f r).1.cuid (recover_with f r).1.db
  recover_with-keeps f (ok a, w) pf h = h
  recover_with-keeps f (thrown e, w) pf h = (pf e).from w h

  run_or_fail-keeps :
      {A : Type 0} (f : World → Result A × World) (w : World) (l : List (Option DbError))
      → ((v : World) → P v.cuid v.db → P (f v).1.cuid (f v).1.db)
      → P w.cuid w.db
      → P (run_or_fail f w l).1.cuid (run_or_fail f w l).1.db
  run_or_fail-keeps f w [] pf h = pf w h
  run_or_fail-keeps f w (none ∷ l) pf h = pf (record w { faults = l }) h
  run_or_fail-keeps f w (some e ∷ l) pf h = h

  pub Maintains->>= :
      {A B : Type 0} (m : Async A) (f : A → Async B)
      → Maintains P m
      → ((a : A) → Maintains P (f a))
      → Maintains P (m >>= f)
  unfolding ◌>>=◌
  Maintains->>= m f pm pf = record { from = λ w h. continue_with-keeps f (m w) pf (pm.from w h) }

  pub Maintains->> :
      {B : Type 0} (m : Async (Unit {0})) (k : Async B)
      → Maintains P m
      → Maintains P k
      → Maintains P (m >> k)
  unfolding ◌>>◌
  Maintains->> m k pm pk = record {
    from = λ w h. continue_with-keeps (λ _. k) (m w) (λ _. pk) (pm.from w h);
  }

  pub Maintains-try_catch :
      {A : Type 0} (m : Async A) (f : DbError → Async A)
      → Maintains P m
      → ((e : DbError) → Maintains P (f e))
      → Maintains P (try_catch m f)
  unfolding try_catch
  Maintains-try_catch m f pm pf = record {
    from = λ w h. recover_with-keeps f (m w) pf (pm.from w h);
  }

  pub Maintains-read : {A : Type 0} (f : Db → A) → Maintains P (read f)
  unfolding read
  Maintains-read f = record {
    from = λ w h. run_or_fail-keeps (λ v. (ok (f v.db), v)) w w.faults (λ v k. k) h;
  }

  pub Maintains-write :
      {A : Type 0} (f : World → A × Db)
      → ((v : World) → P v.cuid v.db → P v.cuid (f v).1)
      → Maintains P (write f)
  unfolding write
  Maintains-write f pf = record {
    from = λ w h. run_or_fail-keeps (λ v. (ok (f v).0, record v { db = (f v).1 })) w w.faults pf h;
  }

  pub Maintains-checked_write :
      {A : Type 0} (f : World → Result A × Db)
      → ((v : World) → P v.cuid v.db → P v.cuid (f v).1)
      → Maintains P (checked_write f)
  unfolding checked_write
  Maintains-checked_write f pf = record {
    from = λ w h. run_or_fail-keeps (λ v. ((f v).0, record v { db = (f v).1 })) w w.faults pf h;
  }

-- The rules, without the ones for writes, whose premise is the statement's own lemma.
pub ruleset maintain_rules = (
  Maintains-pure, Maintains-branch, Maintains->>=, Maintains->>, Maintains-try_catch,
  Maintains-read,
)
