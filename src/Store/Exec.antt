-- ===== src/Store/Exec.antt =====
-- Running statements against the database. Each statement may fail: `faults` says, statement by
-- statement, which ones fail and with what error, and every theorem holds for every such schedule.
-- Prisma's own guarantees are written out: a failed statement changes nothing, and so does a
-- failed transaction. `cuid` is the generator of ids.
use adms.Prelude.{ℕ, String, Text, Option, none, some, List, [], ◌∷◌, Bool, true, false, ◌+◌}
use adms.Store.{Db}

-- What a Prisma call can reject with.
pub data DbError : Type 0 where
  known_request : (code : String) → DbError
  initialization : DbError
  rust_panic : DbError
  other : (message : Text) → DbError

pub record World : Type 0 where
  pub db : Db
  pub now : ℕ
  pub faults : List (Option DbError)
  pub cuid : ℕ → String

pub data Result {ℓ} (A : Type ℓ) : Type ℓ where
  ok : A → Result A
  thrown : DbError → Result A

-- An asynchronous function: its result or its rejection, and the world that it leaves.
abbrev pub Async : Type 0 → Type 0
Async A = World → Result A × World

abbrev pub pure : {A : Type 0} → A → Async A
pure a w = (ok a, w)

abbrev pub continue_with : {A B : Type 0} → (A → Async B) → Result A × World → Result B × World
continue_with f (ok a, w) = f a w
continue_with f (thrown e, w) = (thrown e, w)

infixl 5 ◌>>=◌ ◌>>◌
unfoldable pub ◌>>=◌ : {A B : Type 0} → Async A → (A → Async B) → Async B
◌>>=◌ m f w = continue_with f (m w)

unfoldable pub ◌>>◌ : {B : Type 0} → Async (Unit {0}) → Async B → Async B
◌>>◌ m k w = continue_with (λ _. k) (m w)

-- `if (b) { m } else { k }` between asynchronous branches.
abbrev pub branch : {A : Type 0} → Bool → Async A → Async A → Async A
branch b m k w = elim b [ true ↦ m w | false ↦ k w ]

abbrev pub recover_with : {A : Type 0} → (DbError → Async A) → Result A × World → Result A × World
recover_with h (ok a, w) = (ok a, w)
recover_with h (thrown e, w) = h e w

-- `try { m } catch (e) { h(e) }`
unfoldable pub try_catch : {A : Type 0} → Async A → (DbError → Async A) → Async A
try_catch m h w = recover_with h (m w)

abbrev pub run_or_fail :
    {A : Type 0} → (World → Result A × World) → World → List (Option DbError) → Result A × World
run_or_fail f w [] = f w
run_or_fail f w (none ∷ rest) = f (record w { faults = rest })
run_or_fail f w (some e ∷ rest) = (thrown e, record w { faults = rest })

-- One statement, which the next entry of the schedule may fail.
unfoldable pub statement : {A : Type 0} → (World → Result A × World) → Async A
statement f w = run_or_fail f w w.faults

abbrev pub commit_or_roll_back : {A : Type 0} → Db → Result A × World → Result A × World
commit_or_roll_back before (ok a, w) = (ok a, w)
commit_or_roll_back before (thrown e, w) = (thrown e, record w { db = before })

-- `$transaction`
unfoldable pub transaction : {A : Type 0} → Async A → Async A
transaction m w = commit_or_roll_back w.db (m w)

-- A statement that reads, and one that writes.
unfoldable pub read : {A : Type 0} → (Db → A) → Async A
unfolding statement
read f = statement (λ w. (ok (f w.db), w))

unfoldable pub write : {A : Type 0} → (World → A × Db) → Async A
unfolding statement
write f = statement (λ w. (ok (f w).0, record w { db = (f w).1 }))

-- A write that a constraint may refuse.
unfoldable pub checked_write : {A : Type 0} → (World → Result A × Db) → Async A
unfolding statement
checked_write f = statement (λ w. ((f w).0, record w { db = (f w).1 }))

-- `Promise.all` of two: both run to their end, whichever is rejected.
abbrev pub all_results : {A B : Type 0} → Result A → Result B × World → Result (A × B) × World
all_results (ok a) (ok b, w) = (ok (a, b), w)
all_results (ok a) (thrown e, w) = (thrown e, w)
all_results (thrown e) (r, w) = (thrown e, w)

unfoldable pub promise_all : {A B : Type 0} → Async A → Async B → Async (A × B)
promise_all m k w = let r = m w in all_results r.0 (k r.1)

-- Time that passes while the program waits for someone else.
abbrev pub wait : ℕ → Async (Unit {0})
wait ms w = (ok tt, record w { now = w.now + ms })

-- A call that is no statement and may throw.
abbrev pub call : {A : Type 0} → Result A → Async A
call r w = (r, w)
