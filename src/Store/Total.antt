-- ===== src/Store/Total.antt =====
-- Programs that reject in no world, whatever statements fail.
use adms.Prelude.{Bool, true, false, ◌≡◌, refl, ap}
use adms.Store.Exec.{
  World, Result, ok, thrown, Async, DbError, pure, branch, continue_with, ◌>>=◌, ◌>>◌, recover_with,
  try_catch,
}

pub record NeverThrows {A : Type 0} (m : Async A) : Type 0 where
  pub returns : (w : World) → (a : A) × ((m w).0 ≡ ok a)

pub NeverThrows-pure : {A : Type 0} (a : A) → NeverThrows (pure a)
NeverThrows-pure a = record { returns = λ w. (a, refl) }

pub NeverThrows-branch :
    {A : Type 0} (b : Bool) (m k : Async A)
    → NeverThrows m
    → NeverThrows k
    → NeverThrows (branch b m k)
NeverThrows-branch true m k pm pk = record { returns = λ w. pm.returns w }
NeverThrows-branch false m k pm pk = record { returns = λ w. pk.returns w }

continue_with-returns :
    {A B : Type 0} (f : A → Async B) (r : Result A × World)
    → ((a : A) → NeverThrows (f a))
    → (a : A) × (r.0 ≡ ok a)
    → (b : B) × ((continue_with f r).0 ≡ ok b)
continue_with-returns f (ok a, w) pf h = (pf a).returns w
continue_with-returns f (thrown e, w) pf (a, h) = cc

recover_with-returns :
    {A : Type 0} (f : DbError → Async A) (r : Result A × World)
    → ((e : DbError) → NeverThrows (f e))
    → (a : A) × ((recover_with f r).0 ≡ ok a)
recover_with-returns f (ok a, w) pf = (a, refl)
recover_with-returns f (thrown e, w) pf = (pf e).returns w

pub NeverThrows->>= :
    {A B : Type 0} (m : Async A) (f : A → Async B)
    → NeverThrows m
    → ((a : A) → NeverThrows (f a))
    → NeverThrows (m >>= f)
unfolding ◌>>=◌
NeverThrows->>= m f pm pf = record {
  returns = λ w. continue_with-returns f (m w) pf (pm.returns w);
}

pub NeverThrows->> :
    {B : Type 0} (m : Async (Unit {0})) (k : Async B)
    → NeverThrows m
    → NeverThrows k
    → NeverThrows (m >> k)
unfolding ◌>>◌
NeverThrows->> m k pm pk = record {
  returns = λ w. continue_with-returns (λ _. k) (m w) (λ _. pk) (pm.returns w);
}

-- A `try` whose handler does not throw.
pub NeverThrows-try_catch :
    {A : Type 0} (m : Async A) (f : DbError → Async A)
    → ((e : DbError) → NeverThrows (f e))
    → NeverThrows (try_catch m f)
unfolding try_catch
NeverThrows-try_catch m f pf = record { returns = λ w. recover_with-returns f (m w) pf }

pub ruleset total_rules =
    (NeverThrows-pure, NeverThrows-branch, NeverThrows->>=, NeverThrows->>, NeverThrows-try_catch)

-- A sequence that returns has run its first part, and then its rest in the world that this left.
pub >>=-eq-ok :
    {A B : Type 0} (m : Async A) (f : A → Async B) (w : World) {b : B}
    → ((m >>= f) w).0 ≡ ok b
    → (a : A) × (v : World) × (m w ≡ (ok a, v)) × ((f a v).0 ≡ ok b)
unfolding ◌>>=◌
>>=-eq-ok {A} {B} m f w {b} h = go (m w) refl h
  where
    go :
        (r : Result A × World)
        → m w ≡ r
        → (continue_with f r).0 ≡ ok b
        → (a : A) × (v : World) × (m w ≡ (ok a, v)) × ((f a v).0 ≡ ok b)
    go (ok a, v) e k = (a, v, e, k)
    go (thrown x, v) e k = cc

pub >>=-of-ok :
    {A B : Type 0} (m : Async A) (f : A → Async B) (w v : World) {a : A}
    → m w ≡ (ok a, v)
    → (m >>= f) w ≡ f a v
unfolding ◌>>=◌
>>=-of-ok m f w v e = ap (continue_with f) e

-- If the rest never throws, what a sequence throws comes from its first part.
pub >>=-eq-thrown :
    {A B : Type 0} (m : Async A) (f : A → Async B) (w : World) {x : DbError}
    → ((a : A) → NeverThrows (f a))
    → ((m >>= f) w).0 ≡ thrown x
    → (m w).0 ≡ thrown x
unfolding ◌>>=◌
>>=-eq-thrown {A} {B} m f w {x} pf h = go (m w) h
  where
    go : (r : Result A × World) → (continue_with f r).0 ≡ thrown x → r.0 ≡ thrown x
    go (ok a, v) k = let (b, e) = (pf a).returns v in cc
    go (thrown y, v) k = let same : y ≡ x = cc in ap thrown same
