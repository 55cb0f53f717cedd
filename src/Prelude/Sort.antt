-- ===== src/Prelude/Sort.antt =====
-- Sorting by a numeric key, earlier rows first among equals, as `ORDER BY` on one column.
use Prim.Native.Nat.{ℕ, zero, suc, ◌≤◌}
use mathlib.Core.Logic.{inl, inr}
use mathlib.Core.List.{List, [], ◌∷◌}
use native.Mathlib.Omega.{arith}
use adms.Prelude.Tests.{if◌then◌else◌, leb, leb→le, Bool-cases}
use adms.Prelude.Lists.{All, All-both, All-take, take, drop}

module _ {A : Type 0} (key : A → ℕ) where
  unfoldable pub insert_by : A → List A → List A
  insert_by x [] = x ∷ []
  insert_by x (y ∷ ys) = if leb (key x) (key y) then x ∷ y ∷ ys else y ∷ insert_by x ys

  unfoldable pub sort_by : List A → List A
  unfolding insert_by
  sort_by [] = []
  sort_by (x ∷ xs) = insert_by x (sort_by xs)

  All-insert_by : (P : A → Type 0) (x : A) (xs : List A) → P x → All P xs → All P (insert_by x xs)
  unfolding insert_by
  All-insert_by P x [] p h = (p, tt)
  All-insert_by P x (y ∷ ys) p h = elim (Bool-cases (leb (key x) (key y))) [
    | inl e ↦ rw e (p, h)
    | inr e ↦ rw e (h.0, All-insert_by P x ys p h.1)
  ]

  pub All-sort_by : (P : A → Type 0) (xs : List A) → All P xs → All P (sort_by xs)
  unfolding sort_by
  All-sort_by P [] h = tt
  All-sort_by P (x ∷ xs) h = All-insert_by P x (sort_by xs) h.0 (All-sort_by P xs h.1)

  abbrev pub NotAfter : A → A → Type 0
  NotAfter x y = key x ≤ key y

  abbrev pub IsSorted : List A → Type 0
  IsSorted [] = Unit
  IsSorted (x ∷ xs) = All (NotAfter x) xs × IsSorted xs

  All-NotAfter-trans :
      (x y : A) (xs : List A) → NotAfter x y → All (NotAfter y) xs → All (NotAfter x) xs
  All-NotAfter-trans x y [] h a = tt
  All-NotAfter-trans x y (z ∷ xs) h a = (omega arith, All-NotAfter-trans x y xs h a.1)

  insert_by-IsSorted : (x : A) (xs : List A) → IsSorted xs → IsSorted (insert_by x xs)
  unfolding insert_by
  insert_by-IsSorted x [] h = (tt, tt)
  insert_by-IsSorted x (y ∷ ys) (a, h) = elim (Bool-cases (leb (key x) (key y))) [
    | inl e ↦ rw e ((leb→le _ _ e, All-NotAfter-trans x y ys (leb→le _ _ e) a), (a, h))
    | inr e ↦ rw e (All-insert_by (NotAfter y) x ys (ground arith) a, insert_by-IsSorted x ys h)
  ]

  pub sort_by-IsSorted : (xs : List A) → IsSorted (sort_by xs)
  unfolding sort_by
  sort_by-IsSorted [] = tt
  sort_by-IsSorted (x ∷ xs) = insert_by-IsSorted x (sort_by xs) (sort_by-IsSorted xs)

  pub take-IsSorted : (n : ℕ) (xs : List A) → IsSorted xs → IsSorted (take n xs)
  take-IsSorted zero xs h = tt
  take-IsSorted (suc n) [] h = tt
  take-IsSorted (suc n) (x ∷ xs) (a, h) = (All-take (NotAfter x) n xs a, take-IsSorted n xs h)

  All-Unit : (xs : List A) → All (λ _. Unit {0}) xs
  All-Unit [] = tt
  All-Unit (x ∷ xs) = (tt, All-Unit xs)

  All-drop : (P : A → Type 0) (n : ℕ) (xs : List A) → All P xs → All P (drop n xs)
  All-drop P zero xs h = h
  All-drop P (suc n) [] h = h
  All-drop P (suc n) (x ∷ xs) h = All-drop P n xs h.1

  -- None of those left behind comes before one that is taken.
  pub take-before-drop :
      (n : ℕ) (xs : List A)
      → IsSorted xs
      → All (λ y. All (λ x. NotAfter x y) (take n xs)) (drop n xs)
  take-before-drop zero xs h = All-Unit xs
  take-before-drop (suc n) [] h = tt
  take-before-drop (suc n) (x ∷ xs) (a, h) =
      All-both (NotAfter x) (λ y. All (λ z. NotAfter z y) (take n xs)) (drop n xs)
        (All-drop (NotAfter x) n xs a) (take-before-drop n xs h)
