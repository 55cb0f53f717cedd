-- ===== src/Prelude/Membership.antt =====
-- Members of lists, through filtering, sorting and cutting.
use Prim.Native.Nat.{ℕ, zero, suc, ◌≤◌}
use mathlib.Core.Path.{◌≡◌, refl, ap}
use mathlib.Core.Logic.{◌⊎◌, inl, inr}
use mathlib.Core.Bool.{Bool, true}
use mathlib.Core.List.{List, [], ◌∷◌, Memᴰ}
use mathlib.Core.List.Memᴰ.{head, tail}
use native.Mathlib.Omega.{arith}
use adms.Prelude.Tests.{leb, Bool-cases}
use adms.Prelude.Lists.{All, filter, take, drop, length, length-take, All-kept, All-take}
use adms.Prelude.Sort.{
  insert_by, sort_by, All-sort_by, IsSorted, sort_by-IsSorted, take-IsSorted, take-before-drop,
}

module _ {A : Type 0} where
  pub All-imp : (P Q : A → Type 0) (xs : List A) → ((x : A) → P x → Q x) → All P xs → All Q xs
  All-imp P Q [] f h = tt
  All-imp P Q (x ∷ xs) f h = (f x h.0, All-imp P Q xs f h.1)

  pub All-Mem : (xs : List A) → All (λ x. Memᴰ x xs) xs
  All-Mem [] = tt
  All-Mem (x ∷ xs) = (head refl, All-imp _ _ xs (λ y m. tail m) (All-Mem xs))

  pub Mem-All : (P : A → Type 0) (x : A) (xs : List A) → All P xs → Memᴰ x xs → P x
  Mem-All P x [] h m = elim m [ ]
  Mem-All P x (y ∷ xs) h (head e) = rw e h.0
  Mem-All P x (y ∷ xs) h (tail m) = Mem-All P x xs h.1 m

  pub Mem-filter :
      (p : A → Bool) (x : A) (xs : List A) → p x ≡ true → Memᴰ x xs → Memᴰ x (filter p xs)
  Mem-filter p x [] h m = elim m [ ]
  Mem-filter p x (y ∷ xs) h (head e) = rw (← ap p e) (rw h (head e))
  Mem-filter p x (y ∷ xs) h (tail m) = elim (Bool-cases (p y)) [
    | inl k ↦ rw k (tail (Mem-filter p x xs h m))
    | inr k ↦ rw k (Mem-filter p x xs h m)
  ]

  Mem-take-drop :
      (n : ℕ) (x : A) (xs : List A) → Memᴰ x xs → Memᴰ x (take n xs) ⊎ Memᴰ x (drop n xs)
  Mem-take-drop zero x xs m = inr m
  Mem-take-drop (suc n) x [] m = elim m [ ]
  Mem-take-drop (suc n) x (y ∷ xs) (head e) = inl (head e)
  Mem-take-drop (suc n) x (y ∷ xs) (tail m) = elim (Mem-take-drop n x xs m) [
    | inl k ↦ inl (tail k)
    | inr k ↦ inr k
  ]

  length-take_of_Mem : (n : ℕ) (x : A) (xs : List A) → Memᴰ x (drop n xs) → length (take n xs) ≡ n
  length-take_of_Mem zero x xs m = refl
  length-take_of_Mem (suc n) x [] m = elim m [ ]
  length-take_of_Mem (suc n) x (y ∷ xs) m = ap suc (length-take_of_Mem n x xs m)

module _ {A : Type 0} (key : A → ℕ) where
  Mem-insert_by : (x : A) (xs : List A) → Memᴰ x (insert_by key x xs)
  unfolding insert_by
  Mem-insert_by x [] = head refl
  Mem-insert_by x (y ∷ ys) = elim (Bool-cases (leb (key x) (key y))) [
    | inl e ↦ rw e (head refl)
    | inr e ↦ rw e (tail (Mem-insert_by x ys))
  ]

  Mem-insert_by-other : (x y : A) (xs : List A) → Memᴰ x xs → Memᴰ x (insert_by key y xs)
  unfolding insert_by
  Mem-insert_by-other x y [] m = elim m [ ]
  Mem-insert_by-other x y (z ∷ xs) (head k) = elim (Bool-cases (leb (key y) (key z))) [
    | inl e ↦ rw e (tail (head k))
    | inr e ↦ rw e (head k)
  ]
  Mem-insert_by-other x y (z ∷ xs) (tail k) = elim (Bool-cases (leb (key y) (key z))) [
    | inl e ↦ rw e (tail (tail k))
    | inr e ↦ rw e (tail (Mem-insert_by-other x y xs k))
  ]

  Mem-sort_by : (x : A) (xs : List A) → Memᴰ x xs → Memᴰ x (sort_by key xs)
  unfolding sort_by
  Mem-sort_by x [] m = elim m [ ]
  Mem-sort_by x (y ∷ xs) (head e) = rw e (Mem-insert_by y (sort_by key xs))
  Mem-sort_by x (y ∷ xs) (tail m) = Mem-insert_by-other x y (sort_by key xs) (Mem-sort_by x xs m)

  module _ (p : A → Bool) (n : ℕ) (xs : List A) where
    abbrev first : List A
    first = take n (sort_by key (filter p xs))

    -- `ORDER BY key LIMIT n` of the rows that pass a test: rows of the table that pass it.
    pub All-first : (P : A → Type 0) → All P (filter p xs) → All P first
    All-first P h = All-take P n (sort_by key (filter p xs)) (All-sort_by key P (filter p xs) h)

    pub first-Mem : All (λ x. Memᴰ x xs) first
    first-Mem = All-first _ (All-kept _ p xs (All-Mem xs))

    pub first-IsSorted : IsSorted key first
    first-IsSorted =
        take-IsSorted key n (sort_by key (filter p xs)) (sort_by-IsSorted key (filter p xs))

    pub length-first : length first ≤ n
    length-first = omega (arith, length-take n (sort_by key (filter p xs)))

    -- A row that passes is among them, or they are as many as may be and none comes after it.
    pub first_complete :
        (x : A)
        → p x ≡ true
        → Memᴰ x xs
        → Memᴰ x first ⊎ ((length first ≡ n) × All (λ y. key y ≤ key x) first)
    first_complete x h m =
        let queue = sort_by key (filter p xs) in
        elim (Mem-take-drop n x queue (Mem-sort_by x (filter p xs) (Mem-filter p x xs h m))) [
          | inl here ↦ inl here
          | inr behind ↦ inr (
            length-take_of_Mem n x queue behind,
            Mem-All _ x (drop n queue)
                (take-before-drop key n queue (sort_by-IsSorted key (filter p xs))) behind,
          )
        ]
