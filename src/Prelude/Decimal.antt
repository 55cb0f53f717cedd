-- ===== src/Prelude/Decimal.antt =====
-- `String(n)` of a whole number. The fuel is the number itself: each round drops a digit.
use Prim.Native.Nat.{ℕ, zero, suc, ◌+◌, ◌/◌, ◌%◌}
use mathlib.Core.List.{[], ◌∷◌, ◌++◌}
use adms.Prelude.Tests.{Text, ltb, if◌then◌else◌}
use adms.Prelude.Int.{ℤ, pos, negsuc}

unfoldable pub show_from : ℕ → ℕ → Text
show_from zero n = (48 + n % 10) ∷ []
show_from (suc f) n =
    let front = show_from f (n / 10) in
    if ltb n 10 then (48 + n) ∷ [] else front ++ (48 + n % 10) ∷ []

unfoldable pub show_nat : ℕ → Text
unfolding show_from
show_nat n = show_from n n

unfoldable pub show_int : ℤ → Text
unfolding show_nat
show_int (pos n) = show_nat n
show_int (negsuc n) = b'-' ∷ show_nat (suc n)
