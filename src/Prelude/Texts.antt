-- ===== src/Prelude/Texts.antt =====
-- What the program uses of JavaScript's string methods, over code points. Case mapping is that of
-- the ASCII letters; every other code point is left as it is.
use Prim.Native.Nat.{ℕ, ◌+◌, ◌-◌}
use Prim.Native.Char.{code}
use Prim.Native.String.{String}
use mathlib.Core.Bool.{Bool, true, false, ◌&&◌, ◌||◌}
use mathlib.Core.List.{[], ◌∷◌, map}
use mathlib.Core.Option.{Option, none, some}
use adms.Prelude.Tests.{Text, leb, eqb, if◌then◌else◌}

-- The code points of a literal.
abbrev pub codes : String → Text
codes String.[] = []
codes (String.◌∷◌ c s) = code c ∷ codes s

unfoldable pub to_lower_char : ℕ → ℕ
to_lower_char c = if leb b'A' c && leb c b'Z' then c + 32 else c

unfoldable pub to_upper_char : ℕ → ℕ
to_upper_char c = if leb b'a' c && leb c b'z' then c - 32 else c

-- `s.toLowerCase()`, `s.toUpperCase()`
unfoldable pub to_lower_case : Text → Text
unfolding to_lower_char
to_lower_case s = map to_lower_char s

unfoldable pub to_upper_case : Text → Text
unfolding to_upper_char
to_upper_case s = map to_upper_char s

-- The white space and line terminators that `trim`, `parseInt` and `\s` read.
unfoldable pub is_space : ℕ → Bool
is_space c =
    (leb 9 c && leb c 13)
    || eqb c 32
    || eqb c 160
    || eqb c 5760
    || (leb 8192 c && leb c 8202)
    || eqb c 8232
    || eqb c 8233
    || eqb c 8239
    || eqb c 8287
    || eqb c 12288
    || eqb c 65279

unfoldable pub trim_start : Text → Text
unfolding is_space
trim_start [] = []
trim_start (c ∷ s) = if is_space c then trim_start s else c ∷ s

-- A trailing run of white space is dropped: a character stays if it or a later one is no space.
unfoldable pub trim_end : Text → Text
unfolding is_space
trim_end [] = []
trim_end (c ∷ s) = elim (trim_end s) [ [] ↦ if is_space c then [] else c ∷ [] | d ∷ t ↦ c ∷ d ∷ t ]

-- `s.trim()`
unfoldable pub trim : Text → Text
unfolding trim_start trim_end
trim s = trim_end (trim_start s)

unfoldable pub is_digit : ℕ → Bool
is_digit c = leb b'0' c && leb c b'9'

-- The rest of `s` behind the prefix `p`, compared without regard to case.
unfoldable pub strip_prefix_i : Text → Text → Option Text
unfolding to_lower_char
strip_prefix_i [] s = some s
strip_prefix_i (c ∷ p) [] = none
strip_prefix_i (c ∷ p) (d ∷ s) =
    if eqb (to_lower_char c) (to_lower_char d) then strip_prefix_i p s else none

unfoldable pub is_empty : Text → Bool
is_empty [] = true
is_empty (c ∷ s) = false

-- The rest of `s` behind the prefix `p`.
unfoldable pub strip_prefix : Text → Text → Option Text
strip_prefix [] s = some s
strip_prefix (c ∷ p) [] = none
strip_prefix (c ∷ p) (d ∷ s) = if eqb c d then strip_prefix p s else none

unfoldable pub take_while : (ℕ → Bool) → Text → Text
take_while p [] = []
take_while p (c ∷ s) = if p c then c ∷ take_while p s else []
