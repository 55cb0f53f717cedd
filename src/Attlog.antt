-- ===== src/Attlog.antt =====
-- src/adms/parsers/attlog.ts: the tab-separated lines of an ATTLOG body.
pub mod Lines
use adms.Prelude.{
  ℕ, zero, suc, ◌+◌, ◌-◌, ◌*◌, ℤ, sub_ℕ, pos, Text, Bool, true, false, ◌&&◌, ◌||◌, not, Option,
  none, some, List, [], ◌∷◌, ◌++◌, if◌then◌else◌, eqb, ltb, length, filter, is_digit, trim,
  trim_start, is_empty,
}
use adms.Calendar.{WallClock, date_utc}

pub record ParsedAttlogLine : Type 0 where
  pub pin : Text
  pub punch_time : ℤ
  pub status : ℤ
  pub verify_mode : ℤ
  pub work_code : Option Text
  pub reserved1 : Option Text
  pub reserved2 : Option Text
  pub raw_line : Text

-- The errors that `parseAttlogLine` throws; a constructor holds what the message quotes.
pub data LineError : Type 0 where
  too_few_fields : ℕ → LineError
  empty_pin : LineError
  unparseable_datetime unparseable_status unparseable_verify_mode : Text → LineError

pub record AttlogParseError : Type 0 where
  pub raw_line : Text
  pub error : LineError

pub record AttlogParseResult : Type 0 where
  pub records : List ParsedAttlogLine
  pub errors : List AttlogParseError

infixl 5 ◌>>=◌
abbrev pub ◌>>=◌ {ℓ κ} : {A : Type ℓ} {B : Type κ} → Option A → (A → Option B) → Option B
m >>= f = elim m [ none ↦ none | some a ↦ f a ]

-- `\d{n}`: the number that n digits write, behind those read before, and the rest.
unfoldable pub digits : ℕ → ℕ → Text → Option (ℕ × Text)
unfolding is_digit
digits zero acc s = some (acc, s)
digits (suc n) acc [] = none
digits (suc n) acc (c ∷ s) =
    let rest = digits n (acc * 10 + (c - 48)) s in if is_digit c then rest else none

unfoldable pub expect : (ℕ → Bool) → Text → Option Text
expect p [] = none
expect p (c ∷ s) = if p c then some s else none

abbrev is_dash : ℕ → Bool
is_dash c = eqb c b'-'

abbrev is_colon : ℕ → Bool
is_colon c = eqb c b':'

abbrev is_blank_or_t : ℕ → Bool
is_blank_or_t c = eqb c b' ' || eqb c b'T'

abbrev at_end : Text → WallClock → Option WallClock
at_end [] w = some w
at_end (c ∷ s) w = none

-- `DATETIME_RE` on a trimmed text.
unfoldable pub match_datetime : Text → Option WallClock
unfolding digits expect
match_datetime s = do
  (year, s) ← digits 4 0 s
  s ← expect is_dash s
  (month, s) ← digits 2 0 s
  s ← expect is_dash s
  (day, s) ← digits 2 0 s
  s ← expect is_blank_or_t s
  (hour, s) ← digits 2 0 s
  s ← expect is_colon s
  (minute, s) ← digits 2 0 s
  s ← expect is_colon s
  (second, s) ← digits 2 0 s
  at_end s (record {
    year = year;
    month = month;
    day = day;
    hour = hour;
    minute = minute;
    second = second;
  })

-- The digits are read as UTC. `Date.UTC` of numbers this small is never NaN.
unfoldable pub parse_device_datetime : Text → Option ℤ
unfolding match_datetime trim
parse_device_datetime value = do some (date_utc (← match_datetime (trim value)))

unfoldable pub empty_to_null : Option Text → Option Text
unfolding trim is_empty
empty_to_null none = none
empty_to_null (some value) = if is_empty (trim value) then none else some (trim value)

-- `Number.parseInt(s, 10)` behind the sign: at least one digit, and what follows is ignored.
parse_digits : ℕ → Text → ℕ
unfolding is_digit
parse_digits acc [] = acc
parse_digits acc (c ∷ s) =
    let rest = parse_digits (acc * 10 + (c - 48)) s in if is_digit c then rest else acc

parse_unsigned : Text → Option ℕ
unfolding parse_digits is_digit
parse_unsigned [] = none
parse_unsigned (c ∷ s) = if is_digit c then some (parse_digits 0 (c ∷ s)) else none

abbrev signed : (ℕ → ℤ) → Option ℕ → Option ℤ
signed f none = none
signed f (some n) = some (f n)

parse_signed : Text → Option ℤ
unfolding parse_unsigned
parse_signed [] = none
parse_signed (c ∷ s) =
    if eqb c b'-'
    then signed (λ n. sub_ℕ 0 n) (parse_unsigned s)
    else if eqb c b'+'
    then signed pos (parse_unsigned s)
    else signed pos (parse_unsigned (c ∷ s))

-- `Number.parseInt(s, 10)`; `none` is NaN.
unfoldable pub parse_int : Text → Option ℤ
unfolding parse_signed trim_start
parse_int s = parse_signed (trim_start s)

-- `line.replace(/\r$/, "")`
unfoldable pub strip_cr : Text → Text
strip_cr [] = []
strip_cr (c ∷ []) = if eqb c 13 then [] else c ∷ []
strip_cr (c ∷ d ∷ s) = c ∷ strip_cr (d ∷ s)

abbrev pub cons_first : ℕ → List Text → List Text
cons_first c [] = (c ∷ []) ∷ []
cons_first c (l ∷ ls) = (c ∷ l) ∷ ls

-- `s.split("\t")`
unfoldable pub split_tab : Text → List Text
split_tab [] = [] ∷ []
split_tab (c ∷ s) = let rest = split_tab s in if eqb c 9 then [] ∷ rest else cons_first c rest

abbrev field : List Text → ℕ → Option Text
field [] n = none
field (f ∷ fs) zero = some f
field (f ∷ fs) (suc n) = field fs n

pub data LineResult : Type 0 where
  parsed : ParsedAttlogLine → LineResult
  failed : LineError → LineResult

abbrev build_line :
    Text → Text → List Text → Option ℤ → Option ℤ → Option ℤ → (f1 f2 f3 : Text) → LineResult
build_line line pin rest none status mode f1 f2 f3 = failed (unparseable_datetime f1)
build_line line pin rest (some t) none mode f1 f2 f3 = failed (unparseable_status f2)
build_line line pin rest (some t) (some a) none f1 f2 f3 = failed (unparseable_verify_mode f3)
build_line line pin rest (some t) (some a) (some b) f1 f2 f3 = parsed (record {
  pin = pin;
  punch_time = t;
  status = a;
  verify_mode = b;
  work_code = empty_to_null (field rest 0);
  reserved1 = empty_to_null (field rest 1);
  reserved2 = empty_to_null (field rest 2);
  raw_line = line;
})

unfoldable pub parse_fields : Text → List Text → LineResult
unfolding empty_to_null is_empty trim parse_device_datetime parse_int
parse_fields line (f0 ∷ f1 ∷ f2 ∷ f3 ∷ rest) =
    if is_empty (trim f0)
    then failed empty_pin
    else build_line line (trim f0) rest (parse_device_datetime f1) (parse_int f2) (parse_int f3) f1
        f2 f3
parse_fields line fields = failed (too_few_fields (length fields))

unfoldable pub parse_attlog_line : Text → LineResult
unfolding parse_fields strip_cr split_tab
parse_attlog_line line = parse_fields (strip_cr line) (split_tab (strip_cr line))

-- `body.split(/\r\n|\r|\n/)` in one pass: `after_cr` says that the last character was a carriage
-- return, which has ended a line already.
unfoldable pub split_lines : Bool → Text → List Text
split_lines after_cr [] = [] ∷ []
split_lines after_cr (c ∷ s) =
    let rest = split_lines (eqb c 13) s in
    if after_cr && eqb c 10
    then rest
    else if eqb c 10 || eqb c 13
    then [] ∷ rest
    else cons_first c rest

abbrev pub not_blank : Text → Bool
not_blank l = not (is_empty (trim l))

unfoldable pub body_lines : Text → List Text
unfolding split_lines is_empty trim
body_lines body = filter not_blank (split_lines false body)

abbrev pub push_result : Text → LineResult → AttlogParseResult → AttlogParseResult
push_result line (parsed r) acc = record acc { records = acc.records ++ r ∷ [] }
push_result line (failed e) acc = record acc {
  errors = acc.errors ++ record { raw_line = line; error = e } ∷ [];
}

-- The loop over the lines.
unfoldable pub parse_lines : List Text → AttlogParseResult → AttlogParseResult
unfolding parse_attlog_line
parse_lines [] acc = acc
parse_lines (line ∷ lines) acc = parse_lines lines (push_result line (parse_attlog_line line) acc)

abbrev pub no_results : AttlogParseResult
no_results = record { records = []; errors = [] }

unfoldable pub parse_attlog_body : Text → AttlogParseResult
unfolding body_lines parse_lines
parse_attlog_body body = parse_lines (body_lines body) no_results
