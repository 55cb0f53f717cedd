-- ===== src/DbErrors.antt =====
-- src/adms/dbErrors.ts: what kind of failure a rejected statement is.
use adms.Prelude.{
  String, Text, codes, Bool, true, false, ◌&&◌, ◌||◌, not, Option, none, some, List, [], ◌∷◌, eqb,
  ℕ, ◌≡◌, refl, includes, if◌then◌else◌, strip_prefix_i, string_eq,
}
use adms.Store.Exec.{DbError, known_request, initialization, rust_panic, other}

pub data DbErrorKind : Type 0 where
  connection data_error unknown : DbErrorKind

abbrev pub connection_error_codes : List String
connection_error_codes = "P1001" ∷ "P1002" ∷ "P1008" ∷ "P1017" ∷ "P2024" ∷ []

abbrev pub data_error_codes : List String
data_error_codes =
    "P2000" ∷ "P2001" ∷ "P2003" ∷ "P2004" ∷ "P2005" ∷ "P2006" ∷ "P2007" ∷ "P2011" ∷ "P2012"
    ∷ "P2019" ∷ "P2020" ∷ "P2033" ∷ []

abbrev is_found : Option Text → Bool
is_found none = false
is_found (some rest) = true

-- `.` matches anything but these.
ends_line : ℕ → Bool
ends_line c = eqb c 10 || eqb c 13 || eqb c 8232 || eqb c 8233

-- The regular expression `p`, somewhere in the text, without regard to case.
contains_i : Text → Text → Bool
contains_i p [] = is_found (strip_prefix_i p [])
contains_i p (c ∷ s) = is_found (strip_prefix_i p (c ∷ s)) || contains_i p s

-- The same on the rest of the line.
contains_on_line : Text → Text → Bool
unfolding ends_line
contains_on_line p [] = is_found (strip_prefix_i p [])
contains_on_line p (c ∷ s) =
    is_found (strip_prefix_i p (c ∷ s)) || (not (ends_line c) && contains_on_line p s)

abbrev continues_with : Text → Option Text → Bool
continues_with q none = false
continues_with q (some rest) = contains_on_line q rest

-- `p.*q`
contains_both : Text → Text → Text → Bool
contains_both p q [] = continues_with q (strip_prefix_i p [])
contains_both p q (c ∷ s) = continues_with q (strip_prefix_i p (c ∷ s)) || contains_both p q s

-- `DATA_ERROR_MESSAGE_PATTERN.test`
unfoldable pub matches_data_error_message : Text → Bool
unfolding contains_i contains_on_line contains_both strip_prefix_i
matches_data_error_message s =
    contains_i (codes "invalid byte sequence") s
    || contains_both (codes "character") (codes "not in repertoire") s
    || contains_i (codes "invalid input syntax") s

unfoldable pub classify_db_error : DbError → DbErrorKind
unfolding matches_data_error_message
classify_db_error (known_request code) =
    if includes connection_error_codes code
    then connection
    else if includes data_error_codes code
    then data_error
    else unknown
classify_db_error initialization = connection
classify_db_error rust_panic = unknown
classify_db_error (other message) =
    if matches_data_error_message message then data_error else unknown

abbrev pub is_data : DbErrorKind → Bool
is_data data_error = true
is_data connection = false
is_data unknown = false

-- `recErr instanceof PrismaClientKnownRequestError && recErr.code === "P2002"`, the violation of a
-- unique constraint.
unfoldable pub is_unique_violation : DbError → Bool
is_unique_violation (known_request code) = includes ("P2002" ∷ []) code
is_unique_violation initialization = false
is_unique_violation rust_panic = false
is_unique_violation (other message) = false

nul_byte : classify_db_error (other (codes "ERROR: INVALID byte sequence 0x00")) ≡ data_error
unfolding classify_db_error
nul_byte = refl
