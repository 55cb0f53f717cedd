-- ===== src/DataTables.antt =====
-- src/utils/datatable.ts and src/utils/pagination.ts: the sorting and the pages of the lists. A sort is
-- described as the program hands it to the database; its columns are those that a list declares.
use adms.Store.{Db}
use adms.Store.Exec.{promise_all, Async, pure, read}
use adms.Prelude.{
  is_given, strip_prefix, ◌||◌, to_lower_case, ℕ, ◌-◌, ◌*◌, String, Text, Bool, true, false, ◌&&◌,
  Option, none, some, List, [], ◌∷◌, ◌++◌, take, drop, leb, ◌==◌, string_eq, if◌then◌else◌,
  is_empty, any, ◌||◌, length, filter, includes,
}

pub data SortDir : Type 0 where
  asc desc : SortDir

-- One column of an `ORDER BY`: its name, and whether NULLs come last.
pub record SortKey : Type 0 where
  pub column : String
  pub dir : SortDir
  pub nulls_last : Bool

abbrev pub key_on : String → SortDir → SortKey
key_on column dir = record { column = column; dir = dir; nulls_last = false }

-- `nullsLast`
abbrev pub nulls_last_on : String → SortDir → SortKey
nulls_last_on column dir = record { column = column; dir = dir; nulls_last = true }

-- The sortable columns of a list, by the key that the client sends.
abbrev pub SortColumns : Type 0
SortColumns = List (String × (SortDir → SortKey))

-- `hasOwnProperty`, with the value.
unfoldable pub column_of : String → SortColumns → Option (SortDir → SortKey)
column_of name [] = none
column_of name ((k, c) ∷ columns) =
    let rest = column_of name columns in if k == name then some c else rest

abbrev pub or_asc : Option SortDir → SortDir
or_asc none = asc
or_asc (some dir) = dir

abbrev sort_keys : Option (SortDir → SortKey) → Option SortDir → List SortKey → List SortKey
sort_keys none dir fallback = fallback ++ key_on "id" desc ∷ []
sort_keys (some column) dir fallback = column (or_asc dir) ∷ key_on "id" (or_asc dir) ∷ []

abbrev wanted_column : Option String → SortColumns → Option (SortDir → SortKey)
wanted_column none columns = none
wanted_column (some name) columns = if name == "" then none else column_of name columns

-- `buildOrderBy`
unfoldable pub build_order_by :
    Option String → Option SortDir → SortColumns → List SortKey → List SortKey
unfolding column_of
build_order_by sort_by sort_dir columns fallback =
    sort_keys (wanted_column sort_by columns) sort_dir fallback

abbrev pub default_page_size : ℕ
default_page_size = 25

abbrev pub max_page_size : ℕ
max_page_size = 100

-- Cap for the lists of `<select>`s.
abbrev pub options_limit : ℕ
options_limit = 500

pub record TableQuery : Type 0 where
  pub page : ℕ
  pub page_size : ℕ
  pub sort_by : Option String
  pub sort_dir : Option SortDir
  pub search : Option Text

-- The bounds of `paginationQuerySchema`.
unfoldable pub is_valid_page : TableQuery → Bool
is_valid_page q = leb 1 q.page && (leb 1 q.page_size && leb q.page_size max_page_size)

-- `skip` and `take`
unfoldable pub page_of {ℓ} : {A : Type ℓ} → TableQuery → List A → List A
page_of q rows = take q.page_size (drop ((q.page - 1) * q.page_size) rows)

-- `findMany` and `count` of the same rows, side by side; `order` is the database's `ORDER BY`.
unfoldable pub page_and_total :
    {A : Type 0}
    → (List SortKey → List A → List A)
    → List SortKey
    → TableQuery
    → (Db → List A)
    → Async (List A × ℕ)
unfolding page_of promise_all
page_and_total order keys query rows =
    promise_all (read (λ db. page_of query (order keys (rows db)))) (read (λ db. length (rows db)))

-- `COALESCE(char_length("rawBody"), 0)`
abbrev pub body_length : Option Text → ℕ
body_length none = 0
body_length (some body) = length body

-- `sizeById.get(id) ?? 0`
unfoldable pub size_by_id : List (String × ℕ) → String → ℕ
size_by_id [] id = 0
size_by_id ((k, n) ∷ sizes) id = let rest = size_by_id sizes id in if k == id then n else rest

-- The sizes of the bodies of a page, which a query of its own computes, unless the page is empty.
abbrev pub sizes_of : List String → (Db → List (String × ℕ)) → Async (List (String × ℕ))
sizes_of [] sizes = pure []
sizes_of (id ∷ ids) sizes = read (λ db. filter (λ s. includes (id ∷ ids) s.0) (sizes db))

-- `contains`, in the insensitive mode.
unfoldable pub text_contains : Text → Text → Bool
text_contains term [] = is_empty term
text_contains term (c ∷ s) = is_given (strip_prefix term (c ∷ s)) || text_contains term s

unfoldable pub matches_term : Text → Text → Bool
unfolding text_contains
matches_term term field = text_contains (to_lower_case term) (to_lower_case field)

-- `buildSearch`: a match of any of the fields; no filter for an empty search.
unfoldable pub build_search : Option Text → List Text → Bool
unfolding matches_term
build_search none fields = true
build_search (some term) fields = is_empty term || any (matches_term term) fields
