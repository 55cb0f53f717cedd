-- ===== src/PunchRecords/Pages.antt =====
-- What a page of punches holds.
use adms.Prelude.{
  ℕ, zero, suc, ◌≤◌, ◌*◌, ◌-◌, ◌≡◌, refl, String, Bool, true, some, List, [], ◌∷◌, filter, take,
  drop, length, length-take, All, All-take, All-filter, arith, eq_iff, string_eq,
}
use adms.Store.{Db, PunchRecord, AdminRole}
use adms.Access.{AdminIdentity, resolve_company_scope}
use adms.PunchRecords.Listing.{
  ListQuery, Row, scoped_where, passes, join_devices, serialize_record, serialize_all, list_rows,
}

abbrev IsOf : String → Row → Type 0
IsOf company (p, d) = d.company_id ≡ company

scoped_where-IsOf :
    (admin : AdminIdentity) (company : String) (extra : PunchRecord → Bool) (max : ℕ)
    (query : ListQuery) (r : Row)
    → admin.role ≡ AdminRole.company_admin
    → admin.company_id ≡ some company
    → passes (scoped_where admin extra max query) r ≡ true
    → IsOf company r
unfolding scoped_where resolve_company_scope
scoped_where-IsOf admin company extra max query (p, d) r c h =
    ground (arith, eq_iff d.company_id company)

All-weaken :
    (P Q : Row → Type 0) (rows : List Row) → ((r : Row) → P r → Q r) → All P rows → All Q rows
All-weaken P Q [] f h = tt
All-weaken P Q (r ∷ rows) f h = (f r h.0, All-weaken P Q rows f h.1)

All-dropped : (P : Row → Type 0) (n : ℕ) (rows : List Row) → All P rows → All P (drop n rows)
All-dropped P zero rows h = h
All-dropped P (suc n) [] h = h
All-dropped P (suc n) (r ∷ rows) h = All-dropped P n rows h.1

All-serialize_all :
    (company : String) (max : ℕ) (rows : List Row)
    → All (IsOf company) rows
    → All (λ s. s.device_company ≡ company) (serialize_all max rows)
unfolding serialize_record
All-serialize_all company max [] h = tt
All-serialize_all company max ((p, d) ∷ rows) h = (h.0, All-serialize_all company max rows h.1)

length-serialize_all : (max : ℕ) (rows : List Row) → length (serialize_all max rows) ≡ length rows
length-serialize_all max [] = refl
length-serialize_all max (r ∷ rows) = omega (arith, length-serialize_all max rows)

-- Sorting, which keeps what holds of all rows, gives an admin of a company a page of at most the size
-- asked for, with punches of that company's devices only, whatever company, device, status or text
-- is asked for.
pub list_rows-scoped :
    (order : List Row → List Row)
    (order_keeps : (P : Row → Type 0) (rows : List Row) → All P rows → All P (order rows))
    (admin : AdminIdentity) (company : String) (extra : PunchRecord → Bool) (max : ℕ)
    (query : ListQuery) (db : Db)
    → admin.role ≡ AdminRole.company_admin
    → admin.company_id ≡ some company
    → All (λ s. s.device_company ≡ company) (list_rows order admin extra max query db).0
      × (length (list_rows order admin extra max query db).0 ≤ query.page_size)
unfolding list_rows
list_rows-scoped order order_keeps admin company extra max query db r c =
    let where_ = passes (scoped_where admin extra max query) in
    let joined = join_devices db.devices db.punch_records in
    let rows = filter where_ joined in
    let skipped = (query.page - 1) * query.page_size in
    let mine =
      All-weaken (λ x. where_ x ≡ true) (IsOf company) rows
        (λ x h. scoped_where-IsOf admin company extra max query x r c h)
        (All-filter where_ joined) in
    let page = take query.page_size (drop skipped (order rows)) in
    (
      All-serialize_all company max page (
          All-take (IsOf company) query.page_size (drop skipped (order rows)) (
            All-dropped (IsOf company) skipped (order rows)
              (order_keeps (IsOf company) rows mine))),
      omega (
        arith,
        length-serialize_all max page,
        length-take query.page_size (drop skipped (order rows)),
      ),
    )
