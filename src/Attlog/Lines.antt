-- ===== src/Attlog/Lines.antt =====
-- That the lines of a body are read each on its own.
use adms.Prelude.{
  ℕ, suc, ◌+◌, ◌≡◌, ◌≢◌, refl, ap, sym, ◌∙◌, Text, Bool, true, false, ◌&&◌, ◌||◌, Option, none,
  some, List, [], ◌∷◌, ◌++◌, append_assoc, append-nil, filter, filter-append, filter_map, length,
  arith, Bool-cases, inl, inr, eqb, if◌then◌else◌,
}
use adms.Attlog.{
  ParsedAttlogLine, AttlogParseError, AttlogParseResult, LineResult, parsed, failed,
  parse_attlog_line, split_lines, cons_first, body_lines, not_blank, push_result, parse_lines,
  no_results, parse_attlog_body,
}

abbrev record_in : LineResult → Option ParsedAttlogLine
record_in (parsed r) = some r
record_in (failed e) = none

abbrev error_in : Text → LineResult → Option AttlogParseError
error_in line (parsed r) = none
error_in line (failed e) = some (record { raw_line = line; error = e })

-- The records, and the errors, of lines each read on its own.
abbrev pub records_of : List Text → List ParsedAttlogLine
records_of lines = filter_map (λ l. record_in (parse_attlog_line l)) lines

abbrev pub errors_of : List Text → List AttlogParseError
errors_of lines = filter_map (λ l. error_in l (parse_attlog_line l)) lines

parse_lines-records :
    (lines : List Text) (acc : AttlogParseResult)
    → ((parse_lines lines acc).records ≡ acc.records ++ records_of lines)
      × ((parse_lines lines acc).errors ≡ acc.errors ++ errors_of lines)
unfolding parse_lines
parse_lines-records [] acc = (sym (append-nil acc.records), sym (append-nil acc.errors))
parse_lines-records (line ∷ lines) acc = go (parse_attlog_line line) (parse_lines-records lines)
  where
    go :
        (r : LineResult)
        → ((bcc : AttlogParseResult)
            → ((parse_lines lines bcc).records ≡ bcc.records ++ records_of lines)
              × ((parse_lines lines bcc).errors ≡ bcc.errors ++ errors_of lines))
        → ((parse_lines lines (push_result line r acc)).records
            ≡ acc.records
              ++ elim (record_in r) [ none ↦ records_of lines | some y ↦ y ∷ records_of lines ])
          × ((parse_lines lines (push_result line r acc)).errors
              ≡ acc.errors
                ++ elim (error_in line r) [ none ↦ errors_of lines | some y ↦ y ∷ errors_of lines ])
    go (parsed r) ih =
        let (ir, ie) = ih (push_result line (parsed r) acc) in
        (ir ∙ append_assoc acc.records (r ∷ []) (records_of lines), ie)
    go (failed e) ih =
        let (ir, ie) = ih (push_result line (failed e) acc) in
        (
          ir,
          ie
              ∙ append_assoc acc.errors (record { raw_line = line; error = e } ∷ [])
                  (errors_of lines),
        )

one_each : (lines : List Text) → length (records_of lines) + length (errors_of lines) ≡ length lines
one_each [] = refl
one_each (line ∷ lines) = go (parse_attlog_line line) (one_each lines)
  where
    go :
        (r : LineResult)
        → length (records_of lines) + length (errors_of lines) ≡ length lines
        → length (elim (record_in r) [ none ↦ records_of lines | some y ↦ y ∷ records_of lines ])
            + length
                (elim (error_in line r) [ none ↦ errors_of lines | some y ↦ y ∷ errors_of lines ])
          ≡ suc (length lines)
    go (parsed r) ih = omega (arith, ih)
    go (failed e) ih = omega (arith, ih)

-- Reading a body is reading each of its lines that is not blank: the records and the errors are
-- those of the lines read on their own, in their order, and each such line gives exactly one of
-- them.
pub parse_attlog_body-lines :
    (body : Text)
    → let result = parse_attlog_body body in
      (result.records ≡ records_of (body_lines body))
      × (result.errors ≡ errors_of (body_lines body))
      × (length result.records + length result.errors ≡ length (body_lines body))
unfolding parse_attlog_body
parse_attlog_body-lines body =
    let (r, e) = parse_lines-records (body_lines body) no_results in
    (r, e, omega (arith, ap length r, ap length e, one_each (body_lines body)))

either_some :
    (x y : Bool) (c : ℕ) (ls : List Text)
    → ls ≢ []
    → (if x then ls else if y then [] ∷ ls else cons_first c ls) ≢ []
either_some true y c ls h e = h e
either_some false true c ls h e = cc
either_some false false c [] h e = h refl
either_some false false c (l ∷ ls) h e = cc

split_lines-some : (f : Bool) (s : Text) → split_lines f s ≢ []
unfolding split_lines
split_lines-some f [] h = cc
split_lines-some f (c ∷ s) h =
    either_some (f && eqb c 10) (eqb c 10 || eqb c 13) c (split_lines (eqb c 13) s)
      (split_lines-some (eqb c 13) s) h

cons_first-append :
    (c : ℕ) (ls ms : List Text) → ls ≢ [] → cons_first c (ls ++ ms) ≡ cons_first c ls ++ ms
cons_first-append c [] ms h = absurd (h refl)
cons_first-append c (l ∷ ls) ms h = refl

-- Whether a carriage return stands last.
unfoldable pub ends_cr : Bool → Text → Bool
ends_cr after_cr [] = after_cr
ends_cr after_cr (c ∷ s) = ends_cr (eqb c 13) s

split_lines-append :
    (f : Bool) (a b : Text)
    → ends_cr f a ≡ false
    → split_lines f (a ++ 10 ∷ b) ≡ split_lines f a ++ split_lines false b
unfolding split_lines ends_cr
split_lines-append f [] b h = rw h refl
split_lines-append f (c ∷ a) b h =
    let ih = split_lines-append (eqb c 13) a b h in
    let whole =
      cons_first-append c (split_lines (eqb c 13) a) (split_lines false b)
        (split_lines-some (eqb c 13) a) in
    elim (Bool-cases (f && eqb c 10)) [
      | inl x ↦ rw x ih
      | inr x ↦ elim (Bool-cases (eqb c 10 || eqb c 13)) [
        | inl y ↦ rw x (rw y (ap (λ t. [] ∷ t) ih))
        | inr y ↦ rw x (rw y (ap (cons_first c) ih ∙ whole))
      ]
    ]

cons_first-some : (c : ℕ) (ls : List Text) → cons_first c ls ≢ []
cons_first-some c [] h = cc
cons_first-some c (l ∷ ls) h = cc

-- A carriage return at the end of a text leaves an empty last line, which goes where a line feed
-- follows.
split_lines-append_cr :
    (f : Bool) (a b : Text)
    → ends_cr f a ≡ true
    → (ls : List Text) × (split_lines f a ≡ ls ++ [] ∷ [])
      × (split_lines f (a ++ 10 ∷ b) ≡ ls ++ split_lines false b)
      × (f ≡ false → ls ≢ [])
unfolding split_lines ends_cr
split_lines-append_cr f [] b h =
    ([], refl, rw h refl, λ e. absurd (let stop : ◌≡◌ {A = Bool} true false = sym h ∙ e in cc))
split_lines-append_cr f (c ∷ a) b h =
    let (ls, e, k, some_) = split_lines-append_cr (eqb c 13) a b h in
    elim (Bool-cases (f && eqb c 10)) [
      | inl x ↦
          rw x (ls, e, k, λ z. absurd (let stop : ◌≡◌ {A = Bool} true false = ground arith in cc))
      | inr x ↦ elim (Bool-cases (eqb c 10 || eqb c 13)) [
        | inl y ↦ rw x (rw y ([] ∷ ls, ap (λ t. [] ∷ t) e, ap (λ t. [] ∷ t) k, λ z u. cc))
        | inr y ↦
            let given : ls ≢ [] = some_ (ground arith) in
            rw x (
              rw y (
                cons_first c ls,
                ap (cons_first c) e ∙ cons_first-append c ls ([] ∷ []) given,
                ap (cons_first c) k ∙ cons_first-append c ls (split_lines false b) given,
                λ z. cons_first-some c ls,
              ))
      ]
    ]

body_lines-append : (a b : Text) → body_lines (a ++ 10 ∷ b) ≡ body_lines a ++ body_lines b
unfolding body_lines
body_lines-append a b = elim (Bool-cases (ends_cr false a)) [
  | inr h ↦
      ap (filter not_blank) (split_lines-append false a b h)
      ∙ filter-append not_blank (split_lines false a) (split_lines false b)
  | inl h ↦
      let (ls, e, k, _) = split_lines-append_cr false a b h in
      let blank : filter not_blank (ls ++ [] ∷ []) ≡ filter not_blank ls =
        filter-append not_blank ls ([] ∷ []) ∙ append-nil (filter not_blank ls) in
      ap (filter not_blank) k
      ∙ (filter-append not_blank ls (split_lines false b)
          ∙ ap (λ t. t ++ filter not_blank (split_lines false b))
              (sym (ap (filter not_blank) e ∙ blank)))
]

filter_map-append :
    {A B : Type 0} (f : A → Option B) (xs ys : List A)
    → filter_map f (xs ++ ys) ≡ filter_map f xs ++ filter_map f ys
filter_map-append f [] ys = refl
filter_map-append f (x ∷ xs) ys = ground (arith, filter_map-append f xs ys)

-- Lines do not spoil each other: the records and the errors of two texts with a line feed between
-- are those of the first one followed by those of the second, even where the first one ends in a
-- carriage return.
pub parse_attlog_body-append :
    (a b : Text)
    → ((parse_attlog_body (a ++ 10 ∷ b)).records
        ≡ (parse_attlog_body a).records ++ (parse_attlog_body b).records)
      × ((parse_attlog_body (a ++ 10 ∷ b)).errors
          ≡ (parse_attlog_body a).errors ++ (parse_attlog_body b).errors)
parse_attlog_body-append a b =
    let (rw_, ew, _) = parse_attlog_body-lines (a ++ 10 ∷ b) in
    let (ra, ea, _) = parse_attlog_body-lines a in
    let (rb, eb, _) = parse_attlog_body-lines b in
    let lines = body_lines-append a b in
    let records : records_of (body_lines a) ++ records_of (body_lines b)
        ≡ (parse_attlog_body a).records ++ (parse_attlog_body b).records =
      cc in
    let errors : errors_of (body_lines a) ++ errors_of (body_lines b)
        ≡ (parse_attlog_body a).errors ++ (parse_attlog_body b).errors =
      cc in
    (
      rw_ ∙ (ap records_of lines ∙ (filter_map-append _ (body_lines a) (body_lines b) ∙ records)),
      ew ∙ (ap errors_of lines ∙ (filter_map-append _ (body_lines a) (body_lines b) ∙ errors)),
    )
