-- ===== src/Template/Plain.antt =====
-- That a template without placeholders stays as it is.
use adms.Prelude.{
  ◌≡◌, refl, ap, ◌∙◌, Text, codes, Bool, true, false, ◌&&◌, not, Option, none, [], ◌∷◌, all, eqb,
  arith, strip_prefix, trim, trim_start, trim_end, if◌then◌else◌,
}
use adms.Json.{Json, Items, Fields, null, bool, num, str, arr, obj, function, nil, cons, end, field}
use adms.Template.{
  Vars, after_open, match_placeholder, interpolate_from, interpolate_string, render_string, leaf,
  exact_value, render_value, render_items, render_fields, render_body_template,
}

-- A text without an opening brace.
abbrev pub no_brace : Text → Bool
no_brace s = all (λ c. not (eqb 123 c)) s

unfoldable mutual
  pub is_plain : Json → Bool
  is_plain null = true
  is_plain (bool b) = true
  is_plain (num n) = true
  is_plain (str s) = no_brace s
  is_plain (arr items) = are_plain items
  is_plain (obj fields) = fields_are_plain fields
  is_plain (function t) = true

  pub are_plain : Items → Bool
  are_plain nil = true
  are_plain (cons j items) = is_plain j && are_plain items

  pub fields_are_plain : Fields → Bool
  fields_are_plain end = true
  fields_are_plain (field k j fields) = is_plain j && fields_are_plain fields

match_placeholder-none : (s : Text) → no_brace s ≡ true → match_placeholder s ≡ none
unfolding match_placeholder strip_prefix
match_placeholder-none [] h = refl
match_placeholder-none (c ∷ s) h =
    let other : eqb 123 c ≡ false = ground arith in
    ap (λ b. after_open (if b then strip_prefix (codes "{") s else none)) other

no_brace-trim_start : (s : Text) → no_brace s ≡ true → no_brace (trim_start s) ≡ true
unfolding trim_start
no_brace-trim_start [] h = refl
no_brace-trim_start (c ∷ s) h = ground (arith, no_brace-trim_start s)

no_brace-trim_end : (s : Text) → no_brace s ≡ true → no_brace (trim_end s) ≡ true
unfolding trim_end
no_brace-trim_end [] h = refl
no_brace-trim_end (c ∷ s) h = ground (arith, no_brace-trim_end s)

no_brace-trim : (s : Text) → no_brace s ≡ true → no_brace (trim s) ≡ true
unfolding trim
no_brace-trim s h = no_brace-trim_end (trim_start s) (no_brace-trim_start s h)

module _ (inherited : Text → Option Text) (vars : Vars) where
  interpolate_from-plain : (s : Text) → no_brace s ≡ true → interpolate_from inherited vars 0 s ≡ s
  unfolding interpolate_from
  interpolate_from-plain [] h = refl
  interpolate_from-plain (c ∷ s) h =
      let rest : no_brace s ≡ true = ground arith in
      rw (interpolate_from, match_placeholder-none (c ∷ s) h)
        (ap (λ t. c ∷ t) (interpolate_from-plain s rest))

  interpolate_string-plain :
      (s : Text) → no_brace s ≡ true → interpolate_string inherited vars s ≡ s
  unfolding interpolate_string
  interpolate_string-plain s h = interpolate_from-plain s h

  render_string-plain : (s : Text) → no_brace s ≡ true → render_string inherited vars s ≡ str s
  unfolding render_string
  render_string-plain s h =
      ap (λ m. leaf inherited vars s (exact_value inherited vars m))
        (match_placeholder-none (trim s) (no_brace-trim s h))
      ∙ ap str (interpolate_string-plain s h)

  mutual
    unfolding render_value is_plain

    keeps_value : (j : Json) → is_plain j ≡ true → render_value inherited vars j ≡ j
    keeps_value null h = refl
    keeps_value (bool b) h = refl
    keeps_value (num n) h = refl
    keeps_value (str s) h = render_string-plain s h
    keeps_value (arr items) h = ap arr (keeps_items items h)
    keeps_value (obj fields) h = ap obj (keeps_fields fields h)
    keeps_value (function t) h = refl

    keeps_items :
        (items : Items) → are_plain items ≡ true → render_items inherited vars items ≡ items
    keeps_items nil h = refl
    keeps_items (cons j items) h =
        let first : is_plain j ≡ true = ground arith in
        let rest : are_plain items ≡ true = ground arith in
        ap (λ t. cons t (render_items inherited vars items)) (keeps_value j first)
        ∙ ap (cons j) (keeps_items items rest)

    keeps_fields :
        (fields : Fields)
        → fields_are_plain fields ≡ true
        → render_fields inherited vars fields ≡ fields
    keeps_fields end h = refl
    keeps_fields (field k j fields) h =
        let first : is_plain j ≡ true = ground arith in
        let rest : fields_are_plain fields ≡ true = ground arith in
        ap (λ t. field k t (render_fields inherited vars fields)) (keeps_value j first)
        ∙ ap (field k j) (keeps_fields fields rest)

-- A body template in which no text has an opening brace is sent as it is, whatever the punch.
pub render_body_template-plain :
    (inherited : Text → Option Text) (vars : Vars) (template : Json)
    → is_plain template ≡ true
    → render_body_template inherited vars template ≡ template
unfolding render_body_template
render_body_template-plain inherited vars template h = keeps_value inherited vars template h
