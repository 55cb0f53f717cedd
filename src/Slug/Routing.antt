-- ===== src/Slug/Routing.antt =====
-- That the address of a company's devices keeps its slug.
use adms.Prelude.{
  map, none, ap, ◌∙◌, includes, text_eq, if◌then◌else◌, false, Bool-cases, inl, inr, eqb, ℕ, ◌≡◌,
  refl, Text, Bool, true, some, [], ◌∷◌, arith, to_lower_case, to_lower_char,
}
use adms.Http.{Request}
use adms.Router.{unless_reserved, reserved_slug_values, clear_reserved_company_slug}
use adms.Slug.{slug_pattern, is_valid_slug_format, is_slug_char}

to_lower_char-slug : (c : ℕ) → is_slug_char c ≡ true → to_lower_char c ≡ c
unfolding to_lower_char
to_lower_char-slug c h = ground arith

to_lower_char-hyphen : (c : ℕ) → eqb c b'-' ≡ true → to_lower_char c ≡ c
unfolding to_lower_char
to_lower_char-hyphen c h = ground arith

slug_pattern-cons :
    (start : Bool) (c : ℕ) (s : Text)
    → slug_pattern start (c ∷ s) ≡ true
    → (to_lower_char c ≡ c) × ((next : Bool) × (slug_pattern next s ≡ true))
unfolding slug_pattern
slug_pattern-cons start c s h = elim (Bool-cases (is_slug_char c)) [
  | inl e ↦ (to_lower_char-slug c e, (false, ground arith))
  | inr e ↦ (to_lower_char-hyphen c (ground arith), (true, ground arith))
]

-- Lower case leaves a slug as it is.
to_lower_case-slug : (start : Bool) (s : Text) → slug_pattern start s ≡ true → to_lower_case s ≡ s
unfolding to_lower_case
to_lower_case-slug start [] h = refl
to_lower_case-slug start (c ∷ s) h =
    let (same, (next, rest)) = slug_pattern-cons start c s h in
    let tail : map to_lower_char s ≡ s = to_lower_case-slug next s rest in
    ap (λ t. t ∷ map to_lower_char s) same ∙ ap (λ t. c ∷ t) tail

-- A slug that a company can have goes through the device router as it is: it is not taken for a
-- reserved one, and lower case does not change it, so a device's address finds its company.
pub is_valid_slug_format-routed :
    (req : Request) (slug : Text)
    → req.company_slug ≡ some slug
    → is_valid_slug_format slug ≡ true
    → ((clear_reserved_company_slug req).company_slug ≡ some slug) × (to_lower_case slug ≡ slug)
unfolding is_valid_slug_format clear_reserved_company_slug
is_valid_slug_format-routed req slug e h =
    let fits : slug_pattern true slug ≡ true = ground arith in
    let lower = to_lower_case-slug true slug fits in
    let fresh : includes reserved_slug_values slug ≡ false = ground arith in
    let missed : includes reserved_slug_values (to_lower_case slug) ≡ false =
      ap (includes reserved_slug_values) lower ∙ fresh in
    (ap unless_reserved e ∙ ap (λ b. if b then none else some slug) missed, lower)
