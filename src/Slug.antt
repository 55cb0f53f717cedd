-- ===== src/Slug.antt =====
-- src/utils/slug.ts: which slugs a company may have.
pub mod Routing
use adms.Prelude.{
  ℕ, Text, codes, Bool, true, false, ◌&&◌, ◌||◌, not, List, [], ◌∷◌, includes, text_eq, leb, eqb,
  length, if◌then◌else◌,
}
use adms.Router.{reserved_slug_values}

abbrev pub is_slug_char : ℕ → Bool
is_slug_char c = (leb b'a' c && leb c b'z') || (leb b'0' c && leb c b'9')

-- `/^[a-z0-9]+(?:-[a-z0-9]+)*$/`; `start` says that the next character has to be no hyphen.
unfoldable pub slug_pattern : Bool → Text → Bool
slug_pattern start [] = not start
slug_pattern start (c ∷ s) =
    let after_char = slug_pattern false s in
    let after_hyphen = slug_pattern true s in
    if is_slug_char c then after_char else if eqb c b'-' && not start then after_hyphen else false

unfoldable pub is_valid_slug_format : Text → Bool
unfolding slug_pattern reserved_slug_values
is_valid_slug_format slug =
    leb 3 (length slug)
    && (leb (length slug) 63
        && (slug_pattern true slug && not (includes reserved_slug_values slug)))
