-- ===== src/Template.antt =====
-- src/webhooks/template.ts: the placeholders in the headers and the body of a webhook. What
-- `Object.prototype` has under a name is the parameter `inherited`: the text of that value. Keys keep
-- their order, which JavaScript changes for keys that are whole numbers.
pub mod Plain
use adms.Prelude.{
  ℕ, ℤ, zero, suc, ◌-◌, Text, codes, Bool, true, false, ◌&&◌, ◌||◌, not, Option, none, some, List,
  [], ◌∷◌, ◌++◌, ◌==◌, text_eq, leb, eqb, if◌then◌else◌, is_given, is_space, is_empty, trim,
  trim_start, strip_prefix, take_while, take, drop, length, show_int,
}
use adms.Json.{Json, Items, Fields, null, bool, num, str, arr, obj, function, nil, cons, end, field}

pub data VarValue : Type 0 where
  absent : VarValue
  text : Text → VarValue
  number : ℤ → VarValue
  inherited_value : Text → VarValue

-- The fields of `PunchTemplateVars`, by name.
abbrev pub Vars : Type 0
Vars = List (Text × VarValue)

abbrev pub is_name_char : ℕ → Bool
is_name_char c =
    (leb b'a' c && leb c b'z')
    || ((leb b'A' c && leb c b'Z') || ((leb b'0' c && leb c b'9') || eqb c b'_'))

abbrev named : Text → Option Text → Option (Text × Text)
named name none = none
named name (some rest) = if is_empty name then none else some (name, rest)

abbrev after_open : Option Text → Option (Text × Text)
after_open none = none
after_open (some s) =
    let name = take_while is_name_char (trim_start s) in
    named name (strip_prefix (codes "}}") (trim_start (drop (length name) (trim_start s))))

-- `\{\{\s*([a-zA-Z0-9_]+)\s*\}\}` at the start of a text: the name, and what follows.
unfoldable pub match_placeholder : Text → Option (Text × Text)
unfolding strip_prefix take_while trim_start is_empty
match_placeholder s = after_open (strip_prefix (codes "{{") s)

module _ (inherited : Text → Option Text) (vars : Vars) where
  abbrev from_prototype : Option Text → Option VarValue
  from_prototype none = none
  from_prototype (some t) = some (inherited_value t)

  -- `name in vars`, with the value.
  abbrev look_in : Vars → Text → Option VarValue
  look_in [] name = from_prototype (inherited name)
  look_in ((n, v) ∷ vs) name = let later = look_in vs name in if n == name then some v else later

  unfoldable pub lookup : Text → Option VarValue
  lookup name = look_in vars name

  -- `String(v)`, and nothing for null.
  abbrev pub value_text : VarValue → Text
  value_text absent = []
  value_text (text t) = t
  value_text (number n) = show_int n
  value_text (inherited_value t) = t

  abbrev pub replacement : Text → Option VarValue → Text
  replacement matched none = matched
  replacement matched (some v) = value_text v

  -- `interpolateString`; `skip` is how much of the last placeholder is still to be passed over.
  unfoldable pub interpolate_from : ℕ → Text → Text
  unfolding lookup
  interpolate_from skip [] = []
  interpolate_from (suc skip) (c ∷ s) = interpolate_from skip s
  interpolate_from zero (c ∷ s) = elim (match_placeholder (c ∷ s)) [
    | none ↦ c ∷ interpolate_from 0 s
    | some m ↦
        let size = length (c ∷ s) - length m.1 in
        replacement (take size (c ∷ s)) (lookup m.0) ++ interpolate_from (size - 1) s
  ]

  unfoldable pub interpolate_string : Text → Text
  unfolding interpolate_from
  interpolate_string s = interpolate_from 0 s

  abbrev pub value_json : VarValue → Json
  value_json absent = null
  value_json (text t) = str t
  value_json (number n) = num n
  value_json (inherited_value t) = function t

  abbrev pub exact_value : Option (Text × Text) → Option VarValue
  exact_value none = none
  exact_value (some (name, [])) = lookup name
  exact_value (some (name, c ∷ rest)) = none

  abbrev pub leaf : Text → Option VarValue → Json
  leaf s none = str (interpolate_string s)
  leaf s (some v) = value_json v

  unfoldable pub render_string : Text → Json
  unfolding lookup interpolate_string trim
  render_string s = leaf s (exact_value (match_placeholder (trim s)))

  unfoldable mutual
    unfolding render_string

    pub render_value : Json → Json
    render_value null = null
    render_value (bool b) = bool b
    render_value (num n) = num n
    render_value (str s) = render_string s
    render_value (arr items) = arr (render_items items)
    render_value (obj fields) = obj (render_fields fields)
    render_value (function t) = function t

    pub render_items : Items → Items
    render_items nil = nil
    render_items (cons j items) = cons (render_value j) (render_items items)

    pub render_fields : Fields → Fields
    render_fields end = end
    render_fields (field k j fields) = field k (render_value j) (render_fields fields)

  unfoldable pub render_body_template : Json → Json
  unfolding render_value
  render_body_template template = render_value template

  unfoldable pub render_each : List (Text × Text) → List (Text × Text)
  unfolding interpolate_string
  render_each [] = []
  render_each ((k, v) ∷ hs) = (k, interpolate_string v) ∷ render_each hs

  unfoldable pub render_headers : Option (List (Text × Text)) → List (Text × Text)
  unfolding render_each
  render_headers none = []
  render_headers (some hs) = render_each hs
