-- ===== src/Json/Print.antt =====
-- `JSON.stringify` of the language. A function is left out of an object, is null in an array, and has
-- no text by itself.
use adms.Json.{Json, Items, Fields, null, bool, num, str, arr, obj, function, nil, cons, end, field}
use adms.Prelude.{
  ℕ, ◌+◌, ◌/◌, ◌%◌, Text, codes, Bool, true, false, Option, none, some, [], ◌∷◌, ◌++◌, eqb, ltb,
  if◌then◌else◌, show_int, ◌-◌,
}

abbrev hex_digit : ℕ → ℕ
hex_digit n = if ltb n 10 then b'0' + n else b'a' + (n - 10)

abbrev escape_char : ℕ → Text
escape_char c =
    if eqb c b'"'
    then codes "\\\""
    else if eqb c b'\\'
    then codes "\\\\"
    else if eqb c 8
    then codes "\\b"
    else if eqb c 9
    then codes "\\t"
    else if eqb c 10
    then codes "\\n"
    else if eqb c 12
    then codes "\\f"
    else if eqb c 13
    then codes "\\r"
    else if ltb c 32
    then codes "\\u00" ++ (hex_digit (c / 16) ∷ hex_digit (c % 16) ∷ [])
    else c ∷ []

unfoldable pub escape : Text → Text
escape [] = []
escape (c ∷ s) = escape_char c ++ escape s

unfoldable pub quote : Text → Text
unfolding escape
quote s = b'"' ∷ (escape s ++ codes "\"")

abbrev after_comma : Bool → Text → Text
after_comma true s = s
after_comma false s = b',' ∷ s

abbrev or_null : Option Text → Text
or_null none = codes "null"
or_null (some s) = s

abbrev pub print_bool : Bool → Text
print_bool true = codes "true"
print_bool false = codes "false"

-- One member of an object, if its value has a text; `first` tells whether a comma goes before it.
abbrev member : Bool → Text → Option Text → (Bool → Text) → Text
member first k none rest = rest first
member first k (some v) rest = after_comma first (quote k ++ (b':' ∷ (v ++ rest false)))

unfoldable mutual
  unfolding quote show_int

  pub print_json : Json → Option Text
  print_json null = some (codes "null")
  print_json (bool b) = some (print_bool b)
  print_json (num n) = some (show_int n)
  print_json (str s) = some (quote s)
  print_json (arr items) = some (b'[' ∷ print_items true items)
  print_json (obj fields) = some (b'{' ∷ print_fields fields true)
  print_json (function t) = none

  pub print_items : Bool → Items → Text
  print_items first nil = codes "]"
  print_items first (cons j items) =
      after_comma first (or_null (print_json j) ++ print_items false items)

  pub print_fields : Fields → Bool → Text
  print_fields end first = codes "}"
  print_fields (field k j fields) first = member first k (print_json j) (print_fields fields)

-- `JSON.stringify`; what has no text is sent as an empty body.
unfoldable pub stringify : Json → Text
unfolding print_json
stringify j = elim (print_json j) [ none ↦ [] | some s ↦ s ]
