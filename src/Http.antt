-- ===== src/Http.antt =====
-- What the handlers read of an Express request from a device, and what they send.
use Prim.Native.String.{◌++◌ as str_append}
use adms.Prelude.{
  ℕ, String, Text, codes, Option, none, some, List, [], ◌∷◌, if◌then◌else◌, ◌==◌, string_eq,
}

-- A query parameter as Express parses it: absent, given once, given several times, or an object.
pub data QueryValue : Type 0 where
  absent : QueryValue
  one : String → QueryValue
  several : (first : String) (rest : List String) → QueryValue
  object : QueryValue

abbrev join_comma : String → List String → String
join_comma s [] = s
join_comma s (t ∷ ts) = str_append s (str_append "," (join_comma t ts))

-- `String(value ?? "")`
unfoldable pub query_string : QueryValue → String
query_string absent = ""
query_string (one s) = s
query_string (several s ts) = join_comma s ts
query_string object = "[object Object]"

-- `typeof value === "string" ? value : undefined`
abbrev pub plain_string : QueryValue → Option String
plain_string (one s) = some s
plain_string absent = none
plain_string (several s ts) = none
plain_string object = none

-- `query` and `headers` are the JSON texts of the two objects; `body` is absent if it was no text.
pub record Request : Type 0 where
  pub sn : QueryValue
  pub table : QueryValue
  pub path : String
  pub method : String
  pub query : String
  pub headers : String
  pub body : Option Text
  pub secret : Option String
  pub company_slug : Option Text

pub record Response : Type 0 where
  pub status : ℕ
  pub body : Text

abbrev pub send_plain_text : Text → ℕ → Response
send_plain_text body status = record { status = status; body = body }

abbrev pub ok_response : Response
ok_response = send_plain_text (codes "OK") 200

-- `typeof req.body === "string" ? req.body : ""`
abbrev pub body_text : Option Text → Text
body_text none = []
body_text (some b) = b

-- `text || null`
abbrev pub non_empty : Text → Option Text
non_empty [] = none
non_empty (c ∷ s) = some (c ∷ s)

-- `text || null` of a name
abbrev pub non_empty_string : Option String → Option String
non_empty_string none = none
non_empty_string (some s) = if s == "" then none else some s
