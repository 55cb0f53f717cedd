-- ===== src/SsrfGuard.antt =====
-- src/utils/ssrfGuard.ts: which webhook URLs may be called. `new URL`, `net.isIP` and `dns.lookup`
-- are parameters.
pub mod Blocks
use adms.Prelude.{
  ℕ, ◌+◌, ◌*◌, ◌-◌, String, Text, codes, Bool, true, false, ◌&&◌, ◌||◌, not, Option, none, some,
  List, [], ◌∷◌, any, eqb, leb, if◌then◌else◌, ◌==◌, text_eq, to_lower_case, strip_prefix, is_digit,
}

-- What is read of a parsed URL.
pub record Url : Type 0 where
  pub protocol : Text
  pub hostname : Text
  pub host : Text
  pub pathname : Text

-- `parse_url` gives nothing where `new URL` throws, `lookup` nothing where the name does not
-- resolve; `is_ip` gives 4, 6 or 0.
pub record Network : Type 0 where
  pub parse_url : String → Option Url
  pub is_ip : Text → ℕ
  pub lookup : Text → Option (List Text)

-- `s.split(".")`
abbrev pub cons_first : ℕ → List Text → List Text
cons_first c [] = (c ∷ []) ∷ []
cons_first c (part ∷ parts) = (c ∷ part) ∷ parts

unfoldable pub split_dot : Text → List Text
split_dot [] = [] ∷ []
split_dot (c ∷ s) = let rest = split_dot s in if eqb c b'.' then [] ∷ rest else cons_first c rest

-- `Number(s)` of the parts of an address, which are digits; `none` is NaN.
unfoldable pub number_from : ℕ → Text → Option ℕ
unfolding is_digit
number_from acc [] = some acc
number_from acc (c ∷ s) =
    let rest = number_from (acc * 10 + (c - 48)) s in if is_digit c then rest else none

-- A test of a part, false where it is absent or NaN.
abbrev holds : (ℕ → Bool) → Option ℕ → Bool
holds p none = false
holds p (some n) = p n

abbrev is_number : ℕ → Option ℕ → Bool
is_number n = holds (λ m. eqb m n)

abbrev pub has_private_start : Option ℕ → Option ℕ → Bool
has_private_start a b =
    is_number 127 a
    || (is_number 10 a
        || ((is_number 172 a && holds (λ m. leb 16 m && leb m 31) b)
            || ((is_number 192 a && is_number 168 b)
                || ((is_number 169 a && is_number 254 b)
                    || (is_number 0 a || holds (λ m. leb 224 m) a)))))

abbrev pub first_two : List Text → Option ℕ × Option ℕ
first_two [] = (none, none)
first_two (a ∷ []) = (number_from 0 a, none)
first_two (a ∷ b ∷ rest) = (number_from 0 a, number_from 0 b)

unfoldable pub is_private_v4 : Text → Bool
unfolding split_dot number_from
is_private_v4 ip = let p = first_two (split_dot ip) in has_private_start p.0 p.1

abbrev pub is_hex : ℕ → Bool
is_hex c = (leb b'0' c && leb c b'9') || (leb b'a' c && leb c b'f')

-- `/^fe[89ab][0-9a-f]:/`
abbrev pub is_link_local : Text → Bool
is_link_local (f ∷ e ∷ x ∷ h ∷ c ∷ s) =
    eqb f b'f'
    && (eqb e b'e'
        && ((eqb x b'8' || (eqb x b'9' || (eqb x b'a' || eqb x b'b'))) && (is_hex h && eqb c b':')))
is_link_local s = false

-- `/^f[cd][0-9a-f]{2}:/`
abbrev pub is_unique_local : Text → Bool
is_unique_local (f ∷ x ∷ h ∷ k ∷ c ∷ s) =
    eqb f b'f' && ((eqb x b'c' || eqb x b'd') && (is_hex h && (is_hex k && eqb c b':')))
is_unique_local s = false

-- `/^::ffff:(\d+\.\d+\.\d+\.\d+)$/`, as far as it matters: what `net.isIP` calls an IPv4 address has
-- that form.
abbrev pub private_mapped : Network → Option Text → Bool
private_mapped net none = false
private_mapped net (some ip) = eqb (net.is_ip ip) 4 && is_private_v4 ip

unfoldable pub is_private_v6 : Network → Text → Bool
unfolding is_private_v4 strip_prefix
is_private_v6 net lower =
    (lower == codes "::1" || lower == codes "::")
    || (is_link_local lower
        || (is_unique_local lower || private_mapped net (strip_prefix (codes "::ffff:") lower)))

unfoldable pub is_private_or_reserved_ip : Network → Text → Bool
unfolding is_private_v4 is_private_v6 to_lower_case
is_private_or_reserved_ip net ip =
    if eqb (net.is_ip ip) 4
    then is_private_v4 ip
    else if eqb (net.is_ip ip) 6
    then is_private_v6 net (to_lower_case ip)
    else true

pub data UrlCheck : Type 0 where
  safe : UrlCheck
  unsafe : (reason : String) → UrlCheck

abbrev pub private_reason : String
private_reason = "Webhook URL may not target a private or reserved network address"

abbrev pub check_addresses : Network → Option (List Text) → UrlCheck
check_addresses net none = unsafe "Could not resolve webhook host"
check_addresses net (some []) = unsafe private_reason
check_addresses net (some (ip ∷ ips)) =
    if any (is_private_or_reserved_ip net) (ip ∷ ips) then unsafe private_reason else safe

abbrev pub check_host : Network → Text → UrlCheck
check_host net hostname =
    if hostname == codes "localhost"
    then unsafe "Webhook URL may not target localhost"
    else if eqb (net.is_ip hostname) 0
    then check_addresses net (net.lookup hostname)
    else if is_private_or_reserved_ip net hostname
    then unsafe private_reason
    else safe

abbrev pub is_web : Text → Bool
is_web protocol = protocol == codes "http:" || protocol == codes "https:"

abbrev pub check_url : Network → Option Url → UrlCheck
check_url net none = unsafe "Not a valid URL"
check_url net (some url) =
    if is_web url.protocol
    then check_host net (to_lower_case url.hostname)
    else unsafe "Webhook URL must use http or https"

unfoldable pub is_safe_webhook_url : Network → String → UrlCheck
unfolding is_private_or_reserved_ip to_lower_case
is_safe_webhook_url net raw = check_url net (net.parse_url raw)
