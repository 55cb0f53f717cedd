-- ===== src/SsrfGuard/Blocks.antt =====
-- src/utils/ssrfGuard.ts: the guard against the blocks of IPv4 addresses that it means.
use adms.Prelude.{
  sym, String, to_lower_case, text_beq_iff, if◌then◌else◌, none, includes, inl, inr, Bool-cases,
  refl, true, false, zero, suc, show_nat, ◌++◌, [], ◌∷◌, all, any, not, is_some_of, eqb_iff, ap,
  ◌∙◌, Text, Option, List, Bool, codes, ◌==◌, text_eq, ◌*◌, ◌/◌, ◌&&◌, leb, eqb, ℕ, ◌+◌, ◌<◌, ◌≡◌,
  ◌||◌, some, arith, nat_eq,
}
use adms.SsrfGuard.{
  check_url, Url, is_web, private_reason, is_safe_webhook_url, safe, unsafe, check_addresses,
  check_host, number_from, split_dot, is_private_v4, Network, is_private_or_reserved_ip,
  has_private_start,
}

-- The address that four numbers write.
abbrev pub dotted : ℕ → ℕ → ℕ → ℕ → Text
dotted a b c d = show_nat a ++ (b'.' ∷ (show_nat b ++ (b'.' ∷ (show_nat c ++ (b'.' ∷ show_nat d)))))

-- Its 32 bits.
abbrev pub bits : ℕ → ℕ → ℕ → ℕ → ℕ
bits a b c d = ((a * 256 + b) * 256 + c) * 256 + d

-- Whether an address is in the block of a base whose addresses share all but so many low bits.
abbrev in_block : ℕ → ℕ → ℕ → Bool
in_block base size v = eqb (v / size) (base / size)

-- 127.0.0.0/8, 10.0.0.0/8, 172.16.0.0/12, 192.168.0.0/16, 169.254.0.0/16, 0.0.0.0/8, 224.0.0.0/3
unfoldable pub is_blocked : ℕ → Bool
is_blocked v =
    in_block 2130706432 16777216 v
    || (in_block 167772160 16777216 v
        || (in_block 2886729728 1048576 v
            || (in_block 3232235520 65536 v
                || (in_block 2851995648 65536 v
                    || (in_block 0 16777216 v || in_block 3758096384 536870912 v)))))

-- Each block of the guard.
block_12 : (a b : ℕ) → b < 256 → eqb (a * 16 + b / 16) 2753 ≡ (eqb a 172 && (leb 16 b && leb b 31))
block_12 a b hb = ground arith

block_16 :
    (a b k m : ℕ) → b < 256 → m < 256 → eqb (a * 256 + b) (k * 256 + m) ≡ (eqb a k && eqb b m)
block_16 a b k m hb hm = ground arith

block_3 : (a : ℕ) → a < 256 → eqb (a / 32) 7 ≡ leb 224 a
block_3 a ha = ground arith

has_private_start-is_blocked :
    (a b c d : ℕ)
    → a < 256
    → b < 256
    → c < 256
    → d < 256
    → has_private_start (some a) (some b) ≡ is_blocked (bits a b c d)
unfolding is_blocked
has_private_start-is_blocked a b c d ha hb hc hd =
    let q24 : bits a b c d / 16777216 ≡ a = omega arith in
    let q20 : bits a b c d / 1048576 ≡ a * 16 + b / 16 = omega arith in
    let q16 : bits a b c d / 65536 ≡ a * 256 + b = omega arith in
    let q29 : bits a b c d / 536870912 ≡ a / 32 = omega arith in
    rw (
      q24,
      q20,
      q16,
      q29,
      block_12 a b hb,
      block_16 a b 192 168 hb (omega arith),
      block_16 a b 169 254 hb (omega arith),
      block_3 a ha,
    )

-- Small numbers, one by one.
every_below : ℕ → (ℕ → Bool) → Bool
every_below zero p = true
every_below (suc n) p = p n && every_below n p

every_below-lt : (n : ℕ) (p : ℕ → Bool) (x : ℕ) → every_below n p ≡ true → x < n → p x ≡ true
unfolding every_below
every_below-lt zero p x h lt = absurd (omega arith)
every_below-lt (suc n) p x h lt = ground (arith, every_below-lt n p x)

abbrev is_no_dot : ℕ → Bool
is_no_dot c = not (eqb c b'.')

abbrev is_read_back : ℕ → Bool
is_read_back n = all is_no_dot (show_nat n) && is_some_of (number_from 0 (show_nat n)) n

octets_read_back : every_below 256 is_read_back ≡ true
unfolding every_below show_nat number_from
octets_read_back = refl

is_some_of-eq : (o : Option ℕ) (n : ℕ) → is_some_of o n ≡ true → o ≡ some n
is_some_of-eq none n h = cc
is_some_of-eq (some m) n h = ap some ((eqb_iff m n).0 h)

octet-text : (n : ℕ) → n < 256 → all is_no_dot (show_nat n) ≡ true
octet-text n h = let both = every_below-lt 256 is_read_back n octets_read_back h in ground arith

octet-number : (n : ℕ) → n < 256 → number_from 0 (show_nat n) ≡ some n
octet-number n h =
    let both = every_below-lt 256 is_read_back n octets_read_back h in
    is_some_of-eq (number_from 0 (show_nat n)) n (ground arith)

split_dot-append :
    (part rest : Text)
    → all is_no_dot part ≡ true
    → split_dot (part ++ b'.' ∷ rest) ≡ part ∷ split_dot rest
unfolding split_dot
split_dot-append [] rest h = refl
split_dot-append (c ∷ part) rest h =
    let plain : eqb c b'.' ≡ false = ground arith in
    let ih = split_dot-append part rest (ground arith) in rw (ih, plain) refl

is_private_v4-dotted :
    (a b c d : ℕ)
    → a < 256
    → b < 256
    → c < 256
    → d < 256
    → is_private_v4 (dotted a b c d) ≡ is_blocked (bits a b c d)
unfolding is_private_v4
is_private_v4-dotted a b c d ha hb hc hd =
    let second = show_nat c ++ (b'.' ∷ show_nat d) in
    let split : split_dot (dotted a b c d) ≡ show_nat a ∷ (show_nat b ∷ split_dot second) =
      split_dot-append (show_nat a) (show_nat b ++ (b'.' ∷ second)) (octet-text a ha)
      ∙ ap (λ t. show_nat a ∷ t) (split_dot-append (show_nat b) second (octet-text b hb)) in
    rw (split, octet-number a ha, octet-number b hb)
      (has_private_start-is_blocked a b c d ha hb hc hd)

abbrev or_empty : Option (List Text) → List Text
or_empty none = []
or_empty (some ips) = ips

-- The addresses that a host stands for: itself if it is one, and what it resolves to if not.
abbrev pub addresses_of : Network → Text → List Text
addresses_of net hostname =
    if eqb (net.is_ip hostname) 0 then or_empty (net.lookup hostname) else hostname ∷ []

check_addresses-safe :
    (net : Network) (found : Option (List Text))
    → check_addresses net found ≡ safe
    → any (is_private_or_reserved_ip net) (or_empty found) ≡ false
check_addresses-safe net none h = absurd (cc)
check_addresses-safe net (some []) h = refl
check_addresses-safe net (some (ip ∷ ips)) h = ground arith

open_host-safe :
    (net : Network) (hostname : Text) (named : Bool)
    → (if named
        then check_addresses net (net.lookup hostname)
        else if is_private_or_reserved_ip net hostname
        then unsafe private_reason
        else safe)
      ≡ safe
    → any
        (is_private_or_reserved_ip net)
        (if named then or_empty (net.lookup hostname) else hostname ∷ [])
      ≡ false
open_host-safe net hostname true h = check_addresses-safe net (net.lookup hostname) h
open_host-safe net hostname false h = ground arith

check_host-safe :
    (net : Network) (hostname : Text)
    → check_host net hostname ≡ safe
    → ((hostname == codes "localhost") ≡ false)
      × (any (is_private_or_reserved_ip net) (addresses_of net hostname) ≡ false)
check_host-safe net hostname h = elim (Bool-cases (hostname == codes "localhost")) [
  | inl e ↦
      absurd (let stop : unsafe "Webhook URL may not target localhost" ≡ safe = rw e at h in cc)
  | inr e ↦ (e, open_host-safe net hostname (eqb (net.is_ip hostname) 0) (rw e at h))
]

private-v4 :
    (net : Network) (ip : Text)
    → net.is_ip ip ≡ 4
    → is_private_or_reserved_ip net ip ≡ is_private_v4 ip
unfolding is_private_or_reserved_ip
private-v4 net ip four = rw four refl

-- No address among some that are not private is blocked.
blocked-any :
    (net : Network) (ips : List Text) (a b c d : ℕ)
    → a < 256
    → b < 256
    → c < 256
    → d < 256
    → net.is_ip (dotted a b c d) ≡ 4
    → any (is_private_or_reserved_ip net) ips ≡ false
    → includes ips (dotted a b c d) ≡ true
    → is_blocked (bits a b c d) ≡ false
blocked-any net [] a b c d ha hb hc hd four none_private h = cc
blocked-any net (ip ∷ ips) a b c d ha hb hc hd four none_private h =
    elim (Bool-cases (ip == dotted a b c d)) [
      | inl e ↦
          let same : ip ≡ dotted a b c d = (text_beq_iff ip (dotted a b c d)).0 e in
          let here : is_private_or_reserved_ip net ip ≡ false = ground arith in
          sym (is_private_v4-dotted a b c d ha hb hc hd)
          ∙ (sym (private-v4 net (dotted a b c d) four)
              ∙ (ap (is_private_or_reserved_ip net) (sym same) ∙ here))
      | inr e ↦ blocked-any net ips a b c d ha hb hc hd four (ground arith) (ground arith)
    ]

-- A webhook URL that the guard lets through goes over http or https, not to localhost, and none of
-- the IPv4 addresses that its host stands for, itself or what it resolves to at that time, lies in
-- the loopback, private, link-local, "this network", multicast or reserved blocks, read as ranges
-- of 32-bit numbers; `net.isIP` knows the address for one.
pub is_safe_webhook_url-outside :
    (net : Network) (raw : String) (url : Url) (a b c d : ℕ)
    → is_safe_webhook_url net raw ≡ safe
    → net.parse_url raw ≡ some url
    → a < 256
    → b < 256
    → c < 256
    → d < 256
    → net.is_ip (dotted a b c d) ≡ 4
    → includes (addresses_of net (to_lower_case url.hostname)) (dotted a b c d) ≡ true
    → (is_web url.protocol ≡ true)
      × ((to_lower_case url.hostname == codes "localhost") ≡ false)
      × (is_blocked (bits a b c d) ≡ false)
unfolding is_safe_webhook_url
is_safe_webhook_url-outside net raw url a b c d h parsed ha hb hc hd four target =
    let checked : check_url net (some url) ≡ safe = ap (check_url net) (sym parsed) ∙ h in
    elim (Bool-cases (is_web url.protocol)) [
      | inl web ↦
          let host : check_host net (to_lower_case url.hostname) ≡ safe = rw web at checked in
          let (not_local, open_to_all) = check_host-safe net (to_lower_case url.hostname) host in
          (
            web,
            not_local,
            blocked-any net (addresses_of net (to_lower_case url.hostname)) a b c d ha hb hc hd four
                open_to_all target,
          )
      | inr other ↦ absurd (
          let stop : unsafe "Webhook URL must use http or https" ≡ safe = rw other at checked in cc)
    ]
