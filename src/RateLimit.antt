-- ===== src/RateLimit.antt =====
-- src/middleware/rateLimit.ts: the fixed-window limiter. Its map of windows is an association list
-- with one entry to a key.
pub mod Window
use adms.Prelude.{
  ℕ, zero, suc, ◌+◌, ◌-◌, ◌*◌, ◌/◌, String, Bool, true, false, not, Option, none, some, List, [],
  ◌∷◌, filter, ◌==◌, string_eq, leb, ltb, if◌then◌else◌,
}
use Prim.Native.Nat.{max}

pub record Options : Type 0 where
  pub window_ms : ℕ
  pub max_hits : ℕ

pub record Entry : Type 0 where
  pub count : ℕ
  pub reset_at : ℕ

abbrev pub Entries : Type 0
Entries = List (String × Entry)

abbrev pub get : String → Entries → Option Entry
get key [] = none
get key ((k, e) ∷ es) = if k == key then some e else get key es

abbrev pub delete : String → Entries → Entries
delete key [] = []
delete key ((k, e) ∷ es) = let rest = delete key es in if k == key then rest else (k, e) ∷ rest

abbrev pub set : String → Entry → Entries → Entries
set key e es = (key, e) ∷ delete key es

abbrev is_expired : ℕ → Entry → Bool
is_expired now e = leb e.reset_at now

-- The timer that drops the expired windows.
unfoldable pub sweep : ℕ → Entries → Entries
sweep now [] = []
sweep now ((k, e) ∷ es) =
    let rest = sweep now es in if leb e.reset_at now then rest else (k, e) ∷ rest

abbrev pub keep_live : String → ℕ → Entries → Option Entry → Option Entry × Entries
keep_live key now es none = (none, es)
keep_live key now es (some e) = if leb e.reset_at now then (none, delete key es) else (some e, es)

-- The window of a key, if it has not expired; an expired one is dropped.
unfoldable pub live : String → ℕ → Entries → Option Entry × Entries
live key now es = keep_live key now es (get key es)

pub record Verdict : Type 0 where
  pub allowed : Bool
  pub retry_after_sec : ℕ

-- `Math.max(1, Math.ceil(ms / 1000))`
abbrev pub seconds : ℕ → ℕ
seconds ms = max 1 ((ms + 999) / 1000)

abbrev pub verdict : Options → ℕ → Option Entry → Verdict
verdict opts now none = record { allowed = true; retry_after_sec = 0 }
verdict opts now (some e) =
    if ltb e.count opts.max_hits
    then record { allowed = true; retry_after_sec = 0 }
    else record { allowed = false; retry_after_sec = seconds (e.reset_at - now) }

unfoldable pub check : Options → String → ℕ → Entries → Verdict × Entries
unfolding live
check opts key now es = let r = live key now es in (verdict opts now r.0, r.1)

abbrev pub count_hit : Options → String → ℕ → Option Entry × Entries → Entries
count_hit opts key now (none, es) =
    set key (record { count = 1; reset_at = now + opts.window_ms }) es
count_hit opts key now (some e, es) = set key (record e { count = e.count + 1 }) es

unfoldable pub hit : Options → String → ℕ → Entries → Entries
unfolding live
hit opts key now es = count_hit opts key now (live key now es)

unfoldable pub reset : String → Entries → Entries
reset key es = delete key es

-- `req.ip ?? req.socket.remoteAddress ?? "unknown"`
unfoldable pub client_ip : Option String → Option String → String
client_ip (some ip) remote = ip
client_ip none (some address) = address
client_ip none none = "unknown"

-- The answer of a request that is held back: the `Retry-After` header, and 429 with the message.
pub record RateLimited : Type 0 where
  pub retry_after : ℕ
  pub status : ℕ
  pub error : String

unfoldable pub send_rate_limited : ℕ → String → RateLimited
send_rate_limited retry_after_sec message = record {
  retry_after = retry_after_sec;
  status = 429;
  error = message;
}

-- The middleware: whether the request goes on to its handler, or how long it is told to wait.
unfoldable pub rate_limit_by_ip : Options → String → ℕ → Entries → Verdict × Entries
unfolding check hit
rate_limit_by_ip opts key now es =
    let r = check opts key now es in if r.0.allowed then (r.0, hit opts key now r.1) else (r.0, r.1)
