-- ===== src/Accounts/Lockout.antt =====
-- src/admin/auth.ts: how many passwords can be tried for one account.
use adms.Prelude.{
  ◌∷◌, [], suc, ◌-◌, ◌≤◌, ◌<◌, List, ℕ, ◌+◌, ◌≡◌, String, Bool, true, Option, none, some, string_eq,
  false,
}
use adms.Store.Exec.{World, Result, ok, thrown}
use adms.RateLimit.{Entry}
use adms.Accounts.{Libraries}
use adms.Accounts.Login.{
  LoginReply, Limits, wrong_credentials, logged_in, invalid_request, rate_limited, login,
  LoginRequest,
}
use adms.Accounts.Attempts.{is_for}

-- One answer's part in the count of wrong passwords: the count ends where a login succeeds.
abbrev pub tally : Bool → Result LoginReply → ℕ → ℕ
tally false r rest = rest
tally true (ok wrong_credentials) rest = suc rest
tally true (ok (logged_in token user)) rest = 0
tally true (ok invalid_request) rest = rest
tally true (ok (rate_limited reply)) rest = rest
tally true (thrown e) rest = rest

-- The wrong passwords that are tried for one account before somebody logs in to it, among logins
-- of everybody, one after another, each in a world of its own.
unfoldable pub wrong_guesses : Libraries → String → List (LoginRequest × World) → Limits → ℕ
wrong_guesses libs key [] limits = 0
wrong_guesses libs key ((req, w) ∷ steps) limits =
    let run = login libs req w limits in
    tally (is_for libs key req) run.result (wrong_guesses libs key steps run.limits)

-- The logins for the account all come from `from` on and before `until`.
abbrev pub IsWithin : Libraries → String → ℕ → ℕ → List (LoginRequest × World) → Type 0
IsWithin libs key from until [] = Unit
IsWithin libs key from until ((req, w) ∷ steps) =
    (is_for libs key req ≡ true → (from ≤ w.now) × (w.now < until))
    × IsWithin libs key from until steps

-- What is left of a window that is open already.
abbrev pub allowance : Option Entry → ℕ
allowance none = 0
allowance (some e) = 10 - e.count

module _ (libs : Libraries) (key : String) (from : ℕ) where
  abbrev until : ℕ
  until = from + 900000
