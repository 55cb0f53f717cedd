-- ===== src/Accounts/Attempts.antt =====
-- src/admin/auth.ts: what one login makes of the limiter of an account.
use adms.Prelude.{
  ◌∷◌, [], ◌∙◌, List, ℕ, ◌+◌, ◌≡◌, refl, String, Bool, true, Option, none, some, string_eq,
  Bool-cases, inl, inr, ltb, arith, false, eq_iff, ◌==◌, ◌&&◌,
}
use adms.Store.{AdminUser}
use adms.Store.Exec.{World, Result, ok, thrown, read, DbError}
use adms.RateLimit.{reset, Entry, Entries, get, live, verdict, hit, check, Verdict}
use adms.RateLimit.Window.{live-other, hit-other, get-delete-other, get-set}
use adms.Accounts.{user_of_email, Libraries, Db, List, false, email_key}
use adms.Accounts.Login.{
  LoginReply, Limits, after_lookup, decide, email_options, login_window_ms, wrong_credentials,
  logged_in, invalid_request, rate_limited, login, LoginData, LoginRequest, check_limits,
  login_data, login_parsed, ip_options, attempt,
}

-- The limiter's entry after one more failure.
abbrev pub counted : Option Entry → ℕ → Entry
counted none now = record { count = 1; reset_at = now + login_window_ms }
counted (some e) now = record e { count = e.count + 1 }

abbrev pub is_open : Option Entry → Bool
is_open none = true
is_open (some e) = ltb e.count 10

-- What an attempt for an account makes of the account's entry.
abbrev pub After : Option Entry → ℕ → Result LoginReply → Option Entry → Type 0
After o now (ok wrong_credentials) entry = (is_open o ≡ true) × (entry ≡ some (counted o now))
After o now (ok (logged_in token user)) entry = Unit
After o now (ok invalid_request) entry = entry ≡ o
After o now (ok (rate_limited reply)) entry = entry ≡ o
After o now (thrown e) entry = entry ≡ o

verdict-is_open : (o : Option Entry) (now : ℕ) → (verdict email_options now o).allowed ≡ is_open o
verdict-is_open none now = refl
verdict-is_open (some e) now = ground arith

get-hit :
    (key : String) (o : Option Entry) (now : ℕ) (es : Entries)
    → live key now es ≡ (o, es)
    → get key (hit email_options key now es) ≡ some (counted o now)
unfolding hit
get-hit key none now es h = rw h (get-set key _ es)
get-hit key (some e) now es h = rw h (get-set key _ es)

module _ (libs : Libraries) (ip key password : String) (o : Option Entry) (now : ℕ) where
  module _ (limits : Limits) (found : live key now limits.emails ≡ (o, limits.emails)) where
    decide-After :
        (user : Option AdminUser) (v : World)
        → v.now ≡ now
        → is_open o ≡ true
        → After o now
            (decide libs ip key password user v limits).result
            (get key (decide libs ip key password user v limits).limits.emails)
    decide-After none v e allowed = (allowed, rw e (get-hit key o now limits.emails found))
    decide-After (some user) v e allowed =
        elim (Bool-cases (libs.bcrypt_compare password user.password_hash)) [
          | inl right ↦ rw right tt
          | inr wrong ↦ rw wrong (allowed, rw e (get-hit key o now limits.emails found))
        ]

    after_lookup-After :
        (r : Result (Option AdminUser) × World)
        → r.1.now ≡ now
        → is_open o ≡ true
        → get key limits.emails ≡ o
        → After o now
            (after_lookup libs ip key password limits r).result
            (get key (after_lookup libs ip key password limits r).limits.emails)
    after_lookup-After (ok user, v) e allowed g = decide-After user v e allowed
    after_lookup-After (thrown x, v) e allowed g = g

module _ (libs : Libraries) (key : String) (db : Db) (now : ℕ) (cuid : ℕ → String) where
  abbrev at : List (Option DbError) → World
  at l = record { db = db; now = now; faults = l; cuid = cuid }

  read-now : {A : Type 0} (f : Db → A) (l : List (Option DbError)) → (read f (at l)).1.now ≡ now
  unfolding read
  read-now f [] = refl
  read-now f (none ∷ l) = refl
  read-now f (some e ∷ l) = refl

  attempt-After :
      (ip : String) (sent : LoginData) (l : List (Option DbError)) (by_ip : Verdict)
      (limits : Limits) (o : Option Entry)
      → live key now limits.emails ≡ (o, limits.emails)
      → get key limits.emails ≡ o
      → let run = attempt libs ip key sent (at l) ((by_ip, verdict email_options now o), limits) in
        After o now run.result (get key run.limits.emails)
  attempt-After ip sent l by_ip limits o found g =
      elim (Bool-cases (by_ip.allowed && (verdict email_options now o).allowed)) [
        | inr held ↦ rw held g
        | inl free ↦
            let allowed : is_open o ≡ true = ground (arith, verdict-is_open o now) in
            rw free (
              after_lookup-After libs ip key sent.password o now limits found
                (read (user_of_email sent.email) (at l)) (read-now (user_of_email sent.email) l)
                allowed g)
      ]

  login_parsed-After :
      (ip : String) (sent : LoginData) (l : List (Option DbError)) (limits : Limits)
      (o : Option Entry) (es : Entries)
      → email_key sent.email ≡ key
      → live key now limits.emails ≡ (o, es)
      → live key now es ≡ (o, es)
      → get key es ≡ o
      → let run = login_parsed libs ip (some sent) (at l) limits in
        After o now run.result (get key run.limits.emails)
  unfolding check_limits check
  login_parsed-After ip sent l limits o es same found again g = rw same (
      rw found (
        attempt-After ip sent l (check ip_options ip now limits.ips).0
          (record { ips = (check ip_options ip now limits.ips).1; emails = es }) o again g))

-- Whether a login is for the account with a key.
abbrev pub is_sent_for : String → Option LoginData → Bool
is_sent_for key none = false
is_sent_for key (some sent) = email_key sent.email == key

abbrev pub is_for : Libraries → String → LoginRequest → Bool
is_for libs key req = is_sent_for key (login_data libs req)

pub login-After :
    (libs : Libraries) (key : String) (req : LoginRequest) (w : World) (limits : Limits)
    (o : Option Entry) (es : Entries)
    → is_for libs key req ≡ true
    → live key w.now limits.emails ≡ (o, es)
    → live key w.now es ≡ (o, es)
    → get key es ≡ o
    → After o w.now
        (login libs req w limits).result
        (get key (login libs req w limits).limits.emails)
unfolding login
login-After libs key req w limits o es mine found again g = go (login_data libs req) mine
  where
    go :
        (sent : Option LoginData)
        → is_sent_for key sent ≡ true
        → let run = login_parsed libs req.ip sent w limits in
          After o w.now run.result (get key run.limits.emails)
    go none e = absurd (cc)
    go (some sent) e =
        login_parsed-After libs key w.db w.now w.cuid req.ip sent w.faults limits o es
          ((eq_iff (email_key sent.email) key).0 e) found again g

-- A login for another account leaves the entry alone.
module _ (libs : Libraries) (key k : String) (other : (k == key) ≡ false) where
  decide-other :
      (ip password : String) (user : Option AdminUser) (v : World) (limits : Limits)
      → get key (decide libs ip k password user v limits).limits.emails ≡ get key limits.emails
  unfolding reset
  decide-other ip password none v limits = hit-other email_options key k v.now limits.emails other
  decide-other ip password (some user) v limits =
      elim (Bool-cases (libs.bcrypt_compare password user.password_hash)) [
        | inl right ↦ rw right (get-delete-other key k limits.emails other)
        | inr wrong ↦ rw wrong (hit-other email_options key k v.now limits.emails other)
      ]

  after_lookup-other :
      (ip password : String) (limits : Limits) (r : Result (Option AdminUser) × World)
      → get key (after_lookup libs ip k password limits r).limits.emails ≡ get key limits.emails
  after_lookup-other ip password limits (ok user, v) = decide-other ip password user v limits
  after_lookup-other ip password limits (thrown e, v) = refl

  login_parsed-other :
      (ip : String) (sent : LoginData) (w : World) (limits : Limits)
      → email_key sent.email ≡ k
      → get key (login_parsed libs ip (some sent) w limits).limits.emails ≡ get key limits.emails
  unfolding check_limits check
  login_parsed-other ip sent w limits same =
      let emails = (check email_options k w.now limits.emails).1 in
      let checked : Limits = record {
        ips = (check ip_options ip w.now limits.ips).1;
        emails = emails;
      } in
      let swept = live-other key k w.now limits.emails other in
      let verdicts : Verdict × Verdict =
        ((check ip_options ip w.now limits.ips).0, (check email_options k w.now limits.emails).0) in
      rw same (elim (Bool-cases (verdicts.0.allowed && verdicts.1.allowed)) [
        | inr held ↦ rw held swept
        | inl free ↦ rw free (
            after_lookup-other ip sent.password checked (read (user_of_email sent.email) w) ∙ swept)
      ])

pub login-other :
    (libs : Libraries) (key : String) (req : LoginRequest) (w : World) (limits : Limits)
    → is_for libs key req ≡ false
    → get key (login libs req w limits).limits.emails ≡ get key limits.emails
unfolding login
login-other libs key req w limits other = go (login_data libs req) other
  where
    go :
        (sent : Option LoginData)
        → is_sent_for key sent ≡ false
        → get key (login_parsed libs req.ip sent w limits).limits.emails ≡ get key limits.emails
    go none e = refl
    go (some sent) e =
        login_parsed-other libs key (email_key sent.email) e req.ip sent w limits refl
