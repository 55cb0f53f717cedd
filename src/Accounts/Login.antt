-- ===== src/Accounts/Login.antt =====
-- src/admin/auth.ts: the login, with its two limiters of failed attempts. A login runs by itself:
-- the clock of its statements stands still.
use adms.Accounts.{
  Libraries, PublicUser, to_public_user, token_payload, user_of_email, email_key, parse_email,
  non_empty_text,
}
use adms.Prelude.{ℕ, max, String, ◌&&◌, Option, none, some, if◌then◌else◌}
use adms.Store.{AdminUser}
use adms.Store.Exec.{World, Result, ok, thrown, read}
use adms.RateLimit.{Options, Entries, Verdict, check, hit, reset, RateLimited, send_rate_limited}

abbrev pub login_window_ms : ℕ
login_window_ms = 900000

abbrev pub ip_options : Options
ip_options = record { window_ms = login_window_ms; max_hits = 30 }

abbrev pub email_options : Options
email_options = record { window_ms = login_window_ms; max_hits = 10 }

-- The two limiters, which live as long as the process.
pub record Limits : Type 0 where
  pub ips : Entries
  pub emails : Entries

pub record LoginRequest : Type 0 where
  pub email : Option String
  pub password : Option String
  pub ip : String

pub record LoginData : Type 0 where
  pub email : String
  pub password : String

abbrev pair_data : Option String → Option String → Option LoginData
pair_data none password = none
pair_data (some email) none = none
pair_data (some email) (some password) = some (record { email = email; password = password })

-- `loginSchema`
unfoldable pub login_data : Libraries → LoginRequest → Option LoginData
login_data libs req = pair_data (parse_email libs req.email) (non_empty_text req.password)

pub data LoginReply : Type 0 where
  invalid_request : LoginReply
  rate_limited : RateLimited → LoginReply
  wrong_credentials : LoginReply
  logged_in : (token : String) → PublicUser → LoginReply

-- What a login leaves: its answer or its rejection, the world, and the limiters.
pub record LoginRun : Type 0 where
  pub result : Result LoginReply
  pub world : World
  pub limits : Limits

abbrev pub count_failure : String → String → World → Limits → LoginRun
count_failure ip key w limits = record {
  result = ok wrong_credentials;
  world = w;
  limits = record {
    ips = hit ip_options ip w.now limits.ips;
    emails = hit email_options key w.now limits.emails;
  };
}

abbrev pub open_session : Libraries → String → AdminUser → World → Limits → LoginRun
open_session libs key user w limits = record {
  result = ok (logged_in (libs.sign_admin_token (token_payload user)) (to_public_user user));
  world = w;
  limits = record limits { emails = reset key limits.emails };
}

abbrev pub decide :
    Libraries → String → String → String → Option AdminUser → World → Limits → LoginRun
decide libs ip key password none w limits = count_failure ip key w limits
decide libs ip key password (some user) w limits =
    if libs.bcrypt_compare password user.password_hash
    then open_session libs key user w limits
    else count_failure ip key w limits

abbrev pub after_lookup :
    Libraries → String → String → String → Limits → Result (Option AdminUser) × World → LoginRun
after_lookup libs ip key password limits (ok user, w) = decide libs ip key password user w limits
after_lookup libs ip key password limits (thrown e, w) = record {
  result = thrown e;
  world = w;
  limits = limits;
}

-- Both verdicts, and the limiters without the windows that have expired.
unfoldable pub check_limits : String → String → ℕ → Limits → (Verdict × Verdict) × Limits
unfolding check
check_limits ip key now limits =
    let by_ip = check ip_options ip now limits.ips in
    let by_email = check email_options key now limits.emails in
    ((by_ip.0, by_email.0), record { ips = by_ip.1; emails = by_email.1 })

abbrev pub hold_back : Verdict × Verdict → RateLimited
hold_back (by_ip, by_email) =
    send_rate_limited (max by_ip.retry_after_sec by_email.retry_after_sec)
      "Too many failed login attempts. Try again later."

abbrev pub attempt :
    Libraries → String → String → LoginData → World → (Verdict × Verdict) × Limits → LoginRun
attempt libs ip key sent w (verdicts, limits) =
    if verdicts.0.allowed && verdicts.1.allowed
    then after_lookup libs ip key sent.password limits (read (user_of_email sent.email) w)
    else record { result = ok (rate_limited (hold_back verdicts)); world = w; limits = limits }

abbrev pub login_parsed : Libraries → String → Option LoginData → World → Limits → LoginRun
login_parsed libs ip none w limits = record {
  result = ok invalid_request;
  world = w;
  limits = limits;
}
login_parsed libs ip (some sent) w limits =
    attempt libs ip (email_key sent.email) sent w
      (check_limits ip (email_key sent.email) w.now limits)

-- POST /login
unfoldable pub login : Libraries → LoginRequest → World → Limits → LoginRun
unfolding login_data check_limits email_key to_public_user token_payload hit reset
login libs req w limits = login_parsed libs req.ip (login_data libs req) w limits
