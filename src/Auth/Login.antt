-- ===== src/Auth/Login.antt =====
-- `login`, `check_login_rate_limit`, `record_login_event`, `assess_login_risk` and `unlock_account`
-- of src/ops-service/src/services/auth_service.rs. The clock is read once in an operation.
use ops_service.Prelude.{
  ℕ, zero, suc, Uuid, DateTime, ◌+◌, ◌-◌, ◌/◌, ◌%◌, max, Bool, false, ◌&&◌, ◌||◌, Option, none,
  some, List, [], ◌∷◌, ◌++◌, String, if◌then◌else◌, ltb, leb, ◌==◌, find, any, count,
}
use Prim.Native.String.{◌++◌ as str_append}
use ops_service.Prelude.Int.{pos, leb_ℤ, as_i32}
use ops_service.Prelude.Bytes.{Bytes, codes, bytes_eq, starts_with, contains}
use ops_service.Error.{
  R, Act, ◌>>=◌, ◌>>◌, pure, fail, refuse_if, or_fail, execute, fetch, database, database_error,
  unauthorized, bad_request, rate_limit_exceeded,
}
use ops_service.Auth.{
  User, RefreshToken, LoginEvent, TokenPair, Store, count_failures, find_user, record_event, unlock,
  Env, ignore, is_named, update_user, increment_failed_attempts, reset_failed_attempts,
  lock_account, check_account_status, store_refresh_token, get_user_roles_and_scopes,
}

pub record LoginRequest : Type 0 where
  pub username : Bytes
  pub password : Bytes

-- `UserResponse::from`: the user without the hash of the password and the counters.
pub record UserResponse : Type 0 where
  pub id : Uuid
  pub username : Bytes
  pub status : Bytes

abbrev pub user_response : User → UserResponse
user_response user = record { id = user.id; username = user.username; status = user.status }

pub record LoginResponse : Type 0 where
  pub access_token : Bytes
  pub refresh_token : Bytes
  pub expires_in : ℕ
  pub user : UserResponse
  pub roles : List Bytes
  pub scopes : List Bytes

-- The decimal digits of a number; a number has no more digits than itself and one.
abbrev pub digit : ℕ → String
digit n =
    if n == 0
    then "0"
    else if n == 1
    then "1"
    else if n == 2
    then "2"
    else if n == 3
    then "3"
    else if n == 4
    then "4"
    else if n == 5
    then "5"
    else if n == 6
    then "6"
    else if n == 7
    then "7"
    else if n == 8
    then "8"
    else "9"

unfoldable pub show_digits : ℕ → ℕ → String
show_digits zero n = ""
show_digits (suc f) n =
    let front = show_digits f (n / 10) in
    if ltb n 10 then digit n else str_append front (digit (n % 10))

unfoldable pub show : ℕ → String
show n = show_digits (suc n) n

-- `login_failure` events of the address within the window.
abbrev pub is_recent_failure : Env → Bytes → LoginEvent → Bool
is_recent_failure env ip e =
    bytes_eq e.source_ip ip
    && (bytes_eq e.event_type (codes "login_failure")
        && ltb env.now (e.occurred_at + env.login_rate_limit_window_secs))

abbrev pub recent_failures : Env → Bytes → Store → ℕ
recent_failures env ip s = count (is_recent_failure env ip) s.login_events

unfoldable pub check_login_rate_limit : Env → Bytes → Act Store (Unit {0})
check_login_rate_limit env ip = do
  failures ← fetch (env.answered count_failures) database_error (recent_failures env ip)
  refuse_if (leb env.login_rate_limit_max_attempts failures) rate_limit_exceeded

abbrev pub suspicious_agents : List Bytes
suspicious_agents =
    codes "nmap"
    ∷ codes "sqlmap"
    ∷ codes "nikto"
    ∷ codes "gobuster"
    ∷ codes "dirbuster"
    ∷ codes "hydra"
    ∷ []

abbrev pub is_suspicious : Env → Option Bytes → Bool
is_suspicious env none = false
is_suspicious env (some agent) = any (λ a. contains (env.to_lowercase agent) a) suspicious_agents

-- The hour of the day is that of the seconds since 1970.
unfoldable pub assess_login_risk : Env → Bytes → Option Bytes → ℕ → Option Bytes
assess_login_risk env ip agent failures =
    if leb 5 failures
    then some (codes "brute_force")
    else if ltb (env.now / 3600 % 24) 6
    then some (codes "unusual_time")
    else if is_suspicious env agent
    then some (codes "suspicious_agent")
    else if starts_with ip (codes "0.") || bytes_eq ip (codes "0.0.0.0")
    then some (codes "suspicious_ip")
    else none

abbrev pub new_event : Env → User → Bytes → Option Bytes → Bytes → Option Bytes → LoginEvent
new_event env user event_type failure_reason ip agent = record {
  id = env.event_id;
  user_id = some user.id;
  username = user.username;
  event_type = event_type;
  auth_method = codes "password";
  failure_reason = failure_reason;
  source_ip = ip;
  user_agent = agent;
  risk_tag = assess_login_risk env ip agent 0;
  occurred_at = env.now;
}

-- Failures of the insertion are ignored.
abbrev pub record_login_event :
    Env → User → Bytes → Option Bytes → Bytes → Option Bytes → Act Store (Unit {0})
record_login_event env user event_type failure_reason ip agent = ignore (
    execute (env.answered record_event) database_error λ s. record s {
      login_events = s.login_events ++ new_event env user event_type failure_reason ip agent ∷ [];
    })

-- `locked_until > Utc::now()`
abbrev pub is_locked_at : DateTime → Option DateTime → Bool
is_locked_at now none = false
is_locked_at now (some until) = ltb now until

abbrev pub locked_minutes : DateTime → Option DateTime → ℕ
locked_minutes now none = 1
locked_minutes now (some until) = max 1 ((until - now) / 60)

abbrev pub refuse_locked : Env → User → Bytes → Option Bytes → Act Store (Unit {0})
refuse_locked env user ip agent =
    if is_locked_at env.now user.locked_until
    then (do
      record_login_event env user (codes "login_failure") (some (codes "account_locked")) ip agent
      fail (
          bad_request (
            str_append "账户已被临时锁定，请 "
              (str_append (show (locked_minutes env.now user.locked_until)) " 分钟后重试"))))
    else pure tt

-- The body of `if password_valid.is_err()`.
abbrev pub refuse_password : {A : Type 0} → Env → User → Bytes → Option Bytes → Act Store A
refuse_password env user ip agent = do
  ignore (increment_failed_attempts env user.id)
  record_login_event env user (codes "login_failure") (some (codes "invalid_password")) ip agent
  (if leb_ℤ (as_i32 env.max_login_attempts) (pos (user.failed_login_attempts + 1))
      then (do
        ignore (lock_account env user.id (env.now + env.login_lockout_duration_secs))
        fail (
            bad_request (
              str_append "密码错误次数过多，账户已被锁定 "
                (str_append (show (max 1 (env.login_lockout_duration_secs / 60))) " 分钟"))))
      else fail unauthorized)

abbrev pub lift : {A : Type 0} → R A → Act Store A
lift r s = (s, r)

abbrev pub fingerprint : Env → Option Bytes → Option Bytes
fingerprint env none = none
fingerprint env (some agent) = some (env.device_hash agent)

abbrev pub new_token : Env → Uuid → TokenPair → Option Bytes → Option Bytes → Bytes → RefreshToken
new_token env user pair device agent ip = record {
  id = env.token_id;
  token_hash = env.hash_token pair.refresh_token;
  user_id = user;
  device_id = device;
  user_agent = agent;
  ip_address = ip;
  expires_at = env.now + env.refresh_token_exp_secs;
  revoked_at = none;
  created_at = env.now;
}

-- What follows a valid password.
abbrev pub accept : Env → User → Bytes → Option Bytes → Act Store LoginResponse
accept env user ip agent = do
  (if ltb 0 user.failed_login_attempts then ignore (reset_failed_attempts env user.id) else pure tt)
  granted ← get_user_roles_and_scopes env user.id
  pair ← lift (env.generate_token_pair user.id user.username granted.0 granted.1)
  store_refresh_token env (new_token env user.id pair (fingerprint env agent) agent ip)
  record_login_event env user (codes "login_success") none ip agent
  pure record {
    access_token = pair.access_token;
    refresh_token = pair.refresh_token;
    expires_in = pair.expires_in;
    user = user_response user;
    roles = granted.0;
    scopes = granted.1;
  }

unfoldable pub login : Env → LoginRequest → Bytes → Option Bytes → Act Store LoginResponse
unfolding check_login_rate_limit check_account_status
login env req ip agent = do
  check_login_rate_limit env ip
  found ← fetch (env.answered find_user) database_error λ s. find (is_named req.username) s.users
  user ← or_fail found unauthorized
  check_account_status user
  refuse_locked env user ip agent
  (if env.verify req.password user.password_hash
      then accept env user ip agent
      else refuse_password env user ip agent)

abbrev pub unlocked : Env → User → User
unlocked env u = record u {
  failed_login_attempts = 0;
  locked_until = none;
  status = if bytes_eq u.status (codes "locked") then codes "enabled" else u.status;
  updated_at = env.now;
}

unfoldable pub unlock_account : Env → Uuid → Act Store (Unit {0})
unlock_account env id =
    execute (env.answered unlock) (database "Failed to unlock account")
      (update_user id (unlocked env))
