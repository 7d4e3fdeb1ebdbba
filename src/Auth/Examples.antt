-- ===== src/Auth/Examples.antt =====
-- An operator whose third wrong password locks the account, and a token that is revoked.
use ops_service.Prelude.{◌≡◌, ◌≢◌, ◌<◌, refl, true, false, none, some, [], ◌∷◌, find, arith}
use ops_service.Prelude.Bytes.{Bytes, codes, bytes_eq}
use ops_service.Error.{ok}
use ops_service.Permission.{Permission}
use ops_service.Permission as Access
use ops_service.Auth.{
  User, RefreshToken, TokenPair, Store, Env, is_named, collect_scopes, get_user_roles_and_scopes,
  check_account_status,
}
use ops_service.Auth.Login.{
  LoginRequest, LoginResponse, login, check_login_rate_limit, recent_failures, is_locked_at,
  assess_login_risk,
}
use ops_service.Auth.Lockout.{login_ok_sound, lockout_outlives_its_time}
use ops_service.Auth.Tokens.{refresh_token, logout, logout_ends_token}

abbrev operator : User
operator = record {
  id = 1;
  username = codes "eve";
  password_hash = codes "secret";
  status = codes "enabled";
  failed_login_attempts = 2;
  last_failed_login_at = some 900;
  locked_until = none;
  updated_at = 900;
}

abbrev stored : RefreshToken
stored = record {
  id = 6;
  token_hash = codes "t";
  user_id = 1;
  device_id = none;
  user_agent = none;
  ip_address = codes "10.0.0.1";
  expires_at = 5000;
  revoked_at = none;
  created_at = 500;
}

abbrev tables : Store
tables = record {
  users = operator ∷ [];
  tokens = stored ∷ [];
  login_events = [];
  access = record { roles = []; permissions = []; bindings = []; grants = [] };
}

abbrev issued : TokenPair
issued = record { access_token = codes "a"; refresh_token = codes "n"; expires_in = 60 }

abbrev env : Env
env = record {
  answered = λ c. true;
  now = 1000;
  token_id = 7;
  event_id = 8;
  max_login_attempts = 3;
  login_lockout_duration_secs = 600;
  login_rate_limit_max_attempts = 5;
  login_rate_limit_window_secs = 60;
  refresh_token_exp_secs = 3600;
  verify = λ password hash. bytes_eq password hash;
  generate_token_pair = λ id name roles scopes. ok issued;
  validate_refresh_token = λ t. ok tt;
  hash_token = λ t. t;
  device_hash = λ a. a;
  to_lowercase = λ a. a;
}

abbrev right : LoginRequest
right = record { username = codes "eve"; password = codes "secret" }

abbrev guess : LoginRequest
guess = record { username = codes "eve"; password = codes "guess" }

abbrev later : Env
later = record env { now = 90_000 }

abbrev home : Bytes
home = codes "10.0.0.1"

abbrev welcome : LoginResponse
welcome = record {
  access_token = codes "a";
  refresh_token = codes "n";
  expires_in = 60;
  user = record { id = 1; username = codes "eve"; status = codes "enabled" };
  roles = [];
  scopes = [];
}

logs_in : (login env right home none tables).1 ≡ ok welcome
unfolding login check_login_rate_limit check_account_status collect_scopes get_user_roles_and_scopes
    assess_login_risk Access.join_roles
logs_in = refl

login_ok_sound_example :
    (user : User) × (find (is_named (codes "eve")) tables.users ≡ some user)
    × (bytes_eq user.status (codes "enabled") ≡ true)
    × (is_locked_at 1000 user.locked_until ≡ false)
    × (bytes_eq (codes "secret") user.password_hash ≡ true)
    × (recent_failures env home tables < 5)
login_ok_sound_example = login_ok_sound env right home none tables welcome logs_in

abbrev locked_operator : User
locked_operator = record operator { status = codes "locked"; locked_until = some 1600 }

abbrev locked_tables : Store
locked_tables = record tables { users = locked_operator ∷ [] }

lockout_outlives_its_time_example :
    (login later right home none (login env guess home none tables).0).1 ≢ ok welcome
lockout_outlives_its_time_example =
    lockout_outlives_its_time env later guess right home home none none tables (λ c. refl) operator
      refl refl refl refl (omega arith) refl refl welcome

refreshes : (refresh_token env (codes "t") home tables).1 ≡ ok issued
unfolding refresh_token check_account_status collect_scopes get_user_roles_and_scopes
    Access.join_roles
refreshes = refl

logs_out : (logout env (codes "t") 1 tables).1 ≡ ok tt
unfolding logout
logs_out = refl

logout_ends_token_example :
    (refresh_token later (codes "t") home (logout env (codes "t") 1 tables).0).1 ≢ ok issued
logout_ends_token_example =
    logout_ends_token env later (codes "t") home 1 tables stored refl refl refl refl logs_out issued
