-- ===== src/Auth.antt =====
-- The data of src/ops-service/src/services/auth_service.rs: the rows of
-- src/ops-service/src/models/user.rs, models/auth.rs and models/audit.rs, the tables, and the
-- statements that the service uses of repository/user_repo.rs and repository/auth_repo.rs. Texts
-- are their UTF-8 bytes. The counter of failed logins starts at 0 and only grows or is reset, so it
-- is a number. Columns that no operation here reads or changes are left out.
pub mod Login
pub mod Lockout
pub mod Tokens
mod Examples
use ops_service.Prelude.{
  ℕ, Uuid, DateTime, ◌+◌, ◌≡◌, Bool, true, false, ◌&&◌, ◌||◌, Option, none, some, List, [], ◌∷◌,
  ◌++◌, if◌then◌else◌, ◌==◌, ltb, find, any, retain, count, update_where, map,
}
use ops_service.Prelude.Bytes.{Bytes, codes, bytes_eq}
use ops_service.Error.{
  R, ok, err, Act, ◌>>=◌, ◌>>◌, pure, fail, execute, fetch, database_error, bad_request, internal,
}
use ops_service.Permission.{Permission, RoleBinding}
use ops_service.Permission as Access

pub record User : Type 0 where
  pub id : Uuid
  pub username : Bytes
  pub password_hash : Bytes
  pub status : Bytes
  pub failed_login_attempts : ℕ
  pub last_failed_login_at : Option DateTime
  pub locked_until : Option DateTime
  pub updated_at : DateTime

pub record RefreshToken : Type 0 where
  pub id : Uuid
  pub token_hash : Bytes
  pub user_id : Uuid
  pub device_id : Option Bytes
  pub user_agent : Option Bytes
  pub ip_address : Bytes
  pub expires_at : DateTime
  pub revoked_at : Option DateTime
  pub created_at : DateTime

pub record LoginEvent : Type 0 where
  pub id : Uuid
  pub user_id : Option Uuid
  pub username : Bytes
  pub event_type : Bytes
  pub auth_method : Bytes
  pub failure_reason : Option Bytes
  pub source_ip : Bytes
  pub user_agent : Option Bytes
  pub risk_tag : Option Bytes
  pub occurred_at : DateTime

pub record TokenPair : Type 0 where
  pub access_token : Bytes
  pub refresh_token : Bytes
  pub expires_in : ℕ

pub record Store : Type 0 where
  pub users : List User
  pub tokens : List RefreshToken
  pub login_events : List LoginEvent
  pub access : Access.Store

pub data Call : Type 0 where
  count_failures find_user find_id increment lock reset read_bindings find_token store_token : Call
  revoke_token revoke_hash revoke_all record_event unlock : Call
  read_permissions : Uuid → Call

-- What an operation meets: the answers of the database, the clock and the ids, the settings of
-- `config.security`, and the functions of the crates for passwords, tokens, hashes and case.
pub record Env : Type 0 where
  pub answered : Call → Bool
  pub now : DateTime
  pub token_id : Uuid
  pub event_id : Uuid
  pub max_login_attempts : ℕ
  pub login_lockout_duration_secs : ℕ
  pub login_rate_limit_max_attempts : ℕ
  pub login_rate_limit_window_secs : ℕ
  pub refresh_token_exp_secs : ℕ
  pub verify : Bytes → Bytes → Bool
  pub generate_token_pair : Uuid → Bytes → List Bytes → List Bytes → R TokenPair
  pub validate_refresh_token : Bytes → R (Unit {0})
  pub hash_token : Bytes → Bytes
  pub device_hash : Bytes → Bytes
  pub to_lowercase : Bytes → Bytes

-- `let _ = …` of a result.
abbrev pub ignore : {S A : Type 0} → Act S A → Act S (Unit {0})
ignore m s = let (t, r) = m s in (t, ok tt)

abbrev pub is_named : Bytes → User → Bool
is_named username u = bytes_eq u.username username

-- An `UPDATE users … WHERE id = $1`.
abbrev pub update_user : Uuid → (User → User) → Store → Store
update_user id f s = record s { users = update_where (λ u. u.id == id) f s.users }

abbrev pub counted_up : Env → User → User
counted_up env u = record u {
  failed_login_attempts = u.failed_login_attempts + 1;
  last_failed_login_at = some env.now;
  updated_at = env.now;
}

abbrev pub increment_failed_attempts : Env → Uuid → Act Store (Unit {0})
increment_failed_attempts env id =
    execute (env.answered increment) database_error (update_user id (counted_up env))

abbrev pub reset_counter : Env → User → User
reset_counter env u = record u {
  failed_login_attempts = 0;
  last_failed_login_at = none;
  updated_at = env.now;
}

abbrev pub reset_failed_attempts : Env → Uuid → Act Store (Unit {0})
reset_failed_attempts env id =
    execute (env.answered reset) database_error (update_user id (reset_counter env))

abbrev pub locked_user : Env → DateTime → User → User
locked_user env until u = record u {
  status = codes "locked";
  locked_until = some until;
  updated_at = env.now;
}

abbrev pub lock_account : Env → Uuid → DateTime → Act Store (Unit {0})
lock_account env id until =
    execute (env.answered lock) database_error (update_user id (locked_user env until))

-- `check_account_status`.
unfoldable pub check_account_status : User → Act Store (Unit {0})
check_account_status user =
    if bytes_eq user.status (codes "disabled")
    then fail (bad_request "账户已被禁用")
    else if bytes_eq user.status (codes "locked")
    then fail (bad_request "账户已被锁定")
    else if bytes_eq user.status (codes "enabled")
    then pure tt
    else fail (internal "Unknown account status")

abbrev pub store_refresh_token : Env → RefreshToken → Act Store (Unit {0})
store_refresh_token env token =
    execute (env.answered store_token) database_error
      λ s. record s { tokens = s.tokens ++ token ∷ [] }

-- `get_role_permissions`: the permissions that a row of `role_permissions` gives to the role.
abbrev pub permissions_of : Uuid → Access.Store → List Permission
permissions_of role s =
    retain (λ p. any (λ g. g.role_id == role && g.permission_id == p.id) s.grants) s.permissions

-- The scopes are a `HashSet`: each once, here in the order of their insertion.
abbrev pub insert_scope : Bytes → List Bytes → List Bytes
insert_scope scope scopes =
    if any (λ t. bytes_eq t scope) scopes then scopes else scopes ++ scope ∷ []

abbrev pub insert_scopes : List Permission → List Bytes → List Bytes
insert_scopes [] scopes = scopes
insert_scopes (p ∷ ps) scopes =
    insert_scopes ps (insert_scope (p.resource ++ (codes ":" ++ p.action)) scopes)

unfoldable pub collect_scopes : Env → List RoleBinding → List Bytes → Act Store (List Bytes)
collect_scopes env [] scopes = pure scopes
collect_scopes env (b ∷ bs) scopes = do
  permissions ←
      fetch (env.answered (read_permissions b.role_id)) database_error
        λ s. permissions_of b.role_id s.access
  collect_scopes env bs (insert_scopes permissions scopes)

unfoldable pub get_user_roles_and_scopes : Env → Uuid → Act Store (List Bytes × List Bytes)
get_user_roles_and_scopes env user = do
  bindings ← fetch (env.answered read_bindings) database_error λ s. Access.bindings_of user s.access
  scopes ← collect_scopes env bindings []
  pure (map (λ b. b.role_name) bindings, scopes)
