-- ===== src/Auth/Tokens.antt =====
-- `refresh_token`, `logout` and `logout_all` of src/ops-service/src/services/auth_service.rs with
-- their statements. `replaced_by` is not among the columns that a new token's row is inserted with.
use ops_service.Prelude.{
  ◌++◌, ℕ, Uuid, DateTime, ◌≡◌, ◌≢◌, inl, inr, refl, Bool, true, false, not, ◌&&◌, none, some, List,
  [], ◌∷◌, is_some, ltb, ◌==◌, find, count, update_where, arith, Option-cases, Bool-cases,
  find_passes,
}
use ops_service.Prelude.Bytes.{Bytes, codes, bytes_eq}
use ops_service.Error.{
  ok, Act, ◌>>=◌, ◌>>◌, pure, refuse_if, or_fail, execute, fetch, database_error, unauthorized,
}
use ops_service.Permission.{RoleBinding, bindings_of}
use ops_service.Auth.{
  read_permissions, insert_scopes, permissions_of, collect_scopes, User, RefreshToken, TokenPair,
  Store, find_token, find_id, revoke_token, revoke_hash, revoke_all, Env, ignore,
  check_account_status, store_refresh_token, get_user_roles_and_scopes,
}
use ops_service.Auth.Login.{lift, new_token}

abbrev pub has_hash : Bytes → RefreshToken → Bool
has_hash hash t = bytes_eq t.token_hash hash

abbrev pub revoked : Env → RefreshToken → RefreshToken
revoked env t = record t { revoked_at = some env.now }

-- `UPDATE refresh_tokens SET revoked_at = NOW() WHERE … AND revoked_at IS NULL`
abbrev pub revoke_where : Env → (RefreshToken → Bool) → Store → Store
revoke_where env p s = record s {
  tokens = update_where (λ t. p t && not (is_some t.revoked_at)) (revoked env) s.tokens;
}

abbrev pub revoke_refresh_token : Env → Uuid → Act Store (Unit {0})
revoke_refresh_token env id =
    execute (env.answered revoke_token) database_error (revoke_where env (λ t. t.id == id))

unfoldable pub refresh_token : Env → Bytes → Bytes → Act Store TokenPair
unfolding check_account_status
refresh_token env token ip = do
  lift (env.validate_refresh_token token)
  found ←
      fetch (env.answered find_token) database_error
        λ s. find (has_hash (env.hash_token token)) s.tokens
  row ← or_fail found unauthorized
  refuse_if (is_some row.revoked_at) unauthorized
  refuse_if (ltb row.expires_at env.now) unauthorized
  owner ←
      fetch (env.answered find_id) database_error
        λ s. find (λ (u : User). u.id == row.user_id) s.users
  user ← or_fail owner unauthorized
  check_account_status user
  granted ← get_user_roles_and_scopes env user.id
  pair ← lift (env.generate_token_pair user.id user.username granted.0 granted.1)
  ignore (revoke_refresh_token env row.id)
  store_refresh_token env (new_token env user.id pair none none ip)
  pure pair

abbrev pub is_token_of : Bytes → Uuid → RefreshToken → Bool
is_token_of hash user t = bytes_eq t.token_hash hash && t.user_id == user

unfoldable pub logout : Env → Bytes → Uuid → Act Store (Unit {0})
logout env token user =
    execute (env.answered revoke_hash) database_error
      (revoke_where env (is_token_of (env.hash_token token) user))

abbrev pub is_live_of : Uuid → RefreshToken → Bool
is_live_of user t = t.user_id == user && not (is_some t.revoked_at)

-- The number of rows that it revoked.
unfoldable pub logout_all : Env → Uuid → Act Store ℕ
logout_all env user = do
  revoked_rows ←
      fetch (env.answered revoke_all) database_error λ s. count (is_live_of user) s.tokens
  execute true database_error (revoke_where env (λ t. t.user_id == user))
  pure revoked_rows

module _ (env : Env) (token ip : Bytes) (s : Store) where
  -- Whichever statements fail: a refresh that returns `Ok` is for a stored token that is neither
  -- revoked nor past its time, and whose owner exists and is enabled.
  pub refresh_ok_sound :
      (pair : TokenPair)
      → (refresh_token env token ip s).1 ≡ ok pair
      → (row : RefreshToken) × (user : User) × (find (has_hash (env.hash_token token)) s.tokens
          ≡ some row)
        × (row.revoked_at ≡ none)
        × (ltb row.expires_at env.now ≡ false)
        × (find (λ u. u.id == row.user_id) s.users ≡ some user)
        × (bytes_eq user.status (codes "enabled") ≡ true)
  unfolding refresh_token check_account_status
  refresh_ok_sound pair h = elim (Option-cases (find (has_hash (env.hash_token token)) s.tokens)) [
    | inl missing ↦ absurd (ground (arith, missing))
    | inr (row, found) ↦ elim (Option-cases (find (λ (u : User). u.id == row.user_id) s.users)) [
      | inl nobody ↦ absurd (ground (arith, found, nobody))
      | inr (user, owner) ↦ (
        row,
        user,
        found,
        ground (arith, found, owner),
        ground (arith, found, owner),
        owner,
        ground (arith, found, owner),
      )
    ]
  ]

  -- A token whose row is revoked is not refreshed.
  revoked_refused :
      (row : RefreshToken) (at : DateTime)
      → find (has_hash (env.hash_token token)) s.tokens ≡ some row
      → row.revoked_at ≡ some at
      → (pair : TokenPair) → (refresh_token env token ip s).1 ≢ ok pair
  revoked_refused row at found e pair h =
      let (row', _, found', e', _, _, _) = refresh_ok_sound pair h in ground arith

find-revoked :
    (env : Env) (p : RefreshToken → Bool) (hash : Bytes) (ts : List RefreshToken)
    (row : RefreshToken)
    → find (has_hash hash) ts ≡ some row
    → p row ≡ true
    → row.revoked_at ≡ none
    → find (has_hash hash) (update_where (λ t. p t && not (is_some t.revoked_at)) (revoked env) ts)
      ≡ some (revoked env row)
find-revoked env p hash [] row h q e = absurd (ground arith)
find-revoked env p hash (t ∷ ts) row h q e = ground (arith, find-revoked env p hash ts row)

-- After a logout that returned `Ok`, the token of that user is never refreshed again in the state
-- that it leaves.
pub logout_ends_token :
    (env later : Env) (token ip : Bytes) (user : Uuid) (s : Store) (row : RefreshToken)
    → find (has_hash (env.hash_token token)) s.tokens ≡ some row
    → row.revoked_at ≡ none
    → row.user_id ≡ user
    → later.hash_token token ≡ env.hash_token token
    → (logout env token user s).1 ≡ ok tt
    → (pair : TokenPair) → (refresh_token later token ip (logout env token user s).0).1 ≢ ok pair
unfolding logout
logout_ends_token env later token ip user s row found live own same h pair =
    let answered : env.answered revoke_hash ≡ true = ground arith in
    let hit : bytes_eq row.token_hash (env.hash_token token) ≡ true =
      find_passes (has_hash (env.hash_token token)) s.tokens row found in
    revoked_refused later token ip _ (revoked env row) env.now
      (rw (same, answered)
        (find-revoked env (is_token_of (env.hash_token token) user) (env.hash_token token) s.tokens
          row found (ground arith) live))
      refl pair

collect_scopes-frame :
    (env : Env) (bs : List RoleBinding) (scopes : List Bytes) (s : Store)
    → (collect_scopes env bs scopes s).0 ≡ s
unfolding collect_scopes
collect_scopes-frame env [] scopes s = refl
collect_scopes-frame env (b ∷ bs) scopes s =
    elim (Bool-cases (env.answered (read_permissions b.role_id))) [
      | inl read ↦
          rw read (
            collect_scopes-frame env bs (insert_scopes (permissions_of b.role_id s.access) scopes)
              s)
      | inr lost ↦ rw lost refl
    ]

roles_frame : (env : Env) (user : Uuid) (s : Store) → (get_user_roles_and_scopes env user s).0 ≡ s
unfolding get_user_roles_and_scopes
roles_frame env user s = ground (arith, collect_scopes-frame env (bindings_of user s.access) [] s)

find-append :
    (p : RefreshToken → Bool) (xs ys : List RefreshToken) (row : RefreshToken)
    → find p xs ≡ some row
    → find p (xs ++ ys) ≡ some row
find-append p [] ys row h = absurd (ground arith)
find-append p (x ∷ xs) ys row h = ground (arith, find-append p xs ys row)

tokens_after :
    (env : Env) (token ip : Bytes) (s : Store) (pair : TokenPair) (row : RefreshToken) (user : User)
    → (refresh_token env token ip s).1 ≡ ok pair
    → env.answered revoke_token ≡ true
    → find (has_hash (env.hash_token token)) s.tokens ≡ some row
    → find (λ u. u.id == row.user_id) s.users ≡ some user
    → (next : RefreshToken) × ((refresh_token env token ip s).0.tokens
        ≡ (revoke_where env (λ t. t.id == row.id) s).tokens ++ next ∷ [])
unfolding refresh_token check_account_status
tokens_after env token ip s pair row user h answered found owner = (
  new_token env user.id pair none none ip,
  ground (arith, found, owner, roles_frame env user.id s),
)

-- A refresh that returned `Ok`, and whose revocation was answered, uses its token up: in the state
-- that it leaves, no later refresh of it returns `Ok`.
pub refresh_uses_up :
    (env later : Env) (token ip ip_later : Bytes) (s : Store) (pair : TokenPair)
    → (refresh_token env token ip s).1 ≡ ok pair
    → env.answered revoke_token ≡ true
    → later.hash_token token ≡ env.hash_token token
    → (again : TokenPair)
    → (refresh_token later token ip_later (refresh_token env token ip s).0).1 ≢ ok again
refresh_uses_up env later token ip ip_later s pair h answered same again =
    let (row, user, found, live, fresh, owner, is_on) = refresh_ok_sound env token ip s pair h in
    let revoked_tokens =
      update_where (λ (t : RefreshToken). t.id == row.id && not (is_some t.revoked_at))
        (revoked env) s.tokens in
    let (next, e) = tokens_after env token ip s pair row user h answered found owner in
    revoked_refused later token ip_later _ (revoked env row) env.now
      (rw (same, e)
        (find-append (has_hash (env.hash_token token)) revoked_tokens (next ∷ []) (revoked env row)
          (find-revoked env (λ t. t.id == row.id) (env.hash_token token) s.tokens row found
            (ground arith) live)))
      refl again
