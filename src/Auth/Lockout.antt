-- ===== src/Auth/Lockout.antt =====
-- What a login demands, and how an account is locked after failed ones.
use ops_service.Prelude.{
  ℕ, ◌+◌, ◌<◌, ◌≡◌, ◌≢◌, ◌⊎◌, inl, inr, refl, Bool, true, false, Option, some, List, [], ◌∷◌, ◌==◌,
  find, update_where, arith, Bool-cases, Option-cases,
}
use ops_service.Prelude.Int.{pos, leb_ℤ, as_i32}
use ops_service.Prelude.Bytes.{Bytes, codes, bytes_eq, bytes_eq_sound}
use ops_service.Error.{ok}
use ops_service.Auth.{
  User, Store, Call, count_failures, find_user, increment, lock, Env, is_named, counted_up,
  locked_user, check_account_status,
}
use ops_service.Auth.Login.{
  LoginRequest, LoginResponse, recent_failures, check_login_rate_limit, is_locked_at, login,
}

-- An update of the rows with a row's id is found under the row's name.
find-update_where-by :
    {A : Type 0} (p q : A → Bool) (f : A → A) (xs : List A) (a : A)
    → ((x : A) → p (f x) ≡ p x)
    → q a ≡ true
    → find p xs ≡ some a
    → find p (update_where q f xs) ≡ some (f a)
find-update_where-by p q f [] a same hit h = cc
find-update_where-by p q f (x ∷ xs) a same hit h =
    ground (arith, same x, find-update_where-by p q f xs a same hit)

module _ (env : Env) (req : LoginRequest) (ip : Bytes) (agent : Option Bytes) (s : Store) where
  -- Whichever statements fail: a login that returns `Ok` is of a user whose account is enabled and
  -- not locked at that time, with a password that verifies, from an address below its limit.
  pub login_ok_sound :
      (response : LoginResponse)
      → (login env req ip agent s).1 ≡ ok response
      → (user : User) × (find (is_named req.username) s.users ≡ some user)
        × (bytes_eq user.status (codes "enabled") ≡ true)
        × (is_locked_at env.now user.locked_until ≡ false)
        × (env.verify req.password user.password_hash ≡ true)
        × (recent_failures env ip s < env.login_rate_limit_max_attempts)
  unfolding login check_login_rate_limit check_account_status
  login_ok_sound response h = elim (Option-cases (find (is_named req.username) s.users)) [
    | inl missing ↦ absurd (ground (arith, missing))
    | inr (user, found) ↦ (
      user,
      found,
      ground (arith, found),
      ground (arith, found),
      ground (arith, found),
      ground (arith, found),
    )
  ]

  module _ (answers : (c : Call) → env.answered c ≡ true) (user : User)
      (found : find (is_named req.username) s.users ≡ some user)
      (is_enabled : bytes_eq user.status (codes "enabled") ≡ true)
      (open_now : is_locked_at env.now user.locked_until ≡ false)
      (wrong : env.verify req.password user.password_hash ≡ false)
      (below : recent_failures env ip s < env.login_rate_limit_max_attempts) where
    abbrev pub counted : User
    counted = counted_up env user

    abbrev pub until : ℕ
    until = env.now + env.login_lockout_duration_secs

    abbrev pub reaches_limit : Bool
    reaches_limit = leb_ℤ (as_i32 env.max_login_attempts) (pos (user.failed_login_attempts + 1))

    users_after :
        ((reaches_limit ≡ true)
          × ((login env req ip agent s).0.users
              ≡ update_where
                  (λ u. u.id == user.id)
                  (locked_user env until)
                  (update_where (λ u. u.id == user.id) (counted_up env) s.users)))
        ⊎ ((reaches_limit ≡ false)
            × ((login env req ip agent s).0.users
                ≡ update_where (λ u. u.id == user.id) (counted_up env) s.users))
    unfolding login check_login_rate_limit check_account_status
    users_after =
        let not_disabled : bytes_eq user.status (codes "disabled") ≡ false =
          rw (bytes_eq_sound user.status (codes "enabled") is_enabled) refl in
        let not_locked : bytes_eq user.status (codes "locked") ≡ false =
          rw (bytes_eq_sound user.status (codes "enabled") is_enabled) refl in
        elim (Bool-cases reaches_limit) [
          | inl over ↦ inl (
            over,
            ground
                (arith, answers count_failures, answers find_user, answers increment, answers lock),
          )
          | inr under ↦
              inr (
                under,
                ground (arith, answers count_failures, answers find_user, answers increment),
              )
        ]

    found_counted :
        find (is_named req.username) (update_where (λ u. u.id == user.id) (counted_up env) s.users)
        ≡ some counted
    found_counted =
        find-update_where-by (is_named req.username) (λ u. u.id == user.id) (counted_up env) s.users
          user (λ (u : User). refl) (ground arith) found

    -- A wrong password for an enabled account that is not locked, from an address below its limit and
    -- with every statement answered: the row counts one more failure, and it is marked as locked for
    -- the lockout's duration if the count reaches the limit, and keeps its status otherwise.
    pub wrong_password_row :
        (after : User) × (find (is_named req.username) (login env req ip agent s).0.users
          ≡ some after)
        × (after.failed_login_attempts ≡ user.failed_login_attempts + 1)
        × (((reaches_limit ≡ true)
              × (after.status ≡ codes "locked")
              × (after.locked_until ≡ some until))
            ⊎ ((reaches_limit ≡ false)
                × (after.status ≡ user.status)
                × (after.locked_until ≡ user.locked_until)))
    wrong_password_row = elim users_after [
      | inl (over, e) ↦ (
        locked_user env until counted,
        rw e (
            find-update_where-by (is_named req.username) (λ u. u.id == user.id)
              (locked_user env until) _ counted (λ (u : User). refl) (ground arith) found_counted),
        refl,
        inl (over, refl, refl),
      )
      | inr (under, e) ↦ (counted, rw e found_counted, refl, inr (under, refl, refl))
    ]

-- An account whose status is `locked` takes no login and keeps its row, at whatever time and with
-- whatever password, whichever statements fail.
pub locked_refused :
    (env : Env) (req : LoginRequest) (ip : Bytes) (agent : Option Bytes) (s : Store) (user : User)
    → find (is_named req.username) s.users ≡ some user
    → user.status ≡ codes "locked"
    → ((login env req ip agent s).0.users ≡ s.users)
      × ((response : LoginResponse) → (login env req ip agent s).1 ≢ ok response)
unfolding login check_login_rate_limit check_account_status
locked_refused env req ip agent s user found e =
    let not_disabled : bytes_eq user.status (codes "disabled") ≡ false = rw e refl in
    let locked : bytes_eq user.status (codes "locked") ≡ true = rw e refl in
    (ground (arith, found), λ response h. ground (arith, found))

-- After the wrong password that reaches the limit, no login of that name returns `Ok` in the state
-- that it leaves, at whatever later time, even after the lockout's duration, and with whatever
-- password. The statements of the failed login are answered; those of the later one may fail.
pub lockout_outlives_its_time :
    (env later : Env) (req again : LoginRequest) (ip ip_later : Bytes)
    (agent agent_later : Option Bytes) (s : Store) (answers : (c : Call) → env.answered c ≡ true)
    (user : User) (found : find (is_named req.username) s.users ≡ some user)
    (is_enabled : bytes_eq user.status (codes "enabled") ≡ true)
    (open_now : is_locked_at env.now user.locked_until ≡ false)
    (wrong : env.verify req.password user.password_hash ≡ false)
    (below : recent_failures env ip s < env.login_rate_limit_max_attempts)
    → leb_ℤ (as_i32 env.max_login_attempts) (pos (user.failed_login_attempts + 1)) ≡ true
    → again.username ≡ req.username
    → (response : LoginResponse)
    → (login later again ip_later agent_later (login env req ip agent s).0).1 ≢ ok response
lockout_outlives_its_time env later req again ip ip_later agent agent_later s answers user found
      is_enabled open_now wrong below limit same response =
    let (after, e, _, state) =
      wrong_password_row env req ip agent s answers user found is_enabled open_now wrong below in
    elim state [
      | inl (_, locked, _) ↦
          (locked_refused later again ip_later agent_later _ after (rw same e) locked).1 response
      | inr (under, _, _) ↦ absurd (ground arith)
    ]
