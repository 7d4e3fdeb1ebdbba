-- ===== src/Signature/Handled.antt =====
-- Which webhooks `build_webhook_hmac_middleware` of src/ops-service/src/middleware/webhook_hmac.rs hands
-- on.
use ops_service.Prelude.{
  ℕ, ◌≡◌, ◌↔◌, refl, ap, sym, ◌∙◌, subst, true, false, not, Bool, Option, none, some, ltb, any,
  ◌&&◌, arith, inl, inr, Bool-cases, Option-cases,
}
use ops_service.Prelude.Int.{ℤ}
use ops_service.Prelude.Bytes.{Bytes, bytes_eq, bytes_eq_sound, bytes_eq_refl}
use ops_service.Error.{R, ok, err, panicked, then_run, refuse_if, pure, authentication, ◌>>◌}
use ops_service.Error.Inversion.{after_or_fail, after_refuse_if}
use ops_service.Signature.{
  NonceStore, check_and_record, contains_key, drop_expired, parse_i64, skew_of,
}
use ops_service.Signature.Middleware.{
  Config, Moment, WebhookRequest, Store, check_nonce, expected_signature, runner_active, accept,
  build_webhook_hmac_middleware, refuse_unknown, is_enabled,
}

-- The nonce of a request, if it has one, is not on record once what has expired is dropped.
abbrev pub IsNew : ℕ → Option Bytes → Option NonceStore → Type 0
IsNew now none _ = Unit
IsNew now (some nonce) none = ⊥
IsNew now (some nonce) (some store) = contains_key nonce (drop_expired now store).entries ≡ false

abbrev pub IsAuthentic : Config → Moment → WebhookRequest → Store → Bytes → Type 0
IsAuthentic config moment request s runner_id =
    (secret : Bytes) × (body : Bytes) × (timestamp : Bytes) × (time : ℤ) × (config.secret
      ≡ some secret)
    × (request.body ≡ some body)
    × (request.runner_id ≡ some runner_id)
    × (request.timestamp ≡ some timestamp)
    × (request.signature ≡ some (expected_signature config secret request body timestamp runner_id))
    × (parse_i64 timestamp ≡ some time)
    × (ltb config.max_skew_secs (skew_of moment.unix_now time) ≡ false)
    × IsNew moment.instant request.nonce s.nonces
    × (runner_active moment runner_id s ≡ true)

check_nonce-IsNew :
    (now : ℕ) (nonce : Option Bytes) (s : Store)
    → ((check_nonce now nonce s).1 ≡ ok tt) ↔ IsNew now nonce s.nonces
unfolding check_and_record
check_nonce-IsNew now none s = (λ h. tt, λ h. refl)
check_nonce-IsNew now (some nonce) s = elim (Option-cases s.nonces) [
  | inl e ↦ rw e (λ h. absurd cc, λ h. absurd h)
  | inr (store, e) ↦ rw e (λ h. ground arith, λ h. ground arith)
]

check_nonce-runners :
    (now : ℕ) (nonce : Option Bytes) (s : Store) → (check_nonce now nonce s).0.runners ≡ s.runners
check_nonce-runners now none s = refl
check_nonce-runners now (some nonce) s = elim (Option-cases s.nonces) [
  | inl e ↦ rw e refl
  | inr (store, e) ↦ rw e refl
]

module _ (moment : Moment) (signed : Bool) (runner_id : Bytes) where
  abbrev rest_of : Store × R (Unit {0}) → Store × R Bytes
  rest_of m = then_run m (λ _. (do
    refuse_if (not signed) (authentication "Invalid webhook signature")
    refuse_unknown moment runner_id
    pure runner_id))

  rest_of-ok :
      (m : Store × R (Unit {0})) (id : Bytes)
      → ((rest_of m).1 ≡ ok id) ↔ (
          (m.1 ≡ ok tt)
          × (signed ≡ true)
          × (runner_active moment runner_id m.0 ≡ true)
          × (runner_id ≡ id))
  rest_of-ok (s, ok _) id =
      (λ (h : (rest_of (s, ok tt)).1 ≡ ok id). ground arith, λ (a, b, c, d). rw (b, c, d) refl)
  rest_of-ok (s, err e) id = (λ h. absurd cc, λ (a, _, _, _). absurd cc)
  rest_of-ok (s, panicked) id = (λ h. absurd cc, λ (a, _, _, _). absurd cc)

rest_of-store :
    (moment : Moment) (signed : Bool) (runner_id : Bytes) (m : Store × R (Unit {0}))
    → (rest_of moment signed runner_id m).0 ≡ m.0
rest_of-store moment true runner_id (s, ok _) =
    elim (Bool-cases (runner_active moment runner_id s)) [
      | inl known ↦ rw known refl
      | inr unknown ↦ rw unknown refl
    ]
rest_of-store moment false runner_id (s, ok _) = refl
rest_of-store moment signed runner_id (s, err e) = refl
rest_of-store moment signed runner_id (s, panicked) = refl

-- After the test of the nonce the store stays as it is.
pub accept-store :
    (config : Config) (moment : Moment) (request : WebhookRequest) (s : Store)
    (secret body name timestamp signature : Bytes)
    → (accept config moment request secret body name timestamp signature s).0
      ≡ (check_nonce moment.instant request.nonce s).0
unfolding accept
accept-store config moment request s secret body name timestamp signature =
    rest_of-store moment
      (bytes_eq signature (expected_signature config secret request body timestamp name)) name
      (check_nonce moment.instant request.nonce s)

runner_active-check_nonce :
    (moment : Moment) (nonce : Option Bytes) (s : Store) (name : Bytes)
    → runner_active moment name (check_nonce moment.instant nonce s).0 ≡ runner_active moment name s
runner_active-check_nonce moment nonce s name =
    ap (λ rs. moment.answers && any (λ r. bytes_eq r.name name && is_enabled r.status) rs)
      (check_nonce-runners moment.instant nonce s)

-- The part of the middleware from the test of the nonce on.
pub accept-ok :
    (config : Config) (moment : Moment) (request : WebhookRequest) (s : Store)
    (secret body name timestamp signature id : Bytes)
    → ((accept config moment request secret body name timestamp signature s).1 ≡ ok id) ↔ (
        IsNew moment.instant request.nonce s.nonces
        × (signature ≡ expected_signature config secret request body timestamp name)
        × (runner_active moment name s ≡ true)
        × (name ≡ id))
unfolding accept
accept-ok config moment request s secret body name timestamp signature id =
    let checked = check_nonce moment.instant request.nonce s in
    let expected = expected_signature config secret request body timestamp name in
    let parts = rest_of-ok moment (bytes_eq signature expected) name checked id in
    let new = check_nonce-IsNew moment.instant request.nonce s in
    let kept = runner_active-check_nonce moment request.nonce s name in
    (
      λ h.
          let (a, b, c, d) = parts.0 h in
          (new.0 a, bytes_eq_sound signature expected b, sym kept ∙ c, d),
      λ (a, b, c, d). parts.1 (
        new.1 a,
        subst (λ x. bytes_eq x expected ≡ true) (sym b) (bytes_eq_refl expected),
        kept ∙ c,
        d,
      ),
    )

-- A request is handed on, as one of a runner, exactly if the secret is configured, the body can be
-- read, the headers for the runner, the time and the signature are there, the time is an `i64` within
-- the skew, the nonce, if there is one, is not on record, the signature is that of the string made of
-- the request, and the runner is registered and not disabled.
pub handled_iff :
    (config : Config) (moment : Moment) (request : WebhookRequest) (s : Store) (runner_id : Bytes)
    → ((build_webhook_hmac_middleware config moment request s).1 ≡ ok runner_id)
      ↔ IsAuthentic config moment request s runner_id
unfolding build_webhook_hmac_middleware
handled_iff config moment request s runner_id = (sound, complete)
  where
    sound :
        (build_webhook_hmac_middleware config moment request s).1 ≡ ok runner_id
        → IsAuthentic config moment request s runner_id
    sound = after_or_fail config.secret _ s _ λ secret e0.
        after_or_fail request.body _ s _ λ body e1. after_or_fail request.runner_id _ s _ λ name e2.
          after_or_fail request.timestamp _ s _ λ timestamp e3.
            after_or_fail request.signature _ s _ λ signature e4.
              after_or_fail (parse_i64 timestamp) _ s _ λ time e5.
                after_refuse_if (ltb config.max_skew_secs (skew_of moment.unix_now time)) _ s
                  (λ _. accept config moment request secret body name timestamp signature)
                  λ e6 h.
                    let (new, same, active, named) =
                      (accept-ok config moment request s secret body name timestamp signature
                          runner_id).0
                        h in
                    (
                      secret,
                      body,
                      timestamp,
                      time,
                      e0,
                      e1,
                      e2 ∙ ap some named,
                      e3,
                      e4
                          ∙ ap some same
                          ∙ ap
                              (λ n.
                                some (expected_signature config secret request body timestamp n))
                              named,
                      e5,
                      e6,
                      new,
                      subst (λ n. runner_active moment n s ≡ true) named active,
                    )

    complete :
        IsAuthentic config moment request s runner_id
        → (build_webhook_hmac_middleware config moment request s).1 ≡ ok runner_id
    complete (secret, body, timestamp, time, e0, e1, e2, e3, e4, e5, e6, new, active) =
        rw (e0, e1, e2, e3, e4, e5, e6)
          ((accept-ok config moment request s secret body runner_id timestamp _ runner_id).1
            (new, refl, active, refl))
