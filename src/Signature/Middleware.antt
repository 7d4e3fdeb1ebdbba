-- ===== src/Signature/Middleware.antt =====
-- `build_webhook_hmac_middleware` of src/ops-service/src/middleware/webhook_hmac.rs: what a webhook of
-- a runner must bring to be handled. `ok` is the call of the handler, with the name of the runner.
use ops_service.Prelude.{
  ℕ, Bool, true, false, not, ◌&&◌, Option, none, some, List, [], ◌∷◌, if◌then◌else◌, ltb, any,
  get_or,
}
use ops_service.Prelude.Int.{ℤ}
use ops_service.Prelude.Bytes.{Bytes, bytes_eq}
use ops_service.Error.{
  R, ok, err, Act, ◌>>=◌, ◌>>◌, pure, refuse_if, or_fail, fail, authentication, bad_request,
  internal,
}
use ops_service.Scheduler.{Runner, RunnerStatus}
use ops_service.Signature.{
  NonceStore, check_and_record, drop_expired, build_canonical_string, compute_hmac_sha256,
  parse_i64, skew_of,
}

-- The settings, and the functions of other crates.
pub record Config : Type 0 where
  pub secret : Option Bytes
  pub max_skew_secs : ℕ
  pub sha256 : Bytes → Bytes
  pub hex_encode : Bytes → Bytes

-- The clocks at a request, in Unix seconds and in nanoseconds, and whether the database answers.
pub record Moment : Type 0 where
  pub unix_now : ℤ
  pub instant : ℕ
  pub answers : Bool

-- The body is `none` where it cannot be read or has more than 1 MiB, a header where it is missing or
-- no visible ASCII.
pub record WebhookRequest : Type 0 where
  pub method : Bytes
  pub path : Bytes
  pub body : Option Bytes
  pub runner_id : Option Bytes
  pub timestamp : Option Bytes
  pub signature : Option Bytes
  pub nonce : Option Bytes

pub record Store : Type 0 where
  pub nonces : Option NonceStore
  pub runners : List Runner

abbrev pub judged : NonceStore × Bool → Store → Store × R (Unit {0})
judged (next, new) s = (
  record s { nonces = some next },
  if new then ok tt else err (authentication "Duplicate or replayed webhook request"),
)

abbrev pub check_in : Bytes → ℕ → Option NonceStore → Act Store (Unit {0})
check_in nonce now none = fail (internal "Nonce store not initialized")
check_in nonce now (some store) = judged (check_and_record store nonce now)

abbrev pub check_nonce : ℕ → Option Bytes → Act Store (Unit {0})
check_nonce now none = pure tt
check_nonce now (some nonce) = λ s. check_in nonce now s.nonces s

unfoldable pub expected_signature : Config → Bytes → WebhookRequest → Bytes → Bytes → Bytes → Bytes
expected_signature config secret request body timestamp runner_id = config.hex_encode (
    compute_hmac_sha256 config.sha256 secret (
      build_canonical_string request.method request.path timestamp
        (config.hex_encode (config.sha256 body)) runner_id (get_or request.nonce [])))

abbrev pub is_enabled : RunnerStatus → Bool
is_enabled RunnerStatus.disabled = false
is_enabled _ = true

-- `SELECT EXISTS(...)`, with `unwrap_or(false)`.
abbrev pub runner_active : Moment → Bytes → Store → Bool
runner_active moment name s =
    moment.answers && any (λ r. bytes_eq r.name name && is_enabled r.status) s.runners

abbrev pub refuse_unknown : Moment → Bytes → Act Store (Unit {0})
refuse_unknown moment runner_id s =
    refuse_if (not (runner_active moment runner_id s))
      (authentication "Runner not registered or disabled") s

-- From the test of the nonce on.
unfoldable pub accept :
    Config → Moment → WebhookRequest → Bytes → Bytes → Bytes → Bytes → Bytes → Act Store Bytes
unfolding expected_signature
accept config moment request secret body runner_id timestamp signature = do
  check_nonce moment.instant request.nonce
  refuse_if
      (not (bytes_eq signature (expected_signature config secret request body timestamp runner_id)))
      (authentication "Invalid webhook signature")
  refuse_unknown moment runner_id
  pure runner_id

unfoldable pub build_webhook_hmac_middleware : Config → Moment → WebhookRequest → Act Store Bytes
unfolding accept
build_webhook_hmac_middleware config moment request = do
  secret ←
      or_fail config.secret
        (authentication "Webhook HMAC authentication is required but not configured")
  body ← or_fail request.body (bad_request "Failed to read request body")
  runner_id ← or_fail request.runner_id (authentication "Missing x-runner-id header")
  timestamp ← or_fail request.timestamp (authentication "Missing x-runner-timestamp header")
  signature ← or_fail request.signature (authentication "Missing x-runner-signature header")
  time ← or_fail (parse_i64 timestamp) (authentication "Invalid x-runner-timestamp format")
  refuse_if (ltb config.max_skew_secs (skew_of moment.unix_now time))
      (authentication "Request timestamp too old or too far in the future")
  accept config moment request secret body runner_id timestamp signature

-- What the process does in the course of time: it answers a request, cleans up, or the rows of
-- runners change.
pub data Event : Type 0 where
  arrives : Moment → WebhookRequest → Event
  cleans : (now : ℕ) → Event
  changes : List Runner → Event

abbrev pub cleaned : ℕ → Option NonceStore → Option NonceStore
cleaned now none = none
cleaned now (some store) = some (drop_expired now store)

unfoldable pub perform : Config → Event → Store → Store
unfolding build_webhook_hmac_middleware drop_expired
perform config (arrives moment request) s =
    (build_webhook_hmac_middleware config moment request s).0
perform config (cleans now) s = record s { nonces = cleaned now s.nonces }
perform config (changes runners) s = record s { runners = runners }

unfoldable pub perform_all : Config → List Event → Store → Store
unfolding perform
perform_all config [] s = s
perform_all config (e ∷ es) s = perform_all config es (perform config e s)
