-- ===== src/Signature/Examples.antt =====
-- Runs of the check of webhooks at concrete inputs. The hash keeps its input, and the hexadecimal form
-- of bytes is the bytes.
use ops_service.Prelude.{ℕ, ◌≡◌, ◌↔◌, refl, true, false, none, some, [], ◌∷◌, ltb, arith, ◌*◌}
use ops_service.Prelude.Int.{pos, negsuc}
use ops_service.Prelude.Bytes.{Bytes, codes}
use ops_service.Error.{ok, err, authentication}
use ops_service.Scheduler.{Runner, RunnerStatus}
use ops_service.Signature.{
  new_store, build_canonical_string, compute_hmac_sha256, parse_i64, skew_of, to_uppercase,
  check_and_record,
}
use ops_service.Signature.Middleware.{
  Config, Moment, WebhookRequest, Store, expected_signature, build_webhook_hmac_middleware,
}
use ops_service.Signature.Canonical.{build_canonical_string-injective}
use ops_service.Signature.Times.{Within, skew_decides}
use ops_service.Signature.Handled.{IsAuthentic, handled_iff}

abbrev defaults : Config
defaults = record {
  secret = some (codes "key");
  max_skew_secs = 300;
  sha256 = λ text. text;
  hex_encode = λ text. text;
}

abbrev strict : Config
strict = record defaults { max_skew_secs = 299 }

abbrev runner_one : Runner
runner_one = record {
  id = 1;
  name = codes "r1";
  capabilities = none;
  max_concurrent_jobs = pos 2;
  current_jobs = pos 0;
  status = RunnerStatus.active;
  last_heartbeat = none;
}

abbrev fresh_store : Store
fresh_store = record {
  nonces = some (record { entries = []; ttl = 600_000_000_000 });
  runners = runner_one ∷ [];
}

abbrev unsigned : WebhookRequest
unsigned = record {
  method = codes "post";
  path = codes "/b";
  body = some (codes "{}");
  runner_id = some (codes "r1");
  timestamp = some (codes "1299");
  signature = none;
  nonce = some (codes "n1");
}

signed_at : Bytes → WebhookRequest
unfolding expected_signature compute_hmac_sha256 build_canonical_string to_uppercase
signed_at time = record unsigned {
  timestamp = some time;
  signature =
      some (expected_signature defaults (codes "key") unsigned (codes "{}") time (codes "r1"));
}

abbrev at : ℕ → Moment
at secs = record { unix_now = pos secs; instant = secs * 1_000_000_000; answers = true }

new_store_test : new_store 600 ≡ record { entries = []; ttl = 600_000_000_000 }
unfolding new_store
new_store_test = refl

-- A request that is handled, and its store afterwards.
abbrev genuine : WebhookRequest
genuine = signed_at (codes "1299")

-- With the default settings, 300 and 600 seconds, a request with a timestamp 300 seconds ahead is
-- handled again 600 seconds later.
default_settings_replay :
    let ahead = signed_at (codes "1300") in
    (build_webhook_hmac_middleware defaults
      (at 1600)
      ahead
      (build_webhook_hmac_middleware defaults (at 1000) ahead fresh_store).0).1
    ≡ ok (codes "r1")
unfolding build_webhook_hmac_middleware check_and_record parse_i64 skew_of signed_at
default_settings_replay = refl

-- A request that is not signed uses a nonce up.
unsigned_uses_nonce :
    (build_webhook_hmac_middleware strict
      (at 1001)
      genuine
      (build_webhook_hmac_middleware strict
        (at 1000)
        (record genuine { signature = some [] })
        fresh_store).0).1
    ≡ err (authentication "Duplicate or replayed webhook request")
unfolding build_webhook_hmac_middleware check_and_record parse_i64 skew_of signed_at
unsigned_uses_nonce = refl

-- The least timestamp, whose distance to the clock is out of the range.
skew_wraps : skew_of (pos 1000) (negsuc 9_223_372_036_854_775_807) ≡ 9_223_372_036_854_774_808
unfolding skew_of
skew_wraps = refl

parses : parse_i64 (codes "1299") ≡ some (pos 1299)
unfolding parse_i64
parses = refl

skew_decides_example :
    (ltb 299 (skew_of (pos 1000) (pos 1299)) ≡ false) ↔ Within 299 (pos 1000) (pos 1299)
skew_decides_example =
    skew_decides 1000 299 (codes "1299") (pos 1299) (omega arith) (omega arith) parses

handled_iff_example :
    ((build_webhook_hmac_middleware strict (at 1000) genuine fresh_store).1 ≡ ok (codes "r1"))
    ↔ IsAuthentic strict (at 1000) genuine fresh_store (codes "r1")
handled_iff_example = handled_iff strict (at 1000) genuine fresh_store (codes "r1")

one_string :
    build_canonical_string (codes "p") (codes "/") (codes "1") (codes "h") (codes "r") (codes "n")
    ≡ build_canonical_string (codes "P") (codes "/") (codes "1") (codes "h") (codes "r") (codes "n")
unfolding build_canonical_string to_uppercase
one_string = refl

build_canonical_string-injective_example :
    (to_uppercase (codes "p") ≡ to_uppercase (codes "P"))
    × (codes "/" ≡ codes "/")
    × (codes "1" ≡ codes "1")
    × (codes "h" ≡ codes "h")
    × (codes "r" ≡ codes "r")
    × (codes "n" ≡ codes "n")
build_canonical_string-injective_example =
    build_canonical_string-injective (codes "p") (codes "/") (codes "1") (codes "h") (codes "r")
      (codes "n") (codes "P") (codes "/") (codes "1") (codes "h") (codes "r") (codes "n")
      (
        (omega arith, tt),
        (omega arith, tt),
        (omega arith, tt),
        (omega arith, tt),
        (omega arith, tt),
      )
      (
        (omega arith, tt),
        (omega arith, tt),
        (omega arith, tt),
        (omega arith, tt),
        (omega arith, tt),
      )
      one_string
