-- ===== src/Middleware.antt =====
-- src/ops-service/src/middleware/mod.rs: the address of a client, the limit of requests for each address,
-- and the list of allowed addresses. An `IpAddr` is a number, and its parser a parameter; headers are
-- `none` where they are missing or no visible ASCII. An `Instant` is a number of seconds. Identifiers of
-- requests, metrics, logs and the key of runners are left out.
pub mod Limits
pub mod Addresses
pub mod Requests
mod Examples
use ops_service.Prelude.{
  ℕ, ◌+◌, ◌-◌, ◌*◌, ◌^◌, ◌%◌, max, Bool, true, false, not, Option, none, some, List, [], ◌∷◌, ◌++◌,
  if◌then◌else◌, ltb, ◌==◌, any, length,
}
use ops_service.Prelude.Bytes.{Bytes, codes, bytes_eq, starts_with}
use ops_service.Error.{
  R, ok, err, Act, ◌>>=◌, ◌>>◌, pure, refuse_if, or_fail, forbidden, rate_limit_exceeded,
  authentication,
}

abbrev pub IpAddr : Type 0
IpAddr = ℕ

abbrev pub loopback : IpAddr
loopback = 2130706433

pub record RequestParts : Type 0 where
  pub x_forwarded_for : Option Bytes
  pub x_real_ip : Option Bytes
  pub cf_connecting_ip : Option Bytes
  pub x_original_forwarded_for : Option Bytes
  pub connect_info : Option IpAddr
  pub extension : Option IpAddr

-- `split(',').next()`
unfoldable pub first_part : Bytes → Bytes
first_part [] = []
first_part (c ∷ cs) = let rest = first_part cs in if c == 44 then [] else c ∷ rest

abbrev pub is_blank : ℕ → Bool
is_blank c = if c == 32 then true else c == 9

-- `trim`: of the white space only spaces and tabs can be in a header.
unfoldable pub trim_start : Bytes → Bytes
trim_start [] = []
trim_start (c ∷ cs) = let rest = trim_start cs in if is_blank c then rest else c ∷ cs

abbrev pub keep_unless_blank : ℕ → Bytes → Bytes
keep_unless_blank c [] = if is_blank c then [] else c ∷ []
keep_unless_blank c (d ∷ ds) = c ∷ d ∷ ds

unfoldable pub trim_end : Bytes → Bytes
trim_end [] = []
trim_end (c ∷ cs) = keep_unless_blank c (trim_end cs)

-- The first of two answers.
abbrev pub or_else {ℓ} : {A : Type ℓ} → Option A → Option A → Option A
or_else none other = other
or_else (some a) other = some a

abbrev pub and_then {ℓ} : {A B : Type ℓ} → Option A → (A → Option B) → Option B
and_then none f = none
and_then (some a) f = f a

abbrev pub or_loopback : Option IpAddr → IpAddr
or_loopback none = loopback
or_loopback (some ip) = ip

module _ (parse_ip : Bytes → Option IpAddr) where
  -- The four headers of a proxy, in this order.
  abbrev pub proxy_ip : RequestParts → Option IpAddr
  proxy_ip parts =
      or_else
        (and_then parts.x_forwarded_for
          (λ text. parse_ip (trim_end (trim_start (first_part text)))))
        (or_else (and_then parts.x_real_ip parse_ip) (
          or_else (and_then parts.cf_connecting_ip parse_ip)
            (and_then parts.x_original_forwarded_for parse_ip)))

  unfoldable pub get_client_ip_with_addr : RequestParts → Bool → IpAddr
  unfolding first_part trim_start trim_end
  get_client_ip_with_addr parts trust_proxy = or_loopback (
      or_else (if trust_proxy then proxy_ip parts else none)
        (or_else parts.connect_info parts.extension))

pub record IpLimiterState : Type 0 where
  pub requests : List ℕ
  pub window_duration : ℕ
  pub max_requests : ℕ

pub record RateLimitConfig : Type 0 where
  pub max_requests : ℕ
  pub window_secs : ℕ
  pub login_max_requests : ℕ
  pub login_window_secs : ℕ

-- `NonZeroU32::new(n).unwrap_or(NonZeroU32::MIN)`
abbrev pub nonzero : ℕ → ℕ
nonzero n = if n == 0 then 1 else n

-- `from_security_config`: `rps` is a `u64`, cut to 32 bits after the product.
unfoldable pub from_security_config : ℕ → RateLimitConfig
from_security_config rate_limit_rps = record {
  max_requests = nonzero (max rate_limit_rps 1 * 60 % 2 ^ 64 % 2 ^ 32);
  window_secs = 60;
  login_max_requests = 10;
  login_window_secs = 300;
}

-- The `while let` that takes expired requests off the front.
unfoldable pub pop_expired : ℕ → ℕ → List ℕ → List ℕ
pop_expired window now [] = []
pop_expired window now (front ∷ rest) =
    let popped = pop_expired window now rest in
    if ltb (now - front) window then front ∷ rest else popped

-- `IpLimiterState::check`
unfoldable pub check_state : IpLimiterState → ℕ → IpLimiterState × Bool
unfolding pop_expired
check_state state now =
    let requests = pop_expired state.window_duration now state.requests in
    if ltb (length requests) state.max_requests
    then (record state { requests = requests ++ now ∷ [] }, true)
    else (record state { requests = requests }, false)

abbrev pub Limiters : Type 0
Limiters = List (IpAddr × IpLimiterState)

abbrev pub new_state : ℕ → ℕ → IpLimiterState
new_state max_requests window_secs = record {
  requests = [];
  window_duration = window_secs;
  max_requests = max_requests;
}

abbrev pub put_back : IpAddr → IpLimiterState × Bool → Limiters → Limiters × Bool
put_back ip (state, allowed) limiters = ((ip, state) ∷ limiters, allowed)

abbrev pub put_before : IpAddr × IpLimiterState → Limiters × Bool → Limiters × Bool
put_before entry (limiters, allowed) = (entry ∷ limiters, allowed)

-- `get_or_create_limiter`, and the check of what it gives: the limits of an entry are those of its
-- first request.
unfoldable pub check_entry : ℕ → ℕ → IpAddr → ℕ → Limiters → Limiters × Bool
unfolding check_state
check_entry max_requests window_secs ip now [] =
    put_back ip (check_state (new_state max_requests window_secs) now) []
check_entry max_requests window_secs ip now ((k, state) ∷ more) =
    let rest = check_entry max_requests window_secs ip now more in
    if k == ip then put_back k (check_state state now) more else put_before (k, state) rest

unfoldable pub check_rate_limit : RateLimitConfig → IpAddr → ℕ → Limiters → Limiters × Bool
unfolding check_entry
check_rate_limit config ip now limiters =
    check_entry config.max_requests config.window_secs ip now limiters

-- `IpRateLimiter::check_login_rate_limit`
unfoldable pub check_login_requests : RateLimitConfig → IpAddr → ℕ → Limiters → Limiters × Bool
unfolding check_entry
check_login_requests config ip now limiters =
    check_entry config.login_max_requests config.login_window_secs ip now limiters

abbrev pub refuse_over : IpAddr → Limiters × Bool → Limiters × R IpAddr
refuse_over ip (limiters, allowed) = (limiters, if allowed then ok ip else err rate_limit_exceeded)

-- `rate_limit_middleware`: the address that it hands on with the request.
unfoldable pub rate_limit_middleware :
    (Bytes → Option IpAddr) → RateLimitConfig → Bool → RequestParts → ℕ → Act Limiters IpAddr
unfolding check_rate_limit get_client_ip_with_addr
rate_limit_middleware parse_ip config trust_proxy parts now limiters =
    let client_ip = get_client_ip_with_addr parse_ip parts trust_proxy in
    refuse_over client_ip (check_rate_limit config client_ip now limiters)

-- `ip_whitelist_middleware`: no error is the handling of the request.
unfoldable pub ip_whitelist_middleware :
    (Bytes → Option IpAddr)
    → (IpAddr → Bytes)
    → Option (List Bytes)
    → Bool
    → RequestParts
    → R (Unit {0})
unfolding get_client_ip_with_addr
ip_whitelist_middleware parse_ip to_string none trust_proxy parts = ok tt
ip_whitelist_middleware parse_ip to_string (some allowed_ips) trust_proxy parts =
    if any (λ a. bytes_eq a (to_string (get_client_ip_with_addr parse_ip parts trust_proxy)))
      allowed_ips
    then ok tt
    else err forbidden
