-- ===== src/Middleware/Requests.antt =====
-- rate_limit_middleware of src/ops-service/src/middleware/mod.rs for the requests of many clients.
use ops_service.Prelude.{
  ℕ, ◌≤◌, ◌≡◌, refl, ap, sym, ◌∙◌, subst, inl, inr, Bool, true, false, Option, List, [], ◌∷◌,
  if◌then◌else◌, ◌==◌, Bool-cases, count, map,
}
use ops_service.Prelude.Bytes.{Bytes}
use ops_service.Error.{R, ok, err, panicked}
use ops_service.Concurrency.Rate.{accepted, Ascending, is_within, new_limiter, rate_limited}
use ops_service.Middleware.{
  IpAddr, RequestParts, RateLimitConfig, Limiters, check_rate_limit, get_client_ip_with_addr,
  refuse_over, rate_limit_middleware,
}
use ops_service.Middleware.Limits.{pass_if}
use ops_service.Middleware.Addresses.{passes_of, times_of, passes_of-accepted, Ascending-times_of}

-- The time of a request that is handed on as one of the address.
abbrev pub add_handled : IpAddr → ℕ → R IpAddr → List ℕ → List ℕ
add_handled ip now (ok client_ip) rest = if client_ip == ip then now ∷ rest else rest
add_handled ip now (err e) rest = rest
add_handled ip now panicked rest = rest

-- The address of a request and its time.
abbrev pub event_of : (Bytes → Option IpAddr) → Bool → RequestParts × ℕ → IpAddr × ℕ
event_of parse_ip trust_proxy (parts, now) =
    (get_client_ip_with_addr parse_ip parts trust_proxy, now)

module _ (parse_ip : Bytes → Option IpAddr) (config : RateLimitConfig) (trust_proxy : Bool)
    (ip : IpAddr) where
  -- The times of the requests that the middleware hands on as those of the address.
  unfoldable pub handled_of : Limiters → List (RequestParts × ℕ) → List ℕ
  handled_of limiters [] = []
  handled_of limiters ((parts, now) ∷ requests) =
      let (next, answer) = rate_limit_middleware parse_ip config trust_proxy parts now limiters in
      let rest = handled_of next requests in add_handled ip now answer rest

  added :
      (k : IpAddr) (now : ℕ) (c : Limiters × Bool) (rest : List ℕ)
      → add_handled ip now (refuse_over k c).1 rest
        ≡ (if k == ip then pass_if now c.1 rest else rest)
  added k now (next, true) rest = refl
  added k now (next, false) rest = elim (Bool-cases (k == ip)) [
    | inl own ↦ rw own refl
    | inr other ↦ rw other refl
  ]

  handled_of-passes_of :
      (limiters : Limiters) (requests : List (RequestParts × ℕ))
      → handled_of limiters requests
        ≡ passes_of config ip limiters (map (event_of parse_ip trust_proxy) requests)
  unfolding handled_of passes_of rate_limit_middleware
  handled_of-passes_of limiters [] = refl
  handled_of-passes_of limiters ((parts, now) ∷ requests) =
      let k = get_client_ip_with_addr parse_ip parts trust_proxy in
      let checked = check_rate_limit config k now limiters in
      added k now checked (handled_of checked.0 requests)
      ∙ ap (λ rest. if k == ip then pass_if now checked.1 rest else rest)
          (handled_of-passes_of checked.0 requests)

  times-event_of :
      (requests : List (RequestParts × ℕ))
      → map (λ e. e.1) (map (event_of parse_ip trust_proxy) requests) ≡ map (λ q. q.1) requests
  times-event_of [] = refl
  times-event_of ((parts, now) ∷ requests) = ap (◌∷◌ now) (times-event_of requests)

  -- Of requests in the order of their times, the middleware hands on, as those of an address, the ones
  -- that a limiter of that address alone would let pass, whatever the others send. The address of a
  -- request is the one that `get_client_ip_with_addr` finds. So in every stretch of time of the window's
  -- length at most as many requests of one address are handed on as the limit says.
  pub requests_limited :
      (requests : List (RequestParts × ℕ)) (t : ℕ)
      → Ascending (map (λ q. q.1) requests)
      → (handled_of [] requests
          ≡ accepted
              (new_limiter config.window_secs config.max_requests)
              (times_of ip (map (event_of parse_ip trust_proxy) requests)))
        × (count (is_within config.window_secs t) (handled_of [] requests) ≤ config.max_requests)
  requests_limited requests t sorted =
      let events = map (event_of parse_ip trust_proxy) requests in
      let in_order = subst Ascending (sym (times-event_of requests)) sorted in
      let alone = handled_of-passes_of [] requests ∙ passes_of-accepted config ip events in_order in
      (
        alone,
        subst (λ ps. count (is_within config.window_secs t) ps ≤ config.max_requests) (sym alone)
            (rate_limited config.window_secs config.max_requests (times_of ip events) t
              (Ascending-times_of ip events in_order)),
      )
