-- ===== src/Middleware/Examples.antt =====
-- Runs of the limit of requests and of the address of a client at concrete inputs.
use ops_service.Prelude.{
  map, ℕ, ◌≤◌, ◌≡◌, refl, true, false, none, some, Option, List, [], ◌∷◌, count, arith,
  if◌then◌else◌,
}
use ops_service.Prelude.Bytes.{Bytes, codes, bytes_eq}
use ops_service.Concurrency.Rate.{is_within, accepted, new_limiter}
use ops_service.Middleware.{
  IpAddr, rate_limit_middleware, RequestParts, RateLimitConfig, from_security_config,
  get_client_ip_with_addr,
}
use ops_service.Middleware.Addresses.{times_of}
use ops_service.Middleware.Requests.{handled_of, event_of, requests_limited}

abbrev two_in_ten : RateLimitConfig
two_in_ten = record {
  max_requests = 2;
  window_secs = 10;
  login_max_requests = 1;
  login_window_secs = 10;
}

-- A parser that knows one address.
abbrev parse_ip : Bytes → Option ℕ
parse_ip text = if bytes_eq text (codes "10.0.0.9") then some 9 else none

abbrev request_from : IpAddr → Bytes → RequestParts
request_from peer header = record {
  x_forwarded_for = some (header);
  x_real_ip = none;
  cf_connecting_ip = none;
  x_original_forwarded_for = none;
  connect_info = some peer;
  extension = none;
}

abbrev parts : RequestParts
parts = request_from 5 (codes " 10.0.0.9 , 10.0.0.1")

-- A client behind two peers names an address in the header, and another one does not.
abbrev turns : List (RequestParts × ℕ)
turns =
    (parts, 100)
    ∷ (request_from 2 (codes "-"), 101)
    ∷ (request_from 6 (codes "10.0.0.9"), 102)
    ∷ (parts, 103)
    ∷ (parts, 111)
    ∷ []

third_is_refused : handled_of parse_ip two_in_ten true 9 [] turns ≡ 100 ∷ 102 ∷ 111 ∷ []
unfolding handled_of rate_limit_middleware
third_is_refused = refl

requests_limited_example :
    (handled_of parse_ip two_in_ten true 9 [] turns
      ≡ accepted (new_limiter 10 2) (times_of 9 (map (event_of parse_ip true) turns)))
    × (count (is_within 10 105) (handled_of parse_ip two_in_ten true 9 [] turns) ≤ 2)
requests_limited_example = requests_limited parse_ip two_in_ten true 9 turns 105 (
  (omega arith, (omega arith, (omega arith, (omega arith, tt)))),
  (
    (omega arith, (omega arith, (omega arith, tt))),
    ((omega arith, (omega arith, tt)), ((omega arith, tt), (tt, tt))),
  ),
)

-- The header of the client decides behind a proxy, and is not read otherwise.
header_decides : get_client_ip_with_addr parse_ip parts true ≡ 9
unfolding get_client_ip_with_addr
header_decides = refl

peer_decides : get_client_ip_with_addr parse_ip parts false ≡ 5
unfolding get_client_ip_with_addr
peer_decides = refl

-- A product over 2 ^ 32 is cut.
limit_is_cut : (from_security_config 71_582_789).max_requests ≡ 44
unfolding from_security_config
limit_is_cut = refl
