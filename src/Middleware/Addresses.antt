-- ===== src/Middleware/Addresses.antt =====
-- The limit of requests of src/ops-service/src/middleware/mod.rs for one address among others.
use ops_service.Prelude.{
  ℕ, ◌≡◌, refl, ap, ◌∙◌, subst, inl, inr, true, false, List, [], ◌∷◌, if◌then◌else◌, ◌==◌, arith,
  Bool-cases, All, map,
}
use ops_service.Concurrency.Rate.{accepted, new_limiter, Ascending}
use ops_service.Middleware.{
  IpAddr, IpLimiterState, RateLimitConfig, check_state, Limiters, new_state, check_entry,
  check_rate_limit,
}
use ops_service.Middleware.Limits.{pass_if, passed, passed-accepted}

-- The requests of an address that pass, of requests of many addresses, one after the other.
unfoldable pub passes_of : RateLimitConfig → IpAddr → Limiters → List (IpAddr × ℕ) → List ℕ
passes_of config ip limiters [] = []
passes_of config ip limiters ((k, now) ∷ events) =
    let (next, allowed) = check_rate_limit config k now limiters in
    let rest = passes_of config ip next events in if k == ip then pass_if now allowed rest else rest

-- When the requests of an address came.
unfoldable pub times_of : IpAddr → List (IpAddr × ℕ) → List ℕ
times_of ip [] = []
times_of ip ((k, now) ∷ events) =
    let rest = times_of ip events in if k == ip then now ∷ rest else rest

module _ (max window : ℕ) (ip : IpAddr) where
  unfoldable state_of : Limiters → IpLimiterState
  state_of [] = new_state max window
  state_of ((k, state) ∷ more) = let rest = state_of more in if k == ip then state else rest

  same : (k : IpAddr) → (k == k) ≡ true
  same k = ground arith

  differ : (k other : IpAddr) → (k == other) ≡ true → (other == ip) ≡ false → (k == ip) ≡ false
  differ k other h g = ground arith

  check_entry-state_of :
      (now : ℕ) (limiters : Limiters)
      → (state_of (check_entry max window ip now limiters).0
          ≡ (check_state (state_of limiters) now).0)
        × ((check_entry max window ip now limiters).1 ≡ (check_state (state_of limiters) now).1)
  unfolding state_of check_entry
  check_entry-state_of now [] = (rw (same ip) refl, refl)
  check_entry-state_of now ((k, state) ∷ more) = elim (Bool-cases (k == ip)) [
    | inl here ↦ rw here (rw here refl, refl)
    | inr there ↦ let (a, b) = check_entry-state_of now more in rw there (rw there a, b)
  ]

  check_entry-other :
      (other : IpAddr) (now : ℕ) (limiters : Limiters)
      → (other == ip) ≡ false
      → state_of (check_entry max window other now limiters).0 ≡ state_of limiters
  unfolding state_of check_entry
  check_entry-other other now [] h = rw h refl
  check_entry-other other now ((k, state) ∷ more) h = elim (Bool-cases (k == other)) [
    | inl here ↦ rw here (rw (differ k other here h) refl)
    | inr there ↦
        rw there (ap (λ s. if k == ip then state else s) (check_entry-other other now more h))
  ]

module _ (config : RateLimitConfig) (ip : IpAddr) where
  entry_of_own :
      (k : IpAddr) (now : ℕ) (limiters : Limiters)
      → (k == ip) ≡ true
      → let max = config.max_requests in
        let window = config.window_secs in
        let state = state_of max window ip limiters in
        (state_of max window ip (check_entry max window k now limiters).0
          ≡ (check_state state now).0)
        × ((check_entry max window k now limiters).1 ≡ (check_state state now).1)
  entry_of_own k now limiters here =
      let max = config.max_requests in
      let window = config.window_secs in
      let state = state_of max window ip limiters in
      subst
        (λ j.
          (state_of max window ip (check_entry max window j now limiters).0
            ≡ (check_state state now).0)
          × ((check_entry max window j now limiters).1 ≡ (check_state state now).1))
        (ground (arith, here)) (check_entry-state_of max window ip now limiters)

  -- Requests of other addresses do not count.
  passes_of-passed :
      (limiters : Limiters) (events : List (IpAddr × ℕ))
      → passes_of config ip limiters events
        ≡ passed (state_of config.max_requests config.window_secs ip limiters) (times_of ip events)
  unfolding passes_of times_of passed check_rate_limit
  passes_of-passed limiters [] = refl
  passes_of-passed limiters ((k, now) ∷ events) =
      let max = config.max_requests in
      let window = config.window_secs in
      let next = (check_entry max window k now limiters).0 in
      let rest = passes_of-passed next events in
      elim (Bool-cases (k == ip)) [
        | inl here ↦
            let state = state_of max window ip limiters in
            let times = times_of ip events in
            let (a, b) = entry_of_own k now limiters here in
            rw here (
              ap (pass_if now (check_entry max window k now limiters).1)
                (rest ∙ ap (λ s. passed s times) a)
              ∙ ap (λ c. pass_if now c (passed (check_state state now).0 times)) b)
        | inr there ↦ rw there (
            rest
            ∙ ap (λ s. passed s (times_of ip events))
                (check_entry-other max window ip k now limiters there))
      ]

All-times_of :
    (P : ℕ → Type 0) (ip : IpAddr) (events : List (IpAddr × ℕ))
    → All P (map (λ e. e.1) events)
    → All P (times_of ip events)
unfolding times_of
All-times_of P ip [] h = tt
All-times_of P ip ((k, now) ∷ events) h = elim (Bool-cases (k == ip)) [
  | inl here ↦ rw here (h.0, All-times_of P ip events h.1)
  | inr there ↦ rw there (All-times_of P ip events h.1)
]

pub Ascending-times_of :
    (ip : IpAddr) (events : List (IpAddr × ℕ))
    → Ascending (map (λ e. e.1) events)
    → Ascending (times_of ip events)
unfolding times_of
Ascending-times_of ip [] h = tt
Ascending-times_of ip ((k, now) ∷ events) h = elim (Bool-cases (k == ip)) [
  | inl here ↦ rw here (All-times_of _ ip events h.0, Ascending-times_of ip events h.1)
  | inr there ↦ rw there (Ascending-times_of ip events h.1)
]

-- What the others send changes nothing: an address has a limiter of its own.
pub passes_of-accepted :
    (config : RateLimitConfig) (ip : IpAddr) (events : List (IpAddr × ℕ))
    → Ascending (map (λ e. e.1) events)
    → passes_of config ip [] events
      ≡ accepted (new_limiter config.window_secs config.max_requests) (times_of ip events)
unfolding state_of
passes_of-accepted config ip events sorted =
    passes_of-passed config ip [] events
    ∙ passed-accepted config.window_secs config.max_requests [] (times_of ip events)
        (Ascending-times_of ip events sorted)
