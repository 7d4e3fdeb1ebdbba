-- ===== src/Concurrency/Progress.antt =====
-- Requests that wait for one another: the permits are taken in one order, so no cycle of waits forms.
use ops_service.Prelude.{
  ℕ, ◌≤◌, ◌<◌, ◌≡◌, refl, true, none, some, List, [], ◌∷◌, ltb, arith, All, All-imp,
}
use ops_service.Prelude.Bytes.{Bytes}
use ops_service.Concurrency.{ConcurrencyConfig, Scope, global, group, environment}
use ops_service.Concurrency.System.{
  Request, at_global, at_group, at_environment, holding, ended, permit_of, proceed, System, Reach,
}
use ops_service.Concurrency.Balance.{free, capacity, try_acquire_owned_lem}
use ops_service.Concurrency.Conservation.{held, held_by, Reach-total}

-- How far a request has come.
abbrev pub stage : Request → ℕ
stage ended = 0
stage (at_global group_id name) = 1
stage (at_group group_id name) = 2
stage (at_environment group_id name) = 3
stage (holding permit) = 4

capacity_positive : (config : ConcurrencyConfig) (j : Scope) → 0 < capacity config j
capacity_positive config global = ground arith
capacity_positive config (group g) = ground arith
capacity_positive config (environment e) = ground arith

held_by_none :
    (j : Scope) (xs : List Request) → All (λ x. held j (permit_of x) ≡ 0) xs → held_by j xs ≡ 0
held_by_none j [] h = refl
held_by_none j (x ∷ xs) (p, h) = omega (arith, held_by_none j xs h)

-- A request that waits for the last permits.
environment-held : (e : Bytes) (x : Request) → stage x ≤ 3 → held (environment e) (permit_of x) ≡ 0
environment-held e ended h = refl
environment-held e (at_global group_id name) h = refl
environment-held e (at_group group_id name) h = refl
environment-held e (at_environment none name) h = refl
environment-held e (at_environment (some g) name) h = refl
environment-held e (holding permit) h = absurd (omega arith)

group-held : (g : Bytes) (x : Request) → stage x ≤ 2 → held (group g) (permit_of x) ≡ 0
group-held g ended h = refl
group-held g (at_global group_id name) h = refl
group-held g (at_group group_id name) h = refl
group-held g (at_environment group_id name) h = absurd (omega arith)
group-held g (holding permit) h = absurd (omega arith)

global-held : (x : Request) → stage x ≤ 1 → held global (permit_of x) ≡ 0
global-held ended h = refl
global-held (at_global group_id name) h = refl
global-held (at_group group_id name) h = absurd (omega arith)
global-held (at_environment group_id name) h = absurd (omega arith)
global-held (holding permit) h = absurd (omega arith)

module _ (config : ConcurrencyConfig) {s : System} (r : Reach config s) where
  -- A request that waits, while its semaphore has no permit for it.
  abbrev pub Stuck : ℕ → Request → Type 0
  Stuck n x = (stage x ≤ n) × (proceed config s.controller x ≡ none)

  free_where_none_held :
      (j : Scope)
      → All (λ x. held j (permit_of x) ≡ 0) s.requests
      → ltb 0 (free config j s.controller) ≡ true
  free_where_none_held j h =
      let total = Reach-total config j r in
      let nothing = held_by_none j s.requests h in
      let some_left = capacity_positive config j in ground (arith, total, nothing, some_left)

  past_environment :
      ((e : Bytes) → ltb 0 (free config (environment e) s.controller) ≡ true)
      → (x : Request) → Stuck 3 x
      → Stuck 2 x
  unfolding proceed
  past_environment available (at_environment group_id none) (h, blocked) = cc
  past_environment available (at_environment group_id (some e)) (h, blocked) =
      let (kept, got) = try_acquire_owned_lem config (environment e) (environment e) s.controller in
      absurd (ground (arith, got, available e))
  past_environment available ended (h, blocked) = (omega arith, blocked)
  past_environment available (at_global group_id name) (h, blocked) = (omega arith, blocked)
  past_environment available (at_group group_id name) (h, blocked) = (omega arith, blocked)
  past_environment available (holding permit) (h, blocked) = absurd (omega arith)

  past_group :
      ((g : Bytes) → ltb 0 (free config (group g) s.controller) ≡ true)
      → (x : Request) → Stuck 2 x
      → Stuck 1 x
  unfolding proceed
  past_group available (at_group none name) (h, blocked) = cc
  past_group available (at_group (some g) name) (h, blocked) =
      let (kept, got) = try_acquire_owned_lem config (group g) (group g) s.controller in
      absurd (ground (arith, got, available g))
  past_group available ended (h, blocked) = (omega arith, blocked)
  past_group available (at_global group_id name) (h, blocked) = (omega arith, blocked)
  past_group available (at_environment group_id name) (h, blocked) = absurd (omega arith)
  past_group available (holding permit) (h, blocked) = absurd (omega arith)

  past_global :
      ltb 0 (free config global s.controller) ≡ true → (x : Request) → Stuck 1 x → x ≡ ended
  unfolding proceed
  past_global available (at_global group_id name) (h, blocked) =
      let (kept, got) = try_acquire_owned_lem config global global s.controller in
      absurd (ground (arith, got))
  past_global available ended (h, blocked) = refl
  past_global available (at_group group_id name) (h, blocked) = absurd (omega arith)
  past_global available (at_environment group_id name) (h, blocked) = absurd (omega arith)
  past_global available (holding permit) (h, blocked) = absurd (omega arith)

  -- In every state that a run reaches, if no request holds its whole permit and none can go on, then
  -- all have ended: requests that wait never block one another for good.
  pub never_deadlocks : All (Stuck 3) s.requests → All (λ x. x ≡ ended) s.requests
  never_deadlocks stuck =
      let waiting =
        All-imp s.requests
          (past_environment (λ e.
            free_where_none_held (environment e)
              (All-imp s.requests (λ x h. environment-held e x h.0) stuck)))
          stuck in
      let entering =
        All-imp s.requests
          (past_group (λ g.
            free_where_none_held (group g)
              (All-imp s.requests (λ x h. group-held g x h.0) waiting)))
          waiting in
      All-imp s.requests
        (past_global
          (free_where_none_held global (All-imp s.requests (λ x h. global-held x h.0) entering)))
        entering
