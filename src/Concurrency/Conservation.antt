-- ===== src/Concurrency/Conservation.antt =====
-- Each operation of the concurrency controller keeps the free and the held permits of a scope
-- together the same, and so does every run.
use ops_service.Prelude.{
  ℕ, ◌+◌, ◌≡◌, ◌∙◌, ap, Option, none, some, List, [], ◌∷◌, ◌++◌, if◌then◌else◌, arith,
}
use ops_service.Prelude.Bytes.{Bytes}
use ops_service.Concurrency.{
  ConcurrencyConfig, Scope, global, group, environment, ConcurrencyController, ConcurrencyPermit,
  try_acquire_owned,
}
use ops_service.Concurrency.Acquire.{
  optional, try_optional, release_optional, drop_permit, after_global, after_group,
  nowait_environment, nowait_group, try_acquire_nowait,
}
use ops_service.Concurrency.System.{
  Request, at_global, at_group, at_environment, holding, ended, permit_of, answered, acquire,
  proceed, leave, System, Step, arrives, proceeds, leaves, Reach, start, later,
}
use ops_service.Concurrency.Balance.{
  free, capacity, is_scope, one_if, try_acquire_owned_lem, release_lem,
}

abbrev pub held_optional : Scope → Option Scope → ℕ
held_optional j none = 0
held_optional j (some k) = one_if (is_scope j k)

-- How many permits of a scope a permit holds.
abbrev pub held : Scope → ConcurrencyPermit → ℕ
held j permit =
    held_optional j (if permit.global_permit then some global else none)
    + held_optional j (optional group permit.group_permit)
    + held_optional j (optional environment permit.env_permit)

-- How many the requests of a list hold.
abbrev pub held_by : Scope → List Request → ℕ
held_by j [] = 0
held_by j (x ∷ xs) = held j (permit_of x) + held_by j xs

held_by-append :
    (j : Scope) (xs ys : List Request) → held_by j (xs ++ ys) ≡ held_by j xs + held_by j ys
held_by-append j [] ys = omega arith
held_by-append j (x ∷ xs) ys = omega (arith, held_by-append j xs ys)

module _ (config : ConcurrencyConfig) (j : Scope) where
  release_optional_lem :
      (scope : Option Scope) (c : ConcurrencyController)
      → free config j (release_optional config scope c) ≡ free config j c + held_optional j scope
  release_optional_lem none c = omega arith
  release_optional_lem (some k) c = release_lem config j k c

  pub drop_permit_lem :
      (permit : ConcurrencyPermit) (c : ConcurrencyController)
      → free config j (drop_permit config permit c) ≡ free config j c + held j permit
  unfolding drop_permit
  drop_permit_lem permit c =
      let one = if permit.global_permit then some global else none in
      let d = release_optional config one c in
      let two = optional group permit.group_permit in
      let e = release_optional config two d in
      omega (
        arith,
        release_optional_lem one c,
        release_optional_lem two d,
        release_optional_lem (optional environment permit.env_permit) e,
      )

  try_optional_lem :
      (scope : Option Scope) (c : ConcurrencyController)
      → let (d, got) = try_optional config scope c in
        (free config j d + (if got then held_optional j scope else 0) ≡ free config j c)
  try_optional_lem none c = omega arith
  try_optional_lem (some k) c =
      let (e, got) = try_acquire_owned_lem config j k c in ground (arith, e)

  -- The part of a permit that a request takes from here on is missing from the free ones.
  nowait_environment_lem :
      (group_id name : Option Bytes) (c : ConcurrencyController)
      → let (d, answer) = nowait_environment config group_id name c in
        free config j d + held j (permit_of (answered answer))
        ≡ free config j c + held j (after_group group_id)
  unfolding nowait_environment
  nowait_environment_lem group_id none c = omega arith
  nowait_environment_lem group_id (some name) c =
      let (d, got) = try_acquire_owned config (environment name) c in
      let (e, f) = try_acquire_owned_lem config j (environment name) c in
      ground (arith, e, drop_permit_lem (after_group group_id) d)

  nowait_group_lem :
      (group_id name : Option Bytes) (c : ConcurrencyController)
      → let (d, answer) = nowait_group config group_id name c in
        free config j d + held j (permit_of (answered answer))
        ≡ free config j c + held j after_global
  unfolding nowait_group
  nowait_group_lem none name c = nowait_environment_lem none name c
  nowait_group_lem (some group_id) name c =
      let (d, got) = try_acquire_owned config (group group_id) c in
      let (e, f) = try_acquire_owned_lem config j (group group_id) c in
      ground
        (arith, e, nowait_environment_lem (some group_id) name d, drop_permit_lem after_global d)

  pub try_acquire_nowait_lem :
      (group_id name : Option Bytes) (c : ConcurrencyController)
      → let (d, answer) = try_acquire_nowait config group_id name c in
        free config j d + held j (permit_of (answered answer)) ≡ free config j c
  unfolding try_acquire_nowait
  try_acquire_nowait_lem group_id name c =
      let (d, got) = try_acquire_owned config global c in
      let (e, f) = try_acquire_owned_lem config j global c in
      ground (arith, e, nowait_group_lem group_id name d)

  acquire_lem :
      (group_id name : Option Bytes) (c : ConcurrencyController)
      → let (d, x) = acquire config group_id name c in
        free config j d + held j (permit_of x) ≡ free config j c
  unfolding acquire
  acquire_lem group_id name c = ground (arith, try_acquire_nowait_lem group_id name c)

  proceed_lem :
      (c d : ConcurrencyController) (x y : Request)
      → proceed config c x ≡ some (d, y)
      → free config j d + held j (permit_of y) ≡ free config j c + held j (permit_of x)
  unfolding proceed
  proceed_lem c d (at_global group_id name) y h =
      let (e, f) = try_acquire_owned_lem config j global c in ground (arith, e, h)
  proceed_lem c d (at_group group_id name) y h =
      ground (arith, try_optional_lem (optional group group_id) c, h)
  proceed_lem c d (at_environment group_id name) y h =
      ground (arith, try_optional_lem (optional environment name) c, h)
  proceed_lem c d (holding permit) y h = cc
  proceed_lem c d ended y h = cc

  pub leave_lem :
      (c : ConcurrencyController) (x : Request)
      → free config j (leave config c x) ≡ free config j c + held j (permit_of x)
  unfolding leave
  leave_lem c x = drop_permit_lem (permit_of x) c

  -- The free and the held permits of a scope.
  abbrev pub total : System → ℕ
  total s = free config j s.controller + held_by j s.requests

  Step-total : {s t : System} → Step config s t → total t ≡ total s
  Step-total {s} (arrives group_id name) = ground (arith, acquire_lem group_id name s.controller)
  Step-total {s} (proceeds before after x y c here moved) = ground (
    arith,
    ap (held_by j) here,
    proceed_lem s.controller c x y moved,
    held_by-append j before (x ∷ after),
    held_by-append j before (y ∷ after),
  )
  Step-total {s} (leaves before after x here) = omega (
    arith,
    ap (held_by j) here,
    leave_lem s.controller x,
    held_by-append j before (x ∷ after),
    held_by-append j before (ended ∷ after),
  )

  -- In every state that a run reaches, the free permits of a scope and those that requests hold are
  -- together the permits that the scope has.
  pub Reach-total :
      {s : System}
      → Reach config s
      → free config j s.controller + held_by j s.requests ≡ capacity config j
  Reach-total start = omega arith
  Reach-total (later r step) = Step-total step ∙ Reach-total r
