-- ===== src/Concurrency/System.antt =====
-- Many requests at one concurrency controller, interleaved in any order: `acquire`, the waits of
-- `acquire_with_timeout` one by one, and the drop of what was granted.
use ops_service.Prelude.{◌≡◌, Bool, Option, none, some, List, [], ◌∷◌, ◌++◌, if◌then◌else◌}
use ops_service.Prelude.Bytes.{Bytes}
use ops_service.Concurrency.{
  reject, wait, queue, ConcurrencyConfig, global, group, environment, ConcurrencyController,
  ConcurrencyPermit, new_controller, try_acquire_owned,
}
use ops_service.Concurrency.Acquire.{
  optional, try_optional, drop_permit, Acquired, granted, refused, no_permit, after_global,
  after_group, full_permit, try_acquire_nowait,
}

-- Where a request stands: at its wait for the global permit, for the group's, for the environment's,
-- with its permit, or at the end.
pub data Request : Type 0 where
  at_global : (group_id name : Option Bytes) → Request
  at_group : (group_id name : Option Bytes) → Request
  at_environment : (group_id name : Option Bytes) → Request
  holding : ConcurrencyPermit → Request
  ended : Request

-- What a request holds.
abbrev pub permit_of : Request → ConcurrencyPermit
permit_of (at_global group_id name) = no_permit
permit_of (at_group group_id name) = after_global
permit_of (at_environment group_id name) = after_group group_id
permit_of (holding permit) = permit
permit_of ended = no_permit

abbrev pub answered : Acquired → Request
answered (granted permit) = holding permit
answered (refused e) = ended

-- `acquire`: with the strategy `Queue` it waits as well.
unfoldable pub acquire :
    ConcurrencyConfig
    → Option Bytes
    → Option Bytes
    → ConcurrencyController
    → ConcurrencyController × Request
unfolding try_acquire_nowait
acquire config group_id name c = elim config.strategy [
  | reject ↦ let (d, answer) = try_acquire_nowait config group_id name c in (d, answered answer)
  | wait ↦ (c, at_global group_id name)
  | queue ↦ (c, at_global group_id name)
]

-- A wait ends with a permit.
abbrev pub passed :
    ConcurrencyController × Bool → Request → Option (ConcurrencyController × Request)
passed (c, got) next = if got then some (c, next) else none

-- `acquire_owned` of the semaphore at which a request waits: `none` while no permit is free.
unfoldable pub proceed :
    ConcurrencyConfig → ConcurrencyController → Request → Option (ConcurrencyController × Request)
unfolding try_acquire_owned
proceed config c (at_global group_id name) =
    passed (try_acquire_owned config global c) (at_group group_id name)
proceed config c (at_group group_id name) =
    passed (try_optional config (optional group group_id) c) (at_environment group_id name)
proceed config c (at_environment group_id name) =
    passed (try_optional config (optional environment name) c) (holding (full_permit group_id name))
proceed config c (holding permit) = none
proceed config c ended = none

-- The end of a wait by its timeout, and of the use of a permit: what is held is dropped.
unfoldable pub leave : ConcurrencyConfig → ConcurrencyController → Request → ConcurrencyController
unfolding drop_permit
leave config c x = drop_permit config (permit_of x) c

pub record System : Type 0 where
  pub controller : ConcurrencyController
  pub requests : List Request

pub data Step (config : ConcurrencyConfig) (s : System) : System → Type 0 where
  arrives :
      (group_id name : Option Bytes)
      → Step config s (record {
        controller = (acquire config group_id name s.controller).0;
        requests = (acquire config group_id name s.controller).1 ∷ s.requests;
      })
  proceeds :
      (before after : List Request) (x y : Request) (c : ConcurrencyController)
      → s.requests ≡ before ++ x ∷ after
      → proceed config s.controller x ≡ some (c, y)
      → Step config s (record { controller = c; requests = before ++ y ∷ after })
  leaves :
      (before after : List Request) (x : Request)
      → s.requests ≡ before ++ x ∷ after
      → Step config s
          (record { controller = leave config s.controller x; requests = before ++ ended ∷ after })

pub data Reach (config : ConcurrencyConfig) : System → Type 0 where
  start : Reach config (record { controller = new_controller config; requests = [] })
  later : {s t : System} → Reach config s → Step config s t → Reach config t
