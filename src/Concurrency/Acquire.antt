-- ===== src/Concurrency/Acquire.antt =====
-- `acquire` and `try_acquire_nowait` of the concurrency controller.
use ops_service.Prelude.{Bool, true, false, Option, none, some, if◌then◌else◌}
use ops_service.Prelude.Bytes.{Bytes}
use ops_service.Concurrency.{
  ConcurrencyConfig, Scope, global, group, environment, ConcurrencyError, rejected,
  ConcurrencyController, ConcurrencyPermit, try_acquire_owned, release,
}

-- A scope that a request may leave out.
abbrev pub optional : (Bytes → Scope) → Option Bytes → Option Scope
optional scope none = none
optional scope (some key) = some (scope key)

abbrev pub try_optional :
    ConcurrencyConfig → Option Scope → ConcurrencyController → ConcurrencyController × Bool
try_optional config none c = (c, true)
try_optional config (some scope) c = try_acquire_owned config scope c

abbrev pub release_optional :
    ConcurrencyConfig → Option Scope → ConcurrencyController → ConcurrencyController
release_optional config none c = c
release_optional config (some scope) c = release config scope c

-- The drop of a permit, and of what is held of one when an acquisition returns early.
unfoldable pub drop_permit :
    ConcurrencyConfig → ConcurrencyPermit → ConcurrencyController → ConcurrencyController
drop_permit config permit c = release_optional config (optional environment permit.env_permit) (
    release_optional config (optional group permit.group_permit)
      (release_optional config (if permit.global_permit then some global else none) c))

pub data Acquired : Type 0 where
  granted : ConcurrencyPermit → Acquired
  refused : ConcurrencyError → Acquired

abbrev pub no_permit : ConcurrencyPermit
no_permit = record { global_permit = false; group_permit = none; env_permit = none }

abbrev pub after_global : ConcurrencyPermit
after_global = record no_permit { global_permit = true }

abbrev pub after_group : Option Bytes → ConcurrencyPermit
after_group group_id = record after_global { group_permit = group_id }

abbrev pub full_permit : Option Bytes → Option Bytes → ConcurrencyPermit
full_permit group_id name = record (after_group group_id) { env_permit = name }

-- The third part of `try_acquire_nowait`. An early return drops the permits held so far.
unfoldable pub nowait_environment :
    ConcurrencyConfig
    → Option Bytes
    → Option Bytes
    → ConcurrencyController
    → ConcurrencyController × Acquired
unfolding drop_permit try_acquire_owned
nowait_environment config group_id none c = (c, granted (full_permit group_id none))
nowait_environment config group_id (some name) c =
    let (d, got) = try_acquire_owned config (environment name) c in
    if got
    then (d, granted (full_permit group_id (some name)))
    else (drop_permit config (after_group group_id) d, refused (rejected (environment name)))

-- The second part.
unfoldable pub nowait_group :
    ConcurrencyConfig
    → Option Bytes
    → Option Bytes
    → ConcurrencyController
    → ConcurrencyController × Acquired
unfolding nowait_environment
nowait_group config none name c = nowait_environment config none name c
nowait_group config (some group_id) name c =
    let (d, got) = try_acquire_owned config (group group_id) c in
    if got
    then nowait_environment config (some group_id) name d
    else (drop_permit config after_global d, refused (rejected (group group_id)))

unfoldable pub try_acquire_nowait :
    ConcurrencyConfig
    → Option Bytes
    → Option Bytes
    → ConcurrencyController
    → ConcurrencyController × Acquired
unfolding nowait_group
try_acquire_nowait config group_id name c =
    let (d, got) = try_acquire_owned config global c in
    if got then nowait_group config group_id name d else (d, refused (rejected global))
