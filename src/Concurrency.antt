-- ===== src/Concurrency.antt =====
-- `ConcurrencyController` of src/ops-service/src/concurrency/mod.rs: its limits, its semaphores and
-- the permits on them. A semaphore is the number of its permits that nobody holds; none is ever
-- closed. A map is a function of its keys, and the configuration is an argument beside the
-- semaphores, without the timeout, since a wait may end at any time, and the length of the queue,
-- which nothing reads. A permit is dropped with its last clone.
pub mod Acquire
pub mod System
pub mod Balance
pub mod Conservation
pub mod Progress
pub mod Decision
pub mod Rate
mod Examples
use ops_service.Prelude.{
  ℕ, ◌+◌, ◌-◌, max, Bool, true, false, Option, none, some, if◌then◌else◌, ltb, get_or,
}
use ops_service.Prelude.Int.{ℤ, pos, negsuc, pos_part, leb_ℤ}
use ops_service.Prelude.Bytes.{Bytes, codes, bytes_eq}

pub data ConcurrencyStrategy : Type 0 where
  reject wait queue : ConcurrencyStrategy

pub record ConcurrencyConfig : Type 0 where
  pub global_limit : ℤ
  pub group_limit : Option ℤ
  pub environment_limit : Option ℤ
  pub production_limit : Option ℤ
  pub strategy : ConcurrencyStrategy

-- What a permit is for.
pub data Scope : Type 0 where
  global : Scope
  group : Bytes → Scope
  environment : Bytes → Scope

-- An error names its scope; the texts of limits are left out.
pub data ConcurrencyError : Type 0 where
  acquire_timeout : Scope → ConcurrencyError
  closed : ConcurrencyError
  limit_exceeded : Scope → ConcurrencyError
  rejected : Scope → ConcurrencyError
  queue_full : (max_length : ℕ) → ConcurrencyError

unfoldable pub http_status_code : ConcurrencyError → ℕ
http_status_code (acquire_timeout scope) = 504
http_status_code closed = 503
http_status_code (limit_exceeded scope) = 429
http_status_code (rejected scope) = 429
http_status_code (queue_full max_length) = 503

-- `GroupSemaphore` and `EnvironmentSemaphore`.
pub record ScopeSemaphore : Type 0 where
  pub semaphore : ℕ
  pub limit : ℤ

pub record ConcurrencyController : Type 0 where
  pub global_semaphore : ℕ
  pub group_semaphores : Bytes → Option ScopeSemaphore
  pub environment_semaphores : Bytes → Option ScopeSemaphore

pub record ConcurrencyPermit : Type 0 where
  pub global_permit : Bool
  pub group_permit : Option Bytes
  pub env_permit : Option Bytes

-- A limit of 0 or less stands for none, which is 10000 permits.
abbrev pub global_permits : ConcurrencyConfig → ℕ
global_permits config =
    if leb_ℤ config.global_limit (pos 0) then 10000 else pos_part config.global_limit

-- `ConcurrencyController::new`.
abbrev pub new_controller : ConcurrencyConfig → ConcurrencyController
new_controller config = record {
  global_semaphore = global_permits config;
  group_semaphores = λ key. none;
  environment_semaphores = λ key. none;
}

abbrev pub group_limit_of : ConcurrencyConfig → ℤ
group_limit_of config = get_or config.group_limit config.global_limit

abbrev pub environment_limit_of : ConcurrencyConfig → Bytes → ℤ
environment_limit_of config name =
    if bytes_eq name (codes "production")
    then get_or config.production_limit (get_or config.environment_limit config.global_limit)
    else get_or config.environment_limit config.global_limit

-- `Semaphore::new(limit.max(1) as usize)`
abbrev pub new_semaphore : ℤ → ScopeSemaphore
new_semaphore limit = record { semaphore = max (pos_part limit) 1; limit = limit }

-- `HashMap::insert`
abbrev pub insert {ℓ} : {A : Type ℓ} → Bytes → A → (Bytes → Option A) → Bytes → Option A
insert key value table name = if bytes_eq name key then some value else table name

abbrev pub get_or_create_group_semaphore :
    ConcurrencyConfig → Bytes → ConcurrencyController → ConcurrencyController × ScopeSemaphore
get_or_create_group_semaphore config group_id c = elim (c.group_semaphores group_id) [
  | some sem ↦ (c, sem)
  | none ↦
      let sem = new_semaphore (group_limit_of config) in
      (record c { group_semaphores = insert group_id sem c.group_semaphores }, sem)
]

abbrev pub get_or_create_env_semaphore :
    ConcurrencyConfig → Bytes → ConcurrencyController → ConcurrencyController × ScopeSemaphore
get_or_create_env_semaphore config name c = elim (c.environment_semaphores name) [
  | some sem ↦ (c, sem)
  | none ↦
      let sem = new_semaphore (environment_limit_of config name) in
      (record c { environment_semaphores = insert name sem c.environment_semaphores }, sem)
]

-- The semaphore of a scope, and the controller once it is there.
abbrev pub semaphore_of :
    ConcurrencyConfig → Scope → ConcurrencyController → ConcurrencyController × ℕ
semaphore_of config global c = (c, c.global_semaphore)
semaphore_of config (group group_id) c =
    let (d, sem) = get_or_create_group_semaphore config group_id c in (d, sem.semaphore)
semaphore_of config (environment name) c =
    let (d, sem) = get_or_create_env_semaphore config name c in (d, sem.semaphore)

-- A semaphore with a new number of free permits.
abbrev pub put : ConcurrencyConfig → Scope → ℕ → ConcurrencyController → ConcurrencyController
put config global n c = record c { global_semaphore = n }
put config (group group_id) n c = record c {
  group_semaphores =
      insert group_id (record { semaphore = n; limit = group_limit_of config }) c.group_semaphores;
}
put config (environment name) n c = record c {
  environment_semaphores =
      insert name (record { semaphore = n; limit = environment_limit_of config name })
        c.environment_semaphores;
}

-- `try_acquire_owned` of a scope's semaphore.
unfoldable pub try_acquire_owned :
    ConcurrencyConfig → Scope → ConcurrencyController → ConcurrencyController × Bool
try_acquire_owned config scope c =
    let (d, free) = semaphore_of config scope c in
    if ltb 0 free then (put config scope (free - 1) d, true) else (d, false)

-- The drop of a permit.
unfoldable pub release : ConcurrencyConfig → Scope → ConcurrencyController → ConcurrencyController
release config scope c =
    let (d, free) = semaphore_of config scope c in put config scope (free + 1) d
