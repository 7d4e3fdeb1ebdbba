-- ===== src/Scheduler/Registry.antt =====
-- The handlers of src/ops-service/src/handlers/runner.rs that change the table `runners`: registration and
-- heartbeat, which a runner sends, and the change of a status and the removal, which a user asks for. The
-- answer of `require_permission` (Permission) is an argument. Responses, audit entries, whose errors are
-- dropped, and the columns that no part here reads are left out.
use ops_service.Prelude.{
  ℕ, Uuid, DateTime, ◌^◌, ◌%◌, Bool, not, ◌&&◌, ◌||◌, Option, none, some, List, [], ◌∷◌, ◌++◌,
  if◌then◌else◌, ◌==◌, find, is_some, get_or, update_where, retain,
}
use ops_service.Prelude.Int.{ℤ, pos, as_i32}
use ops_service.Prelude.Bytes.{Bytes, codes, bytes_eq}
use ops_service.Error.{
  R, Act, ◌>>=◌, ◌>>◌, pure, or_fail, fetch, execute, database, not_found, validation,
}
use ops_service.Scheduler.{RunnerStatus, active, maintenance, disabled, Runner}

pub record RunnerRegistrationRequest : Type 0 where
  pub name : Bytes
  pub capabilities : List Bytes
  pub max_concurrent_jobs : ℕ

-- The status is the text of the message.
pub record RunnerHeartbeatRequest : Type 0 where
  pub name : Bytes
  pub status : Bytes
  pub current_jobs : ℕ

-- The database's answers to the first and to the second statement, its clock, and a new id.
pub record Answers : Type 0 where
  pub reads : Bool
  pub writes : Bool
  pub now : DateTime
  pub new_id : Uuid

-- `as i32` of a `usize`.
abbrev pub usize_as_i32 : ℕ → ℤ
usize_as_i32 n = as_i32 (n % 2 ^ 32)

-- The CHECK of `runners.status` in migrations/000004_job_system.sql.
unfoldable pub runner_status_of_label : Bytes → Option RunnerStatus
runner_status_of_label label =
    if bytes_eq label (codes "active")
    then some active
    else if bytes_eq label (codes "maintenance")
    then some maintenance
    else if bytes_eq label (codes "disabled")
    then some disabled
    else none

-- `deserialize_status`
unfoldable pub deserialize_status : Bytes → Bytes
deserialize_status s =
    if bytes_eq s (codes "online") || bytes_eq s (codes "active")
    then codes "active"
    else if bytes_eq s (codes "maintenance")
    then codes "maintenance"
    else if bytes_eq s (codes "offline")
    then codes "offline"
    else s

-- The status that a heartbeat writes.
unfoldable pub heartbeat_status : Bytes → Bytes
heartbeat_status s =
    if bytes_eq s (codes "online") || bytes_eq s (codes "active")
    then codes "active"
    else if bytes_eq s (codes "maintenance")
    then codes "maintenance"
    else if bytes_eq s (codes "offline")
    then codes "offline"
    else codes "active"

abbrev pub has_name : Bytes → Runner → Bool
has_name name r = bytes_eq r.name name

abbrev pub is_runner : Uuid → Runner → Bool
is_runner id r = r.id == id

module _ (answers : Answers) where
  abbrev pub registered : RunnerRegistrationRequest → Runner → Runner
  registered request r = record r {
    capabilities = some request.capabilities;
    max_concurrent_jobs = usize_as_i32 request.max_concurrent_jobs;
    status = active;
    last_heartbeat = some answers.now;
  }

  abbrev pub new_runner : RunnerRegistrationRequest → Runner
  new_runner request = record {
    id = answers.new_id;
    name = request.name;
    capabilities = some request.capabilities;
    max_concurrent_jobs = usize_as_i32 request.max_concurrent_jobs;
    current_jobs = pos 0;
    status = active;
    last_heartbeat = some answers.now;
  }

  -- `if let Some(row) = existing`
  abbrev pub store_runner : RunnerRegistrationRequest → Option Runner → Act (List Runner) Uuid
  store_runner request (some row) = do
    execute answers.writes (database "Failed to update runner")
        (update_where (is_runner row.id) (registered request))
    pure row.id
  store_runner request none = do
    execute answers.writes (database "Failed to register runner")
        (λ runners. runners ++ new_runner request ∷ [])
    pure answers.new_id

  unfoldable pub register_runner : RunnerRegistrationRequest → Act (List Runner) Uuid
  register_runner request = do
    existing ←
        fetch answers.reads (database "Failed to check runner") (find (has_name request.name))
    store_runner request existing

  abbrev pub beaten : RunnerStatus → ℕ → Runner → Runner
  beaten status current_jobs r = record r {
    status = status;
    current_jobs = usize_as_i32 current_jobs;
    last_heartbeat = some answers.now;
  }

  -- The UPDATE, which fails for a text that the CHECK refuses.
  abbrev pub write_beat : Option RunnerStatus → ℕ → Uuid → Act (List Runner) (Unit {0})
  write_beat status current_jobs id =
      execute (answers.writes && is_some status) (database "Failed to update heartbeat")
        (update_where (is_runner id) (beaten (get_or status active) current_jobs))

  unfoldable pub runner_heartbeat : RunnerHeartbeatRequest → Act (List Runner) (Unit {0})
  unfolding deserialize_status heartbeat_status runner_status_of_label
  runner_heartbeat request = do
    found ← fetch answers.reads (database "Failed to get runner") (find (has_name request.name))
    runner ← or_fail found (not_found "Runner not found")
    write_beat (runner_status_of_label (heartbeat_status (deserialize_status request.status)))
        request.current_jobs runner.id

  abbrev pub with_status : RunnerStatus → Runner → Runner
  with_status status r = record r { status = status }

  abbrev pub permitted : R (Unit {0}) → Act (List Runner) (Unit {0})
  permitted answer runners = (runners, answer)

  -- `answer` is that of `require_permission`.
  unfoldable pub update_runner_status : R (Unit {0}) → Uuid → Bytes → Act (List Runner) (Unit {0})
  unfolding runner_status_of_label
  update_runner_status answer id text = do
    permitted answer
    status ←
        or_fail (runner_status_of_label text)
          (validation "Invalid status. Must be: active, maintenance, disabled")
    found ← fetch answers.reads (database "Failed to check runner") (find (is_runner id))
    runner ← or_fail found (not_found "Runner not found")
    execute answers.writes (database "Failed to update runner status")
        (update_where (is_runner id) (with_status status))

  unfoldable pub delete_runner : R (Unit {0}) → Uuid → Act (List Runner) (Unit {0})
  delete_runner answer id = do
    permitted answer
    found ← fetch answers.reads (database "Failed to check runner") (find (is_runner id))
    runner ← or_fail found (not_found "Runner not found")
    execute answers.writes (database "Failed to delete runner") (retain (λ r. not (is_runner id r)))
