-- ===== src/Builds/Dispatch.antt =====
-- `create_build_job` and `dispatch_build_task` of src/ops-service/src/handlers/build.rs, the publication
-- of a task in src/ops-service/src/rabbitmq.rs, and the keys that src/ops-runner/src/worker.rs binds the
-- queue of a runner to. The answer of `require_permission` (Permission) is an argument; the audit entry
-- and the columns that no part here reads are left out.
use ops_service.Prelude.{
  Uuid, Bool, true, false, ◌&&◌, none, List, [], ◌∷◌, ◌++◌, if◌then◌else◌, any, is_empty,
}
use ops_service.Prelude.Bytes.{Bytes, codes, bytes_eq}
use ops_service.Error.{
  AppError, R, ok, err, panicked, Act, ◌>>=◌, ◌>>◌, pure, refuse_if, execute, database, internal,
  validation,
}
use ops_service.Job.{JobStatus}
use ops_service.Scheduler.{Runner, ScheduleResult, Env, schedule_build, increment_current_jobs}
use ops_service.Builds.{BuildJob, Tables}

-- A parent row of `jobs`, for a build.
pub record ParentJob : Type 0 where
  pub id : Uuid
  pub status : JobStatus

-- A message of the exchange for builds: its key and the build that it is for.
pub record Published : Type 0 where
  pub routing_key : Bytes
  pub job_id : Uuid

pub record Store : Type 0 where
  pub parents : List ParentJob
  pub tables : Tables
  pub published : List Published

pub record CreateBuildJobRequest : Type 0 where
  pub build_type : Bytes
  pub step_names : List Bytes

-- The answers of the database and the broker, and the new ids.
pub record Answers : Type 0 where
  pub insert_parent : Bool
  pub insert_build : Bool
  pub increment : Bool
  pub publisher : Bool
  pub publishes : Bool
  pub parent_id : Uuid
  pub job_id : Uuid

unfoldable pub one_of : List Bytes → Bytes → Bool
one_of labels label = any (λ l. bytes_eq l label) labels

-- The labels of the types `build_type` and `runner_capability` in migrations/000004_job_system.sql; a
-- cast of another text fails.
abbrev pub build_types : List Bytes
build_types = codes "node" ∷ codes "java" ∷ codes "rust" ∷ codes "frontend" ∷ codes "other" ∷ []

abbrev pub runner_capabilities : List Bytes
runner_capabilities =
    codes "node"
    ∷ codes "java"
    ∷ codes "rust"
    ∷ codes "frontend"
    ∷ codes "docker"
    ∷ codes "general"
    ∷ []

-- An operation of the scheduler, over the rows of runners.
abbrev pub with_runners : {A : Type 0} → Store → List Runner × R A → Store × R A
with_runners s (runners, r) = (record s { tables = record s.tables { runners = runners } }, r)

abbrev pub on_runners : {A : Type 0} → Act (List Runner) A → Act Store A
on_runners act s = with_runners s (act s.tables.runners)

-- The routing key of `publish_build_task` for one runner.
abbrev pub published_key : Bytes → Bytes → Bytes
published_key build_type runner_name = codes "build." ++ (build_type ++ (codes "." ++ runner_name))

-- `publish_build_task` to one runner. A message that is not acknowledged is only logged.
unfoldable pub publish_build_task : Bool → Bytes → Bytes → Uuid → Act Store (Unit {0})
publish_build_task answered build_type runner_name job_id =
    execute answered (internal "Failed to publish build task") λ s. record s {
      published =
          s.published
          ++ record { routing_key = published_key build_type runner_name; job_id = job_id } ∷ [];
    }

-- `map_err`
abbrev pub or_instead : {A : Type 0} → AppError → Store × R A → Store × R A
or_instead e (s, ok a) = (s, ok a)
or_instead e (s, err _) = (s, err e)
or_instead e (s, panicked) = (s, panicked)

abbrev pub map_err : {A : Type 0} → AppError → Act Store A → Act Store A
map_err e m s = or_instead e (m s)

-- A result of which only the state counts.
abbrev pub only_state : {A : Type 0} → Act Store A → Act Store (Unit {0})
only_state m s = ((m s).0, ok tt)

module _ {F : Type 0} (env : Env F) (answers : Answers) where
  abbrev pub deliver_to : Bytes → ScheduleResult → Act Store (Unit {0})
  unfolding publish_build_task
  deliver_to build_type chosen = do
    refuse_if (if answers.publisher then false else true)
        (internal "Failed to get RabbitMQ publisher")
    publish_build_task answers.publishes build_type chosen.runner_name answers.job_id
    only_state (on_runners (increment_current_jobs answers.increment chosen.runner_id))

  unfoldable pub dispatch_build_task : Bytes → Act Store (Unit {0})
  unfolding publish_build_task
  dispatch_build_task build_type = do
    chosen ←
        map_err (internal "Failed to schedule build: ")
          (on_runners (schedule_build env build_type []))
    deliver_to build_type chosen

  -- `match state.rabbitmq_publisher.get()`, whose errors are only logged.
  abbrev pub try_dispatch : Bytes → Act Store (Unit {0})
  try_dispatch build_type =
      if answers.publisher then only_state (dispatch_build_task build_type) else pure tt

  abbrev pub new_parent : ParentJob
  new_parent = record { id = answers.parent_id; status = JobStatus.pending }

  abbrev pub new_build : BuildJob
  new_build = record {
    id = answers.job_id;
    status = JobStatus.pending;
    started_at = none;
    completed_at = none;
  }

  -- From the row of the build on.
  unfoldable pub store_build : Bool → Bytes → Act Store Uuid
  unfolding dispatch_build_task
  store_build answered build_type = do
    execute answered (database "Failed to create build job") λ s. record s {
      tables = record s.tables { build_jobs = s.tables.build_jobs ++ new_build ∷ [] };
    }
    try_dispatch build_type
    pure answers.job_id

  -- `create_build_job`, given the answer of `require_permission`: the id of the build.
  unfoldable pub create_build_job : R (Unit {0}) → CreateBuildJobRequest → Act Store Uuid
  unfolding store_build one_of
  create_build_job allowed request = do
    (λ s. (s, allowed))
    refuse_if (is_empty request.step_names) (validation "Build job must have at least one step")
    execute answers.insert_parent (database "Failed to create parent job")
        λ s. record s { parents = s.parents ++ new_parent ∷ [] }
    store_build
        (answers.insert_build
          && (one_of build_types request.build_type
              && one_of runner_capabilities request.build_type))
        request.build_type

-- The keys of src/ops-runner/src/config.rs: `routing_key` and `routing_key_for_runner`.
abbrev pub broadcast_key : Bytes → Bytes
broadcast_key capability = codes "build." ++ capability

abbrev pub direct_key : Bytes → Bytes → Bytes
direct_key name capability = codes "build." ++ (capability ++ (codes "." ++ name))

-- The keys that a runner's queue is bound to.
unfoldable pub binding_keys : Bytes → List Bytes → List Bytes
binding_keys name [] = []
binding_keys name (capability ∷ more) =
    broadcast_key capability ∷ direct_key name capability ∷ binding_keys name more

-- A message goes to the queues that are bound to its key: none of the keys has a wildcard.
abbrev pub reaches : Bytes → List Bytes → Bool
reaches key keys = any (λ k. bytes_eq k key) keys
