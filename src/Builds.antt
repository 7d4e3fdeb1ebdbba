-- ===== src/Builds.antt =====
-- src/ops-service/src/handlers/build_webhook.rs: what the service does with the messages of a
-- runner, which come from the message queue (Builds/Queue) or by HTTP (Builds/Webhook). The name of
-- the runner is an argument beside a message; events for browsers are left out.
pub mod Queue
pub mod Webhook
pub mod Consumed
pub mod Ending
pub mod Lost
pub mod Dispatch
pub mod Routing
pub mod Creation
mod Dispatches
mod Examples
use ops_service.Prelude.{
  ℕ, Uuid, DateTime, Bool, true, false, ◌&&◌, Option, none, some, List, [], ◌∷◌, ◌++◌,
  if◌then◌else◌, ◌==◌, any, find, get_or, update_where,
}
use ops_service.Prelude.Int.{ℤ}
use ops_service.Prelude.Bytes.{Bytes, bytes_eq}
use ops_service.Error.{AppError, R, ok, Act, ◌>>=◌, ◌>>◌, then_run, pure, fetch, execute, internal}
use ops_service.Job.{JobStatus}
use ops_service.Runner.{
  BuildStatus, StepStatus, StepStatusUpdate, BuildArtifact, BuildStatusMessage, BuildLogMessage,
}
use ops_service.Scheduler.{Runner, decrement_current_jobs}

pub record BuildJob : Type 0 where
  pub id : Uuid
  pub status : JobStatus
  pub started_at : Option DateTime
  pub completed_at : Option DateTime

pub record BuildStepRow : Type 0 where
  pub job_id : Uuid
  pub step_id : Bytes
  pub status : StepStatus
  pub started_at : Option DateTime
  pub completed_at : Option DateTime
  pub exit_code : Option ℤ
  pub output_detail : Option Bytes
  pub log_offset : ℕ

pub record ArtifactRow : Type 0 where
  pub build_job_id : Uuid
  pub artifact : BuildArtifact

pub record Tables : Type 0 where
  pub build_jobs : List BuildJob
  pub build_steps : List BuildStepRow
  pub build_artifacts : List ArtifactRow
  pub runners : List Runner

-- The calls of the database.
pub data Call : Type 0 where
  select_job select_start update_job select_step write_step insert_artifact : Call
  select_runner decrement : Call

pub record Env : Type 0 where
  pub answered : Call → Bool
  pub now : DateTime

-- `status_str`
abbrev pub job_status : BuildStatus → JobStatus
job_status BuildStatus.received = JobStatus.pending
job_status BuildStatus.preparing = JobStatus.pending
job_status BuildStatus.running = JobStatus.running
job_status BuildStatus.succeeded = JobStatus.completed
job_status BuildStatus.failed = JobStatus.failed
job_status BuildStatus.timeout = JobStatus.failed
job_status BuildStatus.cancelled = JobStatus.cancelled

abbrev pub is_terminal : BuildStatus → Bool
is_terminal BuildStatus.received = false
is_terminal BuildStatus.preparing = false
is_terminal BuildStatus.running = false
is_terminal _ = true

-- `started_at` and `completed_at` of an update: a final status keeps the start of the row.
abbrev pub times_of :
    Env
    → BuildStatus
    → Act Tables (Option DateTime)
    → Act Tables (Option DateTime × Option DateTime)
times_of env BuildStatus.received start = pure (none, none)
times_of env BuildStatus.preparing start = pure (some env.now, none)
times_of env BuildStatus.running start = pure (some env.now, none)
times_of env _ start = do started ← start; pure (started, some env.now)

abbrev pub is_job : Uuid → BuildJob → Bool
is_job id j = j.id == id

-- `SELECT started_at`
abbrev pub start_of : Uuid → Tables → Option DateTime
start_of id s = elim (find (is_job id) s.build_jobs) [ none ↦ none | some j ↦ j.started_at ]

abbrev pub select_started_at : Env → AppError → Uuid → Act Tables (Option DateTime)
select_started_at env e id = fetch (env.answered select_start) e (start_of id)

-- `COALESCE(new, old)`
abbrev pub coalesce {ℓ} : {A : Type ℓ} → Option A → Option A → Option A
coalesce none old = old
coalesce (some new) old = some new

abbrev pub updated_job : JobStatus → Option DateTime × Option DateTime → BuildJob → BuildJob
updated_job status (start, end) j = record j {
  status = status;
  started_at = coalesce start j.started_at;
  completed_at = coalesce end j.completed_at;
}

-- `UPDATE build_jobs`
abbrev pub set_job_status :
    Env → AppError → Uuid → JobStatus → Option DateTime × Option DateTime → Act Tables (Unit {0})
set_job_status env e id status times =
    execute (env.answered update_job) e λ s. record s {
      build_jobs = update_where (is_job id) (updated_job status times) s.build_jobs;
    }

abbrev pub is_step : Uuid → Bytes → BuildStepRow → Bool
is_step job_id step_id r = r.job_id == job_id && bytes_eq r.step_id step_id

abbrev pub updated_step : StepStatusUpdate → BuildStepRow → BuildStepRow
updated_step update r = record r {
  status = update.status;
  started_at = some update.started_at;
  completed_at = coalesce update.completed_at r.completed_at;
  exit_code = update.exit_code;
}

abbrev pub new_step : Uuid → StepStatusUpdate → BuildStepRow
new_step job_id update = record {
  job_id = job_id;
  step_id = update.step_id;
  status = update.status;
  started_at = some update.started_at;
  completed_at = update.completed_at;
  exit_code = update.exit_code;
  output_detail = none;
  log_offset = 0;
}

-- `ON CONFLICT (version, artifact_type) DO NOTHING`
abbrev pub is_same_artifact : BuildArtifact → ArtifactRow → Bool
is_same_artifact a r =
    bytes_eq r.artifact.version a.version && bytes_eq r.artifact.artifact_type a.artifact_type

abbrev pub insert_new : Uuid → BuildArtifact → Tables → Tables
insert_new job_id a s = if any (is_same_artifact a) s.build_artifacts then s else record s {
  build_artifacts = s.build_artifacts ++ record { build_job_id = job_id; artifact = a } ∷ [];
}

abbrev pub record_artifact : Env → Uuid → Option BuildArtifact → Act Tables (Unit {0})
record_artifact env job_id none = pure tt
record_artifact env job_id (some a) =
    execute (env.answered insert_artifact) (internal "database") (insert_new job_id a)

-- `update_step_status_with_uploader`
unfoldable pub update_step_status : Env → Uuid → StepStatusUpdate → Act Tables (Unit {0})
update_step_status env job_id update = do
  existing ←
      fetch (env.answered select_step) (internal "database")
        (λ s. any (is_step job_id update.step_id) s.build_steps)
  execute (env.answered write_step) (internal "database") (λ s. record s {
    build_steps =
        if existing
        then update_where (is_step job_id update.step_id) (updated_step update) s.build_steps
        else s.build_steps ++ new_step job_id update ∷ [];
  })
  record_artifact env job_id update.artifact

-- An error that is only logged.
abbrev pub log_error : Act Tables (Unit {0}) → Act Tables (Unit {0})
log_error m s = ((m s).0, ok tt)

unfoldable pub record_step : Env → Uuid → Option StepStatusUpdate → Act Tables (Unit {0})
unfolding update_step_status
record_step env job_id none = pure tt
record_step env job_id (some update) = log_error (update_step_status env job_id update)
