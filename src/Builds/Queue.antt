-- ===== src/Builds/Queue.antt =====
-- `BuildMessageConsumer` of src/ops-service/src/handlers/build_webhook.rs: messages from the queue.
use ops_service.Prelude.{
  ℕ, DateTime, Bool, true, false, ◌&&◌, Option, none, some, [], ◌∷◌, ◌++◌, if◌then◌else◌, any, find,
  get_or, update_where,
}
use ops_service.Prelude.Bytes.{Bytes, bytes_eq}
use ops_service.Error.{ok, Act, ◌>>=◌, ◌>>◌, pure, fetch, execute, internal}
use ops_service.Job.{JobStatus}
use ops_service.Runner.{StepStatus, BuildStatusMessage, BuildLogMessage}
use ops_service.Scheduler.{Runner, decrement_current_jobs}
use ops_service.Builds.{
  BuildJob, BuildStepRow, Tables, select_job, select_step, select_runner, write_step, decrement,
  Env, job_status, is_terminal, times_of, is_job, select_started_at, set_job_status, is_step,
  record_step, log_error,
}

-- `self.runner_scheduler.decrement_current_jobs` over the tables.
unfoldable pub take_off : Env → Option Runner → Act Tables (Unit {0})
unfolding decrement_current_jobs
take_off env none s = (s, ok tt)
take_off env (some r) s =
    let (runners, result) = decrement_current_jobs (env.answered decrement) r.id s.runners in
    (record s { runners = runners }, result)

unfoldable pub decrement_runner_jobs : Env → Bytes → Act Tables (Unit {0})
unfolding take_off
decrement_runner_jobs env name = do
  runner ←
      fetch (env.answered select_runner) (internal "database")
        (λ s. find (λ r. bytes_eq r.name name) s.runners)
  take_off env runner

-- `was_running`
abbrev pub is_open : JobStatus → Bool
is_open JobStatus.pending = true
is_open JobStatus.running = true
is_open _ = false

-- A build that ends is taken off the count of its runner.
abbrev pub release_runner : Env → Bytes → BuildStatusMessage → BuildJob → Act Tables (Unit {0})
release_runner env name m j =
    if is_terminal m.status && is_open j.status
    then log_error (decrement_runner_jobs env name)
    else pure tt

abbrev pub write_status :
    Env
    → Bytes
    → BuildStatusMessage
    → BuildJob
    → Option DateTime × Option DateTime
    → Act Tables (Unit {0})
write_status env name m j times = do
  set_job_status env (internal "Failed to update build job: ") m.job_id (job_status m.status) times
  record_step env m.job_id m.step_status
  release_runner env name m j

-- `handle_status_message` for the row that was found.
unfoldable pub handle_job :
    Env → Bytes → BuildStatusMessage → Option BuildJob → Act Tables (Unit {0})
unfolding record_step decrement_runner_jobs
handle_job env name m none = pure tt
handle_job env name m (some j) = do
  times ← times_of env m.status (select_started_at env (internal "database") m.job_id)
  write_status env name m j times

unfoldable pub handle_status_message : Env → Bytes → BuildStatusMessage → Act Tables (Unit {0})
unfolding handle_job
handle_status_message env name m = do
  row ←
      fetch (env.answered select_job) (internal "database")
        (λ s. find (is_job m.job_id) s.build_jobs)
  handle_job env name m row

abbrev pub with_log : Bytes → BuildStepRow → BuildStepRow
with_log content r = record r { output_detail = some (get_or r.output_detail [] ++ content) }

abbrev pub log_step : BuildLogMessage → ℕ → BuildStepRow
log_step m offset = record {
  job_id = m.job_id;
  step_id = m.step_id;
  status = StepStatus.running;
  started_at = none;
  completed_at = none;
  exit_code = none;
  output_detail = some m.content;
  log_offset = offset;
}

-- `handle_log_message` after the job was found.
abbrev pub write_log : Env → BuildLogMessage → Bool → Act Tables (Unit {0})
write_log env m existing =
    execute (env.answered write_step)
      (internal
        (if existing then "Failed to update build step log: " else "Failed to create build step: "))
      λ s. record s {
        build_steps =
            if existing
            then update_where (is_step m.job_id m.step_id) (with_log m.content) s.build_steps
            else s.build_steps ++ log_step m 0 ∷ [];
      }

unfoldable pub handle_log_message : Env → BuildLogMessage → Act Tables (Unit {0})
handle_log_message env m = do
  found ←
      fetch (env.answered select_job) (internal "Failed to check build job: ")
        (λ s. any (is_job m.job_id) s.build_jobs)
  (if found
      then (do
        existing ←
            fetch (env.answered select_step) (internal "Failed to check build step: ")
              (λ s. any (is_step m.job_id m.step_id) s.build_steps)
        write_log env m existing)
      else pure tt)
