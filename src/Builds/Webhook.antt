-- ===== src/Builds/Webhook.antt =====
-- `build_status_webhook` and `build_log_webhook` of src/ops-service/src/handlers/build_webhook.rs,
-- which take the messages by HTTP and answer `Ok` also where they do nothing. A status is always
-- stored, so the current one is `none` only for a build that does not exist.
use ops_service.Prelude.{
  ℕ, Bool, true, false, not, ◌&&◌, Option, none, some, [], ◌∷◌, ◌++◌, if◌then◌else◌, leb, any, find,
  is_empty, get_or, update_where,
}
use ops_service.Prelude.Bytes.{Bytes}
use ops_service.Error.{Act, ◌>>=◌, ◌>>◌, pure, fetch, execute, database, database_error}
use ops_service.Job.{JobStatus}
use ops_service.Runner.{BuildStatusMessage, BuildLogMessage}
use ops_service.Builds.{
  BuildJob, BuildStepRow, Tables, select_job, select_step, write_step, Env, job_status, times_of,
  is_job, select_started_at, set_job_status, is_step, record_step,
}
use ops_service.Builds.Queue.{log_step}

-- The pairs of statuses that the table allows.
abbrev pub is_valid_status_transition : JobStatus → JobStatus → Bool
is_valid_status_transition JobStatus.pending JobStatus.running = true
is_valid_status_transition JobStatus.pending JobStatus.completed = true
is_valid_status_transition JobStatus.pending JobStatus.failed = true
is_valid_status_transition JobStatus.pending JobStatus.cancelled = true
is_valid_status_transition JobStatus.running JobStatus.completed = true
is_valid_status_transition JobStatus.running JobStatus.failed = true
is_valid_status_transition JobStatus.running JobStatus.cancelled = true
is_valid_status_transition JobStatus.failed JobStatus.running = true
is_valid_status_transition JobStatus.cancelled JobStatus.running = true
is_valid_status_transition _ _ = false

-- The update of a build, once its transition is accepted. A step that cannot be recorded is logged.
unfoldable pub accept_status : Env → BuildStatusMessage → Act Tables (Unit {0})
unfolding record_step
accept_status env m = do
  times ← times_of env m.status (select_started_at env database_error m.job_id)
  set_job_status env (database "Failed to update build job") m.job_id (job_status m.status) times
  record_step env m.job_id m.step_status

-- For the row that was found. The test for an unchanged status that follows is never met, since the
-- table has no transition from a status to itself.
unfoldable pub webhook_job : Env → BuildStatusMessage → Option BuildJob → Act Tables (Unit {0})
unfolding accept_status
webhook_job env m none = pure tt
webhook_job env m (some j) =
    if not (is_valid_status_transition j.status (job_status m.status))
    then pure tt
    else accept_status env m

unfoldable pub build_status_webhook : Env → BuildStatusMessage → Act Tables (Unit {0})
unfolding webhook_job
build_status_webhook env m = do
  row ←
      fetch (env.answered select_job) (database "Failed to check build job")
        (λ s. find (is_job m.job_id) s.build_jobs)
  webhook_job env m row

-- A log with its offset, which an `i64` holds.
abbrev pub with_log_at : Bytes → ℕ → BuildStepRow → BuildStepRow
with_log_at content offset r = record r {
  output_detail = some (get_or r.output_detail [] ++ content);
  log_offset = offset;
}

-- For the step that was found.
abbrev pub webhook_step : Env → BuildLogMessage → Option BuildStepRow → Act Tables (Unit {0})
webhook_step env m none =
    execute (env.answered write_step) (database "Failed to create build step")
      λ s. record s { build_steps = s.build_steps ++ log_step m m.offset ∷ [] }
webhook_step env m (some r) =
    if leb m.offset r.log_offset && not (is_empty m.content)
    then pure tt
    else execute (env.answered write_step) (database "Failed to update build step") λ s. record s {
      build_steps =
          update_where (is_step m.job_id m.step_id) (with_log_at m.content m.offset) s.build_steps;
    }

unfoldable pub build_log_webhook : Env → BuildLogMessage → Act Tables (Unit {0})
build_log_webhook env m = do
  found ←
      fetch (env.answered select_job) (database "Failed to check build job")
        (λ s. any (is_job m.job_id) s.build_jobs)
  (if found
      then (do
        step ←
            fetch (env.answered select_step) (database "Failed to check build step")
              (λ s. find (is_step m.job_id m.step_id) s.build_steps)
        webhook_step env m step)
      else pure tt)
