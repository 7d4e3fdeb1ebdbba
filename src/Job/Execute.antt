-- ===== src/Job/Execute.antt =====
-- `execute_job`, `execute_task` and `calculate_job_status` of
-- src/ops-service/src/services/job_service.rs, with the classification of failures of
-- src/ops-service/src/error.rs. The tasks of a job run at the same time and each writes its own row;
-- here they run one after the other. Published events change no table and are left out.
use ops_service.Prelude.{
  ℕ, Uuid, DateTime, ◌+◌, Bool, false, ◌&&◌, ◌||◌, Option, none, some, List, [], ◌∷◌, ◌++◌, String,
  if◌then◌else◌, ◌==◌, ltb, find, is_some, is_empty, retain, update_where,
}
use ops_service.Prelude.Int.{ℤ, pos, negsuc}
use ops_service.Prelude.Bytes.{Bytes}
use text.Mathlib.Text.{find?}
use ops_service.Error.{
  R, ok, err, panicked, AppError, ssh_authentication_error, ssh_connection_error, timeout_error,
  ssh_execution_error, Act, ◌>>=◌, ◌>>◌, pure, fail, or_fail, execute, fetch, database, validation,
}
use ops_service.Output.{OutputArchive, process_output}
use ops_service.Job.{
  JobType, command_job, script_job, build_job, JobStatus, TaskStatus, FailureReason, network_error,
  auth_failed, connection_timeout, command_timeout, command_failed, unknown, Job, Task, Host, Store,
  is_pending_task,
}

-- src/common/src/execution.rs. The duration is in whole seconds, as it is stored.
pub record ExecutionResult : Type 0 where
  pub exit_code : ℤ
  pub stdout : Bytes
  pub stderr : Bytes
  pub duration_secs : ℕ
  pub timed_out : Bool

pub data Call : Type 0 where
  start_job read_job read_tasks finish_job : Call
  start_task read_host save_result save_failure : Uuid → Call

-- What an execution meets: its database calls, the controller's answer for a group and an
-- environment (`none` is a permit), the SSH client, the texts of errors, and the clock.
pub record Env : Type 0 where
  pub answered : Call → Bool
  pub permit : Uuid → Bytes → Option AppError
  pub ssh : Job → Host → Bytes → R ExecutionResult
  pub to_string : AppError → String
  pub archive : OutputArchive
  pub now : DateTime

-- `AppError::to_ssh_failure_reason`.
unfoldable pub to_ssh_failure_reason : AppError → FailureReason
to_ssh_failure_reason (ssh_authentication_error m) = auth_failed
to_ssh_failure_reason (ssh_connection_error m) =
    if is_some (find? m "超时") || is_some (find? m "timeout")
    then connection_timeout
    else network_error
to_ssh_failure_reason (timeout_error m) = connection_timeout
to_ssh_failure_reason (ssh_execution_error m) = command_failed
to_ssh_failure_reason _ = unknown

abbrev pub is_zero : ℤ → Bool
is_zero (pos n) = n == 0
is_zero (negsuc n) = false

-- `(status, failure_reason, failure_message)` of a command that ran.
abbrev pub task_verdict : ExecutionResult → TaskStatus × Option FailureReason × Option String
task_verdict r =
    if r.timed_out
    then (TaskStatus.timeout, some command_timeout, some "Command timed out")
    else if is_zero r.exit_code
    then (TaskStatus.succeeded, none, none)
    else (TaskStatus.failed, some command_failed, some "Command failed")

-- `full_output`
abbrev pub full_output : ExecutionResult → Bytes
full_output r =
    if is_empty r.stderr
    then r.stdout
    else if is_empty r.stdout
    then r.stderr
    else r.stdout ++ 10 ∷ r.stderr

abbrev pub update_task : Uuid → (Task → Task) → Store → Store
update_task id f s = record s { tasks = update_where (λ t. t.id == id) f s.tasks }

abbrev pub started : Env → Task → Task
started env t = record t { status = TaskStatus.running; started_at = some env.now }

abbrev pub finished : Env → ExecutionResult → Bytes × Bytes → Task → Task
finished env r (summary, detail) t =
    let verdict = task_verdict r in
    record t {
      status = verdict.0;
      exit_code = some r.exit_code;
      output_summary = some summary;
      output_detail = some detail;
      failure_reason = verdict.1;
      failure_message = verdict.2;
      completed_at = some env.now;
      duration_secs = some r.duration_secs;
    }

abbrev pub broken : Env → AppError → Task → Task
broken env e t = record t {
  status = TaskStatus.failed;
  failure_reason = some (to_ssh_failure_reason e);
  failure_message = some (env.to_string e);
  completed_at = some env.now;
}

-- A value that may be an error or a panic, as an operation.
abbrev pub lift : {A : Type 0} → R A → Act Store A
lift r s = (s, r)

-- `match result`
abbrev pub settle : Env → Task → R ExecutionResult → Act Store (Unit {0})
settle env task (ok r) = do
  outputs ← lift (process_output env.archive (full_output r))
  execute (env.answered (save_result task.id)) (database "Failed to update task")
      (update_task task.id (finished env r outputs))
settle env task (err e) = do
  execute (env.answered (save_failure task.id)) (database "Failed to update task")
      (update_task task.id (broken env e))
  fail e
settle env task panicked = lift panicked

-- `match job.job_type`: a missing text returns early, a build is an error to settle.
abbrev pub run_remote : Env → Job → Host → JobType → Act Store (R ExecutionResult)
run_remote env job host command_job = do
  text ← or_fail job.command (validation "Command job must have a command")
  pure (env.ssh job host text)
run_remote env job host script_job = do
  text ← or_fail job.script (validation "Script job must have a script")
  pure (env.ssh job host text)
run_remote env job host build_job =
    pure (err (validation "Build jobs are not supported for SSH execution"))

abbrev pub granted : Option AppError → Act Store (Unit {0})
granted none = pure tt
granted (some e) = fail e

unfoldable pub execute_task : Env → Job → Task → Act Store (Unit {0})
unfolding to_ssh_failure_reason
execute_task env job task = do
  execute (env.answered (start_task task.id)) (database "Failed to update task status")
      (update_task task.id (started env))
  found ←
      fetch (env.answered (read_host task.host_id)) (database "Failed to fetch host")
        λ s. find (λ h. h.id == task.host_id) s.hosts
  host ← or_fail found (database "Failed to fetch host")
  granted (env.permit host.group_id host.environment)
  result ← run_remote env job host job.job_type
  settle env task result

-- `calculate_job_status`, with the total last.
unfoldable pub calculate_job_status : ℕ → ℕ → ℕ → ℕ → JobStatus × ℕ × ℕ × ℕ
calculate_job_status succeeded failed timeout total =
    if succeeded == total
    then (JobStatus.completed, succeeded, failed, timeout)
    else if ltb 0 succeeded
    then (JobStatus.partially_succeeded, succeeded, failed, timeout)
    else (JobStatus.failed, succeeded, failed, timeout)

-- How the loop over the handles counts a task: `Ok(Ok(()))`, or an error or a panic.
abbrev pub tally : R (Unit {0}) → ℕ × ℕ → ℕ × ℕ
tally (ok u) (succeeded, failed) = (succeeded + 1, failed)
tally (err e) (succeeded, failed) = (succeeded, failed + 1)
tally panicked (succeeded, failed) = (succeeded, failed + 1)

unfoldable pub run_tasks : Env → Job → List Task → ℕ × ℕ → Store → Store × (ℕ × ℕ)
run_tasks env job [] counts s = (s, counts)
run_tasks env job (t ∷ ts) counts s =
    let (s', result) = execute_task env job t s in run_tasks env job ts (tally result counts) s'

abbrev pub running_job : Env → Job → Job
running_job env j = record j { status = JobStatus.running; started_at = some env.now }

abbrev pub final_job : Env → JobStatus × ℕ × ℕ × ℕ → Job → Job
final_job env (status, succeeded, failed, timeout) j = record j {
  status = status;
  succeeded_tasks = succeeded;
  failed_tasks = failed;
  timeout_tasks = timeout;
  completed_at = some env.now;
}

abbrev pub update_job : Uuid → (Job → Job) → Store → Store
update_job id f s = record s { jobs = update_where (λ j. j.id == id) f s.jobs }

-- The first statements, up to the start of the tasks.
unfoldable pub begin_execution : Env → Uuid → Act Store (Job × List Task)
begin_execution env id = do
  execute (env.answered start_job) (database "Failed to update job status")
      (update_job id (running_job env))
  found ←
      fetch (env.answered read_job) (database "Failed to fetch job")
        λ s. find (λ j. j.id == id) s.jobs
  job ← or_fail found (database "Failed to fetch job")
  tasks ←
      fetch (env.answered read_tasks) (database "Failed to fetch tasks")
        λ s. retain (λ t. t.job_id == id && is_pending_task t.status) s.tasks
  pure (job, tasks)

-- The last statement, with the counts of the loop. The timeouts that it counts stay 0.
unfoldable pub finish_execution : Env → Uuid → ℕ → ℕ × ℕ → Act Store (Unit {0})
unfolding calculate_job_status
finish_execution env id total (succeeded, failed) =
    execute (env.answered finish_job) (database "Failed to update job status")
      (update_job id (final_job env (calculate_job_status succeeded failed 0 total)))

abbrev pub run_all : Env → Job → List Task → Act Store (ℕ × ℕ)
run_all env job tasks s = let (t, counts) = run_tasks env job tasks (0, 0) s in (t, ok counts)

unfoldable pub execute_job : Env → Uuid → Act Store (Unit {0})
execute_job env id = do
  work ← begin_execution env id
  counts ← run_all env work.0 work.1
  finish_execution env id work.0.total_tasks counts
