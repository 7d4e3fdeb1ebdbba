-- ===== src/Job/Retry.antt =====
-- `retry_job` of src/ops-service/src/services/job_service.rs.
use ops_service.Prelude.{
  Uuid, Bool, not, ◌&&◌, Option, some, none, List, if◌then◌else◌, ◌==◌, find, retain, is_empty,
  update_where,
}
use ops_service.Error.{
  Act, ◌>>=◌, ◌>>◌, refuse_if, or_fail, execute, fetch, transaction, for_each, database, validation,
  not_found,
}
use ops_service.Audit.{job_retry}
use ops_service.Job.{
  JobStatus, TaskStatus, Job, Task, Store, Env, begin_tx, commit_tx, fetch_tasks, reset_task,
  reset_job, fetch_again, is_retryable, is_failure,
}
use ops_service.Job.Hosts.{is_any}
use ops_service.Job.Create.{get_job, write_audit, spawn}

pub record RetryJobRequest : Type 0 where
  pub failed_only : Bool
  pub task_ids : Option (List Uuid)

-- The `WHERE` of the query that the request selects.
abbrev pub is_to_retry : Uuid → RetryJobRequest → Task → Bool
is_to_retry id request t = elim request.task_ids [
  | some ids ↦ t.job_id == id && is_any ids t.id
  | none ↦ if request.failed_only then t.job_id == id && is_failure t.status else t.job_id == id
]

abbrev pub reset_task_row : Task → Task
reset_task_row t = record t {
  status = TaskStatus.pending;
  failure_reason = none;
  failure_message = none;
  started_at = none;
  completed_at = none;
}

abbrev pub reset_job_row : Job → Job
reset_job_row j = record j { status = JobStatus.pending; started_at = none; completed_at = none }

-- One statement of the loop over the tasks.
abbrev pub reset_one : Env → Task → Act Store (Unit {0})
reset_one env task =
    execute (env.answered (reset_task task.id)) (database "Failed to reset task")
      λ s. record s { tasks = update_where (λ t. t.id == task.id) reset_task_row s.tasks }

unfoldable pub retry_in_tx : Env → Uuid → RetryJobRequest → Act Store (Unit {0})
retry_in_tx env id request = do
  tasks ←
      fetch (env.answered fetch_tasks) (database "Failed to fetch tasks")
        λ s. retain (is_to_retry id request) s.tasks
  refuse_if (is_empty tasks) (validation "No tasks to retry")
  for_each (reset_one env) tasks
  execute (env.answered reset_job) (database "Failed to reset job")
      λ s. record s { jobs = update_where (λ j. j.id == id) reset_job_row s.jobs }

-- The second `get_job`, which reads the row back.
abbrev pub fetch_again_job : Env → Uuid → Act Store Job
fetch_again_job env id = do
  found ←
      fetch (env.answered fetch_again) (database "Failed to fetch job")
        λ s. find (λ j. j.id == id) s.jobs
  or_fail found (not_found "Job not found")

unfoldable pub retry_job : Env → Uuid → RetryJobRequest → Uuid → Act Store Job
unfolding get_job
retry_job env id request requested_by = do
  job ← get_job env id
  refuse_if (not (is_retryable job.status)) (validation "Job cannot be retried")
  transaction (env.answered begin_tx) (env.answered commit_tx) (retry_in_tx env id request)
  write_audit env requested_by job_retry id "Command failed"
  spawn id
  fetch_again_job env id
