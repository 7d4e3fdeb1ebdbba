-- ===== src/Job/Examples.antt =====
-- Runs of the job service at concrete inputs.
use ops_service.Prelude.{◌+◌, ◌≡◌, refl, true, none, some, [], ◌∷◌, ◌==◌}
use ops_service.Prelude.Bytes.{codes}
use ops_service.Error.{ok}
use ops_service.Job.{JobStatus, TaskStatus, Job, Task, Store, Env}
use ops_service.Job.Create.{CreateCommandJob, CreateScriptJob}
use ops_service.Job.Cancel.{cancel_job, cancel_accepts}
use ops_service.Job.Retry.{RetryJobRequest}
use ops_service.Job.Samples.{job, task, tables}

abbrev failed_job : Job
failed_job = record job { status = JobStatus.failed }

abbrev failed_task : Task
failed_task = record task { status = TaskStatus.failed }

abbrev failed_tables : Store
failed_tables = record tables { jobs = failed_job ∷ []; tasks = failed_task ∷ [] }

abbrev calm : Env
calm = record {
  answered = λ _. true;
  job_id = 9;
  task_id = λ host. host + 15;
  audit_id = 8;
  tx_time = 100;
  now = 100;
  approval_service = true;
  to_lowercase = λ text. text;
  critical = λ group. group == 2;
}

abbrev list_request : CreateCommandJob
list_request = record {
  name = "list";
  description = none;
  target_hosts = 5 ∷ [];
  target_groups = [];
  command = codes "ls";
  concurrent_limit = none;
  timeout_secs = none;
  retry_times = none;
  execute_user = none;
  idempotency_key = some (codes "k");
  tags = [];
}

abbrev no_jobs : Store
no_jobs = record tables { jobs = []; tasks = [] }

abbrev script_request : CreateScriptJob
script_request = record {
  name = "script";
  description = none;
  target_hosts = 5 ∷ [];
  target_groups = [];
  script = codes "echo";
  script_path = none;
  concurrent_limit = none;
  timeout_secs = none;
  retry_times = none;
  execute_user = none;
  idempotency_key = none;
  tags = [];
}

is_cancelled : (cancel_job calm 9 1 tables).1 ≡ ok tt
is_cancelled = (cancel_accepts calm (λ c. refl) 9 1 tables).1 refl

abbrev retry_failed : RetryJobRequest
retry_failed = record { failed_only = true; task_ids = none }
