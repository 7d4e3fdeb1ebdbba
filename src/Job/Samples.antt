-- ===== src/Job/Samples.antt =====
-- A host, a job on it with its task, and the tables that hold them.
use ops_service.Prelude.{some, none, true, [], ◌∷◌}
use ops_service.Prelude.Int.{pos}
use ops_service.Prelude.Bytes.{codes}
use ops_service.Job.{JobStatus, TaskStatus, command_job, Job, Task, Host, Store}

abbrev pub web : Host
web = record {
  id = 5;
  address = "10.0.0.5";
  group_id = 2;
  environment = codes "staging";
  active = true;
  ssh_username = none;
  ssh_password = none;
  ssh_private_key = none;
  ssh_key_passphrase = none;
}

abbrev pub job : Job
job = record {
  id = 9;
  job_type = command_job;
  name = "list";
  description = none;
  status = JobStatus.pending;
  target_hosts = 5 ∷ [];
  target_groups = [];
  command = some (codes "ls");
  script = none;
  script_path = none;
  concurrent_limit = none;
  timeout_secs = none;
  retry_times = some (pos 0);
  execute_user = none;
  idempotency_key = some (codes "k");
  total_tasks = 1;
  succeeded_tasks = 0;
  failed_tasks = 0;
  timeout_tasks = 0;
  cancelled_tasks = 0;
  created_by = 1;
  created_at = 100;
  updated_at = 100;
  started_at = none;
  completed_at = none;
  tags = [];
}

abbrev pub task : Task
task = record {
  id = 20;
  job_id = 9;
  host_id = 5;
  status = TaskStatus.pending;
  failure_reason = none;
  failure_message = none;
  exit_code = none;
  started_at = none;
  completed_at = none;
  duration_secs = none;
  output_summary = none;
  output_detail = none;
  retry_count = pos 0;
  max_retries = pos 0;
  created_at = 100;
  updated_at = 100;
}

abbrev pub tables : Store
tables = record { jobs = job ∷ []; tasks = task ∷ []; hosts = web ∷ []; audits = []; spawned = [] }
