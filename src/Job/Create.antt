-- ===== src/Job/Create.antt =====
-- `create_command_job`, `create_script_job`, `get_job` and `get_by_idempotency_key` of
-- src/ops-service/src/services/job_service.rs. The two creations differ in the row that they insert
-- and share the rest.
use ops_service.Prelude.{
  Uuid, Bool, false, ◌&&◌, Option, none, some, List, [], ◌∷◌, ◌++◌, String, get_or, if◌then◌else◌,
  ◌==◌, find, is_empty, length, map, update_where,
}
use ops_service.Prelude.Int.{ℤ, pos}
use ops_service.Prelude.Bytes.{Bytes, codes, bytes_eq}
use ops_service.Error.{
  ok, Act, ◌>>=◌, ◌>>◌, pure, fail, refuse_if, or_fail, execute, fetch, transaction, for_each,
  database, database_error, validation, not_found,
}
use ops_service.Audit.{AuditAction, job_create, log_action_simple}
use ops_service.Approval.Risk.{check_job_requires_approval}
use ops_service.Job.{
  command_job, script_job, JobStatus, TaskStatus, Job, Task, Host, Store, Env, find_key, begin_tx,
  insert_job, commit_tx, insert_audit, mark_awaiting, fetch_job, insert_task, job_status_of_label,
}
use ops_service.Job.Hosts.{resolve_target_hosts}

pub record CreateCommandJob : Type 0 where
  pub name : String
  pub description : Option String
  pub target_hosts : List Uuid
  pub target_groups : List Uuid
  pub command : Bytes
  pub concurrent_limit : Option ℤ
  pub timeout_secs : Option ℤ
  pub retry_times : Option ℤ
  pub execute_user : Option String
  pub idempotency_key : Option Bytes
  pub tags : List String

pub record CreateScriptJob : Type 0 where
  pub name : String
  pub description : Option String
  pub target_hosts : List Uuid
  pub target_groups : List Uuid
  pub script : Bytes
  pub script_path : Option String
  pub concurrent_limit : Option ℤ
  pub timeout_secs : Option ℤ
  pub retry_times : Option ℤ
  pub execute_user : Option String
  pub idempotency_key : Option Bytes
  pub tags : List String

unfoldable pub get_job : Env → Uuid → Act Store Job
get_job env id = do
  found ←
      fetch (env.answered fetch_job) (database "Failed to fetch job")
        λ s. find (λ j. j.id == id) s.jobs
  or_fail found (not_found "Job not found")

abbrev pub has_key : Bytes → Job → Bool
has_key key j = elim j.idempotency_key [ none ↦ false | some k ↦ bytes_eq k key ]

-- `get_by_idempotency_key`, if the request has a key.
abbrev pub existing_job : Env → Option Bytes → Act Store (Option Job)
existing_job env none = pure none
existing_job env (some key) =
    fetch (env.answered find_key) (database "Failed to fetch job") λ s. find (has_key key) s.jobs

-- The rows that the two statements insert. Columns that they do not name get the table's defaults.
abbrev pub command_row : Env → CreateCommandJob → Uuid → List Host → Job
command_row env request created_by hosts = record {
  id = env.job_id;
  job_type = command_job;
  name = request.name;
  description = request.description;
  status = JobStatus.pending;
  target_hosts = map (λ h. h.id) hosts;
  target_groups = request.target_groups;
  command = some request.command;
  script = none;
  script_path = none;
  concurrent_limit = request.concurrent_limit;
  timeout_secs = request.timeout_secs;
  retry_times = some (get_or request.retry_times (pos 0));
  execute_user = request.execute_user;
  idempotency_key = request.idempotency_key;
  total_tasks = length hosts;
  succeeded_tasks = 0;
  failed_tasks = 0;
  timeout_tasks = 0;
  cancelled_tasks = 0;
  created_by = created_by;
  created_at = env.tx_time;
  updated_at = env.tx_time;
  started_at = none;
  completed_at = none;
  tags = request.tags;
}

abbrev pub script_row : Env → CreateScriptJob → Uuid → List Host → Job
script_row env request created_by hosts = record {
  id = env.job_id;
  job_type = script_job;
  name = request.name;
  description = request.description;
  status = JobStatus.pending;
  target_hosts = map (λ h. h.id) hosts;
  target_groups = request.target_groups;
  command = none;
  script = some request.script;
  script_path = request.script_path;
  concurrent_limit = request.concurrent_limit;
  timeout_secs = request.timeout_secs;
  retry_times = some (get_or request.retry_times (pos 0));
  execute_user = request.execute_user;
  idempotency_key = request.idempotency_key;
  total_tasks = length hosts;
  succeeded_tasks = 0;
  failed_tasks = 0;
  timeout_tasks = 0;
  cancelled_tasks = 0;
  created_by = created_by;
  created_at = env.tx_time;
  updated_at = env.tx_time;
  started_at = none;
  completed_at = none;
  tags = request.tags;
}

abbrev pub task_row : Env → ℤ → Host → Task
task_row env retries host = record {
  id = env.task_id host.id;
  job_id = env.job_id;
  host_id = host.id;
  status = TaskStatus.pending;
  failure_reason = none;
  failure_message = none;
  exit_code = none;
  started_at = none;
  completed_at = none;
  duration_secs = none;
  output_summary = none;
  output_detail = none;
  retry_count = pos 0;
  max_retries = retries;
  created_at = env.tx_time;
  updated_at = env.tx_time;
}

-- One insertion of the loop over the hosts.
abbrev pub add_task : Env → ℤ → Host → Act Store (Unit {0})
add_task env retries host =
    execute (env.answered (insert_task host.id)) (database "Failed to create task")
      λ s. record s { tasks = s.tasks ++ task_row env retries host ∷ [] }

abbrev pub add_job : Env → Job → Act Store (Unit {0})
add_job env job =
    execute (env.answered insert_job) (database "Failed to create job")
      λ s. record s { jobs = s.jobs ++ job ∷ [] }

-- The statements between `begin` and `commit`.
unfoldable pub insert_rows : Env → ℤ → List Host → Job → Act Store Job
insert_rows env retries hosts job = do
  add_job env job
  for_each (add_task env retries) hosts
  pure job

-- `UPDATE jobs SET status = '<label>' WHERE id = $1`
unfoldable pub set_status : Bool → Bytes → Uuid → Act Store (Unit {0})
set_status answered label id = elim (job_status_of_label label) [
  | none ↦ fail (database "Failed to update job status")
  | some st ↦
      execute answered (database "Failed to update job status") λ s. record s {
        jobs = update_where (λ j. j.id == id) (λ j. record j { status = st }) s.jobs;
      }
]

-- `approval_svc.check_job_requires_approval(&job, &target_hosts)`, where there is a service.
abbrev pub needs_approval : Env → Job → List Host → Bool
needs_approval env job hosts =
    env.approval_service
    && check_job_requires_approval env.to_lowercase env.critical job.command
        (map (λ h. record { group_id = h.group_id; environment = h.environment }) hosts)

-- `tokio::spawn(execute_job(job_id))`
abbrev pub spawn : Uuid → Act Store (Unit {0})
spawn id s = (record s { spawned = s.spawned ++ id ∷ [] }, ok tt)

-- From the approval check to the end.
unfoldable pub start_or_hold : Env → Job → List Host → Act Store Job
unfolding set_status
start_or_hold env job hosts =
    if needs_approval env job hosts
    then (do set_status (env.answered mark_awaiting) (codes "awaiting_approval") job.id; pure job)
    else (do spawn job.id; pure job)

abbrev pub write_audit : Env → Uuid → AuditAction → Uuid → String → Act Store (Unit {0})
write_audit env subject action id summary = execute (env.answered insert_audit) database_error λ s.
    record s {
      audits =
          s.audits
          ++ log_action_simple env.audit_id env.now subject action (some "job") (some id)
              (some summary) none
            ∷ [];
    }

-- The creation after the check of the key.
unfoldable pub create_new :
    Env → List Uuid → List Uuid → (List Host → Job) → ℤ → Uuid → String → Act Store Job
create_new env ids groups row retries created_by summary = do
  hosts ← resolve_target_hosts env ids groups
  refuse_if (is_empty hosts) (validation "No valid target hosts found")
  job ←
      transaction (env.answered begin_tx) (env.answered commit_tx)
        (insert_rows env retries hosts (row hosts))
  write_audit env created_by job_create env.job_id summary
  start_or_hold env job hosts

abbrev pub unless_existing : Act Store Job → Option Job → Act Store Job
unless_existing new none = new
unless_existing new (some job) = pure job

unfoldable pub create_command_job : Env → CreateCommandJob → Uuid → Act Store Job
create_command_job env request created_by = do
  existing ← existing_job env request.idempotency_key
  unless_existing
      (create_new env request.target_hosts request.target_groups
        (command_row env request created_by) (get_or request.retry_times (pos 0)) created_by
        "Command job created")
      existing

unfoldable pub create_script_job : Env → CreateScriptJob → Uuid → Act Store Job
create_script_job env request created_by = do
  existing ← existing_job env request.idempotency_key
  unless_existing
      (create_new env request.target_hosts request.target_groups (script_row env request created_by)
        (get_or request.retry_times (pos 0)) created_by "Script job created")
      existing
