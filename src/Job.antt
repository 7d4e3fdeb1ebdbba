-- ===== src/Job.antt =====
-- src/ops-service/src/models/job.rs and src/ops-service/src/services/job_service.rs: jobs, their
-- tasks on hosts, and the tables that the service keeps them in. The operations are in the
-- children.
pub mod Hosts
pub mod Create
pub mod Creation
pub mod Cancel
pub mod Listing
pub mod Retry
pub mod Retrial
pub mod Execute
pub mod Results
pub mod Execution
pub mod Miscount
pub mod Samples
mod Examples
mod Runs
use ops_service.Prelude.{
  ℕ, Uuid, DateTime, Bool, true, false, Option, none, some, List, [], String, if◌then◌else◌, ◌==◌,
  ◌&&◌, ◌||◌,
}
use ops_service.Prelude.Int.{ℤ}
use ops_service.Prelude.Bytes.{Bytes, codes, bytes_eq}
use ops_service.Audit.{AuditLog}

pub data JobType : Type 0 where
  command_job script_job build_job : JobType

pub data JobStatus : Type 0 where
  pending running completed failed cancelled partially_succeeded : JobStatus

pub data TaskStatus : Type 0 where
  pending running succeeded failed timeout cancelled : TaskStatus

pub data FailureReason : Type 0 where
  network_error auth_failed connection_timeout handshake_timeout : FailureReason
  command_timeout command_failed unknown : FailureReason

-- The counters of tasks are i32, and hold numbers of rows.
pub record Job : Type 0 where
  pub id : Uuid
  pub job_type : JobType
  pub name : String
  pub description : Option String
  pub status : JobStatus
  pub target_hosts : List Uuid
  pub target_groups : List Uuid
  pub command : Option Bytes
  pub script : Option Bytes
  pub script_path : Option String
  pub concurrent_limit : Option ℤ
  pub timeout_secs : Option ℤ
  pub retry_times : Option ℤ
  pub execute_user : Option String
  pub idempotency_key : Option Bytes
  pub total_tasks : ℕ
  pub succeeded_tasks : ℕ
  pub failed_tasks : ℕ
  pub timeout_tasks : ℕ
  pub cancelled_tasks : ℕ
  pub created_by : Uuid
  pub created_at : DateTime
  pub updated_at : DateTime
  pub started_at : Option DateTime
  pub completed_at : Option DateTime
  pub tags : List String

pub record Task : Type 0 where
  pub id : Uuid
  pub job_id : Uuid
  pub host_id : Uuid
  pub status : TaskStatus
  pub failure_reason : Option FailureReason
  pub failure_message : Option String
  pub exit_code : Option ℤ
  pub started_at : Option DateTime
  pub completed_at : Option DateTime
  pub duration_secs : Option ℕ
  pub output_summary : Option Bytes
  pub output_detail : Option Bytes
  pub retry_count : ℤ
  pub max_retries : ℤ
  pub created_at : DateTime
  pub updated_at : DateTime

-- The fields of a host (src/ops-service/src/models/asset.rs) that the job service reads.
pub record Host : Type 0 where
  pub id : Uuid
  pub address : String
  pub group_id : Uuid
  pub environment : Bytes
  pub active : Bool
  pub ssh_username : Option String
  pub ssh_password : Option String
  pub ssh_private_key : Option String
  pub ssh_key_passphrase : Option String

-- The rows of the tables, the audit log, and the jobs whose execution was started in a task of its
-- own (`tokio::spawn`), in this order.
pub record Store : Type 0 where
  pub jobs : List Job
  pub tasks : List Task
  pub hosts : List Host
  pub audits : List AuditLog
  pub spawned : List Uuid

-- The labels of the type `job_status` in migrations/000004_job_system.sql. A statement that writes
-- another label fails.
unfoldable pub job_status_of_label : Bytes → Option JobStatus
job_status_of_label label =
    if bytes_eq label (codes "pending")
    then some pending
    else if bytes_eq label (codes "running")
    then some running
    else if bytes_eq label (codes "completed")
    then some completed
    else if bytes_eq label (codes "failed")
    then some failed
    else if bytes_eq label (codes "cancelled")
    then some cancelled
    else if bytes_eq label (codes "partially_succeeded")
    then some partially_succeeded
    else none

-- The status tests of the statements and guards.
abbrev pub is_cancellable : JobStatus → Bool
is_cancellable pending = true
is_cancellable running = true
is_cancellable _ = false

abbrev pub is_retryable : JobStatus → Bool
is_retryable failed = true
is_retryable partially_succeeded = true
is_retryable cancelled = true
is_retryable _ = false

abbrev pub is_unfinished : TaskStatus → Bool
is_unfinished pending = true
is_unfinished running = true
is_unfinished _ = false

abbrev pub is_failure : TaskStatus → Bool
is_failure failed = true
is_failure timeout = true
is_failure _ = false

abbrev pub is_pending_task : TaskStatus → Bool
is_pending_task pending = true
is_pending_task _ = false

-- The calls of the service that leave the program; an insertion or reset in a loop is named with
-- its host or task.
pub data Call : Type 0 where
  find_key direct_hosts group_hosts begin_tx insert_job commit_tx insert_audit : Call
  mark_awaiting cancel_update cancel_tasks fetch_job fetch_tasks reset_job fetch_again : Call
  insert_task reset_task : Uuid → Call

-- What the calls of one operation meet: which of them succeed, the ids that are generated, the
-- clock, and the approval service, where there is one
-- (src/ops-service/src/services/approval_service.rs).
pub record Env : Type 0 where
  pub answered : Call → Bool
  pub job_id : Uuid
  pub task_id : Uuid → Uuid
  pub audit_id : Uuid
  pub tx_time : DateTime
  pub now : DateTime
  pub approval_service : Bool
  pub to_lowercase : Bytes → Bytes
  pub critical : Uuid → Bool
