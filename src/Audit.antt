-- ===== src/Audit.antt =====
-- src/ops-service/src/services/audit_service.rs: the audit actions with their codes, and the entry
-- that `log_action_simple` writes. The table of entries is append-only.
use ops_service.Prelude.{Option, none, String, is_some, if◌then◌else◌, get_or, Uuid, DateTime}

pub data AuditAction : Type 0 where
  user_create : AuditAction
  user_update : AuditAction
  user_delete : AuditAction
  user_login : AuditAction
  user_logout : AuditAction
  user_password_change : AuditAction
  asset_group_create : AuditAction
  asset_group_update : AuditAction
  asset_group_delete : AuditAction
  host_create : AuditAction
  host_update : AuditAction
  host_delete : AuditAction
  job_create : AuditAction
  job_cancel : AuditAction
  job_retry : AuditAction
  job_execute : AuditAction
  job_output_view : AuditAction
  build_create : AuditAction
  build_execute : AuditAction
  build_cancel : AuditAction
  build_retry : AuditAction
  artifact_create : AuditAction
  artifact_update : AuditAction
  artifact_delete : AuditAction
  artifact_download : AuditAction
  role_create : AuditAction
  role_update : AuditAction
  role_delete : AuditAction
  role_binding_create : AuditAction
  role_binding_delete : AuditAction
  approval_create : AuditAction
  approval_approve : AuditAction
  approval_reject : AuditAction
  approval_cancel : AuditAction
  approval_group_create : AuditAction
  approval_group_update : AuditAction
  approval_group_delete : AuditAction
  runner_config_create : AuditAction
  runner_config_update : AuditAction
  runner_config_delete : AuditAction
  runner_register : AuditAction
  runner_reregister : AuditAction
  runner_update : AuditAction
  runner_delete : AuditAction
  audit_query : AuditAction

-- `AuditAction::as_str`.
unfoldable pub as_str : AuditAction → String
as_str user_create = "user.create"
as_str user_update = "user.update"
as_str user_delete = "user.delete"
as_str user_login = "user.login"
as_str user_logout = "user.logout"
as_str user_password_change = "user.password_change"
as_str asset_group_create = "asset.group.create"
as_str asset_group_update = "asset.group.update"
as_str asset_group_delete = "asset.group.delete"
as_str host_create = "asset.host.create"
as_str host_update = "asset.host.update"
as_str host_delete = "asset.host.delete"
as_str job_create = "job.create"
as_str job_cancel = "job.cancel"
as_str job_retry = "job.retry"
as_str job_execute = "job.execute"
as_str job_output_view = "job.output_view"
as_str build_create = "build.create"
as_str build_execute = "build.execute"
as_str build_cancel = "build.cancel"
as_str build_retry = "build.retry"
as_str artifact_create = "artifact.create"
as_str artifact_update = "artifact.update"
as_str artifact_delete = "artifact.delete"
as_str artifact_download = "artifact.download"
as_str role_create = "role.create"
as_str role_update = "role.update"
as_str role_delete = "role.delete"
as_str role_binding_create = "role_binding.create"
as_str role_binding_delete = "role_binding.delete"
as_str approval_create = "approval.create"
as_str approval_approve = "approval.approve"
as_str approval_reject = "approval.reject"
as_str approval_cancel = "approval.cancel"
as_str approval_group_create = "approval_group.create"
as_str approval_group_update = "approval_group.update"
as_str approval_group_delete = "approval_group.delete"
as_str runner_config_create = "runner_config.create"
as_str runner_config_update = "runner_config.update"
as_str runner_config_delete = "runner_config.delete"
as_str runner_register = "runner.register"
as_str runner_reregister = "runner.re_register"
as_str runner_update = "runner.update"
as_str runner_delete = "runner.delete"
as_str audit_query = "audit.query"

pub record AuditLog : Type 0 where
  pub id : Uuid
  pub subject_id : Uuid
  pub subject_type : String
  pub subject_name : Option String
  pub action : String
  pub resource_type : String
  pub resource_id : Option Uuid
  pub resource_name : Option String
  pub changes : Option String
  pub changes_summary : Option String
  pub source_ip : Option String
  pub user_agent : Option String
  pub trace_id : Option String
  pub request_id : Option String
  pub result : String
  pub error_message : Option String
  pub occurred_at : DateTime

-- `log_action_simple`, which fills the parameters of `log_action`, and the entry that this builds.
-- The entry's id and time come from outside.
unfoldable pub log_action_simple :
    Uuid
    → DateTime
    → Uuid
    → AuditAction
    → Option String
    → Option Uuid
    → Option String
    → Option String
    → AuditLog
unfolding as_str
log_action_simple id now subject action resource_type resource_id summary error_message = record {
  id = id;
  subject_id = subject;
  subject_type = "user";
  subject_name = none;
  action = as_str action;
  resource_type = get_or resource_type "unknown";
  resource_id = resource_id;
  resource_name = none;
  changes = none;
  changes_summary = summary;
  source_ip = none;
  user_agent = none;
  trace_id = none;
  request_id = none;
  result = if is_some error_message then "failure" else "success";
  error_message = error_message;
  occurred_at = now;
}
