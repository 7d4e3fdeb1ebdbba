-- ===== src/Approval/Operations.antt =====
-- `create_approval_request`, `get_approval_request`, `approve_request` and
-- `cancel_approval_request` of src/ops-service/src/services/approval_service.rs. `SELECT … FOR UPDATE`
-- holds the request's row until the transaction ends, so an operation on it is one step.
use ops_service.Prelude.{
  ℕ, Uuid, DateTime, ◌+◌, ◌*◌, Bool, true, not, Option, none, some, [], ◌∷◌, ◌++◌, String,
  if◌then◌else◌, ltb, ◌==◌, ◌&&◌, ◌||◌, find, any, update_where,
}
use Prim.Native.String.{◌++◌ as str_append}
use ops_service.Prelude.Int.{ℤ, pos, leb_ℤ}
use ops_service.Error.{
  Act, ◌>>=◌, ◌>>◌, pure, fail, refuse_if, or_fail, execute, fetch, transaction, database,
  database_error, validation, not_found, internal,
}
use ops_service.Audit.{
  AuditAction, approval_create, approval_approve, approval_reject, approval_cancel,
  log_action_simple,
}
use ops_service.Approval.{
  ApprovalStatus, pending, approved, rejected, cancelled, timeout, ApprovalRequest, ApprovalRecord,
  CreateApprovalRequest, ApproveRequest, ApprovalEvent, new_approval_request,
  approval_status_changed, Store, begin_tx, insert_request, fetch_request, mark_timeout,
  count_records, insert_record, update_request, commit_tx, cancel_update, insert_audit, publish,
  Env, is_pending, is_approved, is_rejected, is_expired, votes,
}

-- `self.audit_service.log_action_simple(…).await?` of an operation on a request.
abbrev pub write_audit : Env → Uuid → AuditAction → Uuid → String → Act Store (Unit {0})
write_audit env subject action id summary = execute (env.answered insert_audit) database_error λ s.
    record s {
      audits =
          s.audits
          ++ log_action_simple env.audit_id env.done_time subject action (some "approval") (some id)
              (some summary) none
            ∷ [];
    }

-- `self.event_bus.publish(event)?`
abbrev publish_event : Env → ApprovalEvent → Act Store (Unit {0})
publish_event env event =
    execute (env.answered publish) (internal "Failed to publish event")
      λ s. record s { events = s.events ++ event ∷ [] }

-- `request.timeout_mins.map(|timeout_mins| Utc::now() + Duration::minutes(timeout_mins))`
abbrev pub expiry : DateTime → Option ℕ → Option DateTime
expiry now none = none
expiry now (some mins) = some (now + mins * 60)

abbrev pub new_request : Env → CreateApprovalRequest → Uuid → ApprovalRequest
new_request env request requested_by = record {
  id = env.fresh_id;
  job_id = request.job_id;
  request_type = request.request_type;
  title = request.title;
  description = request.description;
  triggers = request.triggers;
  required_approvers = request.required_approvers;
  approval_group_id = request.approval_group_id;
  status = pending;
  current_approvals = 0;
  requested_by = requested_by;
  requested_at = env.tx_time;
  timeout_mins = request.timeout_mins;
  expires_at = expiry env.check_time request.timeout_mins;
  created_at = env.tx_time;
  updated_at = env.tx_time;
  completed_at = none;
  metadata = request.metadata;
}

-- `if let Some(job_id) = request.job_id { publish(NewApprovalRequest)? }`
abbrev pub announce : Env → CreateApprovalRequest → Uuid → Option Uuid → Act Store (Unit {0})
announce env request requested_by none = pure tt
announce env request requested_by (some job) =
    publish_event env (new_approval_request env.fresh_id (some job) request.title requested_by)

unfoldable pub create_approval_request :
    Env → CreateApprovalRequest → Uuid → Act Store ApprovalRequest
create_approval_request env request requested_by = do
  let row = new_request env request requested_by
  execute (env.answered insert_request) (database "Failed to create approval request")
      λ s. record s { requests = s.requests ++ row ∷ [] }
  write_audit env requested_by approval_create env.fresh_id
      (str_append "Approval request: " request.title)
  announce env request requested_by request.job_id
  pure row

unfoldable pub get_approval_request : Env → Uuid → Act Store ApprovalRequest
get_approval_request env id = do
  found ←
      fetch (env.answered fetch_request) (database "Failed to fetch approval request")
        λ s. find (λ r. r.id == id) s.requests
  or_fail found (not_found "Approval request not found")

-- `{:?}` of a status.
unfoldable pub debug : ApprovalStatus → String
debug pending = "Pending"
debug approved = "Approved"
debug rejected = "Rejected"
debug cancelled = "Cancelled"
debug timeout = "Timeout"

-- `current_approvals` after a vote.
abbrev pub count_vote : ApprovalStatus → ℕ → ℕ
count_vote decision current = if is_approved decision then current + 1 else current

-- `new_status`.
abbrev pub status_after : ApprovalStatus → ℕ → ℤ → ApprovalStatus
status_after decision current required =
    if is_rejected decision
    then rejected
    else if leb_ℤ required (pos current)
    then approved
    else pending

-- `completed_at`, which is written for a final status only.
abbrev pub completion : ApprovalStatus → DateTime → Option DateTime
completion new_status now =
    if is_approved new_status || is_rejected new_status then some now else none

-- What the transaction of a vote ends with.
pub data Outcome : Type 0 where
  expired : Outcome
  decided : ApprovalStatus → ApprovalStatus → Outcome

abbrev pub expire : Env → Uuid → Act Store Outcome
expire env id = do
  execute (env.answered mark_timeout) (database "Failed to update approval status") λ s. record s {
    requests =
        update_where (λ r. r.id == id)
          (λ r. record r { status = timeout; completed_at = some env.tx_time }) s.requests;
  }
  pure expired

abbrev pub new_record : Env → Uuid → Uuid → String → ApproveRequest → ApprovalRecord
new_record env id approver name request = record {
  id = env.fresh_id;
  approval_request_id = id;
  approver_id = approver;
  approver_name = name;
  decision = request.decision;
  comment = request.comment;
  approved_at = env.tx_time;
  created_at = env.tx_time;
}

abbrev pub vote : Env → Uuid → Uuid → String → ApproveRequest → ApprovalRequest → Act Store Outcome
vote env id approver name request req = do
  existing ←
      fetch (env.answered count_records) (database "Failed to check existing approval")
        (votes id approver)
  refuse_if (ltb 0 existing) (validation "Already approved or rejected this request")
  execute (env.answered insert_record) (database "Failed to create approval record")
      λ s. record s { records = s.records ++ new_record env id approver name request ∷ [] }
  let current = count_vote request.decision req.current_approvals
  let new_status = status_after request.decision current req.required_approvers
  execute (env.answered update_request) (database "Failed to update approval request") λ s.
      record s {
        requests =
            update_where (λ r. r.id == id)
              (λ r. record r {
                status = new_status;
                current_approvals = current;
                completed_at = completion new_status env.done_time;
                updated_at = env.tx_time;
              })
              s.requests;
      }
  pure (decided req.status new_status)

-- The statements between `begin` and `commit`.
unfoldable pub approve_in_tx : Env → Uuid → Uuid → String → ApproveRequest → Act Store Outcome
approve_in_tx env id approver name request = do
  found ←
      fetch (env.answered fetch_request) (database "Failed to fetch approval request")
        λ s. find (λ r. r.id == id) s.requests
  req ← or_fail found (not_found "Approval request not found")
  refuse_if (not (is_pending req.status)) (validation "Approval request is not pending")
  (if is_expired env.check_time req.expires_at
      then expire env id
      else vote env id approver name request req)

abbrev pub decision_action : ApprovalStatus → AuditAction
decision_action approved = approval_approve
decision_action rejected = approval_reject
decision_action _ = approval_create

-- What follows the commit.
abbrev pub after_commit : Env → Uuid → Uuid → ApproveRequest → Outcome → Act Store (Unit {0})
after_commit env id approver request expired = fail (validation "Approval request has expired")
after_commit env id approver request (decided old new) = do
  write_audit env approver (decision_action request.decision) id
      (str_append "Decision: " (debug request.decision))
  publish_event env (approval_status_changed id (debug old) (debug new))

unfoldable pub approve_request : Env → Uuid → Uuid → String → ApproveRequest → Act Store (Unit {0})
unfolding approve_in_tx
approve_request env id approver name request = do
  outcome ←
      transaction (env.answered begin_tx) (env.answered commit_tx)
        (approve_in_tx env id approver name request)
  after_commit env id approver request outcome

-- `WHERE id = $1 AND status = 'pending'`
abbrev pub is_pending_request : Uuid → ApprovalRequest → Bool
is_pending_request id r = r.id == id && is_pending r.status

unfoldable pub cancel_approval_request : Env → Uuid → Uuid → Act Store (Unit {0})
cancel_approval_request env id cancelled_by = do
  updated ←
      fetch (env.answered cancel_update) (database "Failed to cancel approval request")
        λ s. any (is_pending_request id) s.requests
  refuse_if (not updated) (validation "Approval request cannot be cancelled")
  execute true (database "Failed to cancel approval request") λ s. record s {
    requests =
        update_where (is_pending_request id)
          (λ r. record r {
            status = cancelled;
            completed_at = some env.tx_time;
            updated_at = env.tx_time;
          })
          s.requests;
  }
  write_audit env cancelled_by approval_cancel id "Cancelled approval request"
