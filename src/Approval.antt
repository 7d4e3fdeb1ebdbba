-- ===== src/Approval.antt =====
-- src/ops-service/src/models/approval.rs and src/ops-service/src/services/approval_service.rs:
-- requests for approval and the votes on them. The tables and what the operations need from outside
-- stand here; the operations are in `Operations` and `Risk`.
pub mod Operations
pub mod Effects
pub mod Counts
pub mod Votes
pub mod Outcomes
pub mod Risk
mod Examples
use ops_service.Prelude.{
  ℕ, Uuid, DateTime, Bool, true, false, Option, none, some, List, [], String, if◌then◌else◌, ◌==◌,
  ltb, ◌&&◌, ◌≡◌, count,
}
use ops_service.Prelude.Int.{ℤ}
use ops_service.Audit.{AuditLog}

pub data ApprovalStatus : Type 0 where
  pending approved rejected cancelled timeout : ApprovalStatus

pub data ApprovalTrigger : Type 0 where
  production_environment critical_group high_risk_command : ApprovalTrigger
  target_count_threshold custom_rule : ApprovalTrigger

-- `current_approvals` is an i32 that starts at 0 and only grows, by one for a vote.
-- The metadata is kept as its JSON text, which nothing reads.
pub record ApprovalRequest : Type 0 where
  pub id : Uuid
  pub job_id : Option Uuid
  pub request_type : String
  pub title : String
  pub description : Option String
  pub triggers : List ApprovalTrigger
  pub required_approvers : ℤ
  pub approval_group_id : Option Uuid
  pub status : ApprovalStatus
  pub current_approvals : ℕ
  pub requested_by : Uuid
  pub requested_at : DateTime
  pub timeout_mins : Option ℕ
  pub expires_at : Option DateTime
  pub created_at : DateTime
  pub updated_at : DateTime
  pub completed_at : Option DateTime
  pub metadata : String

pub record ApprovalRecord : Type 0 where
  pub id : Uuid
  pub approval_request_id : Uuid
  pub approver_id : Uuid
  pub approver_name : String
  pub decision : ApprovalStatus
  pub comment : Option String
  pub approved_at : DateTime
  pub created_at : DateTime

pub record CreateApprovalRequest : Type 0 where
  pub job_id : Option Uuid
  pub request_type : String
  pub title : String
  pub description : Option String
  pub triggers : List ApprovalTrigger
  pub required_approvers : ℤ
  pub approval_group_id : Option Uuid
  pub timeout_mins : Option ℕ
  pub metadata : String

pub record ApproveRequest : Type 0 where
  pub decision : ApprovalStatus
  pub comment : Option String

-- The events of src/ops-service/src/realtime/mod.rs that this service publishes.
pub data ApprovalEvent : Type 0 where
  new_approval_request : Uuid → Option Uuid → String → Uuid → ApprovalEvent
  approval_status_changed : Uuid → String → String → ApprovalEvent

pub record Store : Type 0 where
  pub requests : List ApprovalRequest
  pub records : List ApprovalRecord
  pub audits : List AuditLog
  pub events : List ApprovalEvent

-- The calls that leave the program.
pub data Call : Type 0 where
  begin_tx insert_request fetch_request mark_timeout count_records insert_record : Call
  update_request commit_tx cancel_update insert_audit publish : Call

-- What the calls of one operation meet: which of them succeed, the ids that are generated, and the
-- readings of the clocks.
pub record Env : Type 0 where
  pub answered : Call → Bool
  pub fresh_id : Uuid
  pub audit_id : Uuid
  pub tx_time : DateTime
  pub check_time : DateTime
  pub done_time : DateTime

abbrev pub is_pending : ApprovalStatus → Bool
is_pending pending = true
is_pending _ = false

abbrev pub is_approved : ApprovalStatus → Bool
is_approved approved = true
is_approved _ = false

abbrev pub is_rejected : ApprovalStatus → Bool
is_rejected rejected = true
is_rejected _ = false

-- `if let Some(expires_at) = … { if Utc::now() > expires_at`
abbrev pub is_expired : DateTime → Option DateTime → Bool
is_expired now none = false
is_expired now (some t) = ltb t now

-- `WHERE approval_request_id = $1 AND approver_id = $2`
abbrev pub is_vote_of : Uuid → Uuid → ApprovalRecord → Bool
is_vote_of request approver v = v.approval_request_id == request && v.approver_id == approver

-- The approving votes on a request.
abbrev pub is_approval_of : Uuid → ApprovalRecord → Bool
is_approval_of request v = v.approval_request_id == request && is_approved v.decision

abbrev pub votes : Uuid → Uuid → Store → ℕ
votes request approver s = count (is_vote_of request approver) s.records

abbrev pub approvals : Uuid → Store → ℕ
approvals request s = count (is_approval_of request) s.records
