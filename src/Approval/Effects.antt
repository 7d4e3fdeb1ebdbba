-- ===== src/Approval/Effects.antt =====
-- What each operation does to the tables of requests and votes, over all outcomes of its calls.
use ops_service.Prelude.{
  Uuid, ◌≡◌, ◌⊎◌, inl, inr, true, false, none, some, [], ◌∷◌, ◌++◌, String, ◌==◌, find,
  update_where, arith, Option-cases,
}
use ops_service.Approval.{
  pending, timeout, cancelled, ApprovalRequest, CreateApprovalRequest, ApproveRequest, Store, Env,
  is_expired, votes,
}
use ops_service.Approval.Operations.{
  create_approval_request, approve_request, cancel_approval_request, new_request, new_record,
  count_vote, status_after, completion, is_pending_request,
}

abbrev pub IsUntouched : Store → Store → Type 0
IsUntouched s t = (t.requests ≡ s.requests) × (t.records ≡ s.records)

-- The row after the request was marked as timed out.
abbrev pub timed_out : Env → ApprovalRequest → ApprovalRequest
timed_out env r = record r { status = timeout; completed_at = some env.tx_time }

abbrev pub withdrawn : Env → ApprovalRequest → ApprovalRequest
withdrawn env r = record r {
  status = cancelled;
  completed_at = some env.tx_time;
  updated_at = env.tx_time;
}

-- The row after a vote, where `req` is the row that was read.
abbrev pub voted : Env → ApproveRequest → ApprovalRequest → ApprovalRequest → ApprovalRequest
voted env request req r =
    let current = count_vote request.decision req.current_approvals in
    let new_status = status_after request.decision current req.required_approvers in
    record r {
      status = new_status;
      current_approvals = current;
      completed_at = completion new_status env.done_time;
      updated_at = env.tx_time;
    }

module _ (env : Env) (id approver : Uuid) (name : String) (request : ApproveRequest)
    (s : Store) where
  abbrev pub IsTimedOut : Store → ApprovalRequest → Type 0
  IsTimedOut t req =
      (find (λ r. r.id == id) s.requests ≡ some req)
      × (req.status ≡ pending)
      × (is_expired env.check_time req.expires_at ≡ true)
      × (t.requests ≡ update_where (λ r. r.id == id) (timed_out env) s.requests)
      × (t.records ≡ s.records)

  abbrev pub IsVoted : Store → ApprovalRequest → Type 0
  IsVoted t req =
      (find (λ r. r.id == id) s.requests ≡ some req)
      × (req.status ≡ pending)
      × (is_expired env.check_time req.expires_at ≡ false)
      × (votes id approver s ≡ 0)
      × (t.requests ≡ update_where (λ r. r.id == id) (voted env request req) s.requests)
      × (t.records ≡ s.records ++ new_record env id approver name request ∷ [])

  abbrev pub ApproveEffect : Store → Type 0
  ApproveEffect t = IsUntouched s t ⊎ ((req : ApprovalRequest) × (IsTimedOut t req ⊎ IsVoted t req))

  approve_found :
      (req : ApprovalRequest)
      → find (λ r. r.id == id) s.requests ≡ some req
      → let t = (approve_request env id approver name request s).0 in
        IsUntouched s t ⊎ (IsTimedOut t req ⊎ IsVoted t req)
  unfolding approve_request
  approve_found req e = ground arith

  approve_missing :
      find (λ r. r.id == id) s.requests ≡ none
      → IsUntouched s (approve_request env id approver name request s).0
  unfolding approve_request
  approve_missing e = ground arith

  pub approve_effect : ApproveEffect (approve_request env id approver name request s).0
  approve_effect = elim (Option-cases (find (λ r. r.id == id) s.requests)) [
    | inl e ↦ inl (approve_missing e)
    | inr (req, e) ↦ elim (approve_found req e) [
      | inl same ↦ inl same
      | inr changed ↦ inr (req, changed)
    ]
  ]

pub create_effect :
    (env : Env) (request : CreateApprovalRequest) (by : Uuid) (s : Store)
    → let t = (create_approval_request env request by s).0 in
      (t.records ≡ s.records)
      × ((t.requests ≡ s.requests) ⊎ (t.requests ≡ s.requests ++ new_request env request by ∷ []))
unfolding create_approval_request
create_effect env request by s = ground arith

pub cancel_effect :
    (env : Env) (id by : Uuid) (s : Store)
    → let t = (cancel_approval_request env id by s).0 in
      (t.records ≡ s.records)
      × ((t.requests ≡ s.requests)
          ⊎ (t.requests ≡ update_where (is_pending_request id) (withdrawn env) s.requests))
unfolding cancel_approval_request
cancel_effect env id by s = ground arith
