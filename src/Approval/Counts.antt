-- ===== src/Approval/Counts.antt =====
-- The invariant of the tables: keys are unique, counters count the approving votes, and a status
-- agrees with the counter and with the completion time.
use ops_service.Prelude.{
  ℕ, Uuid, ◌≡◌, inl, inr, refl, not, none, some, List, [], ◌∷◌, ◌++◌, String, ◌==◌, is_some, All,
  find, count, update_where, arith, All-append, find_passes, sym,
}
use ops_service.Prelude.Int.{pos, ◌≤ℤ◌}
use ops_service.Prelude.Keys.{
  Keyed, All-find, All-update_where, All-update_key, Keyed-update_where, Keyed-append_one,
  count-append,
}
use ops_service.Approval.{
  approved, ApprovalRequest, ApprovalRecord, CreateApprovalRequest, ApproveRequest, Store, Env,
  is_pending, is_approval_of, approvals,
}
use ops_service.Approval.Operations.{
  create_approval_request, approve_request, cancel_approval_request, new_record, new_request,
  is_pending_request,
}
use ops_service.Approval.Effects.{
  timed_out, withdrawn, voted, approve_effect, create_effect, cancel_effect, IsTimedOut, IsVoted,
  IsUntouched,
}

abbrev pub request_key : ApprovalRequest → ℕ
request_key r = r.id

-- The counter is the number of the approving votes.
abbrev pub IsCounted : List ApprovalRecord → ApprovalRequest → Type 0
IsCounted votes r = r.current_approvals ≡ count (is_approval_of r.id) votes

-- An approved request has the approvals that it asks for, and the completion time is set when the
-- request is no longer pending.
abbrev pub IsSettled : ApprovalRequest → Type 0
IsSettled r =
    (r.status ≡ approved → r.required_approvers ≤ℤ pos r.current_approvals)
    × (is_some r.completed_at ≡ not (is_pending r.status))

pub record IsValid (s : Store) : Type 0 where
  pub keyed : Keyed request_key s.requests
  pub counted : All (IsCounted s.records) s.requests
  pub settled : All IsSettled s.requests

timed_out-IsSettled : (env : Env) (r : ApprovalRequest) → IsSettled (timed_out env r)
timed_out-IsSettled env r = ground arith

withdrawn-IsSettled : (env : Env) (r : ApprovalRequest) → IsSettled (withdrawn env r)
withdrawn-IsSettled env r = ground arith

new-IsSettled :
    (env : Env) (request : CreateApprovalRequest) (by : Uuid)
    → IsSettled (new_request env request by)
new-IsSettled env request by = ground arith

key-found :
    {id : Uuid} (xs : List ApprovalRequest) (req : ApprovalRequest)
    → find (λ r. r.id == id) xs ≡ some req
    → req.id ≡ id
key-found xs req e = ground (arith, find_passes _ xs req e)

untouched-IsValid : (s t : Store) → IsUntouched s t → IsValid s → IsValid t
untouched-IsValid s t (requests, records) v = record {
  keyed = rw requests v.keyed;
  counted = rw (requests, records) v.counted;
  settled = rw requests v.settled;
}

module _ (env : Env) (id approver : Uuid) (name : String) (request : ApproveRequest) where
  IsCounted-voted :
      (votes : List ApprovalRecord) (req : ApprovalRequest) (xs : List ApprovalRequest)
      → req.id ≡ id
      → IsCounted votes req
      → All (IsCounted votes) xs
      → All
          (IsCounted (votes ++ new_record env id approver name request ∷ []))
          (update_where (λ r. r.id == id) (voted env request req) xs)
  IsCounted-voted votes req [] e c h = tt
  IsCounted-voted votes req (x ∷ xs) e c h = ground (
    arith,
    count-append (is_approval_of x.id) votes (new_record env id approver name request ∷ []),
    IsCounted-voted votes req xs e c h.1,
  )

  IsSettled-voted : (req : ApprovalRequest) → IsSettled (voted env request req req)
  IsSettled-voted req = ground arith

  -- A valid row with the tested key, after the vote of which it was the row that was read.
  voted-IsValid :
      (s t : Store) (req : ApprovalRequest)
      → IsVoted env id approver name request s t req
      → IsValid s
      → IsValid t
  voted-IsValid s t req (e, _, _, _, requests, records) v = record {
    keyed = rw requests (Keyed-update_where request_key _ _ s.requests (λ r. refl) v.keyed);
    counted =
        rw (requests, records)
          (IsCounted-voted s.records req s.requests (key-found s.requests req e)
            (All-find (IsCounted s.records) _ s.requests req v.counted e) v.counted);
    settled = rw requests (
        All-update_key request_key IsSettled id _ s.requests req v.keyed e (IsSettled-voted req)
          v.settled);
  }

  timed_out-IsValid :
      (s t : Store) (req : ApprovalRequest)
      → IsTimedOut env id approver name request s t req
      → IsValid s
      → IsValid t
  timed_out-IsValid s t req (e, _, _, requests, records) v = record {
    keyed = rw requests (Keyed-update_where request_key _ _ s.requests (λ r. refl) v.keyed);
    counted =
        rw (requests, records)
          (All-update_where (IsCounted s.records) _ _ s.requests (λ r c _. c) v.counted);
    settled = rw requests (
        All-update_where IsSettled (λ r. r.id == id) (timed_out env) s.requests
          (λ r c _. timed_out-IsSettled env r) v.settled);
  }

  -- Every vote keeps the tables valid, whichever of its calls fail.
  pub approve-IsValid :
      {s : Store} → IsValid s → IsValid (approve_request env id approver name request s).0
  approve-IsValid {s} v = elim (approve_effect env id approver name request s) [
    | inl same ↦ untouched-IsValid s _ same v
    | inr (req, change) ↦ elim change [
      | inl late ↦ timed_out-IsValid s _ req late v
      | inr done ↦ voted-IsValid s _ req done v
    ]
  ]

-- A new request brings a new key, and no vote refers to it yet.
abbrev pub IsFresh : Uuid → Store → Type 0
IsFresh id s = (find (λ r. r.id == id) s.requests ≡ none) × (approvals id s ≡ 0)

pub create-IsValid :
    (env : Env) (request : CreateApprovalRequest) (by : Uuid) {s : Store}
    → IsFresh env.fresh_id s
    → IsValid s
    → IsValid (create_approval_request env request by s).0
create-IsValid env request by {s} (fresh, unvoted) v =
    let (records, requests) = create_effect env request by s in
    elim requests [
      | inl same ↦ untouched-IsValid s _ (same, records) v
      | inr added ↦ record {
        keyed = rw added (Keyed-append_one request_key s.requests _ v.keyed fresh);
        counted =
            rw (added, records)
              (All-append (IsCounted s.records) s.requests _ v.counted (sym unvoted, tt));
        settled =
            rw added
              (All-append IsSettled s.requests _ v.settled (new-IsSettled env request by, tt));
      }
    ]

pub cancel-IsValid :
    (env : Env) (id by : Uuid) {s : Store}
    → IsValid s
    → IsValid (cancel_approval_request env id by s).0
cancel-IsValid env id by {s} v =
    let (records, requests) = cancel_effect env id by s in
    elim requests [
      | inl same ↦ untouched-IsValid s _ (same, records) v
      | inr changed ↦ record {
        keyed = rw changed (Keyed-update_where request_key _ _ s.requests (λ r. refl) v.keyed);
        counted =
            rw (changed, records)
              (All-update_where (IsCounted s.records) _ _ s.requests (λ r c _. c) v.counted);
        settled = rw changed (
            All-update_where IsSettled (is_pending_request id) (withdrawn env) s.requests
              (λ r c _. withdrawn-IsSettled env r) v.settled);
      }
    ]
