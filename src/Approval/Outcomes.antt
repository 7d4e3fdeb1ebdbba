-- ===== src/Approval/Outcomes.antt =====
-- The results of a vote and of a cancellation on every branch.
use ops_service.Prelude.{
  Uuid, ◌<◌, ◌≡◌, ◌≢◌, ◌↔◌, ◌⊎◌, refl, true, false, none, some, [], ◌∷◌, String, ◌==◌, find, any,
  update_where, arith, find-update_where, update_where-any-false,
}
use ops_service.Prelude.Keys.{count-append}
use ops_service.Error.{ok, err, AppError, validation, not_found}
use ops_service.Approval.{
  pending, ApprovalRequest, ApproveRequest, Store, Env, Call, insert_audit, publish, begin_tx,
  commit_tx, fetch_request, count_records, insert_record, update_request, cancel_update, is_expired,
  is_vote_of, votes,
}
use ops_service.Approval.Operations.{
  approve_request, cancel_approval_request, new_record, is_pending_request,
}
use ops_service.Approval.Effects.{IsUntouched, IsVoted, IsTimedOut, voted, withdrawn}

-- A request that is no longer pending takes no vote: the tables of requests and votes stay as they
-- are and the caller gets no `Ok`, whichever calls fail.
pub settled_absorbs :
    (env : Env) (id user : Uuid) (name : String) (request : ApproveRequest) (s : Store)
    (req : ApprovalRequest)
    → find (λ r. r.id == id) s.requests ≡ some req
    → req.status ≢ pending
    → IsUntouched s (approve_request env id user name request s).0
      × ((approve_request env id user name request s).1 ≢ ok tt)
unfolding approve_request
settled_absorbs env id user name request s req e h = ground arith

-- With every call answered, the result of a vote is decided by the request's state.
module _ (env : Env) (answers : (c : Call) → env.answered c ≡ true) (id user : Uuid) (name : String)
    (request : ApproveRequest) (s : Store) where
  pub approve_missing_err :
      find (λ r. r.id == id) s.requests ≡ none
      → (approve_request env id user name request s).1
        ≡ err (not_found "Approval request not found")
  unfolding approve_request
  approve_missing_err e = ground (arith, answers begin_tx, answers fetch_request)

  -- With every call answered, a vote on an existing request returns `Ok` exactly if the request is
  -- pending, has not expired, and holds no vote of that approver yet.
  pub approve_accepts :
      (req : ApprovalRequest)
      → find (λ r. r.id == id) s.requests ≡ some req
      → ((approve_request env id user name request s).1 ≡ ok tt) ↔ (
          (req.status ≡ pending)
          × (is_expired env.check_time req.expires_at ≡ false)
          × (votes id user s ≡ 0))
  unfolding approve_request
  approve_accepts req e = (
    λ h. ground (arith, answers begin_tx, answers fetch_request),
    λ h. ground (
      arith,
      answers begin_tx,
      answers fetch_request,
      answers count_records,
      answers insert_record,
      answers update_request,
      answers commit_tx,
      answers insert_audit,
      answers publish,
    ),
  )

module _ (env : Env) (id user : Uuid) (name : String) (request : ApproveRequest) (s : Store)
    (req : ApprovalRequest) (e : find (λ r. r.id == id) s.requests ≡ some req) where
  -- A vote that returns `Ok` has written exactly one vote and the request's new state.
  pub approve_ok_effect :
      (approve_request env id user name request s).1 ≡ ok tt
      → IsVoted env id user name request s (approve_request env id user name request s).0 req
  unfolding approve_request
  approve_ok_effect h = ground arith

  -- A vote that returns an error has left requests and votes untouched, or has marked the request as
  -- timed out and says so, or is fully written while its audit entry or its event failed.
  pub approve_err_effect :
      (x : AppError)
      → (approve_request env id user name request s).1 ≡ err x
      → let t = (approve_request env id user name request s).0 in
        IsUntouched s t
        ⊎ (IsTimedOut env id user name request s t req
            × (x ≡ validation "Approval request has expired"))
        ⊎ (IsVoted env id user name request s t req
            × ((env.answered insert_audit ≡ false) ⊎ (env.answered publish ≡ false)))
  unfolding approve_request
  approve_err_effect x h = ground arith

module _ (later : Env) (answers : (c : Call) → later.answered c ≡ true) (id user : Uuid)
    (name : String) (again : ApproveRequest) (t : Store) (row : ApprovalRequest) where
  repeat_refused :
      find (λ r. r.id == id) t.requests ≡ some row
      → row.status ≡ pending
      → is_expired later.check_time row.expires_at ≡ false
      → 0 < votes id user t
      → (approve_request later id user name again t).1
        ≡ err (validation "Already approved or rejected this request")
  unfolding approve_request
  repeat_refused e still fresh more =
      ground (arith, answers begin_tx, answers fetch_request, answers count_records)

module _ (env later : Env) (answers : (c : Call) → later.answered c ≡ true) (id user : Uuid)
    (name : String) (request again : ApproveRequest) (s : Store) (req : ApprovalRequest) where
  -- After a vote that returned `Ok` and left the request pending, the same approver's next vote on
  -- it, before it expires and with every call answered, is refused, whatever both decisions are.
  pub second_vote_refused :
      find (λ r. r.id == id) s.requests ≡ some req
      → (approve_request env id user name request s).1 ≡ ok tt
      → (voted env request req req).status ≡ pending
      → is_expired later.check_time req.expires_at ≡ false
      → (approve_request later id user name again (approve_request env id user name request s).0).1
        ≡ err (validation "Already approved or rejected this request")
  second_vote_refused e h still fresh =
      let t = (approve_request env id user name request s).0 in
      let done : IsVoted env id user name request s t req =
        approve_ok_effect env id user name request s req e h in
      repeat_refused later answers id user name again t (voted env request req req)
        (rw done.4 (
          find-update_where (λ r. r.id == id) (voted env request req) s.requests req (λ r. refl) e))
        still fresh
        (rw done.5 (
          ground (
            arith,
            count-append (is_vote_of id user) s.records (new_record env id user name request ∷ []),
          )))

-- With every call answered, a cancellation succeeds exactly if a pending request has the id, and
-- whatever it returns, exactly such rows are marked as cancelled.
pub cancel_result :
    (env : Env)
    → ((c : Call) → env.answered c ≡ true)
    → (id by : Uuid) (s : Store)
    → let (t, result) = cancel_approval_request env id by s in
      ((result ≡ ok tt) ↔ (any (is_pending_request id) s.requests ≡ true))
      × (t.requests ≡ update_where (is_pending_request id) (withdrawn env) s.requests)
unfolding cancel_approval_request
cancel_result env answers id by s = (
  (
    (λ h. ground (arith, answers cancel_update)),
    (λ h. ground (arith, answers cancel_update, answers insert_audit)),
  ),
  ground (
    arith,
    answers cancel_update,
    update_where-any-false (is_pending_request id) (withdrawn env) s.requests,
  ),
)
