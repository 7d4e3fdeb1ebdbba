-- ===== src/Approval/Votes.antt =====
-- At most one vote of an approver on a request, and histories of operations.
use ops_service.Prelude.{Uuid, ◌≤◌, inl, inr, List, [], ◌∷◌, String, arith}
use ops_service.Prelude.Keys.{count-append}
use ops_service.Approval.{
  ApprovalRequest, CreateApprovalRequest, ApproveRequest, Store, Env, is_vote_of, votes,
}
use ops_service.Approval.Operations.{
  create_approval_request, approve_request, cancel_approval_request, new_record,
}
use ops_service.Approval.Effects.{approve_effect, create_effect, cancel_effect, IsVoted}
use ops_service.Approval.Counts.{IsValid, IsFresh, approve-IsValid, create-IsValid, cancel-IsValid}

-- No approver has two votes on one request.
abbrev pub VotesOnce : Store → Type 0
VotesOnce s = (id approver : Uuid) → votes id approver s ≤ 1

module _ (env : Env) (id approver : Uuid) (name : String) (request : ApproveRequest) where
  voted-once :
      (s t : Store) (req : ApprovalRequest)
      → IsVoted env id approver name request s t req
      → VotesOnce s
      → VotesOnce t
  voted-once s t req (_, _, _, unvoted, _, records) once i a = rw records (
      ground (
        arith,
        once i a,
        count-append (is_vote_of i a) s.records (new_record env id approver name request ∷ []),
      ))

  pub approve-VotesOnce :
      (s : Store) → VotesOnce s → VotesOnce (approve_request env id approver name request s).0
  approve-VotesOnce s once = elim (approve_effect env id approver name request s) [
    | inl same ↦ λ i a. rw same.1 (once i a)
    | inr (req, change) ↦ elim change [
      | inl late ↦ λ i a. rw late.4 (once i a)
      | inr done ↦ voted-once s (approve_request env id approver name request s).0 req done once
    ]
  ]

-- The operations of a history, each with what its calls meet.
pub data Operation : Type 0 where
  create : Env → CreateApprovalRequest → Uuid → Operation
  approve : Env → Uuid → Uuid → String → ApproveRequest → Operation
  cancel : Env → Uuid → Uuid → Operation

unfoldable pub step : Store → Operation → Store
step s (create env request by) = (create_approval_request env request by s).0
step s (approve env id approver name request) = (approve_request env id approver name request s).0
step s (cancel env id by) = (cancel_approval_request env id by s).0

unfoldable pub run : Store → List Operation → Store
run s [] = s
run s (o ∷ os) = run (step s o) os

-- A creation generates an id that is new.
abbrev pub IsFreshFor : Store → Operation → Type 0
IsFreshFor s (create env request by) = IsFresh env.fresh_id s
IsFreshFor s (approve env id approver name request) = Unit
IsFreshFor s (cancel env id by) = Unit

-- Each creation of a history generates an id that is new at that point.
abbrev pub FreshIds : Store → List Operation → Type 0
FreshIds s [] = Unit
FreshIds s (o ∷ os) = IsFreshFor s o × FreshIds (step s o) os

step-IsValid : (s : Store) (o : Operation) → IsFreshFor s o → IsValid s → IsValid (step s o)
unfolding step
step-IsValid s (create env request by) fresh v = create-IsValid env request by fresh v
step-IsValid s (approve env id approver name request) fresh v =
    approve-IsValid env id approver name request v
step-IsValid s (cancel env id by) fresh v = cancel-IsValid env id by v

step-VotesOnce : (s : Store) (o : Operation) → VotesOnce s → VotesOnce (step s o)
unfolding step
step-VotesOnce s (create env request by) once i a = rw (create_effect env request by s).0 (once i a)
step-VotesOnce s (approve env id approver name request) once i a =
    approve-VotesOnce env id approver name request s once i a
step-VotesOnce s (cancel env id by) once i a = rw (cancel_effect env id by s).0 (once i a)

run-IsValid : (s : Store) (os : List Operation) → FreshIds s os → IsValid s → IsValid (run s os)
unfolding run
run-IsValid s [] fresh v = v
run-IsValid s (o ∷ os) fresh v = run-IsValid (step s o) os fresh.1 (step-IsValid s o fresh.0 v)

run-VotesOnce : (s : Store) (os : List Operation) → VotesOnce s → VotesOnce (run s os)
unfolding run
run-VotesOnce s [] once = once
run-VotesOnce s (o ∷ os) once = run-VotesOnce (step s o) os (step-VotesOnce s o once)

abbrev pub empty_store : Store
empty_store = record { requests = []; records = []; audits = []; events = [] }

-- After any history of creations, votes and cancellations that starts with empty tables and in which
-- created ids are new, whichever calls fail: request ids are unique, every counter is the number of
-- approving votes, an approved request has the approvals that it asks for, completion times are set
-- exactly on the requests that are not pending, and nobody has two votes on one request.
pub run_sound :
    (os : List Operation)
    → FreshIds empty_store os
    → IsValid (run empty_store os) × VotesOnce (run empty_store os)
run_sound os fresh = (
  run-IsValid empty_store os fresh (record { keyed = tt; counted = tt; settled = tt }),
  run-VotesOnce empty_store os (λ _ _. omega arith),
)
