-- ===== src/Approval/Examples.antt =====
-- Runs of the approval operations at concrete inputs.
use ops_service.Prelude.{◌≡◌, refl, true, false, none, some, List, [], ◌∷◌, find, ◌==◌}
use ops_service.Prelude.Int.{pos}
use ops_service.Prelude.Bytes.{Bytes, codes}
use ops_service.Error.{ok, err, database_error}
use ops_service.Approval.{
  pending, approved, rejected, ApprovalRequest, CreateApprovalRequest, ApproveRequest, Store, Env,
  insert_audit,
}
use ops_service.Approval.Operations.{
  create_approval_request, approve_request, cancel_approval_request,
}
use ops_service.Approval.Counts.{IsValid}
use ops_service.Approval.Votes.{
  Operation, create, approve, cancel, step, run, empty_store, VotesOnce, run_sound,
}
use ops_service.Approval.Outcomes.{approve_accepts}
use mathlib.Core.List.{Memᴰ}
use ops_service.Approval.Risk.{Risky, dangerous, check_job_requires_approval, requires_approval_iff}

-- Every call is answered; the ids are given.
abbrev calm : Env
calm = record {
  answered = λ _. true;
  fresh_id = 7;
  audit_id = 8;
  tx_time = 100;
  check_time = 100;
  done_time = 101;
}

abbrev no_audit : Env
no_audit = record calm { answered = λ c. elim c [ insert_audit ↦ false | _ ↦ true ] }

abbrev deploy : CreateApprovalRequest
deploy = record {
  job_id = some 3;
  request_type = "job_execution";
  title = "Deploy";
  description = none;
  triggers = [];
  required_approvers = pos 2;
  approval_group_id = none;
  timeout_mins = some 10;
  metadata = "{}";
}

abbrev yes_vote : ApproveRequest
yes_vote = record { decision = approved; comment = none }

-- A request for two approvals that has one.
abbrev waiting : ApprovalRequest
waiting = record {
  id = 7;
  job_id = some 3;
  request_type = "job_execution";
  title = "Deploy";
  description = none;
  triggers = [];
  required_approvers = pos 3;
  approval_group_id = none;
  status = pending;
  current_approvals = 0;
  requested_by = 1;
  requested_at = 100;
  timeout_mins = some 10;
  expires_at = some 700;
  created_at = 100;
  updated_at = 100;
  completed_at = none;
  metadata = "{}";
}

abbrev open_store : Store
open_store = record { requests = waiting ∷ []; records = []; audits = []; events = [] }

abbrev closed_store : Store
closed_store = record open_store {
  requests = record waiting { status = rejected; completed_at = some 200 } ∷ [];
}

abbrev history : List Operation
history =
    create calm deploy 1
    ∷ approve calm 7 2 "Ann" yes_vote
    ∷ approve calm 7 3 "Bob" yes_vote
    ∷ cancel calm 7 1
    ∷ []

history_approves :
    find (λ r. r.id == 7) (run empty_store history).requests
    ≡ some (record waiting {
      required_approvers = pos 2;
      status = approved;
      current_approvals = 2;
      completed_at = some 101;
    })
unfolding run step create_approval_request approve_request cancel_approval_request
history_approves = refl

run_sound_example : IsValid (run empty_store history) × VotesOnce (run empty_store history)
run_sound_example = run_sound history ((refl, refl), (tt, (tt, (tt, tt))))

approve_accepts_example : (approve_request calm 7 2 "Ann" yes_vote open_store).1 ≡ ok tt
approve_accepts_example =
    (approve_accepts calm (λ c. refl) 7 2 "Ann" yes_vote open_store waiting refl).1
      (refl, refl, refl)

audit_fails : (approve_request no_audit 7 2 "Ann" yes_vote open_store).1 ≡ err database_error
unfolding approve_request
audit_fails = refl

abbrev lower : Bytes → Bytes
lower text = text

reboots : Risky lower (λ _. false) (some (codes "sudo reboot")) []
reboots =
    dangerous (codes "reboot")
      (Memᴰ.tail
        (Memᴰ.tail (Memᴰ.tail (Memᴰ.tail (Memᴰ.tail (Memᴰ.tail (Memᴰ.tail (Memᴰ.head refl))))))))
      (codes "sudo ", [], refl)

requires_approval_iff_example :
    check_job_requires_approval lower (λ _. false) (some (codes "sudo reboot")) [] ≡ true
requires_approval_iff_example =
    (requires_approval_iff lower (λ _. false) (some (codes "sudo reboot")) []).0 reboots
