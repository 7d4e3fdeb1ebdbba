-- ===== src/Job/Miscount.antt =====
-- Commands that run to their end are counted as successes, whatever their exit codes.
use ops_service.Prelude.{◌≡◌, false, some, List, ◌==◌, find}
use ops_service.Prelude.Bytes.{Bytes}
use ops_service.Error.{ok}
use ops_service.Output.{process_output}
use ops_service.Job.{Job, Task, Host}
use ops_service.Job.Execute.{ExecutionResult, Env, is_zero, full_output}

-- The command returns from every host with an exit code other than 0, and its output can be stored.
abbrev pub FailsEverywhere : Env → Job → Bytes → Type 0
FailsEverywhere env job text =
    (h : Host)
    → (r : ExecutionResult) × (outputs : Bytes × Bytes) × (env.ssh job h text ≡ ok r)
      × (process_output env.archive (full_output r) ≡ ok outputs)
      × (is_zero r.exit_code ≡ false)

abbrev pub HasHost : List Host → Task → Type 0
HasHost hosts t = (h : Host) × (find (λ h. h.id == t.host_id) hosts ≡ some h)
