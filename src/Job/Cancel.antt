-- ===== src/Job/Cancel.antt =====
-- `cancel_job` of src/ops-service/src/services/job_service.rs.
use ops_service.Prelude.{
  inl, inr, ◌⊎◌, Uuid, ◌≡◌, ◌≢◌, ◌↔◌, ◌⊎◌, Bool, true, false, not, ◌&&◌, some, List, [], ◌∷◌, ◌==◌,
  any, update_where, arith, All,
}
use ops_service.Error.{
  ok, Act, ◌>>=◌, ◌>>◌, refuse_if, execute, fetch, transaction, database, validation,
}
use ops_service.Audit.{job_cancel}
use ops_service.Job.{
  JobStatus, TaskStatus, Job, Task, Store, Env, Call, begin_tx, commit_tx, insert_audit,
  cancel_update, cancel_tasks, is_cancellable, is_unfinished,
}
use ops_service.Job.Create.{write_audit}

-- `WHERE id = $1 AND status IN ('pending', 'running')`
abbrev pub is_cancellable_job : Uuid → Job → Bool
is_cancellable_job id j = j.id == id && is_cancellable j.status

-- `WHERE job_id = $1 AND status IN ('pending', 'running')`
abbrev pub is_unfinished_task : Uuid → Task → Bool
is_unfinished_task id t = t.job_id == id && is_unfinished t.status

abbrev pub cancelled_job : Env → Job → Job
cancelled_job env j = record j { status = JobStatus.cancelled; completed_at = some env.tx_time }

abbrev pub cancelled_task : Env → Task → Task
cancelled_task env t = record t { status = TaskStatus.cancelled; completed_at = some env.tx_time }

unfoldable pub cancel_in_tx : Env → Uuid → Act Store (Unit {0})
cancel_in_tx env id = do
  updated ←
      fetch (env.answered cancel_update) (database "Failed to cancel job")
        λ s. any (is_cancellable_job id) s.jobs
  execute true (database "Failed to cancel job")
      λ s. record s { jobs = update_where (is_cancellable_job id) (cancelled_job env) s.jobs }
  refuse_if (not updated) (validation "Job cannot be cancelled")
  execute (env.answered cancel_tasks) (database "Failed to cancel tasks")
      λ s. record s { tasks = update_where (is_unfinished_task id) (cancelled_task env) s.tasks }

unfoldable pub cancel_job : Env → Uuid → Uuid → Act Store (Unit {0})
unfolding cancel_in_tx
cancel_job env id requested_by = do
  transaction (env.answered begin_tx) (env.answered commit_tx) (cancel_in_tx env id)
  write_audit env requested_by job_cancel id "Command failed"

-- The job's rows and its unfinished tasks are marked, and no others.
abbrev pub WasCancelled : Env → Uuid → Store → Store → Type 0
WasCancelled env id s t =
    (t.jobs ≡ update_where (is_cancellable_job id) (cancelled_job env) s.jobs)
    × (t.tasks ≡ update_where (is_unfinished_task id) (cancelled_task env) s.tasks)

pub cancel_outcome :
    (env : Env) (id by : Uuid) (s : Store)
    → let (t, result) = cancel_job env id by s in
      ((result ≡ ok tt) × (any (is_cancellable_job id) s.jobs ≡ true) × WasCancelled env id s t)
      ⊎ ((result ≢ ok tt) × (t.jobs ≡ s.jobs) × (t.tasks ≡ s.tasks))
      ⊎ ((result ≢ ok tt) × WasCancelled env id s t × (env.answered insert_audit ≡ false))
unfolding cancel_job
cancel_outcome env id by s = ground arith

-- With every call answered, exactly the pending and running jobs can be cancelled.
pub cancel_accepts :
    (env : Env)
    → ((c : Call) → env.answered c ≡ true)
    → (id by : Uuid) (s : Store)
    → ((cancel_job env id by s).1 ≡ ok tt) ↔ (any (is_cancellable_job id) s.jobs ≡ true)
unfolding cancel_job
cancel_accepts env answers id by s = (
  (λ h. ground arith),
  (λ h. ground (
    arith,
    answers begin_tx,
    answers cancel_update,
    answers cancel_tasks,
    answers commit_tx,
    answers insert_audit,
  )),
)

-- No task of the job is left pending or running.
abbrev pub AllFinished : Uuid → List Task → Type 0
AllFinished id = All (λ t. is_unfinished_task id t ≡ false)

cancelled-AllFinished :
    (env : Env) (id : Uuid) (ts : List Task)
    → AllFinished id (update_where (is_unfinished_task id) (cancelled_task env) ts)
cancelled-AllFinished env id [] = tt
cancelled-AllFinished env id (t ∷ ts) = ground (arith, cancelled-AllFinished env id ts)

-- After a successful cancellation no task of the job is pending or running.
pub cancel-AllFinished :
    (env : Env) (id by : Uuid) (s : Store)
    → (cancel_job env id by s).1 ≡ ok tt
    → AllFinished id (cancel_job env id by s).0.tasks
cancel-AllFinished env id by s h = elim (cancel_outcome env id by s) [
  | inl (_, _, marked) ↦ rw marked.1 (cancelled-AllFinished env id s.tasks)
  | inr (inl (failed, _, _)) ↦ absurd (failed h)
  | inr (inr (failed, _, _)) ↦ absurd (failed h)
]
