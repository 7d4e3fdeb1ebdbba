-- ===== src/Job/Retrial.antt =====
-- What a retry leaves in the tables, over all outcomes of its calls.
use ops_service.Prelude.{
  Uuid, ◌≡◌, ◌≢◌, ◌⊎◌, Bool, false, some, List, [], ◌∷◌, ◌++◌, ◌==◌, any, find, retain, is_empty,
  update_where, arith,
}
use ops_service.Error.{R, ok}
use ops_service.Job.{Job, Task, Store, Env, insert_audit, is_retryable}
use ops_service.Job.Retry.{RetryJobRequest, is_to_retry, reset_task_row, reset_job_row, retry_job}

-- A row whose id is among those of the given tasks.
abbrev pub is_among : List Task → Task → Bool
is_among xs t = any (λ x. t.id == x.id) xs

module _ (env : Env) (id : Uuid) (request : RetryJobRequest) (by : Uuid) (s : Store) where
  abbrev pub selected : List Task
  selected = retain (is_to_retry id request) s.tasks

  -- The job and the selected tasks are pending again, and nothing else has changed.
  abbrev pub WasReset : Store → Type 0
  WasReset t =
      (t.jobs ≡ update_where (λ j. j.id == id) reset_job_row s.jobs)
      × (t.tasks ≡ update_where (is_among selected) reset_task_row s.tasks)

  abbrev pub RetryOutcome : Store → R Job → Type 0
  RetryOutcome t result =
      ((t.jobs ≡ s.jobs)
        × (t.tasks ≡ s.tasks)
        × (t.spawned ≡ s.spawned)
        × ((j : Job) → result ≢ ok j))
      ⊎ (WasReset t × (t.spawned ≡ s.spawned) × (env.answered insert_audit ≡ false))
      ⊎ (WasReset t × (t.spawned ≡ s.spawned ++ id ∷ []) × (is_empty selected ≡ false))

  -- A job in any other state is left as it is, and the caller gets an error.
  pub retry_refuses :
      (job : Job)
      → find (λ j. j.id == id) s.jobs ≡ some job
      → is_retryable job.status ≡ false
      → ((retry_job env id request by s).0 ≡ s)
        × ((j : Job) → (retry_job env id request by s).1 ≢ ok j)
  unfolding retry_job
  retry_refuses job e h = (ground arith, λ j. ground arith)
