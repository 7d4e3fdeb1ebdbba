-- ===== src/Job/Creation.antt =====
-- What the creation of a job leaves in the tables, over all outcomes of its calls.
use ops_service.Prelude.{Uuid, ◌≡◌, ◌≢◌, true, false, some, List, [], ◌∷◌, ◌++◌, find}
use ops_service.Prelude.Bytes.{Bytes}
use ops_service.Error.{R, ok, err, AppError}
use ops_service.Job.{Job, Task, Store, Env, Call, find_key}
use ops_service.Job.Create.{CreateCommandJob, has_key, existing_job, create_command_job}

-- A request whose key a job already has is answered with that job, and changes nothing.
pub create_idempotent :
    (env : Env) (request : CreateCommandJob) (by : Uuid) (s : Store) (key : Bytes) (job : Job)
    → request.idempotency_key ≡ some key
    → env.answered find_key ≡ true
    → find (has_key key) s.jobs ≡ some job
    → create_command_job env request by s ≡ (s, ok job)
unfolding create_command_job
create_idempotent env request by s key job k a f = rw (k, existing_job, a, f)

abbrev pub with_tasks : Store → List Task → Store
with_tasks s ts = record s { tasks = s.tasks ++ ts }

-- A call failed, and with it the operation.
abbrev pub Failed : {A : Type 0} → Env → Store × R A → Type 0
Failed env result =
    (c : Call) × (u : Store) × (e : AppError) × (env.answered c ≡ false) × (result ≡ (u, err e))

-- The tables with a new job and its tasks.
abbrev pub with_job : Store → Job → List Task → Store
with_job s job ts = record s { jobs = s.jobs ++ job ∷ []; tasks = s.tasks ++ ts }

module _ (s t : Store) (job : Job) (tasks : List Task) (result : R Job) where
  -- Nothing was kept.
  abbrev pub WasDropped : Type 0
  WasDropped = (t.jobs ≡ s.jobs) × (t.tasks ≡ s.tasks) × (t.spawned ≡ s.spawned) × (result ≢ ok job)

  abbrev pub WasInserted : Type 0
  WasInserted = (t.jobs ≡ s.jobs ++ job ∷ []) × (t.tasks ≡ s.tasks ++ tasks)

  -- The job and its tasks are in the tables, and its execution was started.
  abbrev pub WasStarted : Type 0
  WasStarted = WasInserted × (t.spawned ≡ s.spawned ++ job.id ∷ []) × (result ≡ ok job)

  -- They are in the tables, but nothing executes them, and the caller got an error.
  abbrev pub WasStranded : Type 0
  WasStranded = WasInserted × (t.spawned ≡ s.spawned) × (result ≢ ok job)
