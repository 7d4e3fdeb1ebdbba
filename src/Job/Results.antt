-- ===== src/Job/Results.antt =====
-- What an execution leaves behind: the rows of its tasks, its counts, and the final status.
use ops_service.Prelude.{
  ℕ, ◌+◌, ◌≡◌, ◌≢◌, ◌↔◌, refl, true, false, none, some, List, [], ◌∷◌, ◌==◌, find, length, arith,
  find-update_where,
}
use ops_service.Prelude.Bytes.{Bytes}
use ops_service.Error.{R, ok, err, panicked, AppError}
use ops_service.Output.{process_output}
use ops_service.Job.{JobStatus, TaskStatus, command_job, Job, Task, Host, Store}
use ops_service.Job.Execute.{
  ExecutionResult, Call, start_task, read_host, save_result, finish_job, Env, is_zero, full_output,
  started, finished, execute_task, calculate_job_status, tally, run_tasks, final_job,
  finish_execution, update_task,
}

tally-total : (r : R (Unit {0})) (c : ℕ × ℕ) → (tally r c).0 + (tally r c).1 ≡ c.0 + c.1 + 1
tally-total (ok u) c = omega arith
tally-total (err e) c = omega arith
tally-total panicked c = omega arith

-- Every task that an execution runs is counted once, as a success or as a failure.
pub run_tasks_count :
    (env : Env) (job : Job) (ts : List Task) (c : ℕ × ℕ) (s : Store)
    → let counts = (run_tasks env job ts c s).1 in counts.0 + counts.1 ≡ length ts + c.0 + c.1
unfolding run_tasks
run_tasks_count env job [] c s = omega arith
run_tasks_count env job (t ∷ ts) c s =
    let (u, r) = execute_task env job t s in
    omega (arith, tally-total r c, run_tasks_count env job ts (tally r c) u)

-- The status that an execution ends with: completed exactly if the successes reach the total, and
-- never pending, running or cancelled.
pub calculate_job_status_lem :
    (succeeded failed timeout total : ℕ)
    → let status = (calculate_job_status succeeded failed timeout total).0 in
      ((status ≡ JobStatus.completed) ↔ (succeeded ≡ total))
      × ((status ≡ JobStatus.failed) ↔ ((succeeded ≡ 0) × (succeeded ≢ total)))
      × (status ≢ JobStatus.pending)
      × (status ≢ JobStatus.running)
      × (status ≢ JobStatus.cancelled)
unfolding calculate_job_status
calculate_job_status_lem succeeded failed timeout total = ground arith

-- The row of a job after a finished execution.
pub finish_row :
    (env : Env) (id total : ℕ) (counts : ℕ × ℕ) (s : Store) (job : Job)
    → env.answered finish_job ≡ true
    → find (λ j. j.id == id) s.jobs ≡ some job
    → find (λ j. j.id == id) (finish_execution env id total counts s).0.jobs
      ≡ some (final_job env (calculate_job_status counts.0 counts.1 0 total) job)
unfolding finish_execution
finish_row env id total counts s job a e =
    rw a (find-update_where (λ (j : Job). j.id == id) _ s.jobs job (λ (j : Job). refl) e)

-- The last statement of an execution, when it is answered, overwrites a cancellation: a job that was
-- cancelled in the meantime no longer is.
pub finish_overwrites_cancel :
    (env : Env) (id total : ℕ) (counts : ℕ × ℕ) (s : Store) (job : Job)
    → env.answered finish_job ≡ true
    → find (λ j. j.id == id) s.jobs ≡ some job
    → job.status ≡ JobStatus.cancelled
    → (after : Job) × (find (λ j. j.id == id) (finish_execution env id total counts s).0.jobs
        ≡ some after)
      × (after.status ≢ JobStatus.cancelled)
finish_overwrites_cancel env id total counts s job a e cancelled = (
  final_job env (calculate_job_status counts.0 counts.1 0 total) job,
  finish_row env id total counts s job a e,
  (calculate_job_status_lem counts.0 counts.1 0 total).4,
)

-- A task that was started and gets no permit is left marked as running, while its execution returns
-- the permit's error, which a job counts as a failure.
pub denied_task_stays_running :
    (env : Env) (job : Job) (task row : Task) (host : Host) (s : Store) (e : AppError) (c : ℕ × ℕ)
    → find (λ t. t.id == task.id) s.tasks ≡ some row
    → env.answered (start_task task.id) ≡ true
    → env.answered (read_host task.host_id) ≡ true
    → find (λ h. h.id == task.host_id) s.hosts ≡ some host
    → env.permit host.group_id host.environment ≡ some e
    → let (u, result) = execute_task env job task s in
      (result ≡ err e)
      × (tally result c ≡ (c.0, c.1 + 1))
      × ((after : Task) × (find (λ t. t.id == task.id) u.tasks ≡ some after)
          × (after.status ≡ TaskStatus.running))
unfolding execute_task
denied_task_stays_running env job task row host s e c there a b found denied =
    let value : execute_task env job task s ≡ (update_task task.id (started env) s, err e) =
      ground arith in
    rw value (
      refl,
      refl,
      (
        started env row,
        find-update_where (λ (t : Task). t.id == task.id) (started env) s.tasks row
            (λ (t : Task). refl) there,
        refl,
      ),
    )

module _ (env : Env) (job : Job) (task : Task) (host : Host) (s : Store) (text : Bytes)
    (r : ExecutionResult) (outputs : Bytes × Bytes) (answers : (c : Call) → env.answered c ≡ true)
    (found : find (λ h. h.id == task.host_id) s.hosts ≡ some host)
    (allowed : env.permit host.group_id host.environment ≡ none)
    (is_command : job.job_type ≡ command_job) (has_text : job.command ≡ some text)
    (ran : env.ssh job host text ≡ ok r)
    (printed : process_output env.archive (full_output r) ≡ ok outputs) where
  pub command_effect :
      execute_task env job task s
      ≡ (update_task task.id (finished env r outputs) (update_task task.id (started env) s), ok tt)
  unfolding execute_task
  command_effect = ground (
    arith,
    answers (start_task task.id),
    answers (read_host task.host_id),
    answers (save_result task.id),
  )

  pub command_task_row :
      (row : Task)
      → find (λ t. t.id == task.id) s.tasks ≡ some row
      → find (λ t. t.id == task.id) (execute_task env job task s).0.tasks
        ≡ some (finished env r outputs (started env row))
  command_task_row row e = rw command_effect (
      find-update_where (λ (t : Task). t.id == task.id) (finished env r outputs) _ _
        (λ (t : Task). refl)
        (find-update_where (λ (t : Task). t.id == task.id) (started env) s.tasks row
          (λ (t : Task). refl) e))

  -- A command that was sent, ran and was recorded leaves its task's row as timed out, succeeded or
  -- failed by the way it ended. Its execution returns `Ok` each time, so a job counts it as a success.
  pub command_verdict :
      (row : Task)
      → find (λ t. t.id == task.id) s.tasks ≡ some row
      → let (u, result) = execute_task env job task s in
        (result ≡ ok tt)
        × ((after : Task) × (find (λ t. t.id == task.id) u.tasks ≡ some after)
            × ((after.status ≡ TaskStatus.timeout) ↔ (r.timed_out ≡ true))
            × ((after.status ≡ TaskStatus.succeeded)
                ↔ ((r.timed_out ≡ false) × (is_zero r.exit_code ≡ true)))
            × ((after.status ≡ TaskStatus.failed)
                ↔ ((r.timed_out ≡ false) × (is_zero r.exit_code ≡ false))))
  command_verdict row e = (
    rw command_effect refl,
    (
      finished env r outputs (started env row),
      command_task_row row e,
      ground arith,
      ground arith,
      ground arith,
    ),
  )
