-- ===== src/Job/Execution.antt =====
-- Whole executions: what they leave alone, and the status that they end with.
use ops_service.Prelude.{
  ℕ, Uuid, ◌+◌, ◌<◌, ◌≡◌, ◌≢◌, ◌↔◌, refl, true, ◌&&◌, some, List, [], ◌∷◌, ◌==◌, find, length,
  retain, arith, find-update_where, ◌∙◌,
}
use ops_service.Error.{ok}
use ops_service.Job.{JobStatus, Job, Task, Store, is_pending_task}
use ops_service.Job.Execute.{
  Call, start_job, read_job, read_tasks, finish_job, Env, execute_task, run_tasks, tally,
  calculate_job_status, running_job, final_job, begin_execution, finish_execution, execute_job,
  update_job,
}
use ops_service.Job.Results.{run_tasks_count, finish_row}

-- A task's execution writes the table of tasks only.
pub execute_task-frame :
    (env : Env) (job : Job) (task : Task) (s : Store)
    → let u = (execute_task env job task s).0 in (u.jobs ≡ s.jobs) × (u.hosts ≡ s.hosts)
unfolding execute_task
execute_task-frame env job task s = ground arith

run_tasks-frame :
    (env : Env) (job : Job) (ts : List Task) (c : ℕ × ℕ) (s : Store)
    → let u = (run_tasks env job ts c s).0 in (u.jobs ≡ s.jobs) × (u.hosts ≡ s.hosts)
unfolding run_tasks
run_tasks-frame env job [] c s = (refl, refl)
run_tasks-frame env job (t ∷ ts) c s =
    let (u, r) = execute_task env job t s in
    let (jobs, hosts) = run_tasks-frame env job ts (tally r c) u in
    let frame = execute_task-frame env job t s in (jobs ∙ frame.0, hosts ∙ frame.1)

abbrev pub pending_of : Uuid → Store → List Task
pending_of id s = retain (λ t. t.job_id == id && is_pending_task t.status) s.tasks

module _ (env : Env) (answers : (c : Call) → env.answered c ≡ true) (id : Uuid) (s : Store)
    (job : Job) (found : find (λ j. j.id == id) s.jobs ≡ some job) where
  abbrev pub begun : Store
  begun = update_job id (running_job env) s

  abbrev pub counts : ℕ × ℕ
  counts = (run_tasks env (running_job env job) (pending_of id s) (0, 0) begun).1

  begin_value : begin_execution env id s ≡ (begun, ok (running_job env job, pending_of id s))
  unfolding begin_execution
  begin_value = ground (
    arith,
    answers start_job,
    answers read_job,
    answers read_tasks,
    find-update_where (λ (j : Job). j.id == id) (running_job env) s.jobs job (λ (j : Job). refl)
        found,
  )

  execute_value :
      execute_job env id s
      ≡ finish_execution env id job.total_tasks counts
          (run_tasks env (running_job env job) (pending_of id s) (0, 0) begun).0
  unfolding execute_job
  execute_value = rw begin_value

  pub final_row :
      find (λ j. j.id == id) (execute_job env id s).0.jobs
      ≡ some (
          final_job env
            (calculate_job_status counts.0 counts.1 0 job.total_tasks)
            (running_job env job))
  final_row = rw execute_value (
      finish_row env id job.total_tasks counts _ (running_job env job) (answers finish_job) (
        rw (run_tasks-frame env (running_job env job) (pending_of id s) (0, 0) begun).0 (
          find-update_where (λ (j : Job). j.id == id) (running_job env) s.jobs job
            (λ (j : Job). refl) found)))

  pub execution_result :
      (after : Job) × (find (λ j. j.id == id) (execute_job env id s).0.jobs ≡ some after)
      × (after.succeeded_tasks + after.failed_tasks ≡ length (pending_of id s))
      × (after.timeout_tasks ≡ 0)
      × ((after.status ≡ JobStatus.completed) ↔ (after.succeeded_tasks ≡ job.total_tasks))
      × (after.status ≢ JobStatus.running)
  unfolding calculate_job_status
  execution_result =
      let total = run_tasks_count env (running_job env job) (pending_of id s) (0, 0) begun in
      (
        final_job env (calculate_job_status counts.0 counts.1 0 job.total_tasks)
            (running_job env job),
        final_row,
        ground (arith, total),
        ground arith,
        ground arith,
        ground arith,
      )

  -- An execution that finds fewer pending tasks than the job's total, as after a retry of the failed
  -- tasks alone, cannot end as completed, even if all of them succeed.
  pub partial_run_incomplete :
      length (pending_of id s) < job.total_tasks
      → (after : Job) × (find (λ j. j.id == id) (execute_job env id s).0.jobs ≡ some after)
        × (after.status ≢ JobStatus.completed)
  partial_run_incomplete fewer =
      let (after, e, total, _, complete, _) = execution_result in
      (after, e, λ done. absurd (omega (arith, complete.0 done)))
