-- ===== src/Builds/Consumed.antt =====
-- What `handle_status_message` leaves in the row of a build.
use ops_service.Prelude.{
  Uuid, DateTime, ◌≡◌, refl, ◌∙◌, ap, subst, sym, Bool, true, false, ◌&&◌, Option, none, some, List,
  [], ◌∷◌, if◌then◌else◌, find, update_where, All, arith, Bool-cases, Option-cases, inl, inr,
}
use ops_service.Prelude.Bytes.{Bytes, bytes_eq}
use ops_service.Error.{ok, err, Act, ◌>>=◌, ◌>>◌, then_run, internal}
use ops_service.Job.{JobStatus}
use ops_service.Runner.{BuildStatus, StepStatusUpdate, BuildStatusMessage, BuildLogMessage}
use ops_service.Scheduler.{Runner}
use ops_service.Builds.{
  BuildJob, Tables, Call, select_start, select_runner, update_job, select_job, Env, job_status,
  is_terminal, times_of, is_job, select_started_at, start_of, updated_job, set_job_status,
  update_step_status, record_step,
}
use ops_service.Builds.Queue.{
  take_off, decrement_runner_jobs, is_open, release_runner, write_status, handle_job,
  handle_status_message, handle_log_message,
}

bind_ok :
    {S A B : Type 0} (m : Act S A) (f : A → Act S B) {s t : S} {a : A}
    → m s ≡ (t, ok a)
    → (m >>= f) s ≡ f a t
bind_ok m f h = rw h refl

-- The rows of a build have a status.
abbrev pub Says : Uuid → JobStatus → Tables → Type 0
Says id status s = All (λ j. is_job id j ≡ true → j.status ≡ status) s.build_jobs

record_step-jobs :
    (env : Env) (id : Uuid) (update : Option StepStatusUpdate) (s : Tables)
    → (record_step env id update s).0.build_jobs ≡ s.build_jobs
unfolding record_step update_step_status
record_step-jobs env id none s = refl
record_step-jobs env id (some update) s = ground arith

fetch-jobs :
    {A : Type 0} (answered : Bool) (a : A) (f : A → Act Tables (Unit {0})) (s : Tables)
    → (f a s).0.build_jobs ≡ s.build_jobs
    → (then_run (s, if answered then ok a else err (internal "database")) f).0.build_jobs
      ≡ s.build_jobs
fetch-jobs true a f s kept = kept
fetch-jobs false a f s kept = refl

take_off-jobs :
    (env : Env) (r : Option Runner) (s : Tables) → (take_off env r s).0.build_jobs ≡ s.build_jobs
unfolding take_off
take_off-jobs env none s = refl
take_off-jobs env (some r) s = refl

decrement-jobs :
    (env : Env) (name : Bytes) (s : Tables)
    → (decrement_runner_jobs env name s).0.build_jobs ≡ s.build_jobs
unfolding decrement_runner_jobs
decrement-jobs env name s =
    let found = find (λ r. bytes_eq r.name name) s.runners in
    fetch-jobs (env.answered select_runner) found (take_off env) s (take_off-jobs env found s)

pub handle_log_message-jobs :
    (env : Env) (m : BuildLogMessage) (s : Tables)
    → (handle_log_message env m s).0.build_jobs ≡ s.build_jobs
unfolding handle_log_message
handle_log_message-jobs env m s = ground arith

-- No other row has the number.
find-none-All :
    (id : Uuid) (status : JobStatus) (js : List BuildJob)
    → find (is_job id) js ≡ none
    → All (λ j. is_job id j ≡ true → j.status ≡ status) js
find-none-All id status [] h = tt
find-none-All id status (j ∷ js) h = ground (arith, find-none-All id status js)

times_value :
    (env : Env) (status : BuildStatus) (id : Uuid) (s : Tables)
    → env.answered select_start ≡ true
    → (times : Option DateTime × Option DateTime) × (times_of env status
          (select_started_at env (internal "database") id)
          s
        ≡ (s, ok times))
times_value env BuildStatus.received id s h = ((none, none), refl)
times_value env BuildStatus.preparing id s h = ((some env.now, none), refl)
times_value env BuildStatus.running id s h = ((some env.now, none), refl)
times_value env BuildStatus.succeeded id s h = ((start_of id s, some env.now), rw h refl)
times_value env BuildStatus.failed id s h = ((start_of id s, some env.now), rw h refl)
times_value env BuildStatus.timeout id s h = ((start_of id s, some env.now), rw h refl)
times_value env BuildStatus.cancelled id s h = ((start_of id s, some env.now), rw h refl)

Says-update :
    (id : Uuid) (status : JobStatus) (times : Option DateTime × Option DateTime)
    (js : List BuildJob)
    → All
        (λ j. is_job id j ≡ true → j.status ≡ status)
        (update_where (is_job id) (updated_job status times) js)
Says-update id status times [] = tt
Says-update id status times (j ∷ js) = elim (Bool-cases (is_job id j)) [
  | inl hit ↦ rw hit ((λ h. refl), Says-update id status times js)
  | inr miss ↦ rw miss ((λ h. absurd (ground (arith, miss, h))), Says-update id status times js)
]

module _ (env : Env) (answers : (c : Call) → env.answered c ≡ true) (name : Bytes)
    (m : BuildStatusMessage) where
  set_job_status_value :
      (times : Option DateTime × Option DateTime) (s : Tables)
      → set_job_status env
          (internal "Failed to update build job: ")
          m.job_id
          (job_status m.status)
          times
          s
        ≡ (
          record s {
            build_jobs =
                update_where
                  (is_job m.job_id)
                  (updated_job (job_status m.status) times)
                  s.build_jobs;
          },
          ok tt,
        )
  set_job_status_value times s = rw (answers update_job) refl

  record_step_value :
      (s : Tables)
      → record_step env m.job_id m.step_status s
        ≡ ((record_step env m.job_id m.step_status s).0, ok tt)
  unfolding record_step
  record_step_value s =
      elim m.step_status
        as (λ u. record_step env m.job_id u s ≡ ((record_step env m.job_id u s).0, ok tt)) [
          | none ↦ refl
          | some update ↦ refl
        ]

  release_runner-jobs :
      (j : BuildJob) (s : Tables) → (release_runner env name m j s).0.build_jobs ≡ s.build_jobs
  release_runner-jobs j s = elim (Bool-cases (is_terminal m.status && is_open j.status)) [
    | inl ends ↦ rw ends (decrement-jobs env name s)
    | inr goes_on ↦ rw goes_on refl
  ]

  write_status-jobs :
      (j : BuildJob) (times : Option DateTime × Option DateTime) (s : Tables)
      → (write_status env name m j times s).0.build_jobs
        ≡ update_where (is_job m.job_id) (updated_job (job_status m.status) times) s.build_jobs
  write_status-jobs j times s =
      let t = record s {
        build_jobs =
            update_where (is_job m.job_id) (updated_job (job_status m.status) times) s.build_jobs;
      } in
      let u = (record_step env m.job_id m.step_status t).0 in
      let last = release_runner env name m j in
      let set : write_status env name m j times s
          ≡ (record_step env m.job_id m.step_status >> last) t =
        rw (set_job_status_value times s) refl in
      let recorded : (record_step env m.job_id m.step_status >> last) t ≡ last u =
        rw (record_step_value t) refl in
      ap (λ p. p.0.build_jobs) (set ∙ recorded)
      ∙ release_runner-jobs j u
      ∙ record_step-jobs env m.job_id m.step_status t

  handle_job-Says :
      (j : BuildJob) (s : Tables)
      → Says m.job_id (job_status m.status) (handle_job env name m (some j) s).0
  unfolding handle_job
  handle_job-Says j s =
      let (times, timed) = times_value env m.status m.job_id s (answers select_start) in
      let written =
        bind_ok (times_of env m.status (select_started_at env (internal "database") m.job_id))
          (write_status env name m j) timed in
      subst (All (λ j. is_job m.job_id j ≡ true → j.status ≡ job_status m.status))
        (sym (ap (λ p. p.0.build_jobs) written ∙ write_status-jobs j times s))
        (Says-update m.job_id (job_status m.status) times s.build_jobs)

  -- With its calls answered, a status message leaves its status in the row of its build.
  pub handle_status_message-Says :
      (s : Tables) → Says m.job_id (job_status m.status) (handle_status_message env name m s).0
  unfolding handle_status_message handle_job
  handle_status_message-Says s =
      let row = find (is_job m.job_id) s.build_jobs in
      let read : handle_status_message env name m s ≡ handle_job env name m row s =
        ap
          (λ b.
            then_run (s, if b then ok row else err (internal "database")) (handle_job env name m))
          (answers select_job) in
      subst (λ p. Says m.job_id (job_status m.status) p.0) (sym read)
        (elim (Option-cases row) [
          | inl e ↦
              subst (λ r. Says m.job_id (job_status m.status) (handle_job env name m r s).0) (sym e)
                (find-none-All m.job_id (job_status m.status) s.build_jobs e)
          | inr (j, e) ↦
              subst (λ r. Says m.job_id (job_status m.status) (handle_job env name m r s).0) (sym e)
                (handle_job-Says j s)
        ])
