-- ===== src/Builds/Ending.antt =====
-- A build from the runner to the tables of the service. The consumers in
-- src/ops-service/src/bin/ops-service.rs only log an error. They handle each message in a task of
-- its own, so nothing keeps the order; here the order in which messages are handled is that of a
-- list.
use ops_service.Prelude.{
  ℕ, ◌≡◌, refl, subst, sym, Bool, true, false, none, some, List, [], ◌∷◌, ◌++◌, if◌then◌else◌,
  arith,
}
use ops_service.Prelude.Bytes.{Bytes}
use ops_service.Job.{JobStatus}
use ops_service.Runner.{
  BuildTaskMessage, BuildStatus, BuildStatusMessage, Message, status_message, log_message, Store,
  Env as RunnerEnv,
}
use ops_service.Runner.Build.{process_message, final_status}
use ops_service.Runner.Verdict.{last_message, last_message-append}
use ops_service.Runner.Completion.{is_built, process_message_ends}
use ops_service.Builds.{Tables, Call, Env, job_status}
use ops_service.Builds.Queue.{handle_status_message, handle_log_message}
use ops_service.Builds.Consumed.{Says, handle_status_message-Says}

abbrev pub consume : Env → Bytes → Message → Tables → Tables
consume env name (status_message m) s = (handle_status_message env name m s).0
consume env name (log_message m) s = (handle_log_message env m s).0

unfoldable pub deliver : Env → Bytes → List Message → Tables → Tables
deliver env name [] s = s
deliver env name (m ∷ ms) s = deliver env name ms (consume env name m s)

module _ (env : Env) (answers : (c : Call) → env.answered c ≡ true) (name : Bytes) where
  deliver-Says :
      (ms : List Message) (m : BuildStatusMessage) (s : Tables)
      → last_message ms ≡ some (status_message m)
      → Says m.job_id (job_status m.status) (deliver env name ms s)
  unfolding deliver
  deliver-Says [] m s h = absurd (ground (arith, h))
  deliver-Says (x ∷ []) m s h =
      let e : x ≡ status_message m = ground (arith, h) in
      subst (λ y. Says m.job_id (job_status m.status) (consume env name y s)) (sym e)
        (handle_status_message-Says env answers name m s)
  deliver-Says (x ∷ y ∷ ms) m s h = deliver-Says (y ∷ ms) m (consume env name x s) h

job_status-final :
    (built : Bool)
    → job_status (final_status built) ≡ (if built then JobStatus.completed else JobStatus.failed)
job_status-final true = refl
job_status-final false = refl

-- Once the service has handled the messages of a build in the order of sending, with every message
-- delivered and every call of the database answered, the row of the build says `completed` if the
-- workspace was made, the code was cloned and no step came to an error, and `failed` otherwise.
pub build_ends_in_table :
    (runner : RunnerEnv) (delivered : (n : ℕ) (m : Message) → runner.delivers n m ≡ true)
    (task : BuildTaskMessage) (sending : Store) (env : Env)
    → ((c : Call) → env.answered c ≡ true)
    → (name : Bytes) (s : Tables)
    → Says task.job_id
        (if is_built runner task then JobStatus.completed else JobStatus.failed)
        (deliver env name (process_message runner task sending).0.sent s)
build_ends_in_table runner delivered task sending env answers name s =
    let (fine, text, category, last) = process_message_ends runner delivered task sending in
    let messages = (process_message runner task sending).0.sent in
    subst (λ status. Says task.job_id status (deliver env name messages s))
      (job_status-final (is_built runner task))
      (deliver-Says env answers name messages
        (record {
          task_id = task.task_id;
          job_id = task.job_id;
          status = final_status (is_built runner task);
          step_status = none;
          error = text;
          error_category = category;
        })
        s last)

-- A message that says `Running` and is handled after others, the final one included, leaves the row of
-- its build as running, with the calls of the database answered.
pub late_running_reopens :
    (env : Env)
    → ((c : Call) → env.answered c ≡ true)
    → (name : Bytes) (ms : List Message) (late : BuildStatusMessage) (s : Tables)
    → late.status ≡ BuildStatus.running
    → Says late.job_id JobStatus.running (deliver env name (ms ++ status_message late ∷ []) s)
late_running_reopens env answers name ms late s running =
    subst
      (λ status.
        Says late.job_id (job_status status) (deliver env name (ms ++ status_message late ∷ []) s))
      running
      (deliver-Says env answers name (ms ++ status_message late ∷ []) late s
        (last_message-append ms (status_message late)))
