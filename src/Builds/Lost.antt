-- ===== src/Builds/Lost.antt =====
-- Messages that the webhooks leave out.
use ops_service.Prelude.{◌≡◌, true, false, some, arith, find, any, is_empty}
use ops_service.Error.{ok}
use ops_service.Job.{JobStatus}
use ops_service.Runner.{BuildStatus, BuildStatusMessage, BuildLogMessage}
use ops_service.Builds.{
  BuildJob, BuildStepRow, Tables, Call, select_job, select_step, Env, is_job, is_step,
}
use ops_service.Builds.Webhook.{webhook_job, build_status_webhook, build_log_webhook}

-- The webhook changes nothing for a message that says `Running` about a build that runs already: what
-- the message says of a step and of its artifact is left out with it.
pub running_steps_ignored :
    (env : Env)
    → ((c : Call) → env.answered c ≡ true)
    → (m : BuildStatusMessage) (s : Tables) (j : BuildJob)
    → find (is_job m.job_id) s.build_jobs ≡ some j
    → j.status ≡ JobStatus.running
    → m.status ≡ BuildStatus.running
    → build_status_webhook env m s ≡ (s, ok tt)
unfolding build_status_webhook webhook_job
running_steps_ignored env answers m s j here runs says_running =
    ground (arith, answers select_job, here, runs, says_running)

-- The webhook leaves out a log that is not empty at the offset 0, where every log of a runner begins,
-- if its build exists and its step has a row already, with the log offset 0.
pub first_log_skipped :
    (env : Env)
    → ((c : Call) → env.answered c ≡ true)
    → (m : BuildLogMessage) (s : Tables) (r : BuildStepRow)
    → any (is_job m.job_id) s.build_jobs ≡ true
    → find (is_step m.job_id m.step_id) s.build_steps ≡ some r
    → r.log_offset ≡ 0
    → m.offset ≡ 0
    → is_empty m.content ≡ false
    → build_log_webhook env m s ≡ (s, ok tt)
unfolding build_log_webhook
first_log_skipped env answers m s r job here fresh start some_text =
    ground (arith, answers select_job, answers select_step, job, here, fresh, start, some_text)
