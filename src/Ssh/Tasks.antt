-- ===== src/Ssh/Tasks.antt =====
-- A task of a command job, from the server of its host to its row: `execute_task` of
-- src/ops-service/src/services/job_service.rs with the client of src/ops-service/src/ssh/executor.rs.
use ops_service.Prelude.{
  ℕ, ◌+◌, ◌/◌, ◌<◌, ◌≡◌, ◌↔◌, ◌≢◌, refl, ap, ◌∙◌, true, none, some, [], ◌==◌, find, arith,
}
use ops_service.Prelude.Int.{ℤ, pos, negsuc}
use ops_service.Prelude.Bytes.{Bytes}
use ops_service.Error.{ok}
use ops_service.Output.{process_output}
use ops_service.Job.{TaskStatus, command_job, Job, Task, Host, Store}
use ops_service.Job.Execute.{
  ExecutionResult, Call, Env, task_verdict, full_output, started, finished, execute_task,
}
use ops_service.Job.Results.{command_task_row, command_verdict}
use ops_service.Ssh.Client.{Arrival, Trace, millis, is_timeout, start_command}
use ops_service.Ssh.Loop.{IsLast, Continues, exit_code_at, stdout_of, stderr_of, time_of, last_wait}
use ops_service.Ssh.Meaning.{execute_returns}
use ops_service.Ssh.Progress.{execute_with_progress_same}
use ops_service.Ssh.Remote.{Network, client_config, remote_answer, connected_env, or_panicked}

-- The status of a task by the exit code of a run of the client, for which 124 is a timeout.
abbrev status_of : ℤ → Bytes → Bytes → ℕ → TaskStatus
status_of c out errors secs =
    (task_verdict (record {
      exit_code = c;
      stdout = out;
      stderr = errors;
      duration_secs = secs;
      timed_out = is_timeout c;
    })).0

status_of_lem :
    (c : ℤ) (out errors : Bytes) (secs : ℕ)
    → ((status_of c out errors secs ≡ TaskStatus.timeout) ↔ (c ≡ pos 124))
      × ((status_of c out errors secs ≡ TaskStatus.succeeded) ↔ (c ≡ pos 0))
      × ((status_of c out errors secs ≡ TaskStatus.failed) ↔ ((c ≢ pos 124) × (c ≢ pos 0)))
status_of_lem (pos n) out errors secs = ground arith
status_of_lem (negsuc n) out errors secs = ground arith

module _ (net : Network) (job : Job) (host : Host) (text : Bytes) where
  abbrev pub limit_of : ℕ
  limit_of = millis (client_config net job host).command_timeout_secs

  abbrev pub messages_of : ℕ → Arrival
  messages_of = (net.server host).arrival text

  -- What a command comes to whose n-th arrival ends the loop.
  abbrev pub result_at : ℕ → ExecutionResult
  result_at n = record {
    exit_code = exit_code_at limit_of (messages_of n);
    stdout = (net.server host).from_utf8_lossy (stdout_of messages_of 0 n);
    stderr = (net.server host).from_utf8_lossy (stderr_of messages_of 0 n);
    duration_secs = (time_of messages_of 0 n + last_wait limit_of (messages_of n)) / 1000;
    timed_out = is_timeout (exit_code_at limit_of (messages_of n));
  }

  module _ (rounds n : ℕ) (s' : Trace) (is_command : job.job_type ≡ command_job)
      (starts : start_command (client_config net job host) (net.server host) "执行命令失败: " text []
        ≡ (s', ok tt))
      (enough : n < rounds) (more : (j : ℕ) → j < n → Continues limit_of (messages_of j))
      (last : IsLast limit_of (messages_of n)) where
    remote_answer-started :
        (env : Env) → (connected_env net rounds env).ssh job host text ≡ ok (result_at n)
    unfolding remote_answer
    remote_answer-started env =
        let config = client_config net job host in
        let server = net.server host in
        ap or_panicked (
          ap (λ kind. remote_answer net rounds job host kind text) is_command
          ∙ execute_with_progress_same config server true rounds text []
          ∙ ap (λ p. p.1)
              (execute_returns config server text [] s' starts n rounds enough more last))

    -- A task of a command job, whose statements are answered, which gets its permit, whose command was
    -- started on the server of its host, and whose output is processed without a panic, ends as the server
    -- says: with the n-th arrival as the first that ends the loop of the client, and more than n rounds,
    -- its row holds the exit code of that arrival, the exit status if it is one, 124 if it is late, and 0
    -- otherwise, and the status is timeout exactly for 124, succeeded exactly for 0, and failed for all
    -- others. The execution returns `Ok` each time.
    pub task_follows_server :
        (env : Env) (task row : Task) (s : Store) (outputs : Bytes × Bytes)
        → ((c : Call) → env.answered c ≡ true)
        → env.permit host.group_id host.environment ≡ none
        → job.command ≡ some text
        → find (λ h. h.id == task.host_id) s.hosts ≡ some host
        → find (λ t. t.id == task.id) s.tasks ≡ some row
        → process_output env.archive (full_output (result_at n)) ≡ ok outputs
        → let code = exit_code_at limit_of (messages_of n) in
          let (u, result) = execute_task (connected_env net rounds env) job task s in
          (result ≡ ok tt)
          × ((after : Task) × (find (λ t. t.id == task.id) u.tasks ≡ some after)
              × (after.exit_code ≡ some code)
              × ((after.status ≡ TaskStatus.timeout) ↔ (code ≡ pos 124))
              × ((after.status ≡ TaskStatus.succeeded) ↔ (code ≡ pos 0))
              × ((after.status ≡ TaskStatus.failed) ↔ ((code ≢ pos 124) × (code ≢ pos 0))))
    task_follows_server env task row s outputs answers allowed has_text found there printed =
        let here = connected_env net rounds env in
        let r = result_at n in
        let ran = remote_answer-started env in
        let (late, zero, other) = status_of_lem r.exit_code r.stdout r.stderr r.duration_secs in
        (
          (command_verdict here job task host s text r outputs answers found allowed is_command
              has_text ran printed row there).0,
          (
            finished here r outputs (started here row),
            command_task_row here job task host s text r outputs answers found allowed is_command
                has_text ran printed row there,
            refl,
            late,
            zero,
            other,
          ),
        )
