-- ===== src/Ssh/Strangers.antt =====
-- A task whose host is answered by a server that is not to be trusted: `execute_task` of
-- src/ops-service/src/services/job_service.rs with the client of src/ops-service/src/ssh/executor.rs.
use ops_service.Prelude.{
  ℕ, ◌≡◌, refl, ap, subst, Bool, ◌∙◌, true, none, some, [], ◌==◌, find, arith, inl, inr,
  find-update_where,
}
use ops_service.Prelude.Bytes.{Bytes}
use ops_service.Error.{AppError, err}
use ops_service.Job.{TaskStatus, command_job, Job, Task, Host, Store}
use ops_service.Job.Execute.{
  Call, start_task, read_host, save_failure, Env, started, broken, execute_task, update_task,
}
use ops_service.Ssh.{stored_fingerprint}
use ops_service.Ssh.Client.{connected, Trace, start_command, and_read, millis, empty_output}
use ops_service.Ssh.Trust.{Demands, sends_only_to_trusted}
use ops_service.Ssh.Progress.{report_end, progress_loop, execute_with_progress}
use ops_service.Ssh.Remote.{Network, client_config, remote_answer, connected_env, or_panicked}

-- The row of a task whose command could not be run.
broken_row :
    (env : Env) (job : Job) (task row : Task) (host : Host) (s : Store) (text : Bytes)
    (e : AppError)
    → ((c : Call) → env.answered c ≡ true)
    → env.permit host.group_id host.environment ≡ none
    → job.job_type ≡ command_job
    → job.command ≡ some text
    → find (λ h. h.id == task.host_id) s.hosts ≡ some host
    → find (λ t. t.id == task.id) s.tasks ≡ some row
    → env.ssh job host text ≡ err e
    → let (u, result) = execute_task env job task s in
      (result ≡ err e)
      × (find (λ t. t.id == task.id) u.tasks ≡ some (broken env e (started env row)))
unfolding execute_task
broken_row env job task row host s text e answers allowed is_command has_text found there failed =
    let value : execute_task env job task s
        ≡ (update_task task.id (broken env e) (update_task task.id (started env) s), err e) =
      ground (
        arith,
        answers (start_task task.id),
        answers (read_host task.host_id),
        answers (save_failure task.id),
      ) in
    rw value (
      refl,
      find-update_where (λ (t : Task). t.id == task.id) (broken env e) _ _ (λ (t : Task). refl)
          (find-update_where (λ (t : Task). t.id == task.id) (started env) s.tasks row
            (λ (t : Task). refl) there),
    )

module _ (net : Network) (job : Job) (host : Host) (text : Bytes) (rounds : ℕ) where
  -- What a run of the client sends to the server of the host.
  abbrev pub trace_of : Trace
  trace_of =
      (execute_with_progress (net.server host) true (client_config net job host) rounds text []).0

  refused_start :
      (e : AppError)
      → start_command (client_config net job host) (net.server host) "执行命令失败: " text []
        ≡ ([], err e)
      → execute_with_progress (net.server host) true (client_config net job host) rounds text []
        ≡ ([], some (err e))
  unfolding execute_with_progress
  refused_start e h =
      ap
        (λ m. and_read m (λ s. report_end (net.server host) true (
          progress_loop (net.server host) true rounds
            (millis (client_config net job host).command_timeout_secs)
            ((net.server host).arrival text) 0 empty_output 0 s)))
        h

  -- A task of a command job whose host is answered by a server with a key that does not meet the demands
  -- of the mode of its host: nothing is sent, neither credentials nor the command, and the task, with its
  -- statements answered and its permit granted, is marked as failed by an execution that returns an error.
  -- The library is taken to connect only to a server whose key the test accepted.
  pub stranger_gets_nothing :
      (key_data : Bytes)
      → ((test : Bytes → Bool) (k : Bytes)
          → (net.server host).connect test ≡ connected k
          → (k ≡ key_data) × (test k ≡ true))
      → ¬ Demands
          (client_config net job host).host_key_verification
          (stored_fingerprint (client_config net job host))
          ((net.server host).hex_encode ((net.server host).sha256 key_data))
      → (env : Env) (task row : Task) (s : Store) → ((c : Call) → env.answered c ≡ true)
      → env.permit host.group_id host.environment ≡ none
      → job.job_type ≡ command_job
      → job.command ≡ some text
      → find (λ h. h.id == task.host_id) s.hosts ≡ some host
      → find (λ t. t.id == task.id) s.tasks ≡ some row
      → let (u, result) = execute_task (connected_env net rounds env) job task s in
        (trace_of ≡ [])
        × ((e : AppError) × (result ≡ err e))
        × ((after : Task) × (find (λ t. t.id == task.id) u.tasks ≡ some after)
            × (after.status ≡ TaskStatus.failed))
  unfolding remote_answer
  stranger_gets_nothing key_data presents stranger env task row s answers allowed is_command
        has_text found there =
      let config = client_config net job host in
      let server = net.server host in
      elim (sends_only_to_trusted config server (λ test k h. (presents test k h).1) "执行命令失败: " text
        []) [
          | inl (e, h) ↦
              let run = refused_start e h in
              let answer : (connected_env net rounds env).ssh job host text ≡ err e =
                ap or_panicked (
                  ap (λ kind. remote_answer net rounds job host kind text) is_command
                  ∙ ap (λ p. p.1) run) in
              let (result, after) =
                broken_row (connected_env net rounds env) job task row host s text e answers allowed
                  is_command has_text found there answer in
              (ap (λ p. p.0) run, (e, result), (_, after, refl))
          | inr (k, h, demands) ↦
              let same = (presents _ k h).0 in
              absurd (
                stranger (
                  subst
                    (λ x.
                      Demands config.host_key_verification (stored_fingerprint config)
                        (server.hex_encode (server.sha256 x)))
                    same demands))
        ]
