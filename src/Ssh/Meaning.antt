-- ===== src/Ssh/Meaning.antt =====
-- What `SSHClient::execute` of src/ops-service/src/ssh/executor.rs returns, and whether it returns.
use ops_service.Prelude.{
  ℕ, zero, suc, ◌+◌, ◌/◌, ◌≤◌, ◌<◌, ◌≡◌, ◌↔◌, ◌⊎◌, refl, ap, sym, ◌∙◌, subst, true, Option, none,
  some, if◌then◌else◌, leb, arith, inl, inr, Bool-cases,
}
use native.Mathlib.Nat.{zero-add}
use ops_service.Prelude.Int.{pos}
use ops_service.Prelude.Bytes.{Bytes}
use ops_service.Error.{R, ok}
use ops_service.Job.{TaskStatus}
use ops_service.Job.Execute.{ExecutionResult, task_verdict}
use ops_service.Ssh.{SshConfig}
use ops_service.Ssh.Client.{
  eof, Arrival, Output, follow, read_loop, empty_output, millis, is_timeout, Server, Trace,
  start_command, result_of, finished, and_read, execute,
}
use ops_service.Ssh.Loop.{
  IsLast, Continues, stdout_of, stderr_of, time_of, exit_code_at, last_wait, is_final,
  read_loop_from, after_wait-IsLast, after_wait-Continues,
}

module _ (limit : ℕ) (arrival : ℕ → Arrival) where
  arrival-cases : (n : ℕ) → IsLast limit (arrival n) ⊎ Continues limit (arrival n)
  arrival-cases n =
      Bool-cases (if leb (arrival n).gap limit then is_final (arrival n).message else true)

  -- An arrival that ends the loop bounds its rounds.
  ends_by :
      (k i n : ℕ) (o : Output)
      → i + k ≡ n
      → o.exit_code ≡ pos 0
      → IsLast limit (arrival n)
      → (last : Output) × (read_loop (suc k) limit arrival i o ≡ some last)
  unfolding read_loop
  ends_by zero i n o p e last =
      let here = subst (λ m. IsLast limit (arrival m)) (omega (arith, p)) last in
      (
        _,
        ap (λ r. follow r (read_loop 0 limit arrival (suc i)))
            (after_wait-IsLast limit o (arrival i) here e),
      )
  ends_by (suc k) i n o p e last = elim (arrival-cases i) [
    | inl now ↦ (
      _,
      ap (λ r. follow r (read_loop (suc k) limit arrival (suc i)))
          (after_wait-IsLast limit o (arrival i) now e),
    )
    | inr more ↦
        let (end, h) = ends_by k (suc i) n _ (omega arith) e last in
        (
          end,
          ap (λ r. follow r (read_loop (suc k) limit arrival (suc i)))
                (after_wait-Continues limit o (arrival i) more)
              ∙ h,
        )
  ]

  -- A loop that has ended met such an arrival.
  ended_by :
      (fuel i : ℕ) (o last : Output)
      → read_loop fuel limit arrival i o ≡ some last
      → (n : ℕ) × IsLast limit (arrival n)
  unfolding read_loop
  ended_by zero i o last h = absurd cc
  ended_by (suc fuel) i o last h = elim (arrival-cases i) [
    | inl now ↦ (i, now)
    | inr more ↦ ended_by fuel (suc i) _ last (
        sym (
          ap (λ r. follow r (read_loop fuel limit arrival (suc i)))
            (after_wait-Continues limit o (arrival i) more))
        ∙ h)
  ]

finished-some :
    (server : Server) (o : Option Output) (s s' : Trace) (r : R ExecutionResult)
    → finished server o s ≡ (s', some r)
    → (last : Output) × (o ≡ some last)
finished-some server none s s' r h = absurd cc
finished-some server (some last) s s' r h = (last, refl)

module _ (config : SshConfig) (server : Server) (text : Bytes) (s s' : Trace)
    (started : start_command config server "执行命令失败: " text s ≡ (s', ok tt)) where
  execute-started :
      (fuel : ℕ)
      → execute config server fuel text s
        ≡ finished server
            (read_loop fuel
              (millis config.command_timeout_secs)
              (server.arrival text)
              0
              empty_output)
            s'
  unfolding execute
  execute-started fuel =
      ap
        (λ m. and_read m (
          finished server (
            read_loop fuel (millis config.command_timeout_secs) (server.arrival text) 0
              empty_output)))
        started

  -- A command that was started comes to an end, after some number of rounds, exactly if some message of
  -- the server is an exit status, an end of the output or the end of the channel, or comes later than
  -- the timeout after the one before it. A server that keeps sending other messages holds the client
  -- for ever: the timeout is of each wait, not of the command.
  pub execute_ends_iff :
      ((fuel : ℕ) × (t : Trace) × (r : R ExecutionResult) × (execute config server fuel text s
          ≡ (t, some r)))
      ↔ ((n : ℕ) × IsLast (millis config.command_timeout_secs) (server.arrival text n))
  execute_ends_iff =
      let limit = millis config.command_timeout_secs in
      (
        λ (fuel, t, r, h).
            let (last, e) = finished-some server _ s' t r (sym (execute-started fuel) ∙ h) in
            ended_by limit (server.arrival text) fuel 0 empty_output last e,
        λ (n, last).
            let (o, e) =
              ends_by limit (server.arrival text) n 0 n empty_output (omega arith) refl last in
            (
              suc n,
              s',
              ok (result_of server o),
              execute-started (suc n) ∙ ap (λ x. finished server x s') e,
            ),
      )

  -- A command that was started and whose n-th arrival is the first that ends the loop returns, once
  -- given more than n rounds, what was sent on the two streams before it, as text, the exit status if
  -- that arrival is one, 124 if it is late, and 0 otherwise, and says that it timed out if that is 124.
  pub execute_returns :
      (n fuel : ℕ)
      → n < fuel
      → ((j : ℕ) → j < n → Continues (millis config.command_timeout_secs) (server.arrival text j))
      → IsLast (millis config.command_timeout_secs) (server.arrival text n)
      → execute config server fuel text s ≡ (
        s',
        some (
            ok (record {
              exit_code = exit_code_at (millis config.command_timeout_secs) (server.arrival text n);
              stdout = server.from_utf8_lossy (stdout_of (server.arrival text) 0 n);
              stderr = server.from_utf8_lossy (stderr_of (server.arrival text) 0 n);
              duration_secs =
                  (time_of (server.arrival text) 0 n
                    + last_wait (millis config.command_timeout_secs) (server.arrival text n))
                  / 1000;
              timed_out =
                  is_timeout
                    (exit_code_at (millis config.command_timeout_secs) (server.arrival text n));
            })),
      )
  execute_returns n fuel h more last =
      let limit = millis config.command_timeout_secs in
      let read =
        read_loop_from limit (server.arrival text) n 0 n fuel empty_output (omega arith) h refl
          (λ j a b. more j b) last in
      execute-started fuel ∙ ap (λ x. finished server x s') read ∙ simp zero-add

  -- If the end of the output comes as a message of its own before the exit status, within the timeout,
  -- the command returns 0 and its task is marked as succeeded, whatever its exit status is.
  pub end_before_status_succeeds :
      (n fuel : ℕ)
      → n < fuel
      → ((j : ℕ) → j < n → Continues (millis config.command_timeout_secs) (server.arrival text j))
      → (server.arrival text n).gap ≤ millis config.command_timeout_secs
      → (server.arrival text n).message ≡ some eof
      → (r : ExecutionResult) × (execute config server fuel text s ≡ (s', some (ok r)))
        × (task_verdict r ≡ (TaskStatus.succeeded, none, none))
  end_before_status_succeeds n fuel h more soon message =
      let limit = millis config.command_timeout_secs in
      let in_time : leb (server.arrival text n).gap limit ≡ true = ground arith in
      let last : IsLast limit (server.arrival text n) = rw (in_time, message) refl in
      let zero_code : exit_code_at limit (server.arrival text n) ≡ pos 0 =
        rw (in_time, message) refl in
      (_, execute_returns n fuel h more last, rw zero_code refl)
