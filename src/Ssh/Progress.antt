-- ===== src/Ssh/Progress.antt =====
-- `execute_with_progress` and `execute_script` of src/ops-service/src/ssh/executor.rs: the same connection
-- and loop with a callback for the output so far, and with a script as the command. The time of a
-- callback is that of the message before it.
use ops_service.Prelude.{
  ℕ, zero, suc, ◌-◌, ◌≡◌, refl, ap, ◌∙◌, Bool, true, false, ◌&&◌, Option, none, some, [], ◌∷◌, ◌++◌,
  if◌then◌else◌, leb, is_empty,
}
use ops_service.Prelude.Bytes.{Bytes, codes}
use ops_service.Error.{R, ok, err, panicked}
use ops_service.Job.Execute.{ExecutionResult}
use ops_service.Ssh.{SshConfig}
use ops_service.Ssh.Client.{
  ChannelMsg, data_msg, Arrival, Server, output, Trace, Output, Round, go_on, stop, after_wait,
  follow, read_loop, empty_output, millis, result_of, finished, and_read, start_command, execute,
}

module _ (server : Server) (has_callback : Bool) where
  -- A callback after some output, not sooner than 500 milliseconds after the last one.
  unfoldable pub report : Option ChannelMsg → Output → ℕ → Trace → Trace × ℕ
  report (some (data_msg bytes)) o last s =
      if has_callback && leb 500 (o.elapsed - last)
      then (s ++ output (server.from_utf8_lossy o.stdout) false ∷ [], o.elapsed)
      else (s, last)
  report _ o last s = (s, last)

  abbrev pub continue_with :
      (Output → ℕ → Trace → Trace × Option Output) → Output → Trace × ℕ → Trace × Option Output
  continue_with rest o (s, last) = rest o last s

  abbrev pub follow_with :
      Option ChannelMsg
      → Round
      → ℕ
      → Trace
      → (Output → ℕ → Trace → Trace × Option Output)
      → Trace × Option Output
  follow_with message (go_on next) last s rest =
      continue_with rest next (report message next last s)
  follow_with message (stop end) last s rest = (s, some end)

  unfoldable pub progress_loop :
      ℕ → ℕ → (ℕ → Arrival) → ℕ → Output → ℕ → Trace → Trace × Option Output
  unfolding report
  progress_loop zero limit arrival n o last s = (s, none)
  progress_loop (suc fuel) limit arrival n o last s =
      follow_with (arrival n).message (after_wait limit o (arrival n)) last s
        (progress_loop fuel limit arrival (suc n))

  unfoldable pub final_output : Output → Bytes
  final_output o =
      if is_empty o.stderr
      then server.from_utf8_lossy o.stdout
      else if is_empty o.stdout
      then server.from_utf8_lossy o.stderr
      else server.from_utf8_lossy o.stdout ++ 10 ∷ server.from_utf8_lossy o.stderr

  abbrev pub report_end : Trace × Option Output → Trace × Option (R ExecutionResult)
  report_end (s, none) = (s, none)
  report_end (s, some o) = (
    if has_callback then s ++ output (final_output o) true ∷ [] else s,
    some (ok (result_of server o)),
  )

  unfoldable pub execute_with_progress :
      SshConfig → ℕ → Bytes → Trace → Trace × Option (R ExecutionResult)
  unfolding start_command progress_loop final_output
  execute_with_progress config fuel text s =
      and_read (start_command config server "执行命令失败: " text s) (λ s'. report_end (
        progress_loop fuel (millis config.command_timeout_secs) (server.arrival text) 0 empty_output
          0 s'))

  follow_with-follow :
      (message : Option ChannelMsg) (r : Round) (last : ℕ) (s : Trace)
      (rest : Output → ℕ → Trace → Trace × Option Output) (plain : Output → Option Output)
      → ((o : Output) (l : ℕ) (t : Trace) → (rest o l t).1 ≡ plain o)
      → (follow_with message r last s rest).1 ≡ follow r plain
  follow_with-follow message (go_on next) last s rest plain h =
      h next (report message next last s).1 (report message next last s).0
  follow_with-follow message (stop end) last s rest plain h = refl

  progress_loop-read_loop :
      (fuel limit : ℕ) (arrival : ℕ → Arrival) (n : ℕ) (o : Output) (last : ℕ) (s : Trace)
      → (progress_loop fuel limit arrival n o last s).1 ≡ read_loop fuel limit arrival n o
  unfolding progress_loop read_loop
  progress_loop-read_loop zero limit arrival n o last s = refl
  progress_loop-read_loop (suc fuel) limit arrival n o last s =
      follow_with-follow (arrival n).message (after_wait limit o (arrival n)) last s _ _
        (progress_loop-read_loop fuel limit arrival (suc n))

  report_end-finished :
      (p : Trace × Option Output) (s : Trace) → (report_end p).1 ≡ (finished server p.1 s).1
  report_end-finished (t, none) s = refl
  report_end-finished (t, some o) s = refl

-- The callback changes nothing: with or without one, execute_with_progress returns what execute returns.
pub execute_with_progress_same :
    (config : SshConfig) (server : Server) (has_callback : Bool) (fuel : ℕ) (text : Bytes)
    (s : Trace)
    → (execute_with_progress server has_callback config fuel text s).1
      ≡ (execute config server fuel text s).1
unfolding execute_with_progress execute
execute_with_progress_same config server has_callback fuel text s =
    go (start_command config server "执行命令失败: " text s)
  where
    limit : ℕ
    limit = millis config.command_timeout_secs

    go :
        (m : Trace × R (Unit {0}))
        → (and_read m (λ s'. report_end server has_callback (
            progress_loop server has_callback fuel limit
              (server.arrival text)
              0
              empty_output
              0
              s'))).1
          ≡ (and_read m
              (finished server (read_loop fuel limit (server.arrival text) 0 empty_output))).1
    go (s', ok _) =
        report_end-finished server has_callback
          (progress_loop server has_callback fuel limit (server.arrival text) 0 empty_output 0 s')
          s'
        ∙ ap (λ o. (finished server o s').1)
            (progress_loop-read_loop server has_callback fuel limit (server.arrival text) 0
              empty_output 0 s')
    go (s', err e) = refl
    go (s', panicked) = refl

-- `execute_script`, with the base64 text of the script and a new random name.
abbrev pub script_command : Bytes → Bytes → Bytes
script_command encoded path =
    codes "echo '"
    ++ (encoded
        ++ (codes "' | base64 -d > '"
            ++ (path
                ++ (codes "' && chmod +x '"
                    ++ (path
                        ++ (codes "' && sh '"
                            ++ (path ++ (codes "'; rm -f '" ++ (path ++ codes "'")))))))))

abbrev pub script_path_of : Option Bytes → Bytes → Bytes
script_path_of none fresh_id = codes "/tmp/ops_script_" ++ (fresh_id ++ codes ".sh")
script_path_of (some path) fresh_id = path

unfoldable pub execute_script :
    SshConfig
    → Server
    → (Bytes → Bytes)
    → Bytes
    → ℕ
    → Bytes
    → Option Bytes
    → Trace
    → Trace × Option (R ExecutionResult)
unfolding start_command read_loop
execute_script config server base64_encode fresh_id fuel script path s =
    let text = script_command (base64_encode script) (script_path_of path fresh_id) in
    and_read (start_command config server "执行脚本失败: " text s) (
      finished server
        (read_loop fuel (millis config.command_timeout_secs) (server.arrival text) 0 empty_output))
