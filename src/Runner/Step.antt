-- ===== src/Runner/Step.antt =====
-- `execute_step`, `create_and_upload_artifact` and `upload_artifact` of
-- src/ops-runner/src/executor.rs. What an upload to the artifact storage answers is only logged and
-- is left out, as are the environment variables, which the command takes over.
use ops_service.Prelude.{
  Bool, true, false, not, ◌&&◌, Option, none, some, List, [], ◌∷◌, ◌++◌, String, if◌then◌else◌,
  is_empty, get_or,
}
use Prim.Native.String.{◌++◌ as str_append}
use ops_service.Prelude.Int.{ℤ, pos}
use ops_service.Prelude.Bytes.{Bytes, codes}
use ops_service.Error.{Act, ◌>>=◌, ◌>>◌, pure, fail, refuse_if, or_fail, internal}
use ops_service.Runner.{
  StepStatus, LogLevel, info, warn, error, BuildStep, BuildTaskMessage, BuildArtifact,
  DockerOutcome, ran, broke, CommandOutcome, exited, timed_out, io_error, join_error, Store, Env,
  publish_step_status, publish_artifact,
}
use ops_service.Runner.Logs.{publish_log}

abbrev pub artifact_patterns : List Bytes
artifact_patterns =
    codes "target/release/*" ∷ codes "dist/*" ∷ codes "build/*" ∷ codes "*.jar" ∷ codes "*.zip" ∷ []

abbrev pub upload_artifact : Env → Bytes → BuildTaskMessage → BuildStep → Act Store BuildArtifact
upload_artifact env path task step = do
  size ← or_fail (env.file_size path) (internal "metadata")
  content ← or_fail (env.read_file path) (internal "read")
  pure record {
    path = path;
    name = step.name;
    artifact_type = task.build_type;
    size = size;
    sha256 = env.sha256_hex content;
    version = task.commit;
  }

-- A file that a pattern matches is the artifact; without one the later patterns are tried.
abbrev pub matched :
    Env
    → BuildTaskMessage
    → BuildStep
    → Act Store (Option BuildArtifact)
    → Option Bytes
    → Act Store (Option BuildArtifact)
matched env task step later none = later
matched env task step later (some path) = do
  artifact ← upload_artifact env path task step
  publish_artifact env task step artifact
  pure (some artifact)

unfoldable pub find_artifact :
    Env → BuildTaskMessage → BuildStep → List Bytes → Act Store (Option BuildArtifact)
find_artifact env task step [] = pure none
find_artifact env task step (pattern ∷ patterns) =
    matched env task step (find_artifact env task step patterns) (env.first_match pattern)

abbrev pub create_and_upload_artifact :
    Env → BuildTaskMessage → BuildStep → Act Store (Option BuildArtifact)
create_and_upload_artifact env task step = find_artifact env task step artifact_patterns

abbrev pub artifact_of : Env → BuildTaskMessage → BuildStep → Act Store (Option BuildArtifact)
artifact_of env task step =
    if step.produces_artifact then create_and_upload_artifact env task step else pure none

-- `if !text.is_empty() { publish_log(…)?; }`
abbrev pub log_unless_empty :
    Env → BuildTaskMessage → BuildStep → Bytes → LogLevel → Act Store (Unit {0})
log_unless_empty env task step text level =
    if is_empty text then pure tt else publish_log env task step text level 0 true

-- The end of a step: its artifact, and the status that is published with it.
abbrev pub finish_step :
    Env
    → BuildTaskMessage
    → BuildStep
    → StepStatus
    → Option ℤ
    → Option BuildArtifact
    → Act Store (StepStatus × Option BuildArtifact)
finish_step env task step status exit_code artifact = do
  publish_step_status env task step status (some env.now) exit_code artifact
  pure (status, artifact)

abbrev pub log_and_end :
    Env
    → BuildTaskMessage
    → BuildStep
    → StepStatus
    → Option ℤ
    → Bytes
    → Act Store (StepStatus × Option BuildArtifact)
log_and_end env task step status exit_code text = do
  publish_log env task step text error 0 true
  finish_step env task step status exit_code none

-- The texts of errors are kept without what `{}` fills in, apart from the text of an inner error.
abbrev pub error_text : String → Bytes
error_text e = codes (str_append "Execution error: " e)

abbrev pub merged : Bytes → Bytes → Bytes
merged stdout stderr =
    if is_empty stderr
    then stdout
    else if is_empty stdout
    then stderr
    else stdout ++ (codes "\n" ++ stderr)

-- The branch with a container.
abbrev pub end_docker :
    Env
    → BuildTaskMessage
    → BuildStep
    → DockerOutcome
    → Act Store (StepStatus × Option BuildArtifact)
end_docker env task step (ran success exit_code stdout stderr) =
    if success
    then (do
      log_unless_empty env task step stdout info
      log_unless_empty env task step stderr warn
      artifact ← artifact_of env task step
      finish_step env task step StepStatus.succeeded (some exit_code) artifact)
    else log_and_end env task step StepStatus.failed (some exit_code) (merged stdout stderr)
end_docker env task step (broke e) = log_and_end env task step StepStatus.failed none (error_text e)

-- The branch without one, after the command.
abbrev pub end_native :
    Env
    → BuildTaskMessage
    → BuildStep
    → CommandOutcome
    → Act Store (StepStatus × Option BuildArtifact)
end_native env task step (exited success code stdout stderr) =
    if success
    then (do
      publish_log env task step (env.from_utf8_lossy stdout) info 0 true
      artifact ← artifact_of env task step
      finish_step env task step StepStatus.succeeded (some (get_or code (pos 0))) artifact)
    else log_and_end env task step StepStatus.failed (some (get_or code (pos 1)))
        (env.from_utf8_lossy stdout ++ (codes "\n" ++ env.from_utf8_lossy stderr))
end_native env task step timed_out =
    log_and_end env task step StepStatus.timeout none (codes "Execution timed out after ")
end_native env task step (io_error e) =
    log_and_end env task step StepStatus.failed none (error_text e)
end_native env task step (join_error e) = fail (internal e)

-- The command that a step runs; a script is written to a file first.
abbrev pub command_from : Env → BuildStep → Option Bytes → Option Bytes → Act Store Bytes
command_from env step (some command) script = pure command
command_from env step none none = fail (internal "Step must have either command or script")
command_from env step none (some script) = do
  refuse_if (not (env.writes_script step)) (internal "Failed to write script file")
  refuse_if (not (env.makes_executable step)) (internal "Failed to make script executable")
  pure (codes "sh " ++ env.script_path step)

abbrev pub command_of : Env → BuildStep → Act Store Bytes
command_of env step = command_from env step step.command step.script

abbrev pub run_native :
    Env → BuildTaskMessage → BuildStep → Act Store (StepStatus × Option BuildArtifact)
run_native env task step = do
  command ← command_of env step
  end_native env task step
      (env.run_command command step.working_dir (get_or step.timeout_secs env.step_timeout_secs))

abbrev pub run_step :
    Env
    → BuildTaskMessage
    → BuildStep
    → Option (BuildStep → DockerOutcome)
    → Act Store (StepStatus × Option BuildArtifact)
run_step env task step none = run_native env task step
run_step env task step (some engine) = end_docker env task step (engine step)

abbrev pub is_failed : StepStatus → Bool
is_failed StepStatus.failed = true
is_failed _ = false

unfoldable pub execute_step : Env → BuildTaskMessage → BuildStep → Act Store (Option BuildArtifact)
unfolding find_artifact
execute_step env task step = do
  publish_step_status env task step StepStatus.running none none none
  ended ← run_step env task step env.docker
  refuse_if (is_failed ended.0 && not step.continue_on_failure)
      (internal "Step failed and continue_on_failure is false")
  pure ended.1
