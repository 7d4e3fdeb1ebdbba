-- ===== src/Runner/Value.antt =====
-- What a step of a build comes to, said without the messages that it sends.
use ops_service.Prelude.{
  Bool, not, ◌&&◌, Option, none, some, List, [], ◌∷◌, ◌++◌, if◌then◌else◌, get_or,
}
use ops_service.Prelude.Bytes.{Bytes, codes}
use ops_service.Error.{R, ok, err, panicked, AppError, internal}
use ops_service.Runner.{
  StepStatus, BuildStep, BuildTaskMessage, BuildArtifact, DockerOutcome, ran, broke, CommandOutcome,
  exited, timed_out, io_error, join_error, Env,
}
use ops_service.Runner.Step.{artifact_patterns, is_failed}

-- The result of a bind.
abbrev pub bind {ℓ κ} : {A : Type ℓ} {B : Type κ} → R A → (A → R B) → R B
bind (ok a) f = f a
bind (err e) f = err e
bind panicked f = panicked

abbrev pub or_error {ℓ} : {A : Type ℓ} → Option A → AppError → R A
or_error none e = err e
or_error (some a) e = ok a

abbrev pub refuse_value : Bool → AppError → R (Unit {0})
refuse_value test e = if test then err e else ok tt

abbrev pub upload_value : Env → Bytes → BuildTaskMessage → BuildStep → R BuildArtifact
upload_value env path task step = bind (or_error (env.file_size path) (internal "metadata")) λ size.
    bind (or_error (env.read_file path) (internal "read")) λ content. ok (record {
      path = path;
      name = step.name;
      artifact_type = task.build_type;
      size = size;
      sha256 = env.sha256_hex content;
      version = task.commit;
    })

abbrev pub matched_value :
    Env
    → BuildTaskMessage
    → BuildStep
    → R (Option BuildArtifact)
    → Option Bytes
    → R (Option BuildArtifact)
matched_value env task step later none = later
matched_value env task step later (some path) =
    bind (upload_value env path task step) (λ artifact. ok (some artifact))

-- The artifact that the patterns lead to.
unfoldable pub artifact_value :
    Env → BuildTaskMessage → BuildStep → List Bytes → R (Option BuildArtifact)
artifact_value env task step [] = ok none
artifact_value env task step (pattern ∷ patterns) =
    matched_value env task step (artifact_value env task step patterns) (env.first_match pattern)

-- A step that succeeded looks for its artifact, if it is to have one.
abbrev pub success_value :
    Env → BuildTaskMessage → BuildStep → R (StepStatus × Option BuildArtifact)
success_value env task step =
    bind
      (if step.produces_artifact then artifact_value env task step artifact_patterns else ok none)
      (λ artifact. ok (StepStatus.succeeded, artifact))

abbrev pub docker_value :
    Env → BuildTaskMessage → BuildStep → DockerOutcome → R (StepStatus × Option BuildArtifact)
docker_value env task step (ran success exit_code stdout stderr) =
    if success then success_value env task step else ok (StepStatus.failed, none)
docker_value env task step (broke e) = ok (StepStatus.failed, none)

abbrev pub native_value :
    Env → BuildTaskMessage → BuildStep → CommandOutcome → R (StepStatus × Option BuildArtifact)
native_value env task step (exited success code stdout stderr) =
    if success then success_value env task step else ok (StepStatus.failed, none)
native_value env task step timed_out = ok (StepStatus.timeout, none)
native_value env task step (io_error e) = ok (StepStatus.failed, none)
native_value env task step (join_error e) = err (internal e)

abbrev pub command_value : Env → BuildStep → Option Bytes → Option Bytes → R Bytes
command_value env step (some command) script = ok command
command_value env step none none = err (internal "Step must have either command or script")
command_value env step none (some script) =
    bind (refuse_value (not (env.writes_script step)) (internal "Failed to write script file")) λ u.
      bind
        (refuse_value (not (env.makes_executable step))
          (internal "Failed to make script executable"))
        λ v. ok (codes "sh " ++ env.script_path step)

abbrev pub outcome_of : Env → BuildStep → Bytes → CommandOutcome
outcome_of env step command =
    env.run_command command step.working_dir (get_or step.timeout_secs env.step_timeout_secs)

abbrev pub ended_value :
    Env
    → BuildTaskMessage
    → BuildStep
    → Option (BuildStep → DockerOutcome)
    → R (StepStatus × Option BuildArtifact)
ended_value env task step none =
    bind (command_value env step step.command step.script)
      (λ command. native_value env task step (outcome_of env step command))
ended_value env task step (some engine) = docker_value env task step (engine step)

-- A failed step is an error unless the build goes on after it. A timeout is none.
abbrev pub judged : BuildStep → StepStatus × Option BuildArtifact → R (Option BuildArtifact)
judged step (status, artifact) =
    bind
      (refuse_value (is_failed status && not step.continue_on_failure)
        (internal "Step failed and continue_on_failure is false"))
      (λ u. ok artifact)

abbrev pub step_value : Env → BuildTaskMessage → BuildStep → R (Option BuildArtifact)
step_value env task step = bind (ended_value env task step env.docker) (judged step)
