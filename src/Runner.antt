-- ===== src/Runner.antt =====
-- The build runner, ops-runner/src: the messages of src/common/src/messages.rs that it receives and
-- sends, what it keeps, and what it meets. An `anyhow::Error` is its text, kept as an internal error.
-- Ids of runners and attempts, and the time stamps of messages, are left out.
pub mod Logs
pub mod Transport
pub mod Cut
pub mod Step
pub mod Workspaces
pub mod Value
pub mod Meaning
pub mod Build
pub mod Verdict
pub mod Completion
pub mod Timeouts
pub mod Containers
pub mod Images
mod ImageRuns
mod Examples
use ops_service.Prelude.{
  ℕ, Uuid, DateTime, Bool, Option, none, some, List, [], ◌∷◌, ◌++◌, String, length,
}
use ops_service.Prelude.Int.{ℤ}
use ops_service.Prelude.Bytes.{Bytes}
use ops_service.Error.{AppError, Act, execute, internal}

pub data BuildStatus : Type 0 where
  received preparing running succeeded failed timeout cancelled : BuildStatus

pub data StepStatus : Type 0 where
  pending running succeeded failed timeout skipped : StepStatus

pub data ErrorCategory : Type 0 where
  network auth dependency build test timeout resource permission unknown : ErrorCategory

pub data LogLevel : Type 0 where
  debug info warn error : LogLevel

pub record BuildStep : Type 0 where
  pub id : Bytes
  pub name : Bytes
  pub command : Option Bytes
  pub script : Option Bytes
  pub working_dir : Option Bytes
  pub timeout_secs : Option ℕ
  pub continue_on_failure : Bool
  pub produces_artifact : Bool

pub record BuildTaskMessage : Type 0 where
  pub task_id : Uuid
  pub job_id : Uuid
  pub project_name : Bytes
  pub repository_url : Bytes
  pub branch : Bytes
  pub commit : Bytes
  pub build_type : Bytes
  pub steps : List BuildStep

pub record BuildArtifact : Type 0 where
  pub path : Bytes
  pub name : Bytes
  pub artifact_type : Bytes
  pub size : ℕ
  pub sha256 : Bytes
  pub version : Bytes

pub record StepStatusUpdate : Type 0 where
  pub step_id : Bytes
  pub status : StepStatus
  pub started_at : DateTime
  pub completed_at : Option DateTime
  pub exit_code : Option ℤ
  pub artifact : Option BuildArtifact

pub record BuildStatusMessage : Type 0 where
  pub task_id : Uuid
  pub job_id : Uuid
  pub status : BuildStatus
  pub step_status : Option StepStatusUpdate
  pub error : Option String
  pub error_category : Option ErrorCategory

pub record BuildLogMessage : Type 0 where
  pub task_id : Uuid
  pub job_id : Uuid
  pub step_id : Bytes
  pub level : LogLevel
  pub content : Bytes
  pub offset : ℕ
  pub is_final : Bool

pub data Message : Type 0 where
  status_message : BuildStatusMessage → Message
  log_message : BuildLogMessage → Message

-- A directory `{job_id}_{task_id}` with the time of its last change.
pub record Workspace : Type 0 where
  pub job_id : Uuid
  pub task_id : Uuid
  pub modified : DateTime

pub data CleanupPolicy : Type 0 where
  immediate manual : CleanupPolicy
  after_duration : (secs : ℕ) → CleanupPolicy
  retain_recent : (count : ℕ) → CleanupPolicy

-- The messages sent so far, and the workspaces that exist.
pub record Store : Type 0 where
  pub sent : List Message
  pub workspaces : List Workspace

-- `StepResult` of the container that ran a step, or the text of the error that stopped it.
pub data DockerOutcome : Type 0 where
  ran : (success : Bool) → (exit_code : ℤ) → (stdout stderr : Bytes) → DockerOutcome
  broke : String → DockerOutcome

-- What `tokio::time::timeout` of the blocking `cmd.output()` comes to.
pub data CommandOutcome : Type 0 where
  exited : (success : Bool) → (code : Option ℤ) → (stdout stderr : Bytes) → CommandOutcome
  timed_out : CommandOutcome
  io_error : String → CommandOutcome
  join_error : String → CommandOutcome

pub record Env : Type 0 where
  -- Whether the broker takes a message, given how many it took before.
  pub delivers : ℕ → Message → Bool
  pub now : DateTime
  -- The container engine, where it is enabled and available.
  pub docker : Option (BuildStep → DockerOutcome)
  -- `sh -c` of a command in a directory of the workspace within seconds.
  pub run_command : Bytes → Option Bytes → ℕ → CommandOutcome
  pub step_timeout_secs : ℕ
  pub writes_script : BuildStep → Bool
  pub makes_executable : BuildStep → Bool
  pub script_path : BuildStep → Bytes
  -- `git`: `none` if it could not be started, otherwise whether it succeeded.
  pub git_clone : Bytes → Bytes → Option Bool
  pub git_checkout : Bytes → Option Bool
  pub creates_dir : Bool
  -- The first path of a glob in the workspace, a file's size and content, and the hash.
  pub first_match : Bytes → Option Bytes
  pub file_size : Bytes → Option ℕ
  pub read_file : Bytes → Option Bytes
  pub sha256_hex : Bytes → Bytes
  pub from_utf8_lossy : Bytes → Bytes
  -- `execution.cleanup_workspace`, the settings of the workspaces, their sizes, and whether the file
  -- system lists them and removes one at an attempt.
  pub cleanup_enabled : Bool
  pub policy : CleanupPolicy
  pub max_size_mb : Option ℕ
  pub size_mb : Workspace → Option ℕ
  pub lists_dir : Bool
  pub removes : Workspace → ℕ → Bool

-- The text of a runner's error.
abbrev pub error_message : AppError → String
error_message (internal m) = m
error_message _ = ""

-- `channel.basic_publish(…).await.context(…)?`
abbrev pub basic_publish : Env → String → Message → Act Store (Unit {0})
basic_publish env context message s =
    execute (env.delivers (length s.sent) message) (internal context)
      (λ t. record t { sent = t.sent ++ message ∷ [] }) s

abbrev pub publish_build_status :
    Env
    → BuildTaskMessage
    → BuildStatus
    → Option StepStatusUpdate
    → Option String
    → Option ErrorCategory
    → Act Store (Unit {0})
publish_build_status env task status step_status text error_category =
    basic_publish env "Failed to publish status message" (
      status_message (record {
        task_id = task.task_id;
        job_id = task.job_id;
        status = status;
        step_status = step_status;
        error = text;
        error_category = error_category;
      }))

abbrev pub publish_step_status :
    Env
    → BuildTaskMessage
    → BuildStep
    → StepStatus
    → Option DateTime
    → Option ℤ
    → Option BuildArtifact
    → Act Store (Unit {0})
publish_step_status env task step status completed_at exit_code artifact =
    publish_build_status env task BuildStatus.running
      (some (record {
        step_id = step.id;
        status = status;
        started_at = env.now;
        completed_at = completed_at;
        exit_code = exit_code;
        artifact = artifact;
      }))
      none none

abbrev pub publish_error : Env → BuildTaskMessage → String → ErrorCategory → Act Store (Unit {0})
publish_error env task text category =
    publish_build_status env task BuildStatus.failed none (some text) (some category)

abbrev pub publish_artifact :
    Env → BuildTaskMessage → BuildStep → BuildArtifact → Act Store (Unit {0})
publish_artifact env task step artifact = basic_publish env "Failed to publish artifact message" (
    status_message (record {
      task_id = task.task_id;
      job_id = task.job_id;
      status = BuildStatus.running;
      step_status = some (record {
        step_id = step.id;
        status = StepStatus.succeeded;
        started_at = env.now;
        completed_at = some env.now;
        exit_code = some (ℤ.pos 0);
        artifact = some artifact;
      });
      error = none;
      error_category = none;
    }))
