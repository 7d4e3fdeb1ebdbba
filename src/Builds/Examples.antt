-- ===== src/Builds/Examples.antt =====
-- Runs of the handlers of build messages at concrete inputs.
use ops_service.Prelude.{refl, true, false, none, some, [], ◌∷◌, ◌++◌, if◌then◌else◌}
use ops_service.Prelude.Bytes.{codes}
use ops_service.Prelude.Int.{pos}
use ops_service.Job.{JobStatus}
use ops_service.Runner.{
  BuildStep, BuildTaskMessage, BuildStatus, BuildStatusMessage, BuildLogMessage, StepStatus, info,
  status_message, exited, immediate, Store, Env as RunnerEnv,
}
use ops_service.Runner.Build.{process_message}
use ops_service.Runner.Completion.{is_built}
use ops_service.Builds.{BuildJob, BuildStepRow, Tables, Env}
use ops_service.Builds.Consumed.{Says}
use ops_service.Builds.Ending.{deliver, build_ends_in_table, late_running_reopens}

abbrev calm : Env
calm = record { answered = λ c. true; now = 5100 }

abbrev compile : BuildStep
compile = record {
  id = codes "s1";
  name = codes "compile";
  command = some (codes "make");
  script = none;
  working_dir = none;
  timeout_secs = none;
  continue_on_failure = false;
  produces_artifact = false;
}

abbrev sample_task : BuildTaskMessage
sample_task = record {
  task_id = 11;
  job_id = 7;
  project_name = codes "app";
  repository_url = codes "file:///srv/app";
  branch = codes "main";
  commit = codes "c0ffee";
  build_type = codes "rust";
  steps = compile ∷ [];
}

-- A host on which every command succeeds.
abbrev host : RunnerEnv
host = record {
  delivers = λ n m. true;
  now = 5000;
  docker = none;
  run_command = λ command dir secs. exited true (some (pos 0)) (codes "done") [];
  step_timeout_secs = 600;
  writes_script = λ step. true;
  makes_executable = λ step. true;
  script_path = λ step. step.id;
  git_clone = λ branch url. some true;
  git_checkout = λ commit. some true;
  creates_dir = true;
  first_match = λ pattern. none;
  file_size = λ path. none;
  read_file = λ path. none;
  sha256_hex = λ content. content;
  from_utf8_lossy = λ bytes. bytes;
  cleanup_enabled = true;
  policy = immediate;
  max_size_mb = none;
  size_mb = λ w. none;
  lists_dir = true;
  removes = λ w attempt. true;
}

abbrev idle : Store
idle = record { sent = []; workspaces = [] }

abbrev job_row : BuildJob
job_row = record { id = 7; status = JobStatus.running; started_at = some 4990; completed_at = none }

abbrev step_row : BuildStepRow
step_row = record {
  job_id = 7;
  step_id = codes "s1";
  status = StepStatus.running;
  started_at = some 5000;
  completed_at = none;
  exit_code = none;
  output_detail = none;
  log_offset = 0;
}

abbrev tables : Tables
tables = record {
  build_jobs = job_row ∷ [];
  build_steps = step_row ∷ [];
  build_artifacts = [];
  runners = [];
}

build_ends_in_table_example :
    Says 7
      (if is_built host sample_task then JobStatus.completed else JobStatus.failed)
      (deliver calm (codes "r1") (process_message host sample_task idle).0.sent tables)
build_ends_in_table_example =
    build_ends_in_table host (λ n m. refl) sample_task idle calm (λ c. refl) (codes "r1") tables

abbrev running_message : BuildStatusMessage
running_message = record {
  task_id = 11;
  job_id = 7;
  status = BuildStatus.running;
  step_status = none;
  error = none;
  error_category = none;
}

abbrev final_message : BuildStatusMessage
final_message = record running_message { status = BuildStatus.succeeded }

late_running_reopens_example : Says 7 JobStatus.running (
    deliver calm
      (codes "r1")
      ((status_message final_message ∷ []) ++ status_message running_message ∷ [])
      tables)
late_running_reopens_example =
    late_running_reopens calm (λ c. refl) (codes "r1") (status_message final_message ∷ [])
      running_message tables refl

abbrev first_log : BuildLogMessage
first_log = record {
  task_id = 11;
  job_id = 7;
  step_id = codes "s1";
  level = info;
  content = codes "done";
  offset = 0;
  is_final = true;
}
