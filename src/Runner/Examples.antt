-- ===== src/Runner/Examples.antt =====
-- Runs of the build runner at concrete inputs.
use ops_service.Prelude.{
  ◌≡◌, refl, true, false, Option, none, some, List, [], ◌∷◌, ◌++◌, length, arith, String,
}
use ops_service.Prelude.Int.{pos}
use ops_service.Prelude.Bytes.{codes}
use ops_service.Error.{ok}
use ops_service.Runner.{
  BuildStep, BuildTaskMessage, BuildStatus, ErrorCategory, Message, info, CommandOutcome, exited,
  timed_out, immediate, Store, Env,
}
use ops_service.Runner.Logs.{publish_log_by}
use ops_service.Runner.Transport.{contents, Placed, Closed, publish_log_roundtrip}
use ops_service.Runner.Build.{process_message}
use ops_service.Runner.Verdict.{last_message, state_message}
use ops_service.Runner.Timeouts.{timed_out_build_succeeds}

abbrev compile : BuildStep
compile = record {
  id = codes "s1";
  name = codes "compile";
  command = some (codes "make");
  script = none;
  working_dir = none;
  timeout_secs = none;
  continue_on_failure = false;
  produces_artifact = true;
}

abbrev test_step : BuildStep
test_step = record compile {
  id = codes "s2";
  name = codes "test";
  command = some (codes "make test");
  timeout_secs = some 60;
  produces_artifact = false;
}

abbrev sample_task : BuildTaskMessage
sample_task = record {
  task_id = 11;
  job_id = 7;
  project_name = codes "app";
  repository_url = codes "file:///srv/app";
  branch = codes "main";
  commit = codes "c0ffee";
  build_type = codes "rust";
  steps = compile ∷ test_step ∷ [];
}

-- A host on which every command comes to a given outcome.
abbrev host : CommandOutcome → Env
host outcome = record {
  delivers = λ n m. true;
  now = 5000;
  docker = none;
  run_command = λ command dir secs. outcome;
  step_timeout_secs = 600;
  writes_script = λ step. true;
  makes_executable = λ step. true;
  script_path = λ step. step.id;
  git_clone = λ branch url. some true;
  git_checkout = λ commit. some true;
  creates_dir = true;
  first_match = λ pattern. some (codes "dist/app");
  file_size = λ path. some (length path);
  read_file = λ path. some path;
  sha256_hex = λ content. content;
  from_utf8_lossy = λ bytes. bytes;
  cleanup_enabled = true;
  policy = immediate;
  max_size_mb = none;
  size_mb = λ w. none;
  lists_dir = true;
  removes = λ w attempt. true;
}

abbrev idle : Store
idle = record { sent = []; workspaces = [] }

abbrev good : CommandOutcome
good = exited true (some (pos 0)) (codes "done") []

abbrev bad : CommandOutcome
bad = exited false (some (pos 2)) [] (codes "no")

publish_log_roundtrip_example :
    (ms : List Message) × (publish_log_by 2
        (host good)
        sample_task
        compile
        (codes "hello")
        info
        0
        true
        idle
      ≡ (record idle { sent = idle.sent ++ ms }, ok tt))
    × (contents ms ≡ codes "hello")
    × Placed 0 ms
    × Closed true ms
publish_log_roundtrip_example =
    publish_log_roundtrip (host good) (λ n m. refl) sample_task compile info 2 0 true
      (codes "hello") idle (omega arith) (omega arith)

timed_out_build_succeeds_example :
    (text : Option String) × (category : Option ErrorCategory) × (last_message
        (process_message (host timed_out) sample_task idle).0.sent
      ≡ some (state_message sample_task BuildStatus.succeeded text category))
timed_out_build_succeeds_example =
    timed_out_build_succeeds (host timed_out) (λ n m. refl) sample_task idle refl
      (λ command dir secs. refl) ((codes "make", refl), ((codes "make test", refl), tt)) refl refl
