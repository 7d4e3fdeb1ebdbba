-- ===== src/Builds/Dispatches.antt =====
-- Builds that are created and dispatched, at concrete inputs: the runner has the capability general.
use ops_service.Prelude.{ℕ, ◌*◌, ◌/◌, true, some, [], ◌∷◌}
use Prim.Native.Nat.{compare}
use ops_service.Prelude.Int.{pos, pos_part}
use ops_service.Prelude.Bytes.{codes}
use ops_service.Scheduler.{Runner, RunnerStatus, Env, ScheduleResult}
use ops_service.Builds.Dispatch.{Store, CreateBuildJobRequest, Answers}

abbrev thousandths : Env ℕ
thousandths = record {
  answers = true;
  now = 1000;
  one = 1000;
  divide = λ a b. pos_part a * 1000 / pos_part b;
  partial_cmp = λ a b. some (compare a b);
}

abbrev all_answered : Answers
all_answered = record {
  insert_parent = true;
  insert_build = true;
  increment = true;
  publisher = true;
  publishes = true;
  parent_id = 6;
  job_id = 7;
}

abbrev general_runner : Runner
general_runner = record {
  id = 1;
  name = codes "r1";
  capabilities = some (codes "general" ∷ []);
  max_concurrent_jobs = pos 5;
  current_jobs = pos 2;
  status = RunnerStatus.active;
  last_heartbeat = some 950;
}

abbrev before : Store
before = record {
  parents = [];
  tables = record {
    build_jobs = [];
    build_steps = [];
    build_artifacts = [];
    runners = general_runner ∷ [];
  };
  published = [];
}

abbrev rust_build : CreateBuildJobRequest
rust_build = record { build_type = codes "rust"; step_names = codes "compile" ∷ [] }

abbrev other_build : CreateBuildJobRequest
other_build = record { build_type = codes "other"; step_names = codes "compile" ∷ [] }

abbrev chosen_runner : ScheduleResult
chosen_runner = record {
  runner_id = 1;
  runner_name = codes "r1";
  routing_key = codes "build.rust.r1";
}
