-- ===== src/Job/Runs.antt =====
-- Runs of whole executions at concrete inputs.
use ops_service.Prelude.{true, false, none, some, [], ◌∷◌}
use ops_service.Prelude.Int.{pos}
use ops_service.Error.{ok, rate_limit_exceeded}
use ops_service.Output.{OutputArchive}
use ops_service.Job.{JobStatus, Job, Store}
use ops_service.Job.Execute.{ExecutionResult, Env}
use ops_service.Job.Samples.{job, tables}

-- The command fails with exit code 2 and prints nothing.
abbrev exit_two : ExecutionResult
exit_two = record {
  exit_code = pos 2;
  stdout = [];
  stderr = [];
  duration_secs = 1;
  timed_out = false;
}

abbrev archive : OutputArchive
archive = record {
  max_summary_length = 1000;
  max_detail_length = 100_000;
  enable_sanitization = false;
  rules = [];
}

abbrev env : Env
env = record {
  answered = λ _. true;
  permit = λ group environment. none;
  ssh = λ job host text. ok exit_two;
  to_string = λ e. "error";
  archive = archive;
  now = 200;
}

abbrev crowded : Env
crowded = record env { permit = λ group environment. some rate_limit_exceeded }

abbrev larger_job : Job
larger_job = record job { total_tasks = 2 }

abbrev larger_tables : Store
larger_tables = record tables { jobs = larger_job ∷ [] }

abbrev cancelled_row : Job
cancelled_row = record job { status = JobStatus.cancelled }

abbrev cancelled_tables : Store
cancelled_tables = record tables { jobs = cancelled_row ∷ [] }
