-- ===== src/Scheduler/Examples.antt =====
-- Runs of the runner scheduler at concrete inputs.
use ops_service.Prelude.{ℕ, ◌*◌, ◌/◌, true, some, List, [], ◌∷◌}
use Prim.Native.Nat.{compare}
use ops_service.Prelude.Int.{pos, pos_part}
use ops_service.Prelude.Bytes.{codes}
use ops_service.Scheduler.{Runner, active, maintenance, Env}

-- Scores in thousandths.
abbrev thousandths : Env ℕ
thousandths = record {
  answers = true;
  now = 1000;
  one = 1000;
  divide = λ a b. pos_part a * 1000 / pos_part b;
  partial_cmp = λ a b. some (compare a b);
}

abbrev busy : Runner
busy = record {
  id = 1;
  name = codes "r1";
  capabilities = some (codes "node" ∷ []);
  max_concurrent_jobs = pos 5;
  current_jobs = pos 2;
  status = active;
  last_heartbeat = some 950;
}

abbrev calm : Runner
calm = record busy { id = 2; name = codes "r2"; max_concurrent_jobs = pos 10; current_jobs = pos 3 }

abbrev resting : Runner
resting = record calm { id = 3; name = codes "r3"; status = maintenance }

abbrev sample_runners : List Runner
sample_runners = busy ∷ calm ∷ resting ∷ []
