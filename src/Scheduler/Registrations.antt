-- ===== src/Scheduler/Registrations.antt =====
-- A history of the table of runners at concrete inputs.
use ops_service.Prelude.{◌≡◌, refl, true, none, some, List, [], ◌∷◌, find, map}
use ops_service.Prelude.Int.{pos, negsuc}
use ops_service.Prelude.Bytes.{codes}
use ops_service.Error.{ok, err, forbidden}
use ops_service.Scheduler.{active, disabled, Runner, is_alive}
use ops_service.Scheduler.Registry.{
  RunnerRegistrationRequest, RunnerHeartbeatRequest, Answers, has_name, register_runner,
  runner_heartbeat,
}
use ops_service.Scheduler.Registered.{
  Event, register, change_status, remove, step, run, IsRegistry, run-IsRegistry,
}
use ops_service.Scheduler.Enabling.{message_enables}

abbrev at_hundred : Answers
at_hundred = record { reads = true; writes = true; now = 100; new_id = 1 }

abbrev later : Answers
later = record { reads = true; writes = true; now = 130; new_id = 2 }

abbrev north : RunnerRegistrationRequest
north = record { name = codes "north"; capabilities = codes "rust" ∷ []; max_concurrent_jobs = 2 }

abbrev south : RunnerRegistrationRequest
south = record { name = codes "south"; capabilities = []; max_concurrent_jobs = 1 }

abbrev online : RunnerHeartbeatRequest
online = record { name = codes "north"; status = codes "online"; current_jobs = 0 }

-- Two runners register, one is disabled, asks again under its name, and the other cannot be removed.
abbrev history : List Event
history =
    register at_hundred north
    ∷ register later south
    ∷ change_status later (ok tt) 1 (codes "disabled")
    ∷ register (record later { new_id = 3 }) north
    ∷ remove later (err forbidden) 2
    ∷ []

run-IsRegistry_example : IsRegistry (run history [])
unfolding step
run-IsRegistry_example = run-IsRegistry history (refl, (refl, (tt, (refl, (tt, tt)))))

abbrev disabled_north : Runner
disabled_north = record {
  id = 1;
  name = codes "north";
  capabilities = some [];
  max_concurrent_jobs = pos 2;
  current_jobs = pos 0;
  status = disabled;
  last_heartbeat = none;
}

message_enables_example :
    ((after : Runner) × (find
          (has_name (codes "north"))
          (runner_heartbeat later online (disabled_north ∷ [])).0
        ≡ some after)
      × (after.status ≡ active)
      × (is_alive 130 after.last_heartbeat ≡ true))
    × ((after : Runner) × (find
            (has_name (codes "north"))
            (register_runner later north (disabled_north ∷ [])).0
          ≡ some after)
        × (after.status ≡ active)
        × (is_alive 130 after.last_heartbeat ≡ true))
message_enables_example =
    message_enables later (disabled_north ∷ []) disabled_north refl refl online north refl refl refl
      refl

-- A status that the table refuses changes nothing.
offline_fails :
    (runner_heartbeat later (record online { status = codes "offline" }) (disabled_north ∷ [])).0
    ≡ disabled_north ∷ []
unfolding runner_heartbeat
offline_fails = refl

-- A count of 2 ^ 31 becomes negative, and such a runner gets no build.
count_wraps :
    map
      (λ r. r.max_concurrent_jobs)
      (register_runner later (record north { max_concurrent_jobs = 2_147_483_648 }) []).0
    ≡ negsuc 2_147_483_647 ∷ []
unfolding register_runner
count_wraps = refl
