-- ===== src/Scheduler/Enabling.antt =====
-- The handlers of src/ops-service/src/handlers/runner.rs for the messages of a runner, and the status that
-- a user gave it.
use ops_service.Prelude.{
  ◌≡◌, refl, inl, inr, true, false, ◌||◌, some, List, find, update_where, arith, Bool-cases,
  find-update_where_other,
}
use ops_service.Prelude.Bytes.{Bytes, codes, bytes_eq}
use ops_service.Scheduler.{active, Runner, is_alive}
use ops_service.Scheduler.Registry.{
  runner_status_of_label, heartbeat_status, deserialize_status, RunnerRegistrationRequest,
  RunnerHeartbeatRequest, Answers, has_name, is_runner, registered, register_runner, beaten,
  runner_heartbeat,
}

enabling_label :
    (text : Bytes)
    → bytes_eq text (codes "maintenance") ≡ false
    → bytes_eq text (codes "offline") ≡ false
    → runner_status_of_label (heartbeat_status (deserialize_status text)) ≡ some active
unfolding runner_status_of_label heartbeat_status deserialize_status
enabling_label text kept on =
    elim (Bool-cases (bytes_eq text (codes "online") || bytes_eq text (codes "active"))) [
      | inl known ↦ rw known refl
      | inr unknown ↦ rw (unknown, kept, on) (rw (unknown, kept, on) refl)
    ]

module _ (answers : Answers) (xs : List Runner) (row : Runner) (reads : answers.reads ≡ true)
    (writes : answers.writes ≡ true) where
  after_update :
      (name : Bytes) (f : Runner → Runner)
      → ((x : Runner) → (f x).name ≡ x.name)
      → find (has_name name) xs ≡ some row
      → find (has_name name) (update_where (is_runner row.id) f xs) ≡ some (f row)
  after_update name f same found =
      find-update_where_other (is_runner row.id) (has_name name) f xs row
        (λ (x : Runner). rw (same x)) found (ground arith)

  beaten_row :
      (beat : RunnerHeartbeatRequest)
      → find (has_name beat.name) xs ≡ some row
      → runner_status_of_label (heartbeat_status (deserialize_status beat.status)) ≡ some active
      → find (has_name beat.name) (runner_heartbeat answers beat xs).0
        ≡ some (beaten answers active beat.current_jobs row)
  unfolding runner_heartbeat
  beaten_row beat found label =
      rw (reads, found, label, writes)
        (after_update beat.name (beaten answers active beat.current_jobs) (λ x. refl) found)

  registered_row :
      (request : RunnerRegistrationRequest)
      → find (has_name request.name) xs ≡ some row
      → find (has_name request.name) (register_runner answers request xs).0
        ≡ some (registered answers request row)
  unfolding register_runner
  registered_row request found =
      rw (reads, found, writes)
        (after_update request.name (registered answers request) (λ x. refl) found)

  -- A message of a runner enables it: with the statements answered, a heartbeat whose status is neither
  -- `maintenance` nor `offline`, and a registration under a name that is known, leave the runner's row as
  -- active and alive, whatever its status was.
  pub message_enables :
      (beat : RunnerHeartbeatRequest) (request : RunnerRegistrationRequest)
      → find (has_name beat.name) xs ≡ some row
      → find (has_name request.name) xs ≡ some row
      → bytes_eq beat.status (codes "maintenance") ≡ false
      → bytes_eq beat.status (codes "offline") ≡ false
      → ((after : Runner) × (find (has_name beat.name) (runner_heartbeat answers beat xs).0
            ≡ some after)
          × (after.status ≡ active)
          × (is_alive answers.now after.last_heartbeat ≡ true))
        × ((after : Runner) × (find (has_name request.name) (register_runner answers request xs).0
              ≡ some after)
            × (after.status ≡ active)
            × (is_alive answers.now after.last_heartbeat ≡ true))
  message_enables beat request found known kept on = (
    (_, beaten_row beat found (enabling_label beat.status kept on), refl, ground arith),
    (_, registered_row request known, refl, ground arith),
  )
