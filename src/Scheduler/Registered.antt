-- ===== src/Scheduler/Registered.antt =====
-- What the handlers of src/ops-service/src/handlers/runner.rs leave in the table of runners: names and ids
-- stay unique.
use ops_service.Prelude.{
  Uuid, ◌≡◌, refl, Bool, not, ◌&&◌, is_some, get_or, Option, none, some, List, [], ◌∷◌, ◌++◌, ◌==◌,
  find, update_where, retain, arith, find-none-retain,
}
use ops_service.Prelude.Keys.{
  Keyed, Keyed-update_where, Keyed-append_one, find-none-update_where, find-append_none,
}
use ops_service.Prelude.Bytes.{Bytes, bytes_eq_comm}
use ops_service.Error.{AppError, R, execute, database, internal}
use ops_service.Error.Preservation.{
  keeps_or_fail, keeps_execute, keeps_execute_then, keeps_answer, keeps_fetch,
}
use ops_service.Scheduler.{
  active, Runner, suc_ℤ, pred_or_zero, increment_current_jobs, decrement_current_jobs,
}
use ops_service.Scheduler.Registry.{
  runner_status_of_label, heartbeat_status, deserialize_status, RunnerRegistrationRequest,
  RunnerHeartbeatRequest, Answers, has_name, is_runner, registered, new_runner, store_runner,
  register_runner, beaten, runner_heartbeat, with_status, update_runner_status, delete_runner,
}

-- No name is that of two rows.
abbrev pub Named : List Runner → Type 0
Named [] = Unit
Named (x ∷ xs) = (find (has_name x.name) xs ≡ none) × Named xs

Named-update_where :
    (p : Runner → Bool) (f : Runner → Runner) (xs : List Runner)
    → ((x : Runner) → (f x).name ≡ x.name)
    → Named xs
    → Named (update_where p f xs)
Named-update_where p f [] same h = tt
Named-update_where p f (x ∷ xs) same h = ground (
  arith,
  same x,
  find-none-update_where p (has_name x.name) f xs (λ (y : Runner). rw (same y)) h.0,
  Named-update_where p f xs same h.1,
)

Named-append_one :
    (xs : List Runner) (y : Runner)
    → Named xs
    → find (has_name y.name) xs ≡ none
    → Named (xs ++ y ∷ [])
Named-append_one [] y h fresh = (refl, tt)
Named-append_one (x ∷ xs) y h fresh = ground (
  arith,
  bytes_eq_comm x.name y.name,
  find-append_none (has_name x.name) xs (y ∷ []) h.0,
  Named-append_one xs y h.1,
)

Named-retain : (p : Runner → Bool) (xs : List Runner) → Named xs → Named (retain p xs)
Named-retain p [] h = tt
Named-retain p (x ∷ xs) h =
    ground (arith, find-none-retain p (has_name x.name) xs h.0, Named-retain p xs h.1)

Keyed-retain :
    (p : Runner → Bool) (xs : List Runner)
    → Keyed (λ (r : Runner). r.id) xs
    → Keyed (λ (r : Runner). r.id) (retain p xs)
Keyed-retain p [] h = tt
Keyed-retain p (x ∷ xs) h =
    ground (arith, find-none-retain p (λ (y : Runner). y.id == x.id) xs h.0, Keyed-retain p xs h.1)

-- Ids and names are unique, as the table's constraints demand.
abbrev pub IsRegistry : List Runner → Type 0
IsRegistry runners = Keyed (λ (r : Runner). r.id) runners × Named runners

IsRegistry-update_where :
    (p : Runner → Bool) (f : Runner → Runner) (xs : List Runner)
    → ((x : Runner) → (f x).id ≡ x.id)
    → ((x : Runner) → (f x).name ≡ x.name)
    → IsRegistry xs
    → IsRegistry (update_where p f xs)
IsRegistry-update_where p f xs same_id same_name h = (
  Keyed-update_where (λ (r : Runner). r.id) p f xs same_id h.0,
  Named-update_where p f xs same_name h.1,
)

update-IsRegistry :
    (answered : Bool) (e : AppError) (p : Runner → Bool) (f : Runner → Runner) (xs : List Runner)
    → ((x : Runner) → (f x).id ≡ x.id)
    → ((x : Runner) → (f x).name ≡ x.name)
    → IsRegistry xs
    → IsRegistry (execute answered e (update_where p f) xs).0
update-IsRegistry answered e p f xs same_id same_name h =
    keeps_execute IsRegistry answered e (update_where p f) xs h
      (IsRegistry-update_where p f xs same_id same_name h)

module _ (answers : Answers) where
  register_runner-IsRegistry :
      (request : RunnerRegistrationRequest) (xs : List Runner)
      → find (is_runner answers.new_id) xs ≡ none
      → IsRegistry xs
      → IsRegistry (register_runner answers request xs).0
  unfolding register_runner
  register_runner-IsRegistry request xs fresh h =
      keeps_fetch IsRegistry answers.reads _ (find (has_name request.name)) xs
        (store_runner answers request) h (go (find (has_name request.name) xs) refl)
    where
      go :
          (found : Option Runner)
          → find (has_name request.name) xs ≡ found
          → IsRegistry (store_runner answers request found xs).0
      go (some row) e =
          keeps_execute_then IsRegistry answers.writes _
            (update_where (is_runner row.id) (registered answers request)) xs _ h
            (IsRegistry-update_where (is_runner row.id) (registered answers request) xs (λ x. refl)
              (λ x. refl) h)
      go none e =
          keeps_execute_then IsRegistry answers.writes _
            (λ runners. runners ++ new_runner answers request ∷ []) xs _ h
            (
              Keyed-append_one (λ (r : Runner). r.id) xs (new_runner answers request) h.0 fresh,
              Named-append_one xs (new_runner answers request) h.1 e,
            )

  runner_heartbeat-IsRegistry :
      (request : RunnerHeartbeatRequest) (xs : List Runner)
      → IsRegistry xs
      → IsRegistry (runner_heartbeat answers request xs).0
  unfolding runner_heartbeat
  runner_heartbeat-IsRegistry request xs h =
      keeps_fetch IsRegistry answers.reads _ (find (has_name request.name)) xs _ h (
        keeps_or_fail IsRegistry (find (has_name request.name) xs) _ xs _ h λ row.
          let status =
            runner_status_of_label (heartbeat_status (deserialize_status request.status)) in
          update-IsRegistry (answers.writes && is_some status)
            (database "Failed to update heartbeat") (is_runner row.id)
            (beaten answers (get_or status active) request.current_jobs) xs (λ x. refl) (λ x. refl)
            h)

  update_runner_status-IsRegistry :
      (answer : R (Unit {0})) (id : Uuid) (text : Bytes) (xs : List Runner)
      → IsRegistry xs
      → IsRegistry (update_runner_status answers answer id text xs).0
  unfolding update_runner_status
  update_runner_status-IsRegistry answer id text xs h = keeps_answer IsRegistry answer xs _ h (
      keeps_or_fail IsRegistry (runner_status_of_label text) _ xs _ h λ status.
        keeps_fetch IsRegistry answers.reads _ (find (is_runner id)) xs _ h (
          keeps_or_fail IsRegistry (find (is_runner id) xs) _ xs _ h λ row.
            update-IsRegistry answers.writes (database "Failed to update runner status")
              (is_runner id) (with_status answers status) xs (λ x. refl) (λ x. refl) h))

  delete_runner-IsRegistry :
      (answer : R (Unit {0})) (id : Uuid) (xs : List Runner)
      → IsRegistry xs
      → IsRegistry (delete_runner answers answer id xs).0
  unfolding delete_runner
  delete_runner-IsRegistry answer id xs h = keeps_answer IsRegistry answer xs _ h (
      keeps_fetch IsRegistry answers.reads _ (find (is_runner id)) xs _ h (
        keeps_or_fail IsRegistry (find (is_runner id) xs) _ xs _ h λ row.
          keeps_execute IsRegistry answers.writes (database "Failed to delete runner")
            (retain (λ r. not (is_runner id r))) xs h
            (
              Keyed-retain (λ r. not (is_runner id r)) xs h.0,
              Named-retain (λ r. not (is_runner id r)) xs h.1,
            )))

-- A request of a runner or a user, with what its statements meet, or a count of the scheduler.
pub data Event : Type 0 where
  register : Answers → RunnerRegistrationRequest → Event
  heartbeat : Answers → RunnerHeartbeatRequest → Event
  change_status : Answers → R (Unit {0}) → Uuid → Bytes → Event
  remove : Answers → R (Unit {0}) → Uuid → Event
  count_up : Bool → Uuid → Event
  count_down : Bool → Uuid → Event

unfoldable pub step : Event → List Runner → List Runner
unfolding register_runner runner_heartbeat update_runner_status delete_runner
step (register answers request) xs = (register_runner answers request xs).0
step (heartbeat answers request) xs = (runner_heartbeat answers request xs).0
step (change_status answers answer id text) xs = (update_runner_status answers answer id text xs).0
step (remove answers answer id) xs = (delete_runner answers answer id xs).0
step (count_up answered id) xs = (increment_current_jobs answered id xs).0
step (count_down answered id) xs = (decrement_current_jobs answered id xs).0

unfoldable pub run : List Event → List Runner → List Runner
run [] xs = xs
run (event ∷ events) xs = run events (step event xs)

-- The id of a new row is not in use.
abbrev pub IsNew : Event → List Runner → Type 0
IsNew (register answers request) xs = find (is_runner answers.new_id) xs ≡ none
IsNew _ xs = Unit

abbrev pub AllNew : List Event → List Runner → Type 0
AllNew [] xs = Unit
AllNew (event ∷ events) xs = IsNew event xs × AllNew events (step event xs)

step-IsRegistry :
    (event : Event) (xs : List Runner) → IsNew event xs → IsRegistry xs → IsRegistry (step event xs)
unfolding step increment_current_jobs decrement_current_jobs
step-IsRegistry (register answers request) xs new h =
    register_runner-IsRegistry answers request xs new h
step-IsRegistry (heartbeat answers request) xs new h =
    runner_heartbeat-IsRegistry answers request xs h
step-IsRegistry (change_status answers answer id text) xs new h =
    update_runner_status-IsRegistry answers answer id text xs h
step-IsRegistry (remove answers answer id) xs new h =
    delete_runner-IsRegistry answers answer id xs h
step-IsRegistry (count_up answered id) xs new h =
    update-IsRegistry answered (internal "Failed to increment current jobs") (is_runner id)
      (λ r. record r { current_jobs = suc_ℤ r.current_jobs }) xs (λ x. refl) (λ x. refl) h
step-IsRegistry (count_down answered id) xs new h =
    update-IsRegistry answered (internal "Failed to decrement current jobs") (is_runner id)
      (λ r. record r { current_jobs = pred_or_zero r.current_jobs }) xs (λ x. refl) (λ x. refl) h

run_from-IsRegistry :
    (events : List Event) (xs : List Runner)
    → AllNew events xs
    → IsRegistry xs
    → IsRegistry (run events xs)
unfolding run
run_from-IsRegistry [] xs new h = h
run_from-IsRegistry (event ∷ events) xs new h =
    run_from-IsRegistry events (step event xs) new.1 (step-IsRegistry event xs new.0 h)

-- After any history of registrations, heartbeats, changes of a status, removals and counts of the scheduler
-- that starts with an empty table and in which new ids are not in use, whichever statements fail, no two
-- runners have the same id or the same name.
pub run-IsRegistry : (events : List Event) → AllNew events [] → IsRegistry (run events [])
run-IsRegistry events new = run_from-IsRegistry events [] new (tt, tt)
