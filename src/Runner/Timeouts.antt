-- ===== src/Runner/Timeouts.antt =====
-- Steps of a build that run out of time.
use ops_service.Prelude.{
  ℕ, ◌≡◌, refl, subst, true, Option, none, some, List, [], ◌∷◌, All, arith, String,
}
use ops_service.Prelude.Bytes.{Bytes}
use ops_service.Runner.{
  BuildStep, BuildTaskMessage, BuildStatus, ErrorCategory, Message, timed_out, Store, Env,
}
use ops_service.Runner.Value.{step_value}
use ops_service.Runner.Build.{process_message, final_status}
use ops_service.Runner.Verdict.{last_message, state_message, all_ok, is_ok}
use ops_service.Runner.Completion.{clones, is_built, process_message_ends}

module _ (env : Env) (native : env.docker ≡ none)
    (slow : (command : Bytes) (dir : Option Bytes) (secs : ℕ)
      → env.run_command command dir secs ≡ timed_out)
    (task : BuildTaskMessage) where
  step_timed_out :
      (step : BuildStep) (command : Bytes)
      → step.command ≡ some command
      → is_ok (step_value env task step) ≡ true
  step_timed_out step command given = simp (native, given, slow)

  steps_timed_out :
      (steps : List BuildStep)
      → All (λ step. (command : Bytes) × (step.command ≡ some command)) steps
      → all_ok env task steps ≡ true
  steps_timed_out [] given = refl
  steps_timed_out (step ∷ steps) ((command, first), given) =
      rw (step_timed_out step command first) (steps_timed_out steps given)

-- A build whose steps are commands that all run out of time, without a container, says `Succeeded`
-- last, if its workspace is made, its code is cloned and its messages are delivered.
pub timed_out_build_succeeds :
    (env : Env) (delivered : (n : ℕ) (m : Message) → env.delivers n m ≡ true)
    (task : BuildTaskMessage) (s : Store)
    → env.docker ≡ none
    → ((command : Bytes) (dir : Option Bytes) (secs : ℕ)
        → env.run_command command dir secs ≡ timed_out)
    → All (λ step. (command : Bytes) × (step.command ≡ some command)) task.steps
    → env.creates_dir ≡ true
    → clones env task ≡ true
    → (text : Option String) × (category : Option ErrorCategory) × (last_message
          (process_message env task s).0.sent
        ≡ some (state_message task BuildStatus.succeeded text category))
timed_out_build_succeeds env delivered task s native slow commands makes cloned =
    let (fine, text, category, last) = process_message_ends env delivered task s in
    let built : is_built env task ≡ true =
      ground (arith, steps_timed_out env native slow task task.steps commands) in
    (
      text,
      category,
      subst
          (λ b.
            last_message (process_message env task s).0.sent
            ≡ some (state_message task (final_status b) text category))
          built last,
    )
