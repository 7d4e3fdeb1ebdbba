-- ===== src/Runner/Build.antt =====
-- `execute` and `clone_code` of src/ops-runner/src/executor.rs, and
-- `process_message` of src/ops-runner/src/worker.rs after the message is parsed and confirmed.
use ops_service.Prelude.{
  Bool, true, false, Option, none, some, List, [], ◌∷◌, ◌++◌, if◌then◌else◌, is_empty,
}
use ops_service.Prelude.Bytes.{Bytes, codes, starts_with}
use ops_service.Error.{R, ok, err, panicked, Act, ◌>>=◌, ◌>>◌, pure, fail, internal}
use ops_service.Runner.{
  BuildStatus, network, BuildStep, BuildTaskMessage, BuildArtifact, Store, Env, error_message,
  publish_build_status, publish_error,
}
use ops_service.Runner.Logs.{drop}
use ops_service.Runner.Step.{execute_step}
use ops_service.Runner.Workspaces.{create_workspace, cleanup_workspace, cleanup_old_workspaces}

-- `let _ = …` of a result.
abbrev pub ignore : {A : Type 0} → Act Store A → Act Store (Unit {0})
ignore m s = let (t, r) = m s in (t, ok tt)

-- `strip_prefix("file://")`
abbrev pub repo_url : Bytes → Bytes
repo_url url = if starts_with url (codes "file://") then drop 7 url else url

-- A commit that cannot be checked out is only logged.
unfoldable pub clone_code : Env → BuildTaskMessage → Act Store (Unit {0})
clone_code env task = elim (env.git_clone task.branch (repo_url task.repository_url)) [
  | none ↦ fail (internal "Failed to execute git clone")
  | some false ↦ fail (internal "Git clone failed: ")
  | some true ↦ if is_empty task.commit then pure tt else elim (env.git_checkout task.commit) [
    | none ↦ fail (internal "Failed to checkout commit")
    | some success ↦ pure tt
  ]
]

-- How the loop goes on after a step: `none` is the `break`.
abbrev pub after_step :
    BuildStep
    → R (Option BuildArtifact)
    → Bool × List BuildArtifact
    → Bool × (Bool × List BuildArtifact)
after_step step (ok (some artifact)) (all, artifacts) = (true, (all, artifacts ++ artifact ∷ []))
after_step step (ok none) (all, artifacts) = (true, (all, artifacts))
after_step step (err e) (all, artifacts) = (step.continue_on_failure, (false, artifacts))
after_step step panicked (all, artifacts) = (false, (false, artifacts))

-- The loop over the steps, with `all_succeeded` and the artifacts. A step does not panic.
unfoldable pub run_steps :
    Env
    → BuildTaskMessage
    → List BuildStep
    → Bool × List BuildArtifact
    → Store
    → Store × (Bool × List BuildArtifact)
run_steps env task [] acc s = (s, acc)
run_steps env task (step ∷ steps) acc s =
    let (t, result) = execute_step env task step s in
    let (goes_on, next) = after_step step result acc in
    let rest = run_steps env task steps next t in if goes_on then rest else (t, next)

abbrev pub run_all_steps : Env → BuildTaskMessage → Act Store Bool
run_all_steps env task s =
    let (t, (all_succeeded, artifacts)) = run_steps env task task.steps (true, []) s in
    (t, ok all_succeeded)

abbrev pub final_status : Bool → BuildStatus
final_status true = BuildStatus.succeeded
final_status false = BuildStatus.failed

-- `if let Err(e) = clone_code(…)`
abbrev pub report_clone : Env → BuildTaskMessage → Store × R (Unit {0}) → Store × R (Unit {0})
report_clone env task (s, ok u) = (s, ok tt)
report_clone env task (s, panicked) = (s, panicked)
report_clone env task (s, err e) =
    (do
      ignore (publish_error env task (error_message e) network)
      cleanup_workspace env task
      fail e)
      s

abbrev pub clone_or_report : Env → BuildTaskMessage → Act Store (Unit {0})
clone_or_report env task s = report_clone env task (clone_code env task s)

abbrev pub publish_state : Env → BuildTaskMessage → BuildStatus → Act Store (Unit {0})
publish_state env task status = publish_build_status env task status none none none

-- From the steps to the end.
abbrev pub finish_build : Env → BuildTaskMessage → Act Store (Unit {0})
finish_build env task = do
  all_succeeded ← run_all_steps env task
  cleanup_workspace env task
  publish_state env task (final_status all_succeeded)
  ignore (cleanup_old_workspaces env)

unfoldable pub execute : Env → BuildTaskMessage → Act Store (Unit {0})
unfolding clone_code
execute env task = do
  publish_state env task BuildStatus.received
  create_workspace env task
  publish_state env task BuildStatus.preparing
  clone_or_report env task
  publish_state env task BuildStatus.running
  finish_build env task

-- `match executor.execute(…)`
abbrev pub report_failure : Env → BuildTaskMessage → Store × R (Unit {0}) → Store × R (Unit {0})
report_failure env task (s, ok u) = (s, ok tt)
report_failure env task (s, panicked) = (s, panicked)
report_failure env task (s, err e) = ignore (publish_error env task (error_message e) network) s

abbrev pub run_and_report : Env → BuildTaskMessage → Act Store (Unit {0})
run_and_report env task s = report_failure env task (execute env task s)

unfoldable pub process_message : Env → BuildTaskMessage → Act Store (Unit {0})
process_message env task = do publish_state env task BuildStatus.received; run_and_report env task
