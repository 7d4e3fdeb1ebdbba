-- ===== src/Runner/Verdict.antt =====
-- What a build reports in the end.
use ops_service.Prelude.{
  ℕ, ◌≡◌, ◌⊎◌, inl, inr, refl, ◌∙◌, Bool, true, false, ◌&&◌, Option, none, some, List, [], ◌∷◌,
  ◌++◌, arith, Bool-cases, length, String,
}
use ops_service.Error.{R, ok, err, panicked}
use ops_service.Runner.{
  BuildStatus, ErrorCategory, BuildStep, BuildTaskMessage, BuildArtifact, Message, status_message,
  Workspace, Store, Env, basic_publish,
}
use ops_service.Runner.Meaning.{execute_step_refines}
use ops_service.Runner.Value.{step_value}
use ops_service.Runner.Workspaces.{
  cleanup_workspace, cleanup_old_workspaces, cleanup_by_policy, force_cleanup_workspace,
  force_cleanup_all, workspace_of, to_clean,
}
use ops_service.Runner.Build.{after_step, run_steps, final_status, finish_build}

abbrev pub last_message : List Message → Option Message
last_message [] = none
last_message (m ∷ []) = some m
last_message (m ∷ n ∷ ms) = last_message (n ∷ ms)

pub last_message-append : (ms : List Message) (m : Message) → last_message (ms ++ m ∷ []) ≡ some m
last_message-append [] m = refl
last_message-append (n ∷ []) m = refl
last_message-append (n ∷ o ∷ ms) m = last_message-append (o ∷ ms) m

abbrev pub state_message :
    BuildTaskMessage → BuildStatus → Option String → Option ErrorCategory → Message
state_message task status text category = status_message (record {
  task_id = task.task_id;
  job_id = task.job_id;
  status = status;
  step_status = none;
  error = text;
  error_category = category;
})

abbrev pub is_ok {ℓ} : {A : Type ℓ} → R A → Bool
is_ok (ok a) = true
is_ok _ = false

-- No step comes to an error.
abbrev pub all_ok : Env → BuildTaskMessage → List BuildStep → Bool
all_ok env task [] = true
all_ok env task (step ∷ steps) = is_ok (step_value env task step) && all_ok env task steps

-- The clean-ups send nothing.
force_cleanup-sent :
    (env : Env) (w : Workspace) (s : Store) → (force_cleanup_workspace env w s).0.sent ≡ s.sent
unfolding force_cleanup_workspace
force_cleanup-sent env w s = ground arith

force_cleanup_all-sent :
    (env : Env) (ws : List Workspace) (s : Store) → (force_cleanup_all env ws s).sent ≡ s.sent
unfolding force_cleanup_all
force_cleanup_all-sent env [] s = refl
force_cleanup_all-sent env (w ∷ ws) s =
    force_cleanup_all-sent env ws (force_cleanup_workspace env w s).0 ∙ force_cleanup-sent env w s

pub cleanup_workspace-sent :
    (env : Env) (task : BuildTaskMessage) (s : Store)
    → ((cleanup_workspace env task s).0.sent ≡ s.sent) × ((cleanup_workspace env task s).1 ≡ ok tt)
unfolding cleanup_workspace cleanup_by_policy
cleanup_workspace-sent env task s =
    let done = force_cleanup-sent env (workspace_of env task) s in
    (ground (arith, done), ground arith)

cleanup_old-sent : (env : Env) (s : Store) → (cleanup_old_workspaces env s).0.sent ≡ s.sent
unfolding cleanup_old_workspaces
cleanup_old-sent env s = ground (arith, force_cleanup_all-sent env (to_clean env s.workspaces) s)

after_step_lem :
    (step : BuildStep) (r : R (Option BuildArtifact)) (acc : Bool × List BuildArtifact)
    → ((after_step step r acc).1.0 ≡ (acc.0 && is_ok r))
      × (((after_step step r acc).0 ≡ true) ⊎ (is_ok r ≡ false))
after_step_lem step (ok none) acc = (ground arith, inl refl)
after_step_lem step (ok (some artifact)) acc = (ground arith, inl refl)
after_step_lem step (err e) acc = (ground arith, inr refl)
after_step_lem step panicked acc = (ground arith, inr refl)

module _ (env : Env) (delivered : (n : ℕ) (m : Message) → env.delivers n m ≡ true)
    (task : BuildTaskMessage) where
  run_steps_value :
      (steps : List BuildStep) (acc : Bool × List BuildArtifact) (s : Store)
      → (run_steps env task steps acc s).1.0 ≡ (acc.0 && all_ok env task steps)
  unfolding run_steps
  run_steps_value [] acc s = ground arith
  run_steps_value (step ∷ steps) acc s =
      let r = step_value env task step in
      let next = (after_step step r acc).1 in
      let (ms, e) = execute_step_refines env delivered task step s in
      let (kept, stops) = after_step_lem step r acc in
      let rest = run_steps_value steps next (record s { sent = s.sent ++ ms }) in
      rw e (elim (Bool-cases (after_step step r acc).0) [
        | inl on ↦ rw on (rest ∙ ground (arith, kept))
        | inr off ↦ rw off (ground (arith, kept, stops))
      ])

  pub published :
      (context : String) (m : Message) (s : Store)
      → basic_publish env context m s ≡ (record s { sent = s.sent ++ m ∷ [] }, ok tt)
  published context m s = rw (delivered (length s.sent) m) refl

  -- The end of a build, from its steps on.
  pub finished :
      (s : Store)
      → let (t, result) = finish_build env task s in
        (result ≡ ok tt)
        × (last_message t.sent
            ≡ some (state_message task (final_status (all_ok env task task.steps)) none none))
  finished s =
      let (u, (all, artifacts)) = run_steps env task task.steps (true, []) s in
      let outcome : all ≡ all_ok env task task.steps = run_steps_value task.steps (true, []) s in
      let v = (cleanup_workspace env task u).0 in
      let message = state_message task (final_status all) none none in
      rw (cleanup_workspace-sent env task u).1 (
        rw (delivered (length v.sent) message) (
          refl,
          rw
              (
                cleanup_old-sent env (record v { sent = v.sent ++ message ∷ [] }),
                last_message-append v.sent message,
                outcome,
              )
              refl,
        ))
