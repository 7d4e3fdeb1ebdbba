-- ===== src/Runner/Workspaces.antt =====
-- `WorkspaceManager` of src/ops-runner/src/executor.rs. The listing of the base directory holds the
-- workspaces in the order of their creation. `u64` subtraction wraps, as in a release build.
use ops_service.Prelude.{
  ℕ, zero, suc, DateTime, ◌+◌, ◌-◌, ◌%◌, ◌^◌, Bool, false, not, ◌&&◌, ◌||◌, none, some, List, [],
  ◌∷◌, ◌++◌, if◌then◌else◌, ◌==◌, ltb, leb, any, retain, length,
}
use ops_service.Error.{ok, err, Act, pure, execute, internal}
use ops_service.Runner.{
  Workspace, immediate, manual, after_duration, retain_recent, BuildTaskMessage, Store, Env,
}

-- `let _ = …` of a result, or an error that is only logged.
abbrev pub ignore : {A : Type 0} → Act Store A → Act Store (Unit {0})
ignore m s = let (t, r) = m s in (t, ok tt)

abbrev pub workspace_of : Env → BuildTaskMessage → Workspace
workspace_of env task = record { job_id = task.job_id; task_id = task.task_id; modified = env.now }

-- The same directory.
abbrev pub is_same : Workspace → Workspace → Bool
is_same w v = v.job_id == w.job_id && v.task_id == w.task_id

-- `create_workspace`: `create_dir_all` leaves a directory that exists.
abbrev pub create_workspace : Env → BuildTaskMessage → Act Store (Unit {0})
create_workspace env task =
    execute env.creates_dir (internal "Failed to create workspace directory") λ s. record s {
      workspaces =
          if any (is_same (workspace_of env task)) s.workspaces
          then s.workspaces
          else s.workspaces ++ workspace_of env task ∷ [];
    }

abbrev pub remove_workspace : Workspace → Store → Store
remove_workspace w s = record s { workspaces = retain (λ v. not (is_same w v)) s.workspaces }

-- A workspace within the limit of its size is kept.
abbrev pub is_within_size : Env → Workspace → Bool
is_within_size env w = elim env.max_size_mb [
  | none ↦ false
  | some max ↦ elim (env.size_mb w) [ none ↦ false | some size ↦ leb size max ]
]

-- `for attempt in 1..=3`
abbrev pub is_removed : Env → Workspace → Bool
is_removed env w = env.removes w 1 || (env.removes w 2 || env.removes w 3)

unfoldable pub force_cleanup_workspace : Env → Workspace → Act Store (Unit {0})
force_cleanup_workspace env w s =
    if not (any (is_same w) s.workspaces)
    then (s, ok tt)
    else if is_within_size env w
    then (s, ok tt)
    else if is_removed env w
    then (remove_workspace w s, ok tt)
    else (s, err (internal "Failed to cleanup workspace"))

-- `WorkspaceManager::cleanup_workspace`.
unfoldable pub cleanup_by_policy : Env → Workspace → Act Store (Unit {0})
unfolding force_cleanup_workspace
cleanup_by_policy env w = elim env.policy [
  | immediate ↦ force_cleanup_workspace env w
  | manual ↦ pure tt
  | after_duration secs ↦ pure tt
  | retain_recent count ↦ pure tt
]

-- `BuildExecutor::cleanup_workspace`.
unfoldable pub cleanup_workspace : Env → BuildTaskMessage → Act Store (Unit {0})
unfolding cleanup_by_policy
cleanup_workspace env task =
    if env.cleanup_enabled then ignore (cleanup_by_policy env (workspace_of env task)) else pure tt

-- `sort_by(|a, b| b.1.cmp(&a.1))`, which is stable: the latest first.
unfoldable pub insert_recent : Workspace → List Workspace → List Workspace
insert_recent w [] = w ∷ []
insert_recent w (v ∷ vs) = if leb v.modified w.modified then w ∷ v ∷ vs else v ∷ insert_recent w vs

unfoldable pub sort_recent : List Workspace → List Workspace
sort_recent [] = []
sort_recent (w ∷ ws) = insert_recent w (sort_recent ws)

abbrev pub skip : ℕ → List Workspace → List Workspace
skip zero ws = ws
skip (suc n) [] = []
skip (suc n) (w ∷ ws) = skip n ws

-- A removal that fails is only logged.
unfoldable pub force_cleanup_all : Env → List Workspace → Store → Store
force_cleanup_all env [] s = s
force_cleanup_all env (w ∷ ws) s = force_cleanup_all env ws (force_cleanup_workspace env w s).0

abbrev pub cutoff_time : DateTime → ℕ → ℕ
cutoff_time now secs = (now + 2 ^ 64 - secs) % 2 ^ 64

-- The workspaces that a policy selects for removal.
unfoldable pub to_clean : Env → List Workspace → List Workspace
unfolding sort_recent
to_clean env entries = elim env.policy [
  | immediate ↦ []
  | manual ↦ []
  | after_duration secs ↦ retain (λ w. ltb w.modified (cutoff_time env.now secs)) entries
  | retain_recent count ↦
      if leb (length entries) count then [] else skip count (sort_recent entries)
]

unfoldable pub cleanup_old_workspaces : Env → Act Store (Unit {0})
unfolding force_cleanup_all to_clean
cleanup_old_workspaces env s =
    if env.lists_dir
    then (force_cleanup_all env (to_clean env s.workspaces) s, ok tt)
    else (s, err (internal "Failed to read workspace directory"))
