-- ===== src/Runner/Meaning.antt =====
-- `execute_step` implements the value of a step.
use ops_service.Prelude.{
  ℕ, ◌≡◌, refl, ◌∙◌, Bool, true, false, not, Option, none, some, List, [], ◌∷◌, ◌++◌, String,
  if◌then◌else◌, get_or, length, Bool-cases, inl, inr, leb,
}
use ops_service.Prelude.Int.{ℤ, pos}
use ops_service.Prelude.Bytes.{Bytes, codes}
use mathlib.Core.List.{append_assoc, append-nil}
use ops_service.Error.{
  R, ok, err, panicked, AppError, Act, ◌>>=◌, ◌>>◌, pure, fail, refuse_if, or_fail, internal,
}
use ops_service.Runner.{
  StepStatus, LogLevel, info, warn, error, BuildStep, BuildTaskMessage, BuildArtifact, Message,
  DockerOutcome, ran, broke, CommandOutcome, exited, timed_out, io_error, join_error, Store, Env,
  basic_publish,
}
use ops_service.Runner.Logs.{chunks, publish_log_by, publish_log, max_chunk_size, log_chunk}
use ops_service.Runner.Transport.{publish_chunks_value, chunk_messages}
use ops_service.Runner.Step.{
  artifact_patterns, upload_artifact, matched, find_artifact, artifact_of, log_unless_empty,
  finish_step, log_and_end, end_docker, end_native, command_from, run_step, execute_step,
  error_text, merged,
}
use ops_service.Runner.Value.{
  bind, or_error, refuse_value, upload_value, matched_value, artifact_value, success_value,
  docker_value, native_value, command_value, outcome_of, ended_value, step_value,
}

-- An operation of the runner that gives this result in every state, and only adds messages.
abbrev pub Gives : {A : Type 0} → Act Store A → R A → Type 0
Gives m r = (s : Store) → (ms : List Message) × (m s ≡ (record s { sent = s.sent ++ ms }, r))

Gives-pure : {A : Type 0} (a : A) → Gives (pure a) (ok a)
Gives-pure a s = ([], rw (append-nil s.sent) refl)

Gives-fail : {A : Type 0} (e : AppError) → Gives {A = A} (fail e) (err e)
Gives-fail e s = ([], rw (append-nil s.sent) refl)

Gives-bind :
    {A B : Type 0} {m : Act Store A} {f : A → Act Store B} (r : R A) (q : A → R B)
    → Gives m r
    → ((a : A) → Gives (f a) (q a))
    → Gives (m >>= f) (bind r q)
Gives-bind (ok a) q gm gf s =
    let (ms, e) = gm s in
    let (ns, d) = gf a (record s { sent = s.sent ++ ms }) in
    (ms ++ ns, rw e (d ∙ rw (append_assoc s.sent ms ns) refl))
Gives-bind (err x) q gm gf s = let (ms, e) = gm s in (ms, rw e refl)
Gives-bind panicked q gm gf s = let (ms, e) = gm s in (ms, rw e refl)

Gives-then :
    {B : Type 0} {m : Act Store (Unit {0})} {k : Act Store B} (r : R B)
    → Gives m (ok tt)
    → Gives k r
    → Gives (m >> k) r
Gives-then r gm gk s =
    let (ms, e) = gm s in
    let (ns, d) = gk (record s { sent = s.sent ++ ms }) in
    (ms ++ ns, rw e (d ∙ rw (append_assoc s.sent ms ns) refl))

Gives-or_fail : {A : Type 0} (o : Option A) (e : AppError) → Gives (or_fail o e) (or_error o e)
Gives-or_fail none e = Gives-fail e
Gives-or_fail (some a) e = Gives-pure a

Gives-refuse : (test : Bool) (e : AppError) → Gives (refuse_if test e) (refuse_value test e)
Gives-refuse true e = Gives-fail e
Gives-refuse false e = Gives-pure tt

module _ (env : Env) (delivered : (n : ℕ) (m : Message) → env.delivers n m ≡ true)
    (task : BuildTaskMessage) (step : BuildStep) where
  Gives-publish : (context : String) (m : Message) → Gives (basic_publish env context m) (ok tt)
  Gives-publish context m s = (m ∷ [], rw (delivered (length s.sent) m) refl)

  Gives-log :
      (text : Bytes) (level : LogLevel)
      → Gives (publish_log env task step text level 0 true) (ok tt)
  unfolding publish_log_by
  Gives-log text level s = elim (Bool-cases (leb (length text) max_chunk_size)) [
    | inl short ↦ (
      log_chunk task step text level 0 true ∷ [],
      rw (short, delivered (length s.sent) (log_chunk task step text level 0 true)) refl,
    )
    | inr long ↦
        let cs = chunks (length text) max_chunk_size text in
        (
          chunk_messages task step level max_chunk_size 0 true 0 cs,
          rw long (publish_chunks_value env delivered task step level max_chunk_size 0 true 0 cs s),
        )
  ]

  Gives-log_unless_empty :
      (text : Bytes) (level : LogLevel) → Gives (log_unless_empty env task step text level) (ok tt)
  Gives-log_unless_empty [] level = Gives-pure tt
  Gives-log_unless_empty (b ∷ text) level = Gives-log (b ∷ text) level

  Gives-upload :
      (path : Bytes) → Gives (upload_artifact env path task step) (upload_value env path task step)
  Gives-upload path =
      Gives-bind _ _ (Gives-or_fail (env.file_size path) _)
        (λ size. Gives-bind _ _ (Gives-or_fail (env.read_file path) _) (λ content. Gives-pure _))

  Gives-matched :
      {later : Act Store (Option BuildArtifact)} {r : R (Option BuildArtifact)}
      → Gives later r
      → (path : Option Bytes)
      → Gives (matched env task step later path) (matched_value env task step r path)
  Gives-matched g none = g
  Gives-matched g (some path) =
      Gives-bind _ _ (Gives-upload path) (λ artifact.
        Gives-then (ok (some artifact)) (Gives-publish _ _) (Gives-pure (some artifact)))

  Gives-find_artifact :
      (patterns : List Bytes)
      → Gives (find_artifact env task step patterns) (artifact_value env task step patterns)
  unfolding find_artifact artifact_value
  Gives-find_artifact [] = Gives-pure none
  Gives-find_artifact (p ∷ ps) = Gives-matched (Gives-find_artifact ps) (env.first_match p)

  Gives-artifact_of :
      (wanted : Bool)
      → Gives
          (if wanted then find_artifact env task step artifact_patterns else pure none)
          (if wanted then artifact_value env task step artifact_patterns else ok none)
  Gives-artifact_of true = Gives-find_artifact artifact_patterns
  Gives-artifact_of false = Gives-pure none

  Gives-finish_step :
      (status : StepStatus) (exit_code : Option ℤ) (artifact : Option BuildArtifact)
      → Gives (finish_step env task step status exit_code artifact) (ok (status, artifact))
  Gives-finish_step status exit_code artifact =
      Gives-then (ok (status, artifact)) (Gives-publish _ _) (Gives-pure (status, artifact))

  Gives-log_and_end :
      (status : StepStatus) (exit_code : Option ℤ) (text : Bytes)
      → Gives (log_and_end env task step status exit_code text) (ok (status, none))
  Gives-log_and_end status exit_code text =
      Gives-then (ok (status, none)) (Gives-log text error)
        (Gives-finish_step status exit_code none)

  Gives-success :
      (exit_code : Option ℤ)
      → Gives
          (do
            artifact ← artifact_of env task step
            finish_step env task step StepStatus.succeeded exit_code artifact)
          (success_value env task step)
  Gives-success exit_code =
      Gives-bind _ _ (Gives-artifact_of step.produces_artifact)
        (λ artifact. Gives-finish_step StepStatus.succeeded exit_code artifact)

  Gives-end_docker :
      (o : DockerOutcome) → Gives (end_docker env task step o) (docker_value env task step o)
  Gives-end_docker (ran true exit_code stdout stderr) =
      Gives-then _ (Gives-log_unless_empty stdout info)
        (Gives-then _ (Gives-log_unless_empty stderr warn) (Gives-success (some exit_code)))
  Gives-end_docker (ran false exit_code stdout stderr) =
      Gives-log_and_end StepStatus.failed (some exit_code) (merged stdout stderr)
  Gives-end_docker (broke e) = Gives-log_and_end StepStatus.failed none (error_text e)

  Gives-end_native :
      (o : CommandOutcome) → Gives (end_native env task step o) (native_value env task step o)
  Gives-end_native (exited true code stdout stderr) =
      Gives-then _ (Gives-log (env.from_utf8_lossy stdout) info)
        (Gives-success (some (get_or code (pos 0))))
  Gives-end_native (exited false code stdout stderr) =
      Gives-log_and_end StepStatus.failed (some (get_or code (pos 1))) _
  Gives-end_native timed_out = Gives-log_and_end StepStatus.timeout none _
  Gives-end_native (io_error e) = Gives-log_and_end StepStatus.failed none (error_text e)
  Gives-end_native (join_error e) = Gives-fail (internal e)

  Gives-command :
      (command script : Option Bytes)
      → Gives (command_from env step command script) (command_value env step command script)
  Gives-command (some command) script = Gives-pure command
  Gives-command none none = Gives-fail (internal "Step must have either command or script")
  Gives-command none (some script) =
      Gives-bind _ _ (Gives-refuse (not (env.writes_script step)) _) (λ u.
        Gives-bind _ _ (Gives-refuse (not (env.makes_executable step)) _)
          (λ v. Gives-pure (codes "sh " ++ env.script_path step)))

  Gives-run_step :
      (engine : Option (BuildStep → DockerOutcome))
      → Gives (run_step env task step engine) (ended_value env task step engine)
  Gives-run_step none =
      Gives-bind _ _ (Gives-command step.command step.script)
        (λ command. Gives-end_native (outcome_of env step command))
  Gives-run_step (some engine) = Gives-end_docker (engine step)

  pub execute_step_refines :
      (s : Store)
      → (ms : List Message) × (execute_step env task step s
          ≡ (record s { sent = s.sent ++ ms }, step_value env task step))
  unfolding execute_step
  execute_step_refines = Gives-then _ (Gives-publish _ _) (
      Gives-bind _ _ (Gives-run_step env.docker)
        (λ ended. Gives-bind _ _ (Gives-refuse _ _) (λ u. Gives-pure ended.1)))
