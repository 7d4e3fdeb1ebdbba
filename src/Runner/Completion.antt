-- ===== src/Runner/Completion.antt =====
-- A build ends: what `execute` and `process_message` of the runner come to, whatever happens.
use ops_service.Prelude.{
  ℕ, ◌≡◌, ◌⊎◌, inl, inr, refl, ◌∙◌, ap, subst, sym, is_empty, Option-cases, Bool, true, false, ◌&&◌,
  ◌||◌, Option, none, some, [], ◌∷◌, ◌++◌, arith, Bool-cases, String,
}
use ops_service.Error.{R, ok, err, panicked, AppError, Act, ◌>>◌, fail, internal}
use ops_service.Runner.{
  BuildStatus, received, preparing, ErrorCategory, network, BuildTaskMessage, Message, Store, Env,
  error_message, publish_build_status, publish_error,
}
use ops_service.Runner.Workspaces.{create_workspace, cleanup_workspace}
use ops_service.Runner.Build.{
  repo_url, clone_code, clone_or_report, publish_state, final_status, finish_build, execute,
  run_and_report, report_clone, report_failure, process_message, ignore,
}
use ops_service.Runner.Verdict.{
  last_message, last_message-append, state_message, all_ok, published, finished,
  cleanup_workspace-sent,
}

then_ok :
    {S B : Type 0} (m : Act S (Unit {0})) (k : Act S B) {s t : S}
    → m s ≡ (t, ok tt)
    → (m >> k) s ≡ k t
then_ok m k h = rw h refl

then_err :
    {S B : Type 0} (m : Act S (Unit {0})) (k : Act S B) {s t : S} {e : AppError}
    → m s ≡ (t, err e)
    → (m >> k) s ≡ (t, err e)
then_err m k h = rw h refl

-- `git` clones the branch, and starts for the commit, if the task names one.
abbrev pub clones : Env → BuildTaskMessage → Bool
clones env task = elim (env.git_clone task.branch (repo_url task.repository_url)) [
  | none ↦ false
  | some false ↦ false
  | some true ↦
      is_empty task.commit
      || elim (env.git_checkout task.commit) [ none ↦ false | some success ↦ true ]
]

clone_cases :
    (env : Env) (task : BuildTaskMessage) (s : Store)
    → ((clones env task ≡ true) × (clone_code env task s ≡ (s, ok tt)))
      ⊎ ((clones env task ≡ false) × (e : AppError) × (clone_code env task s ≡ (s, err e)))
unfolding clone_code
clone_cases env task s =
    elim (Option-cases (env.git_clone task.branch (repo_url task.repository_url))) [
      | inl e ↦
          inr (rw (e, clones) refl, internal "Failed to execute git clone", rw (e, clone_code) refl)
      | inr (false, e) ↦
          inr (rw (e, clones) refl, internal "Git clone failed: ", rw (e, clone_code) refl)
      | inr (true, e) ↦ elim (Bool-cases (is_empty task.commit)) [
        | inl head ↦ inl (rw (e, head, clones) refl, rw (e, head, clone_code) refl)
        | inr pinned ↦ elim (Option-cases (env.git_checkout task.commit)) [
          | inl d ↦ inr (
            rw (e, pinned, d, clones) refl,
            internal "Failed to checkout commit",
            rw (e, pinned, d, clone_code) refl,
          )
          | inr (success, d) ↦
              inl (rw (e, pinned, d, clones) refl, rw (e, pinned, d, clone_code) refl)
        ]
      ]
    ]

create_cases :
    (env : Env) (task : BuildTaskMessage) (s : Store)
    → (t : Store) × (((env.creates_dir ≡ true) × (create_workspace env task s ≡ (t, ok tt)))
        ⊎ ((env.creates_dir ≡ false) × (e : AppError) × (create_workspace env task s ≡ (t, err e))))
create_cases env task s = (
  (create_workspace env task s).0,
  elim (Bool-cases env.creates_dir) [
    | inl makes ↦ inl (makes, simp makes)
    | inr broken ↦ inr (broken, internal "Failed to create workspace directory", simp broken)
  ],
)

-- The code is there and no step comes to an error.
abbrev pub is_built : Env → BuildTaskMessage → Bool
is_built env task = env.creates_dir && (clones env task && all_ok env task task.steps)

module _ (env : Env) (delivered : (n : ℕ) (m : Message) → env.delivers n m ≡ true)
    (task : BuildTaskMessage) where
  sent_state :
      (status : BuildStatus) (text : Option String) (category : Option ErrorCategory) (s : Store)
      → publish_build_status env task status none text category s
        ≡ (record s { sent = s.sent ++ state_message task status text category ∷ [] }, ok tt)
  sent_state status text category s =
      published env delivered task "Failed to publish status message"
        (state_message task status text category) s

  clone_or_report_cases :
      (s : Store)
      → ((clones env task ≡ true) × (clone_or_report env task s ≡ (s, ok tt)))
        ⊎ ((clones env task ≡ false)
            × (t : Store) × (e : AppError) × (clone_or_report env task s ≡ (t, err e)))
  clone_or_report_cases s = elim (clone_cases env task s) [
    | inl (there, done) ↦ inl (there, ap (report_clone env task) done)
    | inr (gone, e, broken) ↦
        let t = (ignore (publish_error env task (error_message e) network) s).0 in
        inr (
          gone,
          (cleanup_workspace env task t).0,
          e,
          ap (report_clone env task) broken
              ∙ then_ok (cleanup_workspace env task) (fail e) (
                  ap (λ r. ((cleanup_workspace env task t).0, r))
                    (cleanup_workspace-sent env task t).1),
        )
  ]

  abbrev Reported : Store × R (Unit {0}) → Type 0
  Reported (t, r) =
      (r ≡ ok tt)
      × (last_message t.sent
          ≡ some (state_message task (final_status (is_built env task)) none none))

  -- A build that comes to no error reports the verdict on its steps.
  execute_cases :
      (s : Store)
      → Reported (execute env task s)
        ⊎ ((is_built env task ≡ false)
            × (t : Store) × (e : AppError) × (execute env task s ≡ (t, err e)))
  unfolding execute
  execute_cases s =
      let last = finish_build env task in
      let cloning =
        clone_or_report env task >> (publish_state env task BuildStatus.running >> last) in
      let preparing_on = publish_state env task preparing >> cloning in
      let first =
        then_ok (publish_state env task received) (create_workspace env task >> preparing_on)
          (sent_state received none none s) in
      let (t, created) =
        create_cases env task
          (record s { sent = s.sent ++ state_message task received none none ∷ [] }) in
      elim created [
        | inr (gone, e, broken) ↦ inr (
          ground (arith, gone),
          t,
          e,
          first ∙ then_err (create_workspace env task) preparing_on broken,
        )
        | inl (there, made) ↦
            let u = record t { sent = t.sent ++ state_message task preparing none none ∷ [] } in
            let second =
              first
              ∙ then_ok (create_workspace env task) preparing_on made
              ∙ then_ok (publish_state env task preparing) cloning
                  (sent_state preparing none none t) in
            elim (clone_or_report_cases u) [
              | inr (gone, v, e, broken) ↦ inr (
                ground (arith, gone),
                v,
                e,
                second ∙ then_err (clone_or_report env task) _ broken,
              )
              | inl (cloned_it, cloned) ↦ inl (
                  subst Reported
                    (sym (
                      second
                      ∙ then_ok (clone_or_report env task) _ cloned
                      ∙ then_ok (publish_state env task BuildStatus.running) last
                          (sent_state BuildStatus.running none none u)))
                    (let (fine, last_one) = finished env delivered task _ in
                      (
                        fine,
                        last_one
                            ∙ ap (λ b. some (state_message task (final_status b) none none))
                                (sym (ground (arith, there, cloned_it))),
                      )))
            ]
      ]

  abbrev pub Ended : Store × R (Unit {0}) → Type 0
  Ended (t, r) =
      (r ≡ ok tt)
      × (text : Option String) × (category : Option ErrorCategory) × (last_message t.sent
          ≡ some (state_message task (final_status (is_built env task)) text category))

  Reported-ends : (p : Store × R (Unit {0})) → Reported p → Ended (report_failure env task p)
  Reported-ends (t, ok u) (fine, last) = (refl, none, none, last)
  Reported-ends (t, err e) (wrong, last) = absurd (ground (arith, wrong))
  Reported-ends (t, panicked) (wrong, last) = absurd (ground (arith, wrong))

  failure_ends :
      (t : Store) (e : AppError)
      → is_built env task ≡ false
      → Ended (report_failure env task (t, err e))
  failure_ends t e gone =
      let text = some (error_message e) in
      let sent = ap (λ p. (p.0, ok tt)) (sent_state BuildStatus.failed text (some network) t) in
      subst Ended (sym sent) (
        refl,
        text,
        some network,
        rw gone (
            last_message-append t.sent (state_message task BuildStatus.failed text (some network))),
      )

  pub process_message_ends :
      (s : Store)
      → ((process_message env task s).1 ≡ ok tt)
        × (text : Option String) × (category : Option ErrorCategory) × (last_message
              (process_message env task s).0.sent
            ≡ some (state_message task (final_status (is_built env task)) text category))
  unfolding process_message
  process_message_ends s =
      let first =
        then_ok (publish_state env task received) (run_and_report env task)
          (sent_state received none none s) in
      let t = record s { sent = s.sent ++ state_message task received none none ∷ [] } in
      subst Ended (sym first) (elim (execute_cases t) [
        | inl reported ↦ Reported-ends (execute env task t) reported
        | inr (gone, u, e, broken) ↦
            subst Ended (sym (ap (report_failure env task) broken)) (failure_ends u e gone)
      ])
