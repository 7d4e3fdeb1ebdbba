-- ===== src/Builds/Creation.antt =====
-- What `create_build_job` of src/ops-service/src/handlers/build.rs leaves behind.
use ops_service.Prelude.{
  ◌≡◌, ap, Bool, true, false, ◌&&◌, [], ◌∷◌, ◌++◌, is_empty, ◌==◌, update_where, arith,
}
use ops_service.Prelude.Bytes.{Bytes}
use ops_service.Error.{ok, err, database}
use ops_service.Scheduler.{ScheduleResult, Env, suc_ℤ}
use ops_service.Builds.Dispatch.{
  Store, CreateBuildJobRequest, Answers, one_of, build_types, runner_capabilities, new_parent,
  new_build, store_build, create_build_job, published_key,
}

module _ {F : Type 0} (env : Env F) (answers : Answers) where
  -- The rows of a build that is created, before it is dispatched.
  abbrev pub stored : Store → Store
  stored s = record s {
    parents = s.parents ++ new_parent env answers ∷ [];
    tables = record s.tables { build_jobs = s.tables.build_jobs ++ new_build env answers ∷ [] };
  }

  -- A build that was given to a runner: one message for it, and one job more of the runner.
  abbrev pub dispatched : Bytes → ScheduleResult → Store → Store
  dispatched build_type chosen s = record s {
    tables = record s.tables {
      runners =
          update_where (λ r. r.id == chosen.runner_id)
            (λ r. record r { current_jobs = suc_ℤ r.current_jobs }) s.tables.runners;
    };
    published =
        s.published
        ++ record {
          routing_key = published_key build_type chosen.runner_name;
          job_id = answers.job_id;
        }
          ∷ [];
  }

create_build_job-stored :
    {F : Type 0} (env : Env F) (answers : Answers) (request : CreateBuildJobRequest) (s : Store)
    (castable : Bool)
    → answers.insert_parent ≡ true
    → is_empty request.step_names ≡ false
    → (answers.insert_build
        && (one_of build_types request.build_type && one_of runner_capabilities request.build_type))
      ≡ castable
    → create_build_job env answers (ok tt) request s
      ≡ store_build env answers castable request.build_type
          (record s { parents = s.parents ++ new_parent env answers ∷ [] })
unfolding create_build_job
create_build_job-stored env answers request s castable a0 steps h =
    rw (steps, a0)
      (ap
        (λ b.
          store_build env answers b request.build_type
            (record s { parents = s.parents ++ new_parent env answers ∷ [] }))
        h)

-- A build of a type that no runner capability is named after, as `other`, is refused after its parent
-- row was stored, which no build refers to.
pub create_build_orphan :
    {F : Type 0} (env : Env F) (answers : Answers) (request : CreateBuildJobRequest) (s : Store)
    → answers.insert_parent ≡ true
    → is_empty request.step_names ≡ false
    → one_of runner_capabilities request.build_type ≡ false
    → create_build_job env answers (ok tt) request s ≡ (
      record s { parents = s.parents ++ new_parent env answers ∷ [] },
      err (database "Failed to create build job"),
    )
unfolding store_build
create_build_orphan env answers request s a0 steps unknown =
    create_build_job-stored env answers request s false a0 steps (ground (arith, unknown))
