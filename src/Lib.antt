-- ===== src/Lib.antt =====
-- The operations service: its jobs and the approvals that they need, the commands that it sends over
-- SSH, its builds and their runners, and the tests that a request must pass.
--
-- The service keeps its state in PostgreSQL. A user creates a job for some hosts; the service stores
-- a row for the job and one for each task, asks whether the job needs an approval, and otherwise
-- starts an execution, which runs each task over SSH, masks and cuts what it prints, stores the
-- result in the task's row, and in the end counts the successes into the job's row. Approvals are
-- requests on which approvers vote. Each operation leaves an entry in the audit log. What a user may
-- do is decided by the roles that the user holds and their scopes. How many tasks run at once is
-- limited by permits for the whole, for groups and for environments. A build is given to a runner,
-- a process of its own, which takes a task message, clones the code, runs the steps and reports by
-- messages, from which the service updates the tables of builds. The webhooks of builds are signed
-- requests; a runner also registers and sends heartbeats. Every request first passes a limit for its
-- address and the list of allowed addresses.
--
-- How the code is modelled
--   * A table is a list of rows and a component's state a record of tables (`Store`). An operation is
--     `Act S A` of Error.antt: from a state to a state and a result, which is a value, an error of
--     `AppError` or a panic. `?` is the bind, an early `return Err` is `refuse_if` or `fail`, and
--     `transaction` drops the changes of a body that fails before its commit.
--   * A database call may fail: the environment (`Env`) says for each call of an operation whether it
--     is answered. It also holds the clock, the ids that are generated, and the answers of code that
--     is not part of the model: `git`, commands and containers, the file system, the broker, regular
--     expressions, hashes, signed tokens, `f32` and `str::to_lowercase`. An execution of a job takes
--     the answers of the concurrency controller as given, and those of the SSH client too, for which
--     Ssh/Remote.antt puts the client in.
--   * The SSH client calls a library for the protocol: the answers of the library and what the server
--     sends are parameters, and the messages come at given times, some or none of them late.
--   * Text that the code looks into is a list of its UTF-8 bytes, other text is a string. Times are
--     seconds, those of nonces nanoseconds, ids are numbers, and the signed counters of requests are
--     integers.
--   * `SELECT ... FOR UPDATE` and a single UPDATE are atomic, so an operation is one step. The tasks
--     of a job run at the same time in the code and one after the other here: each changes its own
--     row only.
--   * Requests for permits wait, are granted, time out and end in any order: a step relation over one
--     controller, whose steps are the functions of the code.
--   * All recursion is structural, but for three fuels. That of the loop that reads the messages of
--     an SSH server is the number of its rounds; a run that needs more of them has no result. That
--     of the decimal digits of a number is one more than the number, which has no more digits than
--     that, and that of the chunks of a log is its length, since each chunk takes at least one byte.
--
-- Which file models which part
--   Prelude      names of the standard library, Boolean tests, lists, integers, bytes
--   Error        src/ops-service/src/error.rs and the operations on a state
--     Inversion  what an operation that returned has passed; Preservation: what it keeps
--   Audit        src/ops-service/src/services/audit_service.rs
--   Output       src/ops-service/src/output/mod.rs; Output/Cuts for its limits
--   Approval     src/ops-service/src/models/approval.rs
--     Operations src/ops-service/src/services/approval_service.rs
--     Effects    what an operation changes; Counts, Votes: invariants; Outcomes: results
--     Risk       check_job_requires_approval
--   Job          src/ops-service/src/models/job.rs
--     Hosts      resolve_target_hosts
--     Create     create_command_job, create_script_job; Creation: their outcomes
--     Listing    the query of list_jobs and its values
--     Cancel     cancel_job
--     Retry      retry_job; Retrial: its outcome
--     Execute    execute_job, execute_task; Results, Execution, Miscount: what they leave
--   Permission   src/ops-service/src/services/permission_service.rs, repository/role_repo.rs
--     Access     check_permission and require_permission; Scopes: the filter by scope
--   Auth         rows and statements of src/ops-service/src/repository/{user_repo,auth_repo}.rs
--     Login      login and unlock_account of src/ops-service/src/services/auth_service.rs
--     Lockout    what a login demands; Tokens: refresh_token, logout, logout_all
--   Concurrency  limits and semaphores of src/ops-service/src/concurrency/mod.rs
--     Acquire    try_acquire_nowait; Decision: its answer
--     System     acquire and the waits of acquire_with_timeout, as steps of many requests
--     Balance    free permits; Conservation, Progress: what every run keeps
--     Rate       the rate limiter
--   Scheduler    src/ops-service/src/services/runner_service.rs
--     Orders     comparisons and sorting; Choice, Assignment: the runner of a build
--     Registry   the handlers of src/ops-service/src/handlers/runner.rs that change the table
--     Registered its ids and names; Enabling: the status after a message
--   Runner       src/common/src/messages.rs and the messages of src/ops-runner/src/publisher.rs
--     Logs       publish_log; Transport, Cut: what arrives
--     Step       execute_step and artifacts of src/ops-runner/src/executor.rs
--     Value      what a step comes to; Meaning: the refinement
--     Workspaces WorkspaceManager
--     Build      execute, and process_message of src/ops-runner/src/worker.rs
--     Verdict    the verdict on the steps; Completion, Timeouts: the last message
--     Containers settings for containers, of src/ops-service/src/config.rs, handlers/runner.rs and
--                src/ops-runner/src/{config,docker}.rs; Images: the image of a step
--   Builds       rows and statements of src/ops-service/src/handlers/build_webhook.rs
--     Queue      the consumers of messages; Consumed: the row of a build
--     Webhook    build_status_webhook, build_log_webhook; Lost: what they leave out
--     Ending     a build from the runner to the tables
--     Dispatch   create_build_job of src/ops-service/src/handlers/build.rs
--     Routing    the keys of messages and of queues; Creation: what becomes of a new build
--   Ssh          src/common/src/ssh.rs and the test of a key of src/ops-service/src/ssh/executor.rs
--     KnownHosts the settings of a connection and the known_hosts file, of job_service.rs
--     Files      what the file can do; Trust: to whom a command is sent
--     Client     execute, execute_with_progress, execute_script of ssh/executor.rs
--     Loop       the rounds of its loop; Meaning: results and their end
--     Progress   the run with callbacks; Pace: how often they are called
--     Remote     the client in execute_task; Tasks, Strangers: the row of a task by its server
--   Signature    nonces and the signed string of src/ops-service/src/middleware/webhook_hmac.rs
--     Middleware build_webhook_hmac_middleware; Handled, Times: what it handles
--     Canonical  the signed string; Replay, Resent: the same request sent again
--   Middleware   addresses and the limit of requests of src/ops-service/src/middleware/mod.rs
--     Limits     one address; Addresses: one address among others; Requests: the middleware
--
-- Not modelled: the other HTTP handlers, among them those of artifacts and lists, and the identifiers
-- of requests, which move data between the services and third-party code; the reading of the
-- configuration, realtime streams and telemetry; the making of tokens and hashes, which calls cryptographic
-- libraries; statistics and the other lists, which are queries.

pub mod Prelude
pub mod Error
pub mod Audit
pub mod Output
pub mod Approval
pub mod Job
pub mod Permission
pub mod Auth
pub mod Runner
pub mod Concurrency
pub mod Scheduler
pub mod Builds
pub mod Signature
pub mod Ssh
pub mod Middleware
