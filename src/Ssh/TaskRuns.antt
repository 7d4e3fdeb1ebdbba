-- ===== src/Ssh/TaskRuns.antt =====
-- A run of a task with a server at a concrete input. Hashes and encodings keep their input.
use ops_service.Prelude.{
  ℕ, zero, suc, ◌<◌, ◌≡◌, ◌≢◌, ◌↔◌, refl, ap, sym, subst, Bool, Bool-cases, inl, inr, if◌then◌else◌,
  true, false, none, some, [], ◌∷◌, ◌==◌, find, arith,
}
use ops_service.Prelude.Int.{pos}
use ops_service.Prelude.Bytes.{Bytes, codes}
use ops_service.Error.{AppError, ok, err, panicked}
use ops_service.Output.{OutputArchive, process_output}
use ops_service.Job.{TaskStatus, Task}
use ops_service.Job.Samples.{web, job, task, tables}
use ops_service.Job.Execute.{Env, execute_task}
use ops_service.Ssh.{stored_fingerprint, password, check_server_key, check_key}
use ops_service.Ssh.Client.{
  Arrival, Connection, connected, Server, Trace, data_msg, exit_status, login, command,
  start_command, millis,
}
use ops_service.Ssh.Loop.{Continues, stdout_of, stderr_of}
use ops_service.Ssh.KnownHosts.{Tools, Settings, exec_config}
use ops_service.Ssh.Remote.{Network, client_config, connected_env}
use ops_service.Ssh.Tasks.{task_follows_server}
use ops_service.Ssh.Strangers.{trace_of, stranger_gets_nothing}

-- A line, then the exit status 3.
abbrev fails_later : ℕ → Arrival
fails_later zero = record { gap = 600; message = some (data_msg (codes "no")) }
fails_later (suc n) = record { gap = 600; message = some (exit_status 3) }

abbrev failing_server : Server
failing_server = record {
  sha256 = λ text. text;
  hex_encode = λ text. text;
  connect = λ test. connected (codes "k");
  decode_secret_key = λ text phrase. none;
  logs_in = λ name auth. true;
  opens = none;
  execs = λ text. none;
  arrival = λ text. fails_later;
  from_utf8_lossy = λ text. text;
}

abbrev plain_tools : Tools
plain_tools = record {
  sha256 = λ text. text;
  hex_encode = λ text. text;
  base64_decode = λ text. some text;
  to_lowercase = λ text. text;
  read_file = λ path. none;
}

abbrev open_settings : Settings
open_settings = record {
  default_username = codes "ops";
  default_password = codes "p";
  default_private_key = none;
  private_key_passphrase = none;
  connect_timeout_secs = 10;
  handshake_timeout_secs = 10;
  command_timeout_secs = 300;
  host_key_verification = codes "disabled";
  known_hosts_file = none;
}

abbrev net : Network
net = record {
  settings = open_settings;
  tools = plain_tools;
  utf8 = λ text. codes "h";
  base64_encode = λ text. text;
  fresh_id = codes "1";
  port = λ host. 22;
  host_key_verification = λ host. none;
  known_hosts = λ host. none;
  server = λ host. failing_server;
}

abbrev small_archive : OutputArchive
small_archive = record {
  max_summary_length = 1000;
  max_detail_length = 100_000;
  enable_sanitization = false;
  rules = [];
}

abbrev any_env : Env
any_env = record {
  answered = λ _. true;
  permit = λ group environment. none;
  ssh = λ job host text. panicked;
  to_string = λ e. "error";
  archive = small_archive;
  now = 200;
}

abbrev sent : Trace
sent = login (codes "ops") (password (codes "p")) ∷ command (codes "ls") ∷ []

starts :
    start_command (client_config net job web) failing_server "执行命令失败: " (codes "ls") []
    ≡ (sent, ok tt)
unfolding start_command check_server_key check_key exec_config
starts = refl

prints : process_output small_archive (codes "no") ≡ ok (codes "no", codes "no")
unfolding process_output
prints = refl

first_goes_on : (j : ℕ) → j < 1 → Continues (millis 300) (fails_later j)
first_goes_on zero h = refl
first_goes_on (suc j) h = absurd (omega arith)

task_follows_server_example :
    let (u, result) = execute_task (connected_env net 2 any_env) job task tables in
    (result ≡ ok tt)
    × ((after : Task) × (find (λ t. t.id == 20) u.tasks ≡ some after)
        × (after.exit_code ≡ some (pos 3))
        × ((after.status ≡ TaskStatus.timeout) ↔ (pos 3 ≡ pos 124))
        × ((after.status ≡ TaskStatus.succeeded) ↔ (pos 3 ≡ pos 0))
        × ((after.status ≡ TaskStatus.failed) ↔ ((pos 3 ≢ pos 124) × (pos 3 ≢ pos 0))))
unfolding exec_config stdout_of stderr_of
task_follows_server_example =
    task_follows_server net job web (codes "ls") 2 1 sent refl starts (omega arith) first_goes_on
      refl any_env task task tables (codes "no", codes "no") (λ c. refl) refl refl refl refl prints

-- A connection that is made to a server with one key, if the test accepts it.
abbrev pub offer : Bytes → (Bytes → Bool) → Connection
offer k test = if test k then connected k else Connection.late

abbrev key_of : Bytes → Connection → Bytes
key_of fallback (connected key_data) = key_data
key_of fallback _ = fallback

abbrev was_connected : Connection → Bool
was_connected (connected key_data) = true
was_connected _ = false

pub offer-connected :
    (k : Bytes) (test : Bytes → Bool) (key_data : Bytes)
    → offer k test ≡ connected key_data
    → (key_data ≡ k) × (test key_data ≡ true)
offer-connected k test key_data h =
    let seen : (b : Bool) → Type 0 =
      λ b. (if b then connected k else Connection.late) ≡ connected key_data in
    elim (Bool-cases (test k)) [
      | inl accepted ↦
          let same : k ≡ key_data = ap (key_of k) (subst seen accepted h) in
          (sym same, subst (λ x. test x ≡ true) same accepted)
      | inr rejected ↦ let never = ap was_connected (subst seen rejected h) in absurd cc
    ]

abbrev strict_net : Network
strict_net = record net {
  settings = record open_settings { host_key_verification = codes "strict" };
  server = λ host. record failing_server { connect = offer (codes "k") };
}

stranger_gets_nothing_example :
    let (u, result) = execute_task (connected_env strict_net 2 any_env) job task tables in
    (trace_of strict_net job web (codes "ls") 2 ≡ [])
    × ((e : AppError) × (result ≡ err e))
    × ((after : Task) × (find (λ t. t.id == 20) u.tasks ≡ some after)
        × (after.status ≡ TaskStatus.failed))
unfolding exec_config stored_fingerprint
stranger_gets_nothing_example =
    stranger_gets_nothing strict_net job web (codes "ls") 2 (codes "k")
      (offer-connected (codes "k")) (λ h. cc) any_env task task tables (λ c. refl) refl refl refl
      refl refl
