-- ===== src/Ssh/Examples.antt =====
-- Runs of the SSH client at concrete inputs. Hashes and encodings keep their input.
use ops_service.Prelude.{
  ℕ, zero, suc, ◌+◌, ◌<◌, ◌/◌, ◌≡◌, ◌⊎◌, ◌↔◌, refl, true, false, none, some, Bool, [], ◌∷◌, arith,
}
use ops_service.Prelude.Int.{pos}
use ops_service.Prelude.Bytes.{Bytes, codes}
use ops_service.Error.{AppError, R, ok, err}
use ops_service.Output.{decimal}
use ops_service.Job.Execute.{ExecutionResult}
use ops_service.Ssh.{
  SshConfig, strict, with_password, password, check_server_key, check_key, stored_fingerprint,
}
use ops_service.Ssh.Client.{
  data_msg, exit_status, eof, Arrival, connected, Server, Trace, output, login, command, Output,
  empty_output, start_command, execute, millis, is_timeout,
}
use ops_service.Ssh.Loop.{IsLast, Continues, exit_code_at, stdout_of, stderr_of, time_of, last_wait}
use ops_service.Ssh.Meaning.{execute_ends_iff, execute_returns}
use ops_service.Ssh.Trust.{Demands, sends_only_to_trusted}
use ops_service.Ssh.Progress.{progress_loop}
use ops_service.Ssh.KnownHosts.{
  Tools, HostAccess, JobAccess, Settings, exec_config, split_whitespace, lines_from,
}
use ops_service.Ssh.TaskRuns.{offer, offer-connected}
use ops_service.Ssh.Files.{accepts_unknown, file_decides_nothing}

abbrev sample_config : SshConfig
sample_config = record (with_password (codes "h") (codes "u") (codes "p")) {
  host_key_verification = strict;
  known_hosts = some ((codes "h:22", codes "k") ∷ []);
}

-- A server that sends a line, then the end of its output, then the exit status 3.
abbrev arrivals : ℕ → Arrival
arrivals zero = record { gap = 600; message = some (data_msg (codes "hello")) }
arrivals (suc zero) = record { gap = 600; message = some eof }
arrivals (suc (suc n)) = record { gap = 5; message = some (exit_status 3) }

abbrev sample_server : Server
sample_server = record {
  sha256 = λ text. text;
  hex_encode = λ text. text;
  connect = offer (codes "k");
  decode_secret_key = λ text phrase. none;
  logs_in = λ name auth. true;
  opens = none;
  execs = λ text. none;
  arrival = λ text. arrivals;
  from_utf8_lossy = λ text. text;
}

abbrev sent : Trace
sent = login (codes "u") (password (codes "p")) ∷ command (codes "ls") ∷ []

starts : start_command sample_config sample_server "执行命令失败: " (codes "ls") [] ≡ (sent, ok tt)
unfolding start_command check_server_key check_key stored_fingerprint decimal
starts = refl

connects_to_tested :
    (test : Bytes → Bool) (key_data : Bytes)
    → sample_server.connect test ≡ connected key_data
    → test key_data ≡ true
connects_to_tested test key_data h = (offer-connected (codes "k") test key_data h).1

first_of_two : (j : ℕ) → j < 1 → Continues (millis 300) (arrivals j)
first_of_two zero h = refl
first_of_two (suc j) h = absurd (omega arith)

execute_ends_iff_example :
    ((fuel : ℕ) × (t : Trace) × (r : R ExecutionResult) × (execute sample_config sample_server fuel
          (codes "ls")
          []
        ≡ (t, some r)))
    ↔ ((n : ℕ) × IsLast (millis 300) (arrivals n))
execute_ends_iff_example = execute_ends_iff sample_config sample_server (codes "ls") [] sent starts

execute_returns_example : execute sample_config sample_server 2 (codes "ls") [] ≡ (
  sent,
  some (
      ok (record {
        exit_code = exit_code_at (millis 300) (arrivals 1);
        stdout = stdout_of arrivals 0 1;
        stderr = stderr_of arrivals 0 1;
        duration_secs = (time_of arrivals 0 1 + last_wait (millis 300) (arrivals 1)) / 1000;
        timed_out = is_timeout (exit_code_at (millis 300) (arrivals 1));
      })),
)
execute_returns_example =
    execute_returns sample_config sample_server (codes "ls") [] sent starts 1 2 (omega arith)
      first_of_two refl

sends_only_to_trusted_example :
    ((e : AppError) × (start_command sample_config sample_server "f" (codes "ls") [] ≡ ([], err e)))
    ⊎ ((key_data : Bytes) × (sample_server.connect
            (check_server_key (λ text. text) (λ text. text) sample_config)
          ≡ connected key_data)
        × Demands strict (stored_fingerprint sample_config) key_data)
sends_only_to_trusted_example =
    sends_only_to_trusted sample_config sample_server connects_to_tested "f" (codes "ls") []

abbrev last_output : Output
last_output = record { stdout = codes "hello"; stderr = []; exit_code = pos 0; elapsed = 1200 }

loop_runs :
    progress_loop sample_server true 2 300000 arrivals 0 empty_output 0 []
    ≡ (output (codes "hello") false ∷ [], some last_output)
unfolding progress_loop
loop_runs = refl

abbrev tools : Tools
tools = record {
  sha256 = λ text. text;
  hex_encode = λ text. text;
  base64_decode = λ text. some text;
  to_lowercase = λ text. text;
  read_file = λ path. some (codes "h ssh-rsa k");
}

abbrev sample_settings : Settings
sample_settings = record {
  default_username = codes "ops";
  default_password = codes "p";
  default_private_key = none;
  private_key_passphrase = none;
  connect_timeout_secs = 10;
  handshake_timeout_secs = 10;
  command_timeout_secs = 300;
  host_key_verification = codes "strict";
  known_hosts_file = some (codes "/k");
}

abbrev plain_host : HostAccess
plain_host = record {
  address = codes "h";
  port = 22;
  ssh_username = none;
  ssh_password = none;
  ssh_private_key = none;
  ssh_key_passphrase = none;
  host_key_verification = none;
  known_hosts = none;
}

abbrev plain_job : JobAccess
plain_job = record { execute_user = none; timeout_secs = none }

file_words : split_whitespace (codes " h  ssh-rsa k") ≡ codes "h" ∷ codes "ssh-rsa" ∷ codes "k" ∷ []
unfolding split_whitespace
file_words = refl

file_decides_nothing_example :
    check_server_key
      (λ text. text)
      (λ text. text)
      (exec_config tools sample_settings plain_host plain_job)
      (codes "k")
    ≡ accepts_unknown (exec_config tools sample_settings plain_host plain_job).host_key_verification
unfolding split_whitespace lines_from
file_decides_nothing_example =
    file_decides_nothing tools sample_settings plain_host plain_job (codes "/k")
      (codes "h ssh-rsa k") (codes "k") refl refl ((omega arith, tt), tt) refl
