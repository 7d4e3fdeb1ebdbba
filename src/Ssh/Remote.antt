-- ===== src/Ssh/Remote.antt =====
-- The SSH client in `execute_task` of src/ops-service/src/services/job_service.rs: its settings for a job
-- and a host, and the call for each type of job. Each host stands for a server of its own.
use ops_service.Prelude.{ℕ, true, Option, none, some, [], String}
use mathlib.Core.Option
use ops_service.Prelude.Bytes.{Bytes}
use ops_service.Error.{R, err, panicked, validation}
use ops_service.Job.{JobType, command_job, script_job, build_job, Job, Host}
use ops_service.Job.Execute.{ExecutionResult, Env}
use ops_service.Ssh.{SshConfig, KnownHosts}
use ops_service.Ssh.Client.{Server}
use ops_service.Ssh.Progress.{execute_with_progress, execute_script}
use ops_service.Ssh.KnownHosts.{Tools, HostAccess, JobAccess, Settings, exec_config}

-- The settings, the other crates, the columns of hosts that `Host` leaves out, and the servers.
pub record Network : Type 0 where
  pub settings : Settings
  pub tools : Tools
  pub utf8 : String → Bytes
  pub base64_encode : Bytes → Bytes
  pub fresh_id : Bytes
  pub port : Host → ℕ
  pub host_key_verification : Host → Option Bytes
  pub known_hosts : Host → Option KnownHosts
  pub server : Host → Server

-- A run that needs more rounds has no result, for which `panicked` stands.
abbrev pub or_panicked : Option (R ExecutionResult) → R ExecutionResult
or_panicked none = panicked
or_panicked (some r) = r

module _ (net : Network) where
  abbrev pub host_access : Host → HostAccess
  host_access host = record {
    address = net.utf8 host.address;
    port = net.port host;
    ssh_username = Option.map net.utf8 host.ssh_username;
    ssh_password = Option.map net.utf8 host.ssh_password;
    ssh_private_key = Option.map net.utf8 host.ssh_private_key;
    ssh_key_passphrase = Option.map net.utf8 host.ssh_key_passphrase;
    host_key_verification = net.host_key_verification host;
    known_hosts = net.known_hosts host;
  }

  abbrev pub job_access : Job → JobAccess
  job_access job = record {
    execute_user = Option.map net.utf8 job.execute_user;
    timeout_secs = job.timeout_secs;
  }

  -- `SSHClient::new(ssh_exec_config)`
  abbrev pub client_config : Job → Host → SshConfig
  client_config job host = exec_config net.tools net.settings (host_access host) (job_access job)

  -- `match job.job_type`, given as many rounds of the client's loop.
  unfoldable pub remote_answer : ℕ → Job → Host → JobType → Bytes → Option (R ExecutionResult)
  unfolding execute_with_progress execute_script exec_config
  remote_answer rounds job host command_job text =
      (execute_with_progress (net.server host) true (client_config job host) rounds text []).1
  remote_answer rounds job host script_job text =
      (execute_script (client_config job host) (net.server host) net.base64_encode net.fresh_id
        rounds text (Option.map net.utf8 job.script_path) []).1
  remote_answer rounds job host build_job text =
      some (err (validation "Build jobs are not supported for SSH execution"))

  -- An environment of `execute_task` whose SSH client is this one, given so many rounds.
  abbrev pub connected_env : ℕ → Env → Env
  connected_env rounds env = record env {
    ssh = λ job host text. or_panicked (remote_answer rounds job host job.job_type text);
  }
