-- ===== src/Ssh/Client.antt =====
-- `SSHClient` of src/ops-service/src/ssh/executor.rs. What `russh` and the server do is a parameter: how
-- the connection ends, whether the login succeeds, whether a channel opens, and the messages on it,
-- the n-th of which comes some milliseconds after the wait for it began.
use ops_service.Prelude.{
  ℕ, zero, suc, ◌+◌, ◌*◌, ◌/◌, Bool, true, false, ◌||◌, Option, none, some, List, [], ◌∷◌, ◌++◌,
  String, if◌then◌else◌, leb, ◌==◌, is_some,
}
use text.Mathlib.Text.{find?}
use Prim.Native.String.{◌++◌ as str_append}
use ops_service.Prelude.Int.{ℤ, pos, negsuc, as_i32}
use ops_service.Prelude.Bytes.{Bytes}
use ops_service.Error.{
  AppError, R, ok, err, panicked, Act, ◌>>◌, pure, fail, ssh_connection_error,
  ssh_authentication_error, ssh_execution_error,
}
use ops_service.Job.Execute.{ExecutionResult}
use ops_service.Ssh.{SshAuth, password, key, SshConfig, check_server_key}

pub data ChannelMsg : Type 0 where
  data_msg : Bytes → ChannelMsg
  extended_data : Bytes → (ext : ℕ) → ChannelMsg
  exit_status : ℕ → ChannelMsg
  eof : ChannelMsg
  other : ChannelMsg

-- What a wait gives, `none` where the channel is closed, and when.
pub record Arrival : Type 0 where
  pub gap : ℕ
  pub message : Option ChannelMsg

-- How `client::connect` ends: not within its time, with an error, or connected to a server, whose key
-- was tested.
pub data Connection : Type 0 where
  late : Connection
  refused : String → Connection
  connected : (key_data : Bytes) → Connection

pub record Server : Type 0 where
  pub sha256 : Bytes → Bytes
  pub hex_encode : Bytes → Bytes
  pub connect : (Bytes → Bool) → Connection
  pub decode_secret_key : Bytes → Option Bytes → Option String
  pub logs_in : Bytes → SshAuth → Bool
  pub opens : Option String
  pub execs : Bytes → Option String
  pub arrival : Bytes → ℕ → Arrival
  pub from_utf8_lossy : Bytes → Bytes

-- What the client sends to the server, and the pieces of output that it hands to its caller.
pub data Sent : Type 0 where
  login : Bytes → SshAuth → Sent
  command : Bytes → Sent
  output : Bytes → (is_complete : Bool) → Sent

abbrev pub Trace : Type 0
Trace = List Sent

abbrev pub send : Sent → Act Trace (Unit {0})
send m s = (s ++ m ∷ [], ok tt)

-- `timeout(overall_timeout, client::connect(..))` with its errors, where `overall_timeout` is the lesser
-- of the two limits, of which the message names one.
abbrev pub connection_error : SshConfig → Connection → Option AppError
connection_error config late = some (
    ssh_connection_error (
      if leb config.connect_timeout_secs config.handshake_timeout_secs
      then "TCP连接超时: "
      else "SSH握手超时: "))
connection_error config (refused e) = some (
    ssh_connection_error (
      str_append
        (if is_some (find? e "Host key") || is_some (find? e "fingerprint")
          then "主机密钥验证失败: "
          else "SSH连接失败: ")
        e))
connection_error config (connected key_data) = none

abbrev pub or_error : Option AppError → Act Trace (Unit {0})
or_error none = pure tt
or_error (some e) = fail e

abbrev pub decoded : Server → SshAuth → Option AppError
decoded server (password secret) = none
decoded server (key private_key passphrase) =
    elim (server.decode_secret_key private_key passphrase) [
      | none ↦ none
      | some e ↦ some (ssh_connection_error (str_append "加载私钥失败: " e))
    ]

abbrev pub login_error : Bool → Option AppError
login_error true = none
login_error false = some (ssh_authentication_error "SSH认证失败")

abbrev pub prefixed : (String → AppError) → String → Option String → Option AppError
prefixed wrap text none = none
prefixed wrap text (some e) = some (wrap (str_append text e))

-- What follows on `client::connect`, up to the execution of a command.
unfoldable pub after_connect :
    SshConfig → Server → String → Bytes → Connection → Act Trace (Unit {0})
after_connect config server failure text connection = do
  or_error (connection_error config connection)
  or_error (decoded server config.auth)
  send (login config.username config.auth)
  or_error (login_error (server.logs_in config.username config.auth))
  or_error (prefixed ssh_connection_error "打开SSH通道失败: " server.opens)
  send (command text)
  or_error (prefixed ssh_execution_error failure (server.execs text))

unfoldable pub start_command : SshConfig → Server → String → Bytes → Act Trace (Unit {0})
unfolding after_connect
start_command config server failure text =
    after_connect config server failure text
      (server.connect (check_server_key server.sha256 server.hex_encode config))

pub record Output : Type 0 where
  pub stdout : Bytes
  pub stderr : Bytes
  pub exit_code : ℤ
  pub elapsed : ℕ

-- One round of the loop: go on with what was read, or stop.
pub data Round : Type 0 where
  go_on : Output → Round
  stop : Output → Round

abbrev pub receive : Output → Option ChannelMsg → Round
receive o (some (data_msg bytes)) = go_on (record o { stdout = o.stdout ++ bytes })
receive o (some (extended_data bytes ext)) =
    go_on (if ext == 1 then record o { stderr = o.stderr ++ bytes } else o)
receive o (some (exit_status n)) = stop (record o { exit_code = as_i32 n })
receive o (some eof) = stop o
receive o none = stop o
receive o (some other) = go_on o

-- `timeout(command_timeout, channel.wait())` and the `match`: every wait has the whole time.
abbrev pub after_wait : ℕ → Output → Arrival → Round
after_wait limit o a =
    if leb a.gap limit
    then receive (record o { elapsed = o.elapsed + a.gap }) a.message
    else stop (record o { exit_code = pos 124; elapsed = o.elapsed + limit })

abbrev pub empty_output : Output
empty_output = record { stdout = []; stderr = []; exit_code = pos 0; elapsed = 0 }

abbrev pub follow : Round → (Output → Option Output) → Option Output
follow (go_on next) rest = rest next
follow (stop last) rest = some last

-- The loop from the n-th message on; `none` where it has not ended after so many rounds.
unfoldable pub read_loop : ℕ → ℕ → (ℕ → Arrival) → ℕ → Output → Option Output
read_loop zero limit arrival n o = none
read_loop (suc fuel) limit arrival n o =
    follow (after_wait limit o (arrival n)) (read_loop fuel limit arrival (suc n))

abbrev pub millis : ℕ → ℕ
millis secs = secs * 1000

abbrev pub is_timeout : ℤ → Bool
is_timeout (pos n) = n == 124
is_timeout (negsuc n) = false

-- The duration is in whole seconds, as it is stored.
abbrev pub result_of : Server → Output → ExecutionResult
result_of server o = record {
  exit_code = o.exit_code;
  stdout = server.from_utf8_lossy o.stdout;
  stderr = server.from_utf8_lossy o.stderr;
  duration_secs = o.elapsed / 1000;
  timed_out = is_timeout o.exit_code;
}

abbrev pub finished : Server → Option Output → Trace → Trace × Option (R ExecutionResult)
finished server none s = (s, none)
finished server (some o) s = (s, some (ok (result_of server o)))

-- What goes on after the command was started, or not.
abbrev pub and_read :
    Trace × R (Unit {0})
    → (Trace → Trace × Option (R ExecutionResult))
    → Trace × Option (R ExecutionResult)
and_read (s, ok _) k = k s
and_read (s, err e) k = (s, some (err e))
and_read (s, panicked) k = (s, some panicked)

-- `SSHClient::execute`, given as many rounds of its loop.
unfoldable pub execute : SshConfig → Server → ℕ → Bytes → Trace → Trace × Option (R ExecutionResult)
unfolding start_command read_loop
execute config server fuel text s = and_read (start_command config server "执行命令失败: " text s) (
    finished server
      (read_loop fuel (millis config.command_timeout_secs) (server.arrival text) 0 empty_output))
