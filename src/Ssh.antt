-- ===== src/Ssh.antt =====
-- src/common/src/ssh.rs, and the test of the key of a server in src/ops-service/src/ssh/executor.rs. The
-- hash, the hexadecimal form of bytes and `str::to_lowercase` are parameters.
pub mod KnownHosts
pub mod Files
pub mod Client
pub mod Loop
pub mod Meaning
pub mod Trust
pub mod Progress
pub mod Pace
pub mod Remote
pub mod Tasks
pub mod Strangers
mod TaskRuns
mod Examples
use ops_service.Prelude.{
  ℕ, Bool, true, false, ◌||◌, Option, none, some, List, [], ◌∷◌, ◌++◌, if◌then◌else◌, find, get_or,
}
use ops_service.Prelude.Bytes.{Bytes, codes, bytes_eq}
use ops_service.Output.{decimal}

pub data HostKeyVerification : Type 0 where
  strict accept disabled : HostKeyVerification

-- `HostKeyVerification::default`
abbrev pub default_verification : HostKeyVerification
default_verification = accept

-- `FromStr`, on the text in lower case; `none` is an error.
unfoldable pub verification_of : Bytes → Option HostKeyVerification
verification_of text =
    if bytes_eq text (codes "strict")
    then some strict
    else if bytes_eq text (codes "accept")
    then some accept
    else if bytes_eq text (codes "disabled")
        || (bytes_eq text (codes "none") || bytes_eq text (codes "false"))
    then some disabled
    else none

-- `InternalSshAuth` is the same type, and `convert_auth` the identity.
pub data SshAuth : Type 0 where
  password : Bytes → SshAuth
  key : (private_key : Bytes) (passphrase : Option Bytes) → SshAuth

-- A `HashMap` from hosts to fingerprints.
abbrev pub KnownHosts : Type 0
KnownHosts = List (Bytes × Bytes)

pub record SshConfig : Type 0 where
  pub host : Bytes
  pub port : ℕ
  pub username : Bytes
  pub auth : SshAuth
  pub connect_timeout_secs : ℕ
  pub handshake_timeout_secs : ℕ
  pub command_timeout_secs : ℕ
  pub host_key_verification : HostKeyVerification
  pub known_hosts : Option KnownHosts

-- `SshConfig::new`
abbrev pub new_config : Bytes → Bytes → SshAuth → SshConfig
new_config host username auth = record {
  host = host;
  port = 22;
  username = username;
  auth = auth;
  connect_timeout_secs = 10;
  handshake_timeout_secs = 10;
  command_timeout_secs = 300;
  host_key_verification = default_verification;
  known_hosts = none;
}

abbrev pub with_password : Bytes → Bytes → Bytes → SshConfig
with_password host username secret = new_config host username (password secret)

abbrev pub with_key : Bytes → Bytes → Bytes → Option Bytes → SshConfig
with_key host username private_key passphrase =
    new_config host username (key private_key passphrase)

-- `known_hosts.get`
unfoldable pub get : Bytes → KnownHosts → Option Bytes
get name [] = none
get name ((n, fingerprint) ∷ hosts) =
    let rest = get name hosts in if bytes_eq n name then some fingerprint else rest

-- `format!("{}:{}", host, port)`
abbrev pub host_key_of : SshConfig → Bytes
host_key_of config = config.host ++ 58 ∷ decimal config.port

-- The fingerprint that is on record for a configuration's host.
abbrev pub get_from : Bytes → Option KnownHosts → Option Bytes
get_from name none = none
get_from name (some hosts) = get name hosts

unfoldable pub stored_fingerprint : SshConfig → Option Bytes
unfolding get
stored_fingerprint config = get_from (host_key_of config) config.known_hosts

-- The answer for a host on record, or the other one.
abbrev pub matches : Option Bytes → Bytes → Bool → Bool
matches none fingerprint unknown = unknown
matches (some stored) fingerprint unknown = bytes_eq stored fingerprint

module _ (sha256 hex_encode : Bytes → Bytes) where
  -- `check_server_key`, on the base64 text of the key.
  unfoldable pub check_key : HostKeyVerification → SshConfig → Bytes → Bool
  check_key disabled config key_data = true
  check_key accept config key_data =
      matches (stored_fingerprint config) (hex_encode (sha256 key_data)) true
  check_key strict config key_data =
      matches (stored_fingerprint config) (hex_encode (sha256 key_data)) false

  unfoldable pub check_server_key : SshConfig → Bytes → Bool
  unfolding check_key
  check_server_key config key_data = check_key config.host_key_verification config key_data
