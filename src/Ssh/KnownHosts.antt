-- ===== src/Ssh/KnownHosts.antt =====
-- The SSH settings that `execute_task` of src/ops-service/src/services/job_service.rs makes for a host,
-- and load_known_hosts_file. Files are ASCII; the file system, base64, SHA-256 and hexadecimal forms are
-- parameters.
use ops_service.Prelude.{
  ℕ, ◌-◌, ◌^◌, ◌%◌, Bool, true, false, ◌&&◌, ◌||◌, Option, none, some, List, [], ◌∷◌, ◌++◌,
  if◌then◌else◌, leb, ltb, ◌==◌, get_or,
}
use ops_service.Prelude.Int.{ℤ, pos, negsuc}
use ops_service.Prelude.Bytes.{Bytes, codes, bytes_eq}
use ops_service.Ssh.{
  HostKeyVerification, strict, accept, disabled, verification_of, SshAuth, password, key,
  KnownHosts, SshConfig,
}

-- What becomes of other crates and the file system.
pub record Tools : Type 0 where
  pub sha256 : Bytes → Bytes
  pub hex_encode : Bytes → Bytes
  pub base64_decode : Bytes → Option Bytes
  pub to_lowercase : Bytes → Bytes
  pub read_file : Bytes → Option Bytes

-- `char::is_whitespace`
abbrev pub is_space : ℕ → Bool
is_space c = c == 32 || (leb 9 c && leb c 13)

-- Words before a byte: it ends the current one, of which `word` has been read.
abbrev pub end_word : Bytes → List Bytes → List Bytes
end_word [] words = words
end_word (c ∷ cs) words = (c ∷ cs) ∷ words

-- `split_whitespace`, from a word that was begun.
unfoldable pub words_from : Bytes → Bytes → List Bytes
words_from word [] = end_word word []
words_from word (c ∷ cs) =
    let closed = words_from [] cs in
    let longer = words_from (word ++ c ∷ []) cs in
    if is_space c then end_word word closed else longer

unfoldable pub split_whitespace : Bytes → List Bytes
unfolding words_from
split_whitespace line = words_from [] line

-- `lines`, up to the carriage returns that `trim` takes off.
unfoldable pub lines_from : Bytes → Bytes → List Bytes
lines_from line [] = end_word line []
lines_from line (c ∷ cs) =
    let next = lines_from [] cs in
    let longer = lines_from (line ++ c ∷ []) cs in if c == 10 then line ∷ next else longer

-- A comment: the first byte of `line.trim()` is `#`.
abbrev pub is_comment : List Bytes → Bool
is_comment [] = false
is_comment ([] ∷ words) = false
is_comment ((c ∷ cs) ∷ words) = c == 35

abbrev pub named : (skip : Bool) → Bytes → Option Bytes → Option (Bytes × Bytes)
named true host_pattern hash = none
named false host_pattern none = none
named false host_pattern (some hash) = some (host_pattern, hash)

module _ (tools : Tools) where
  -- `calculate_ssh_fingerprint`
  abbrev pub calculate_ssh_fingerprint : Bytes → Option Bytes
  calculate_ssh_fingerprint public_key_base64 = elim (tools.base64_decode public_key_base64) [
    | none ↦ none
    | some key_bytes ↦ some (tools.hex_encode (tools.sha256 key_bytes))
  ]

  -- The entry of a line, of which at least three words are needed.
  unfoldable pub entry_of : List Bytes → Option (Bytes × Bytes)
  entry_of (host_pattern ∷ key_type ∷ public_key ∷ more) =
      named (is_comment (host_pattern ∷ [])) host_pattern (calculate_ssh_fingerprint public_key)
  entry_of _ = none

  abbrev pub insert : Option (Bytes × Bytes) → KnownHosts → KnownHosts
  insert none hosts = hosts
  insert (some entry) hosts = entry ∷ hosts

  -- The loop over the lines; a later entry for a host replaces an earlier one.
  unfoldable pub load_lines : List Bytes → KnownHosts → KnownHosts
  unfolding entry_of split_whitespace
  load_lines [] hosts = hosts
  load_lines (line ∷ lines) hosts =
      load_lines lines (insert (entry_of (split_whitespace line)) hosts)

  unfoldable pub loaded : Option Bytes → Option KnownHosts
  unfolding load_lines lines_from
  loaded none = none
  loaded (some content) = some (load_lines (lines_from [] content) [])

  unfoldable pub load_known_hosts_file : Bytes → Option KnownHosts
  unfolding loaded
  load_known_hosts_file file_path = loaded (tools.read_file file_path)

-- The fields of a host (src/ops-service/src/models/asset.rs) and of a job that a connection needs; the
-- port is what `as u16` makes of it.
pub record HostAccess : Type 0 where
  pub address : Bytes
  pub port : ℕ
  pub ssh_username : Option Bytes
  pub ssh_password : Option Bytes
  pub ssh_private_key : Option Bytes
  pub ssh_key_passphrase : Option Bytes
  pub host_key_verification : Option Bytes
  pub known_hosts : Option KnownHosts

pub record JobAccess : Type 0 where
  pub execute_user : Option Bytes
  pub timeout_secs : Option ℤ

-- `SshConfig` of src/ops-service/src/config.rs
pub record Settings : Type 0 where
  pub default_username : Bytes
  pub default_password : Bytes
  pub default_private_key : Option Bytes
  pub private_key_passphrase : Option Bytes
  pub connect_timeout_secs : ℕ
  pub handshake_timeout_secs : ℕ
  pub command_timeout_secs : ℕ
  pub host_key_verification : Bytes
  pub known_hosts_file : Option Bytes

abbrev pub or_else {ℓ} : {A : Type ℓ} → Option A → Option A → Option A
or_else none other = other
or_else (some a) other = some a

abbrev pub global_auth : Settings → Option Bytes → SshAuth
global_auth settings none = password settings.default_password
global_auth settings (some private_key) = key private_key settings.private_key_passphrase

abbrev pub password_auth : Settings → Option Bytes → SshAuth
password_auth settings none = global_auth settings settings.default_private_key
password_auth settings (some secret) = password secret

abbrev pub auth_of : Settings → HostAccess → Option Bytes → SshAuth
auth_of settings host none = password_auth settings host.ssh_password
auth_of settings host (some private_key) = key private_key host.ssh_key_passphrase

-- `parse_global_host_key_verification`, on the text in lower case.
unfoldable pub parse_global_host_key_verification : Bytes → HostKeyVerification
parse_global_host_key_verification text =
    if bytes_eq text (codes "strict")
    then strict
    else if bytes_eq text (codes "disabled")
    then disabled
    else accept

-- `as u64` of a job's timeout and `as i32` of the setting: a negative number becomes a large one.
abbrev pub as_u64 : ℤ → ℕ
as_u64 (pos n) = n
as_u64 (negsuc n) = 2 ^ 64 - 1 - n

abbrev pub through_i32 : ℕ → ℕ
through_i32 n = if ltb (n % 2 ^ 32) (2 ^ 31) then n % 2 ^ 32 else 2 ^ 64 - (2 ^ 32 - n % 2 ^ 32)

abbrev pub timeout_of : Settings → Option ℤ → ℕ
timeout_of settings none = through_i32 settings.command_timeout_secs
timeout_of settings (some secs) = as_u64 secs

abbrev pub verification_or_global :
    HostKeyVerification → Option HostKeyVerification → HostKeyVerification
verification_or_global fallback none = fallback
verification_or_global fallback (some mode) = mode

module _ (tools : Tools) where
  unfoldable pub verification_for : Settings → Option Bytes → HostKeyVerification
  unfolding parse_global_host_key_verification verification_of
  verification_for settings none =
      parse_global_host_key_verification (tools.to_lowercase settings.host_key_verification)
  verification_for settings (some text) =
      verification_or_global
        (parse_global_host_key_verification (tools.to_lowercase settings.host_key_verification))
        (verification_of (tools.to_lowercase text))

  unfoldable pub file_hosts : Option Bytes → Option KnownHosts
  unfolding load_known_hosts_file
  file_hosts none = none
  file_hosts (some file_path) = load_known_hosts_file tools file_path

  -- `ssh_exec_config`
  unfoldable pub exec_config : Settings → HostAccess → JobAccess → SshConfig
  unfolding file_hosts verification_for
  exec_config settings host job = record {
    host = host.address;
    port = host.port;
    username = get_or (or_else job.execute_user host.ssh_username) settings.default_username;
    auth = auth_of settings host host.ssh_private_key;
    connect_timeout_secs = settings.connect_timeout_secs;
    handshake_timeout_secs = settings.handshake_timeout_secs;
    command_timeout_secs = timeout_of settings job.timeout_secs;
    host_key_verification = verification_for settings host.host_key_verification;
    known_hosts = or_else host.known_hosts (file_hosts settings.known_hosts_file);
  }
