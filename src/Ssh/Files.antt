-- ===== src/Ssh/Files.antt =====
-- What the entries of a known_hosts file are worth to the test of a server's key: load_known_hosts_file of
-- src/ops-service/src/services/job_service.rs keeps the patterns of the file, and check_server_key of
-- src/ops-service/src/ssh/executor.rs looks for a host with its port.
use ops_service.Prelude.{
  ◌≡◌, refl, ap, ◌∙◌, subst, Bool, true, false, Option, none, some, List, [], ◌∷◌, ◌++◌, All, inl,
  inr, Bool-cases, get_or,
}
use ops_service.Prelude.Bytes.{Bytes, bytes_eq, bytes_eq_sound, Lacks, Lacks-sep}
use ops_service.Output.{decimal}
use ops_service.Ssh.{
  HostKeyVerification, strict, accept, disabled, KnownHosts, SshConfig, get, get_from,
  stored_fingerprint, host_key_of, check_server_key, check_key,
}
use ops_service.Ssh.KnownHosts.{
  Tools, HostAccess, JobAccess, Settings, split_whitespace, lines_from, is_comment,
  calculate_ssh_fingerprint, named, entry_of, insert, load_lines, loaded, file_hosts, exec_config,
  or_else,
}

abbrev pub NoColon : Bytes → Type 0
NoColon text = Lacks 58 text

-- The first word of a line.
abbrev pub PlainPattern : List Bytes → Type 0
PlainPattern [] = Unit
PlainPattern (host_pattern ∷ words) = NoColon host_pattern

bytes_eq-colon : (name a b : Bytes) → NoColon name → bytes_eq name (a ++ 58 ∷ b) ≡ false
bytes_eq-colon name a b plain = elim (Bool-cases (bytes_eq name (a ++ 58 ∷ b))) [
  | inl same ↦
      absurd (Lacks-sep 58 a b (subst NoColon (bytes_eq_sound name (a ++ 58 ∷ b) same) plain))
  | inr differ ↦ differ
]

get-colon :
    (a b : Bytes) (hosts : KnownHosts)
    → All (λ e. NoColon e.0) hosts
    → get (a ++ 58 ∷ b) hosts ≡ none
unfolding get
get-colon a b [] h = refl
get-colon a b ((name, fingerprint) ∷ hosts) (plain, h) =
    rw (bytes_eq-colon name a b plain) (get-colon a b hosts h)

named-first :
    (skip : Bool) (host_pattern : Bytes) (hash : Option Bytes) (entry : Bytes × Bytes)
    → named skip host_pattern hash ≡ some entry
    → host_pattern ≡ entry.0
named-first true host_pattern hash entry h = absurd cc
named-first false host_pattern none entry h = absurd cc
named-first false host_pattern (some hash) entry h =
    ap (λ (o : Option (Bytes × Bytes)). (get_or {A = Bytes × Bytes} o (host_pattern, hash)).0) h

module _ (tools : Tools) where
  entry_of-NoColon :
      (words : List Bytes) (entry : Bytes × Bytes)
      → PlainPattern words
      → entry_of tools words ≡ some entry
      → NoColon entry.0
  unfolding entry_of
  entry_of-NoColon [] entry h e = absurd cc
  entry_of-NoColon (a ∷ []) entry h e = absurd cc
  entry_of-NoColon (a ∷ b ∷ []) entry h e = absurd cc
  entry_of-NoColon (a ∷ b ∷ c ∷ more) entry h e =
      subst NoColon
        (named-first (is_comment (a ∷ [])) a (calculate_ssh_fingerprint tools c) entry e) h

  insert-NoColon :
      (entry : Option (Bytes × Bytes)) (hosts : KnownHosts)
      → ((e : Bytes × Bytes) → entry ≡ some e → NoColon e.0)
      → All (λ e. NoColon e.0) hosts
      → All (λ e. NoColon e.0) (insert tools entry hosts)
  insert-NoColon none hosts h g = g
  insert-NoColon (some entry) hosts h g = (h entry refl, g)

  load_lines-NoColon :
      (lines : List Bytes) (hosts : KnownHosts)
      → All (λ line. PlainPattern (split_whitespace line)) lines
      → All (λ e. NoColon e.0) hosts
      → All (λ e. NoColon e.0) (load_lines tools lines hosts)
  unfolding load_lines
  load_lines-NoColon [] hosts h g = g
  load_lines-NoColon (line ∷ lines) hosts (first, h) g = load_lines-NoColon lines _ h (
      insert-NoColon (entry_of tools (split_whitespace line)) hosts
        (λ e found. entry_of-NoColon (split_whitespace line) e first found) g)

stored_fingerprint-colon :
    (config : SshConfig) (hosts : KnownHosts)
    → config.known_hosts ≡ some hosts
    → All (λ e. NoColon e.0) hosts
    → stored_fingerprint config ≡ none
unfolding stored_fingerprint
stored_fingerprint-colon config hosts e h =
    ap (get_from (host_key_of config)) e ∙ get-colon config.host (decimal config.port) hosts h

-- The answer for a host of which nothing is known.
abbrev pub accepts_unknown : HostKeyVerification → Bool
accepts_unknown strict = false
accepts_unknown accept = true
accepts_unknown disabled = true

check_key-unknown :
    (sha256 hex_encode : Bytes → Bytes) (mode : HostKeyVerification) (config : SshConfig)
    (key_data : Bytes)
    → stored_fingerprint config ≡ none
    → check_key sha256 hex_encode mode config key_data ≡ accepts_unknown mode
unfolding check_key
check_key-unknown sha256 hex_encode strict config key_data e = rw e refl
check_key-unknown sha256 hex_encode accept config key_data e = rw e refl
check_key-unknown sha256 hex_encode disabled config key_data e = refl

exec_config-known_hosts :
    (tools : Tools) (settings : Settings) (host : HostAccess) (job : JobAccess)
    (file_path content : Bytes)
    → settings.known_hosts_file ≡ some file_path
    → tools.read_file file_path ≡ some content
    → host.known_hosts ≡ none
    → (exec_config tools settings host job).known_hosts
      ≡ some (load_lines tools (lines_from [] content) [])
unfolding exec_config
exec_config-known_hosts tools settings host job file_path content named_file found none_here =
    ap (λ o. or_else o (file_hosts tools settings.known_hosts_file)) none_here
    ∙ ap (file_hosts tools) named_file
    ∙ ap (loaded tools) found

-- A known_hosts file protects no host: where each pattern of the file is without a port, as for the
-- usual port 22, the test of a key at a host without entries of its own does not depend on the key:
-- strict refuses every server, and accept and disabled accept every server.
pub file_decides_nothing :
    (tools : Tools) (settings : Settings) (host : HostAccess) (job : JobAccess)
    (file_path content key_data : Bytes)
    → settings.known_hosts_file ≡ some file_path
    → tools.read_file file_path ≡ some content
    → All (λ line. PlainPattern (split_whitespace line)) (lines_from [] content)
    → host.known_hosts ≡ none
    → check_server_key tools.sha256 tools.hex_encode (exec_config tools settings host job) key_data
      ≡ accepts_unknown (exec_config tools settings host job).host_key_verification
unfolding check_server_key
file_decides_nothing tools settings host job file_path content key_data named_file found plain
      none_here =
    let config = exec_config tools settings host job in
    let entries =
      exec_config-known_hosts tools settings host job file_path content named_file found
        none_here in
    let unknown =
      stored_fingerprint-colon config _ entries
        (load_lines-NoColon tools (lines_from [] content) [] plain tt) in
    check_key-unknown tools.sha256 tools.hex_encode config.host_key_verification config key_data
      unknown
