-- ===== src/Ssh/Trust.antt =====
-- Which servers the client of src/ops-service/src/ssh/executor.rs gives its credentials and commands to.
use ops_service.Prelude.{
  ◌≡◌, ◌⊎◌, ◌↔◌, refl, ap, sym, subst, Bool, true, false, Option, none, some, String, inl, inr,
}
use ops_service.Prelude.Bytes.{Bytes, bytes_eq, bytes_eq_sound, bytes_eq_refl}
use ops_service.Error.{AppError, err}
use ops_service.Ssh.{
  SshConfig, HostKeyVerification, strict, accept, disabled, stored_fingerprint, matches, check_key,
  check_server_key,
}
use ops_service.Ssh.Client.{
  Server, after_connect, Connection, late, refused, connected, Trace, start_command,
}

-- What each mode demands of a server's fingerprint, given the one that is on record for its host.
abbrev pub Demands : HostKeyVerification → Option Bytes → Bytes → Type 0
Demands strict stored fingerprint = stored ≡ some fingerprint
Demands accept none fingerprint = Unit
Demands accept (some stored) fingerprint = stored ≡ fingerprint
Demands disabled stored fingerprint = Unit

matches-strict :
    (stored : Option Bytes) (fingerprint : Bytes)
    → (matches stored fingerprint false ≡ true) ↔ (stored ≡ some fingerprint)
matches-strict none fingerprint = (λ h. absurd cc, λ h. absurd cc)
matches-strict (some stored) fingerprint = (
  λ h. ap some (bytes_eq_sound stored fingerprint h),
  λ h. subst (λ o. matches o fingerprint false ≡ true) (sym h) (bytes_eq_refl fingerprint),
)

matches-accept :
    (stored : Option Bytes) (fingerprint : Bytes)
    → (matches stored fingerprint true ≡ true) ↔ Demands accept stored fingerprint
matches-accept none fingerprint = (λ h. tt, λ h. refl)
matches-accept (some stored) fingerprint = (
  bytes_eq_sound stored fingerprint,
  λ h. subst (λ x. bytes_eq stored x ≡ true) h (bytes_eq_refl stored),
)

module _ (sha256 hex_encode : Bytes → Bytes) where
  -- A server is accepted exactly if, with verification on, its fingerprint agrees with the one on record
  -- for its host and port, which must exist in the strict mode alone.
  pub check_server_key_iff :
      (config : SshConfig) (key_data : Bytes)
      → (check_server_key sha256 hex_encode config key_data ≡ true)
        ↔ Demands config.host_key_verification
            (stored_fingerprint config)
            (hex_encode (sha256 key_data))
  unfolding check_server_key check_key
  check_server_key_iff config key_data = go config.host_key_verification
    where
      go :
          (mode : HostKeyVerification)
          → (check_key sha256 hex_encode mode config key_data ≡ true)
            ↔ Demands mode (stored_fingerprint config) (hex_encode (sha256 key_data))
      go strict = matches-strict (stored_fingerprint config) (hex_encode (sha256 key_data))
      go accept = matches-accept (stored_fingerprint config) (hex_encode (sha256 key_data))
      go disabled = (λ h. tt, λ h. refl)

-- Credentials and commands go to accepted servers alone: given that a connection is made only to a
-- server whose key the test accepted, an attempt either fails and sends nothing, or has connected to a
-- server whose fingerprint meets the demands of the mode.
pub sends_only_to_trusted :
    (config : SshConfig) (server : Server)
    → ((test : Bytes → Bool) (key_data : Bytes)
        → server.connect test ≡ connected key_data
        → test key_data ≡ true)
    → (failure : String) (text : Bytes) (s : Trace)
    → ((e : AppError) × (start_command config server failure text s ≡ (s, err e)))
      ⊎ ((key_data : Bytes) × (server.connect
              (check_server_key server.sha256 server.hex_encode config)
            ≡ connected key_data)
          × Demands config.host_key_verification
              (stored_fingerprint config)
              (server.hex_encode (server.sha256 key_data)))
unfolding start_command
sends_only_to_trusted config server tested failure text s =
    go (server.connect (check_server_key server.sha256 server.hex_encode config)) refl
  where
    go :
        (c : Connection)
        → server.connect (check_server_key server.sha256 server.hex_encode config) ≡ c
        → ((e : AppError) × (start_command config server failure text s ≡ (s, err e)))
          ⊎ ((key_data : Bytes) × (server.connect
                  (check_server_key server.sha256 server.hex_encode config)
                ≡ connected key_data)
              × Demands config.host_key_verification
                  (stored_fingerprint config)
                  (server.hex_encode (server.sha256 key_data)))
    go late h = inl (_, ap (λ c. after_connect config server failure text c s) h)
    go (refused e) h = inl (_, ap (λ c. after_connect config server failure text c s) h)
    go (connected key_data) h = inr (
      key_data,
      h,
      (check_server_key_iff server.sha256 server.hex_encode config key_data).0
          (tested _ key_data h),
    )
