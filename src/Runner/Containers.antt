-- ===== src/Runner/Containers.antt =====
-- The settings for the containers of a runner: src/ops-service/src/config.rs, where they are chosen,
-- get_runner_docker_config and the responses of src/ops-service/src/handlers/runner.rs, which send them,
-- apply_docker_config of src/ops-runner/src/config.rs, and the image of a step in
-- src/ops-runner/src/docker.rs.
use ops_service.Prelude.{ℕ, Bool, Option, none, some, List, [], ◌∷◌, if◌then◌else◌, get_or}
use ops_service.Prelude.Int.{ℤ, pos}
use ops_service.Prelude.Bytes.{Bytes, codes, bytes_eq}

-- `HashMap::get`
unfoldable pub lookup {ℓ} : {V : Type ℓ} → Bytes → List (Bytes × V) → Option V
lookup key [] = none
lookup key ((k, v) ∷ entries) =
    let rest = lookup key entries in if bytes_eq k key then some v else rest

abbrev pub or_keep {ℓ} : {A : Type ℓ} → Option A → Option A → Option A
or_keep none kept = kept
or_keep (some a) kept = some a

-- `RunnerDockerOverride`
pub record Override : Type 0 where
  pub enabled : Option Bool
  pub default_image : Option Bytes
  pub memory_limit_gb : Option ℤ
  pub cpu_shares : Option ℤ
  pub pids_limit : Option ℤ
  pub default_timeout_secs : Option ℕ

-- `RunnerDockerConfig` of the service.
pub record DockerSettings : Type 0 where
  pub enabled : Bool
  pub default_image : Bytes
  pub images_by_type : List (Bytes × Bytes)
  pub memory_limit_gb : Option ℤ
  pub cpu_shares : Option ℤ
  pub pids_limit : Option ℤ
  pub default_timeout_secs : ℕ
  pub per_runner : List (Bytes × Override)
  pub per_capability : List (Bytes × Override)

-- `RunnerDockerEffectiveConfig`
pub record Effective : Type 0 where
  pub enabled : Bool
  pub default_image : Bytes
  pub memory_limit_gb : Option ℤ
  pub cpu_shares : Option ℤ
  pub pids_limit : Option ℤ
  pub default_timeout_secs : ℕ

abbrev pub apply_to : Override → Effective → Effective
apply_to o config = record {
  enabled = get_or o.enabled config.enabled;
  default_image = get_or o.default_image config.default_image;
  memory_limit_gb = or_keep o.memory_limit_gb config.memory_limit_gb;
  cpu_shares = or_keep o.cpu_shares config.cpu_shares;
  pids_limit = or_keep o.pids_limit config.pids_limit;
  default_timeout_secs = get_or o.default_timeout_secs config.default_timeout_secs;
}

-- `if let Some(override_cfg) = … { override_cfg.apply_to(&mut config) }`
abbrev pub apply_found : Option Override → Effective → Effective
apply_found none config = config
apply_found (some o) config = apply_to o config

unfoldable pub apply_capabilities : DockerSettings → List Bytes → Effective → Effective
unfolding lookup
apply_capabilities settings [] config = config
apply_capabilities settings (capability ∷ capabilities) config =
    apply_capabilities settings capabilities
      (apply_found (lookup capability settings.per_capability) config)

abbrev pub initial_config : DockerSettings → Effective
initial_config settings = record {
  enabled = settings.enabled;
  default_image = settings.default_image;
  memory_limit_gb = settings.memory_limit_gb;
  cpu_shares = settings.cpu_shares;
  pids_limit = settings.pids_limit;
  default_timeout_secs = settings.default_timeout_secs;
}

unfoldable pub get_config_for_runner : DockerSettings → Bytes → List Bytes → Effective
unfolding apply_capabilities
get_config_for_runner settings runner_name capabilities =
    apply_found (lookup runner_name settings.per_runner)
      (apply_capabilities settings capabilities (initial_config settings))

-- `get_runner_docker_config`: the row `default` of the database, or the settings of the process.
abbrev pub settings_used : Option DockerSettings → DockerSettings → DockerSettings
settings_used none own = own
settings_used (some stored) own = stored

-- `RunnerDockerConfiguration`, and `RunnerDockerConfig` of src/common/src/messages.rs.
pub record RunnerDockerConfiguration : Type 0 where
  pub enabled : Bool
  pub default_image : Bytes
  pub images_by_type : List (Bytes × Bytes)
  pub memory_limit_gb : Option ℤ
  pub cpu_shares : Option ℤ
  pub pids_limit : Option ℤ
  pub default_timeout_secs : ℕ

-- `docker_config` of a response. The images by type are those of the process in every case.
unfoldable pub docker_config :
    Option DockerSettings
    → DockerSettings
    → Bytes
    → List Bytes
    → Bool
    → Option RunnerDockerConfiguration
unfolding get_config_for_runner
docker_config stored own name capabilities docker_supported =
    let effective = get_config_for_runner (settings_used stored own) name capabilities in
    if docker_supported
    then some (record {
      enabled = effective.enabled;
      default_image = effective.default_image;
      images_by_type = own.images_by_type;
      memory_limit_gb = effective.memory_limit_gb;
      cpu_shares = effective.cpu_shares;
      pids_limit = effective.pids_limit;
      default_timeout_secs = effective.default_timeout_secs;
    })
    else none

pub record DockerResourceLimits : Type 0 where
  pub memory : Option ℤ
  pub memory_swap : Option ℤ
  pub cpu_quota : Option ℤ
  pub cpu_period : Option ℤ
  pub cpu_shares : Option ℤ
  pub pids_limit : Option ℤ
  pub nofile : Option ℤ
  pub nproc : Option ℤ

-- `DockerConfig` of a runner; its settings for security and the network, which are always the same, are
-- left out.
pub record DockerConfig : Type 0 where
  pub enabled : Bool
  pub default_image : Bytes
  pub custom_images : List (Bytes × Bytes)
  pub resource_limits : DockerResourceLimits
  pub default_timeout : ℕ

-- What `apply_docker_config` puts into `execution.docker`.
unfoldable pub apply_docker_config : RunnerDockerConfiguration → DockerConfig
apply_docker_config remote = record {
  enabled = remote.enabled;
  default_image = remote.default_image;
  custom_images = remote.images_by_type;
  resource_limits = record {
    memory = remote.memory_limit_gb;
    memory_swap = none;
    cpu_quota = none;
    cpu_period = none;
    cpu_shares = remote.cpu_shares;
    pids_limit = remote.pids_limit;
    nofile = some (pos 65536);
    nproc = some (pos 4096);
  };
  default_timeout = remote.default_timeout_secs;
}

pub data StepType : Type 0 where
  command script install build test packaging publish : StepType
  custom : Bytes → StepType

-- `step_type_str`
abbrev pub step_type_str : StepType → Bytes
step_type_str command = codes "command"
step_type_str script = codes "script"
step_type_str install = codes "install"
step_type_str build = codes "build"
step_type_str test = codes "test"
step_type_str packaging = codes "package"
step_type_str publish = codes "publish"
step_type_str (custom s) = s

-- The image of a step, by its own image and its type.
unfoldable pub get_image_for_step : DockerConfig → Option Bytes → StepType → Bytes
unfolding lookup
get_image_for_step config (some image) step_type = image
get_image_for_step config none step_type =
    get_or (lookup (step_type_str step_type) config.custom_images) config.default_image
