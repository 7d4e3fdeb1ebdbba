-- ===== src/Runner/ImageRuns.antt =====
-- The image of a step at a concrete input.
use ops_service.Prelude.{String, ◌≡◌, refl, true, none, some, [], ◌∷◌}
use ops_service.Prelude.Bytes.{codes}
use ops_service.Runner.Containers.{lookup, Override, DockerSettings}
use ops_service.Runner.Images.{capability_image}

abbrev image_only : (image : String) → Override
image_only image = record {
  enabled = none;
  default_image = some (codes image);
  memory_limit_gb = none;
  cpu_shares = none;
  pids_limit = none;
  default_timeout_secs = none;
}

abbrev settings : DockerSettings
settings = record {
  enabled = true;
  default_image = codes "ubuntu";
  images_by_type = (codes "rust", codes "rust:1") ∷ [];
  memory_limit_gb = none;
  cpu_shares = none;
  pids_limit = none;
  default_timeout_secs = 1800;
  per_runner = (codes "south", image_only "alpine") ∷ [];
  per_capability = (codes "rust", image_only "cargo") ∷ (codes "docker", image_only "dind") ∷ [];
}

-- The override of the later capability decides.
later_capability :
    capability_image settings (codes "rust" ∷ codes "docker" ∷ []) ≡ some (codes "dind")
unfolding capability_image lookup
later_capability = refl
