-- ===== src/Runner/Images.antt =====
-- The images in which a runner executes the steps of a build, from the settings of
-- src/ops-service/src/config.rs to src/ops-runner/src/docker.rs.
use ops_service.Prelude.{◌≡◌, false, Option, none, some, List, [], ◌∷◌}
use ops_service.Prelude.Bytes.{Bytes}
use ops_service.Builds.Dispatch.{one_of, build_types}
use ops_service.Runner.Containers.{lookup, or_keep, Override, DockerSettings, StepType, custom}

-- The image that an override names.
abbrev pub image_in : Option Override → Option Bytes
image_in none = none
image_in (some o) = o.default_image

-- Of the overrides of some capabilities, the last one that names an image decides.
unfoldable pub capability_image : DockerSettings → List Bytes → Option Bytes
capability_image settings [] = none
capability_image settings (capability ∷ capabilities) =
    or_keep (capability_image settings capabilities)
      (image_in (lookup capability settings.per_capability))

-- No name of a type of builds is that of a type of steps.
abbrev pub IsStepType : StepType → Type 0
IsStepType (custom s) = one_of build_types s ≡ false
IsStepType _ = Unit
