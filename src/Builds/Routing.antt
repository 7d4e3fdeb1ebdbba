-- ===== src/Builds/Routing.antt =====
-- Whether a task that src/ops-service/src/rabbitmq.rs publishes comes to the queue that
-- src/ops-runner/src/worker.rs binds for the runner.
use ops_service.Prelude.{
  ◌≡◌, ◌↔◌, refl, ap, sym, ◌∙◌, subst, true, false, List, [], ◌∷◌, ◌++◌, ◌||◌, All, inl, inr,
  Bool-cases,
}
use ops_service.Prelude.Bytes.{
  Bytes, codes, bytes_eq, bytes_eq_sound, bytes_eq_refl, Lacks, Lacks-sep, split_once,
}
use ops_service.Scheduler.{includes}
use ops_service.Builds.Dispatch.{published_key, broadcast_key, direct_key, binding_keys, reaches}

-- A word of a key.
abbrev pub IsWord : Bytes → Type 0
IsWord text = Lacks 46 text

bytes_eq_iff : (a b c d : Bytes) → (a ≡ b) ↔ (c ≡ d) → bytes_eq a b ≡ bytes_eq c d
bytes_eq_iff a b c d (to, from) = elim (Bool-cases (bytes_eq a b)) [
  | inl same ↦
      let other = to (bytes_eq_sound a b same) in
      same ∙ sym (subst (λ x. bytes_eq c x ≡ true) other (bytes_eq_refl c))
  | inr differ ↦ elim (Bool-cases (bytes_eq c d)) [
    | inl same ↦
        let other = from (bytes_eq_sound c d same) in
        absurd (let again = subst (λ x. bytes_eq a x ≡ true) other (bytes_eq_refl a) in cc)
    | inr both ↦ differ ∙ sym both
  ]
]

module _ (build_type name : Bytes) (word : IsWord build_type) where
  no_broadcast :
      (capability : Bytes)
      → IsWord capability
      → bytes_eq (broadcast_key capability) (published_key build_type name) ≡ false
  no_broadcast capability plain =
      elim (Bool-cases (bytes_eq (broadcast_key capability) (published_key build_type name))) [
        | inl same ↦
            let words = bytes_eq_sound capability (build_type ++ (codes "." ++ name)) same in
            absurd (Lacks-sep 46 build_type name (subst IsWord words plain))
        | inr differ ↦ differ
      ]

  direct_same :
      (capability : Bytes)
      → IsWord capability
      → bytes_eq (direct_key name capability) (published_key build_type name)
        ≡ bytes_eq capability build_type
  direct_same capability plain =
      bytes_eq_iff (capability ++ (codes "." ++ name)) (build_type ++ (codes "." ++ name))
        capability build_type
        (
          λ h. (split_once 46 capability build_type name name plain word h).0,
          λ h. ap (λ c. c ++ (codes "." ++ name)) h,
        )

  -- A task that is published for a runner comes to the runner's queue exactly if the type of the build is
  -- itself one of the runner's capabilities, where neither contains a dot.
  pub task_reaches_iff :
      (capabilities : List Bytes)
      → All IsWord capabilities
      → reaches (published_key build_type name) (binding_keys name capabilities)
        ≡ includes capabilities build_type
  unfolding binding_keys
  task_reaches_iff [] h = refl
  task_reaches_iff (c ∷ cs) (plain, h) =
      rw (no_broadcast c plain, direct_same c plain)
        (ap (λ b. bytes_eq c build_type || b) (task_reaches_iff cs h))
