-- ===== src/Concurrency/Decision.antt =====
-- What `try_acquire_nowait` answers, and the limits that a configuration comes to.
use ops_service.Prelude.{
  ◌≡◌, ◌⊎◌, refl, inl, inr, Bool, true, false, ◌&&◌, Option, none, some, ltb, arith, Bool-cases,
}
use ops_service.Prelude.Int.{pos, ◌≤ℤ◌}
use ops_service.Prelude.Bytes.{Bytes}
use ops_service.Concurrency.{
  ConcurrencyConfig, Scope, global, group, environment, ConcurrencyController, ConcurrencyPermit,
  ConcurrencyError, rejected, try_acquire_owned,
}
use ops_service.Concurrency.Acquire.{
  optional, Acquired, granted, refused, full_permit, nowait_environment, nowait_group,
  try_acquire_nowait,
}
use ops_service.Concurrency.Balance.{free, capacity, is_scope, try_acquire_owned_lem}
use ops_service.Concurrency.Conservation.{try_acquire_nowait_lem}

-- A permit is free in a scope, or none is wanted there.
abbrev pub is_free : ConcurrencyConfig → Option Scope → ConcurrencyController → Bool
is_free config none c = true
is_free config (some scope) c = ltb 0 (free config scope c)

module _ (config : ConcurrencyConfig) where
  -- An answer that follows a test.
  abbrev pub Decides : Bool → ConcurrencyPermit → Acquired → Type 0
  Decides test permit answer =
      ((test ≡ true) × (answer ≡ granted permit))
      ⊎ ((test ≡ false) × (e : ConcurrencyError) × (answer ≡ refused e))

  environment-Decides :
      (group_id name : Option Bytes) (c : ConcurrencyController)
      → Decides
          (is_free config (optional environment name) c)
          (full_permit group_id name)
          (nowait_environment config group_id name c).1
  unfolding nowait_environment
  environment-Decides group_id none c = inl (refl, refl)
  environment-Decides group_id (some name) c =
      let (kept, got) = try_acquire_owned_lem config global (environment name) c in
      elim (Bool-cases (try_acquire_owned config (environment name) c).1) [
        | inl taken ↦ inl (ground (arith, got, taken), rw taken refl)
        | inr missed ↦
            inr (ground (arith, got, missed), rejected (environment name), rw missed refl)
      ]

  -- A permit taken elsewhere.
  spares :
      (wrap : Bytes → Scope) (k : Scope) (name : Option Bytes) (c : ConcurrencyController)
      → ((b : Bytes) → is_scope (wrap b) k ≡ false)
      → is_free config (optional wrap name) (try_acquire_owned config k c).0
        ≡ is_free config (optional wrap name) c
  spares wrap k none c other = refl
  spares wrap k (some b) c other =
      let (kept, got) = try_acquire_owned_lem config (wrap b) k c in ground (arith, kept, other b)

  group-Decides :
      (group_id name : Option Bytes) (c : ConcurrencyController)
      → Decides
          (is_free config (optional group group_id) c
            && is_free config (optional environment name) c)
          (full_permit group_id name)
          (nowait_group config group_id name c).1
  unfolding nowait_group
  group-Decides none name c = environment-Decides none name c
  group-Decides (some g) name c = elim (Bool-cases (try_acquire_owned config (group g) c).1) [
    | inr missed ↦
        let (kept, got) = try_acquire_owned_lem config global (group g) c in
        inr (ground (arith, got, missed), rejected (group g), rw missed refl)
    | inl taken ↦
        let d = (try_acquire_owned config (group g) c).0 in
        let unchanged = spares environment (group g) name c (λ b. refl) in
        let (kept, got) = try_acquire_owned_lem config global (group g) c in
        elim (environment-Decides (some g) name d) [
          | inl (fits, e) ↦ inl (ground (arith, got, unchanged, taken, fits), rw taken e)
          | inr (lacks, error, e) ↦ inr (ground (arith, unchanged, lacks), error, rw taken e)
        ]
  ]

-- An acquisition that does not wait is granted in full where every scope that it asks for has a free
-- permit. Otherwise it is refused, and then every scope has as many free permits as before.
pub try_acquire_nowait_decides :
    (config : ConcurrencyConfig) (group_id name : Option Bytes) (c : ConcurrencyController)
    → let (d, answer) = try_acquire_nowait config group_id name c in
      let wanted =
        is_free config (some global) c
        && (is_free config (optional group group_id) c
            && is_free config (optional environment name) c) in
      ((wanted ≡ true) × (answer ≡ granted (full_permit group_id name)))
      ⊎ ((wanted ≡ false)
          × (e : ConcurrencyError) × (answer ≡ refused e)
          × ((j : Scope) → free config j d ≡ free config j c))
unfolding try_acquire_nowait
try_acquire_nowait_decides config group_id name c =
    let p = try_acquire_nowait config group_id name c in
    let keeps : (e : ConcurrencyError)
        → p.1 ≡ refused e
        → (j : Scope) → free config j p.0 ≡ free config j c =
      λ e refusal j. ground (arith, try_acquire_nowait_lem config j group_id name c, refusal) in
    let (kept, got) = try_acquire_owned_lem config global global c in
    elim (Bool-cases (try_acquire_owned config global c).1) [
      | inr missed ↦
          let refusal : p.1 ≡ refused (rejected global) = rw missed refl in
          inr
            (ground (arith, got, missed), rejected global, refusal, keeps (rejected global) refusal)
      | inl taken ↦
          let d = (try_acquire_owned config global c).0 in
          let one = spares config group global group_id c (λ b. refl) in
          let two = spares config environment global name c (λ b. refl) in
          elim (group-Decides config group_id name d) [
            | inl (fits, e) ↦ inl (ground (arith, got, one, two, taken, fits), rw taken e)
            | inr (lacks, error, e) ↦
                let refusal : p.1 ≡ refused error = rw taken e in
                inr (ground (arith, one, two, lacks), error, refusal, keeps error refusal)
          ]
    ]

-- With no limit for groups, a global limit that stands for none leaves every group one permit.
pub unlimited_groups_get_one :
    (config : ConcurrencyConfig) (group_id : Bytes)
    → config.group_limit ≡ none
    → config.global_limit ≤ℤ pos 0
    → (capacity config global ≡ 10000) × (capacity config (group group_id) ≡ 1)
unlimited_groups_get_one config group_id unset unlimited = (ground arith, ground (arith, unset))
