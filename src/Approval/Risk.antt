-- ===== src/Approval/Risk.antt =====
-- `check_job_requires_approval`, `is_high_risk_command` and `is_critical_group` of
-- src/ops-service/src/services/approval_service.rs. Texts are their UTF-8 bytes.
use ops_service.Prelude.{
  Uuid, ◌<◌, ◌≡◌, ◌↔◌, inl, inr, refl, Bool, true, ◌||◌, List, [], ◌∷◌, ltb, length, any, arith,
  Option, get_or, Bool-cases,
}
use ops_service.Prelude.Bytes.{
  Bytes, codes, bytes_eq, contains, Splits, bytes_eq_sound, bytes_eq_refl, contains_sound,
  contains_complete,
}
use mathlib.Core.List.{Memᴰ}

abbrev pub high_risk_patterns : List Bytes
high_risk_patterns =
    codes "rm -rf"
    ∷ codes "dd if"
    ∷ codes "mkfs"
    ∷ codes ":(){ :|:& };:"
    ∷ codes "format"
    ∷ codes "del /q"
    ∷ codes "shutdown"
    ∷ codes "reboot"
    ∷ codes "> /dev/"
    ∷ codes "truncate -s 0"
    ∷ []

-- The fields of a host that the check reads.
pub record Target : Type 0 where
  pub group_id : Uuid
  pub environment : Bytes

any_sound :
    {A : Type 0} (p : A → Bool) (xs : List A) → any p xs ≡ true → (a : A) × Memᴰ a xs × (p a ≡ true)
any_sound p [] h = absurd (ground arith)
any_sound p (x ∷ xs) h = elim (Bool-cases (p x)) [
  | inl e ↦ (x, Memᴰ.head refl, e)
  | inr e ↦ let (a, m, q) = any_sound p xs (ground arith) in (a, Memᴰ.tail m, q)
]

any_complete :
    {A : Type 0} (p : A → Bool) (xs : List A) (a : A) → Memᴰ a xs → p a ≡ true → any p xs ≡ true
any_complete p [] a m q = elim m [ ]
any_complete p (x ∷ xs) a (Memᴰ.head e) q = ground arith
any_complete p (x ∷ xs) a (Memᴰ.tail m) q = ground (arith, any_complete p xs a m q)

-- `to_lowercase` is `str::to_lowercase`, and `critical` the answer of the query of
-- `is_critical_group`, where a failed query counts as `false`.
module _ (to_lowercase : Bytes → Bytes) (critical : Uuid → Bool) where
  abbrev pub matches_pattern : Bytes → Bytes → Bool
  matches_pattern command pattern = contains (to_lowercase command) (to_lowercase pattern)

  unfoldable pub is_high_risk_command : Bytes → Bool
  is_high_risk_command command = any (matches_pattern command) high_risk_patterns

  abbrev pub is_production : Target → Bool
  is_production h = bytes_eq (to_lowercase h.environment) (codes "production")

  unfoldable pub check_job_requires_approval : Option Bytes → List Target → Bool
  check_job_requires_approval command hosts =
      any is_production hosts
      || ltb 10 (length hosts)
      || is_high_risk_command (get_or command [])
      || any (λ h. critical h.group_id) hosts

  -- The four reasons to ask for an approval.
  pub data Risky (command : Option Bytes) (hosts : List Target) : Type 0 where
    production :
        (h : Target)
        → Memᴰ h hosts
        → to_lowercase h.environment ≡ codes "production"
        → Risky command hosts
    many_targets : 10 < length hosts → Risky command hosts
    dangerous :
        (pattern : Bytes)
        → Memᴰ pattern high_risk_patterns
        → Splits (to_lowercase (get_or command [])) (to_lowercase pattern)
        → Risky command hosts
    critical_group : (h : Target) → Memᴰ h hosts → critical h.group_id ≡ true → Risky command hosts

  high_risk_sound :
      (command : Bytes)
      → is_high_risk_command command ≡ true
      → (p : Bytes) × Memᴰ p high_risk_patterns × Splits (to_lowercase command) (to_lowercase p)
  unfolding is_high_risk_command
  high_risk_sound command h =
      let (p, m, q) = any_sound (matches_pattern command) high_risk_patterns h in
      (p, m, contains_sound _ _ q)

  high_risk_complete :
      (command p : Bytes)
      → Memᴰ p high_risk_patterns
      → Splits (to_lowercase command) (to_lowercase p)
      → is_high_risk_command command ≡ true
  unfolding is_high_risk_command
  high_risk_complete command p m (before, after, e) =
      any_complete (matches_pattern command) high_risk_patterns p m
        (rw e (contains_complete before (to_lowercase p) after))

  requires_complete :
      (command : Option Bytes) (hosts : List Target)
      → Risky command hosts
      → check_job_requires_approval command hosts ≡ true
  unfolding check_job_requires_approval
  requires_complete command hosts (production h m e) =
      let hit : is_production h ≡ true = rw e (bytes_eq_refl (codes "production")) in
      ground (arith, any_complete is_production hosts h m hit)
  requires_complete command hosts (many_targets n) = ground arith
  requires_complete command hosts (dangerous p m split) =
      ground (arith, high_risk_complete (get_or command []) p m split)
  requires_complete command hosts (critical_group h m e) =
      ground (arith, any_complete (λ (t : Target). critical t.group_id) hosts h m e)

  requires_sound :
      (command : Option Bytes) (hosts : List Target)
      → check_job_requires_approval command hosts ≡ true
      → Risky command hosts
  unfolding check_job_requires_approval
  requires_sound command hosts h = elim (Bool-cases (any is_production hosts)) [
    | inl e ↦
        let (t, m, q) = any_sound is_production hosts e in production t m (bytes_eq_sound _ _ q)
    | inr staged ↦ elim (Bool-cases (ltb 10 (length hosts))) [
      | inl e ↦ many_targets (ground arith)
      | inr few ↦ elim (Bool-cases (is_high_risk_command (get_or command []))) [
        | inl e ↦ let (p, m, q) = high_risk_sound (get_or command []) e in dangerous p m q
        | inr harmless ↦
            let (t, m, q) = any_sound (λ (t : Target). critical t.group_id) hosts (ground arith) in
            critical_group t m q
      ]
    ]
  ]

  -- A job asks for an approval exactly if one of the reasons holds: a host in production (in any
  -- spelling of its case), more than ten hosts, a dangerous text within the command, or a critical
  -- group.
  pub requires_approval_iff :
      (command : Option Bytes) (hosts : List Target)
      → Risky command hosts ↔ (check_job_requires_approval command hosts ≡ true)
  requires_approval_iff command hosts =
      (requires_complete command hosts, requires_sound command hosts)
