-- ===== src/Permission/Access.antt =====
-- What `check_permission` and `require_permission` grant.
use ops_service.Prelude.{
  Uuid, ◌≡◌, ap, ◌⊎◌, inl, inr, refl, true, false, Option, none, some, List, [], ◌∷◌, arith,
  Bool-cases,
}
use ops_service.Prelude.Bytes.{Bytes, codes, bytes_eq, bytes_eq_sound, bytes_eq_refl}
use ops_service.Error.{ok, err, forbidden}
use ops_service.Permission.{
  RoleBinding, Store, Call, read_bindings, read_grants, Answers, bindings_of, has_grant, has_scope,
  scope_matches, check_bindings, check_permission, require_permission,
}
use mathlib.Core.List.{Memᴰ}

-- The scopes of the documentation: a global binding covers everything, one of a group or of an
-- environment covers what asks for exactly that group or environment.
pub data Covers (b : RoleBinding) : Option Bytes → Option Bytes → Type 0 where
  global : {ty val : Option Bytes} → b.scope_type ≡ codes "global" → Covers b ty val
  group :
      {v : Bytes}
      → b.scope_type ≡ codes "group"
      → b.scope_value ≡ some v
      → Covers b (some (codes "group")) (some v)
  environment :
      {v : Bytes}
      → b.scope_type ≡ codes "environment"
      → b.scope_value ≡ some v
      → Covers b (some (codes "environment")) (some v)

has_scope_sound :
    (kind : Bytes) (own ty val : Option Bytes)
    → has_scope kind own ty val ≡ true
    → (v : Bytes) × (ty ≡ some kind) × (val ≡ some v) × (own ≡ some v)
has_scope_sound kind none (some t) (some v) h = absurd (ground arith)
has_scope_sound kind (some w) (some t) (some v) h =
    let same_kind = bytes_eq_sound t kind (ground arith) in
    let same_value = bytes_eq_sound w v (ground arith) in
    (v, ap some same_kind, refl, ap some same_value)
has_scope_sound kind own (some t) none h = absurd (ground arith)
has_scope_sound kind own none val h = absurd (ground arith)

has_scope-Covers :
    (b : RoleBinding) (kind : Bytes) (ty val : Option Bytes)
    → ((v : Bytes) → b.scope_value ≡ some v → Covers b (some kind) (some v))
    → has_scope kind b.scope_value ty val ≡ true
    → Covers b ty val
has_scope-Covers b kind ty val make h =
    let (v, t, e, own) = has_scope_sound kind b.scope_value ty val h in rw (t, e) (make v own)

scope_matches-Covers :
    (b : RoleBinding) (ty val : Option Bytes) → scope_matches b ty val ≡ true → Covers b ty val
unfolding scope_matches
scope_matches-Covers b ty val h = elim (Bool-cases (bytes_eq b.scope_type (codes "global"))) [
  | inl all ↦ global (bytes_eq_sound _ _ all)
  | inr not_all ↦ elim (Bool-cases (bytes_eq b.scope_type (codes "group"))) [
    | inl of_group ↦
        has_scope-Covers b (codes "group") ty val
          (λ v own. group (bytes_eq_sound b.scope_type (codes "group") of_group) own) (ground arith)
    | inr not_group ↦ elim (Bool-cases (bytes_eq b.scope_type (codes "environment"))) [
      | inl of_env ↦
          has_scope-Covers b (codes "environment") ty val
            (λ v own. environment (bytes_eq_sound b.scope_type (codes "environment") of_env) own)
            (ground arith)
      | inr not_env ↦ absurd (ground arith)
    ]
  ]
]

Covers-scope_matches :
    (b : RoleBinding) (ty val : Option Bytes) → Covers b ty val → scope_matches b ty val ≡ true
unfolding scope_matches
Covers-scope_matches b ty val (global e) = rw e refl
Covers-scope_matches b ty val (group {v} e own) = rw (e, own, bytes_eq_refl v) refl
Covers-scope_matches b ty val (environment {v} e own) = rw (e, own, bytes_eq_refl v) refl

-- A role that the user holds in a scope that covers the request has the permission.
abbrev pub Granted : List RoleBinding → Bytes → Bytes → Option Bytes → Option Bytes → Store → Type 0
Granted bs resource action ty val s =
    (b : RoleBinding) × Memᴰ b bs × Covers b ty val × (has_grant b.role_id resource action s ≡ true)

module _ (answered : Answers) (resource action : Bytes) (ty val : Option Bytes) (s : Store) where
  check_bindings-Granted :
      (bs : List RoleBinding)
      → (check_bindings answered resource action ty val bs s).1 ≡ ok true
      → Granted bs resource action ty val s
  unfolding check_bindings
  check_bindings-Granted [] h = absurd (ground arith)
  check_bindings-Granted (b ∷ bs) h = elim (Bool-cases (scope_matches b ty val)) [
    | inl hit ↦ elim (Bool-cases (has_grant b.role_id resource action s)) [
      | inl has ↦ (b, Memᴰ.head refl, scope_matches-Covers b ty val hit, has)
      | inr lacks ↦
          let (c, m, k, has) = check_bindings-Granted bs (ground arith) in (c, Memᴰ.tail m, k, has)
    ]
    | inr miss ↦
        let (c, m, k, has) = check_bindings-Granted bs (ground arith) in (c, Memᴰ.tail m, k, has)
  ]

  module _ (answers : (c : Call) → answered c ≡ true) where
    check_bindings_value :
        (bs : List RoleBinding)
        → (check_bindings answered resource action ty val bs s ≡ (s, ok true))
          ⊎ (check_bindings answered resource action ty val bs s ≡ (s, ok false))
    unfolding check_bindings
    check_bindings_value [] = inr refl
    check_bindings_value (b ∷ bs) =
        ground (arith, check_bindings_value bs, answers (read_grants b.role_id))

    check_bindings_complete :
        (bs : List RoleBinding) (b : RoleBinding)
        → Memᴰ b bs
        → Covers b ty val
        → has_grant b.role_id resource action s ≡ true
        → check_bindings answered resource action ty val bs s ≡ (s, ok true)
    unfolding check_bindings
    check_bindings_complete [] b m k has = elim m [ ]
    check_bindings_complete (x ∷ bs) b (Memᴰ.head e) k has =
        let hit : scope_matches x ty val ≡ true = Covers-scope_matches x ty val (rw (← e) k) in
        let own : has_grant x.role_id resource action s ≡ true = rw (← e) has in
        ground (arith, answers (read_grants x.role_id))
    check_bindings_complete (x ∷ bs) b (Memᴰ.tail m) k has =
        let later = check_bindings_complete bs b m k has in
        ground (arith, answers (read_grants x.role_id))

module _ (answered : Answers) (user : Uuid) (resource action : Bytes) (ty val : Option Bytes)
    (s : Store) where
  -- Whichever statements fail: a requirement is met only if the user holds a role with the permission
  -- in a scope that covers what is asked for.
  pub require_permission_sound :
      (require_permission answered user resource action ty val s).1 ≡ ok tt
      → Granted (bindings_of user s) resource action ty val s
  unfolding require_permission check_permission
  require_permission_sound h =
      check_bindings-Granted answered resource action ty val s (bindings_of user s) (ground arith)

  -- With every statement answered, a requirement is met exactly if the user holds a role with the
  -- permission in a scope that covers what is asked for, is otherwise refused with `Forbidden`, and
  -- changes nothing either way.
  pub require_permission_decides :
      ((c : Call) → answered c ≡ true)
      → ((require_permission answered user resource action ty val s ≡ (s, ok tt))
          × Granted (bindings_of user s) resource action ty val s)
        ⊎ ((require_permission answered user resource action ty val s ≡ (s, err forbidden))
            × ¬ Granted (bindings_of user s) resource action ty val s)
  unfolding require_permission check_permission
  require_permission_decides answers =
      let bs = bindings_of user s in
      elim (check_bindings_value answered resource action ty val s answers bs) [
        | inl met ↦ inl (
          ground (arith, answers read_bindings, met),
          check_bindings-Granted answered resource action ty val s bs (ground (arith, met)),
        )
        | inr refused ↦ inr (
          ground (arith, answers read_bindings, refused),
          λ (b, m, k, has).
              let met =
                check_bindings_complete answered resource action ty val s answers bs b m k has in
              ground (arith, met, refused),
        )
      ]
