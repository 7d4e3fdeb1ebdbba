-- ===== src/Permission.antt =====
-- src/ops-service/src/services/permission_service.rs with the statements that it uses of
-- src/ops-service/src/repository/role_repo.rs, and the rows of src/ops-service/src/models/role.rs.
-- Names of roles, resources, actions and scopes are their UTF-8 bytes.
pub mod Access
pub mod Scopes
mod Examples
use ops_service.Prelude.{
  Uuid, DateTime, Bool, true, false, not, ◌&&◌, Option, none, some, List, [], ◌∷◌, ◌++◌,
  if◌then◌else◌, ◌==◌, find, any,
}
use ops_service.Prelude.Bytes.{Bytes, codes, bytes_eq}
use ops_service.Error.{Act, ◌>>=◌, ◌>>◌, pure, fail, refuse_if, fetch, database_error, forbidden}

pub record Role : Type 0 where
  pub id : Uuid
  pub name : Bytes

pub record Permission : Type 0 where
  pub id : Uuid
  pub resource : Bytes
  pub action : Bytes
  pub description : Option Bytes

-- A row of `role_bindings`.
pub record BindingRow : Type 0 where
  pub id : Uuid
  pub user_id : Uuid
  pub role_id : Uuid
  pub scope_type : Bytes
  pub scope_value : Option Bytes
  pub created_at : DateTime

pub record RoleBinding : Type 0 where
  pub id : Uuid
  pub user_id : Uuid
  pub role_id : Uuid
  pub role_name : Bytes
  pub scope_type : Bytes
  pub scope_value : Option Bytes
  pub created_at : DateTime

-- A row of `role_permissions`.
pub record RolePermission : Type 0 where
  pub role_id : Uuid
  pub permission_id : Uuid

pub record Store : Type 0 where
  pub roles : List Role
  pub permissions : List Permission
  pub bindings : List BindingRow
  pub grants : List RolePermission

pub data Call : Type 0 where
  read_bindings : Call
  read_grants : Uuid → Call

-- Whether the database answers a call of an operation.
abbrev pub Answers : Type 0
Answers = Call → Bool

abbrev pub joined : BindingRow → Role → RoleBinding
joined row role = record {
  id = row.id;
  user_id = row.user_id;
  role_id = row.role_id;
  role_name = role.name;
  scope_type = row.scope_type;
  scope_value = row.scope_value;
  created_at = row.created_at;
}

-- `role_bindings rb JOIN roles r ON rb.role_id = r.id WHERE rb.user_id = $1`; `r.id` is a key.
unfoldable pub join_roles : Uuid → List Role → List BindingRow → List RoleBinding
join_roles user roles [] = []
join_roles user roles (row ∷ rows) =
    let rest = join_roles user roles rows in
    if row.user_id == user
    then elim (find (λ (r : Role). r.id == row.role_id) roles) [
      | none ↦ rest
      | some role ↦ joined row role ∷ rest
    ]
    else rest

abbrev pub bindings_of : Uuid → Store → List RoleBinding
bindings_of user s = join_roles user s.roles s.bindings

-- `get_user_role_bindings`.
abbrev pub get_user_role_bindings : Answers → Uuid → Act Store (List RoleBinding)
get_user_role_bindings answered user =
    fetch (answered read_bindings) database_error (bindings_of user)

abbrev pub is_permission : Uuid → Bytes → Bytes → Permission → Bool
is_permission id resource action p =
    p.id == id && (bytes_eq p.resource resource && bytes_eq p.action action)

-- The query of `role_has_permission` counts at least one row.
abbrev pub has_grant : Uuid → Bytes → Bytes → Store → Bool
has_grant role resource action s =
    any
      (λ g. g.role_id == role && any (is_permission g.permission_id resource action) s.permissions)
      s.grants

abbrev pub role_has_permission : Answers → Uuid → Bytes → Bytes → Act Store Bool
role_has_permission answered role resource action =
    fetch (answered (read_grants role)) database_error (has_grant role resource action)

-- The two arms for a group and for an environment.
abbrev pub has_scope : Bytes → Option Bytes → Option Bytes → Option Bytes → Bool
has_scope kind own (some t) (some v) = elim own [
  | none ↦ false
  | some w ↦ bytes_eq t kind && bytes_eq w v
]
has_scope kind own (some t) none = false
has_scope kind own none required_value = false

unfoldable pub scope_matches : RoleBinding → Option Bytes → Option Bytes → Bool
scope_matches b required_type required_value =
    if bytes_eq b.scope_type (codes "global")
    then true
    else if bytes_eq b.scope_type (codes "group")
    then has_scope (codes "group") b.scope_value required_type required_value
    else if bytes_eq b.scope_type (codes "environment")
    then has_scope (codes "environment") b.scope_value required_type required_value
    else false

-- The loop of `check_permission`.
unfoldable pub check_bindings :
    Answers → Bytes → Bytes → Option Bytes → Option Bytes → List RoleBinding → Act Store Bool
check_bindings answered resource action ty val [] = pure false
check_bindings answered resource action ty val (b ∷ bs) =
    let rest = check_bindings answered resource action ty val bs in
    if not (scope_matches b ty val) then rest else (do
      has_perm ← role_has_permission answered b.role_id resource action
      (if has_perm then pure true else rest))

unfoldable pub check_permission :
    Answers → Uuid → Bytes → Bytes → Option Bytes → Option Bytes → Act Store Bool
check_permission answered user resource action ty val = do
  bindings ← get_user_role_bindings answered user
  check_bindings answered resource action ty val bindings

unfoldable pub require_permission :
    Answers → Uuid → Bytes → Bytes → Option Bytes → Option Bytes → Act Store (Unit {0})
require_permission answered user resource action ty val = do
  has_permission ← check_permission answered user resource action ty val
  refuse_if (not has_permission) forbidden

-- The loop of `filter_resources_by_scope`, with the values that it has collected.
unfoldable pub collect_values : Bytes → List RoleBinding → List Bytes → List Bytes
collect_values scope [] values = values
collect_values scope (b ∷ bs) values =
    let kept = collect_values scope bs values in
    let added = λ (v : Bytes). collect_values scope bs (values ++ v ∷ []) in
    if bytes_eq b.scope_type scope
    then elim b.scope_value [ none ↦ kept | some v ↦ added v ]
    else if bytes_eq b.scope_type (codes "global")
    then codes "*" ∷ []
    else kept

unfoldable pub filter_resources_by_scope : Answers → Uuid → Bytes → Act Store (List Bytes)
unfolding collect_values
filter_resources_by_scope answered user scope = do
  bindings ← get_user_role_bindings answered user
  pure (collect_values scope bindings [])

abbrev pub is_admin_binding : RoleBinding → Bool
is_admin_binding b = bytes_eq b.role_name (codes "admin") && bytes_eq b.scope_type (codes "global")

unfoldable pub is_admin : Answers → Uuid → Act Store Bool
is_admin answered user = do
  bindings ← get_user_role_bindings answered user
  pure (any is_admin_binding bindings)
