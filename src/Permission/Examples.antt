-- ===== src/Permission/Examples.antt =====
-- A user with the role of an operator in one group.
use ops_service.Prelude.{◌≡◌, ◌⊎◌, inl, refl, true, false, none, some, List, [], ◌∷◌, any}
use ops_service.Prelude.Bytes.{Bytes, codes}
use ops_service.Error.{ok, err, forbidden}
use ops_service.Permission.{
  Store, Answers, bindings_of, join_roles, scope_matches, check_bindings, check_permission,
  require_permission, filter_resources_by_scope,
}
use ops_service.Permission.Access.{Granted, require_permission_decides}
use ops_service.Permission.Scopes.{is_global, is_listed, is_covered, filter_agrees}

abbrev tables : Store
tables = record {
  roles = record { id = 3; name = codes "operator" } ∷ [];
  permissions =
      record { id = 5; resource = codes "job"; action = codes "read"; description = none } ∷ [];
  bindings =
      record {
        id = 8;
        user_id = 1;
        role_id = 3;
        scope_type = codes "group";
        scope_value = some (codes "web");
        created_at = 100;
      }
      ∷ [];
  grants = record { role_id = 3; permission_id = 5 } ∷ [];
}

abbrev calm : Answers
calm c = true

allowed :
    require_permission calm 1
      (codes "job")
      (codes "read")
      (some (codes "group"))
      (some (codes "web"))
      tables
    ≡ (tables, ok tt)
unfolding require_permission check_permission check_bindings join_roles scope_matches
allowed = refl

require_permission_decides_example :
    ((require_permission calm 1 (codes "job") (codes "read") none none tables ≡ (tables, ok tt))
      × Granted (bindings_of 1 tables) (codes "job") (codes "read") none none tables)
    ⊎ ((require_permission calm 1 (codes "job") (codes "read") none none tables
          ≡ (tables, err forbidden))
        × ¬ Granted (bindings_of 1 tables) (codes "job") (codes "read") none none tables)
require_permission_decides_example =
    require_permission_decides calm 1 (codes "job") (codes "read") none none tables (λ c. refl)

filter_agrees_example :
    (values : List Bytes) × (filter_resources_by_scope calm 1 (codes "group") tables
      ≡ (tables, ok values))
    × (((any is_global (bindings_of 1 tables) ≡ true) × (values ≡ codes "*" ∷ []))
        ⊎ ((any is_global (bindings_of 1 tables) ≡ false)
            × ((v : Bytes)
                → is_listed v values ≡ is_covered (codes "group") v (bindings_of 1 tables))))
filter_agrees_example = filter_agrees (codes "group") (inl refl) calm 1 tables refl
