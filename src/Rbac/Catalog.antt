-- ===== src/Rbac/Catalog.antt =====
-- backend/src/services/permission_catalog.rs: what each role grants. A HashSet is a list, read by
-- `has_name` only, so that order and repetition do not show; a HashMap is an association list.
use ymatch.Error.{ok, AppError, err, Result}
use ymatch.Common.{
  ℕ, String, Bool, ◌&&◌, none, some, List, [], ◌∷◌, ◌++◌, ◌==◌, if◌then◌else◌, fetch, exists_row,
}
use ymatch.Common.{str_eq}
use ymatch.Rbac.{RoleRow, RolePermissionRow, Authority, same_type, ScopeType}

pub record PermissionCatalog : Type 0 where
  pub admin_role_id : ℕ
  pub permissions_by_role : List (ℕ × List String)

abbrev pub has_name : List String → String → Bool
has_name names name = exists_row (str_eq name) names

-- `permissions_by_role.get`
unfoldable pub names_of : ℕ → List (ℕ × List String) → List String
names_of role [] = []
names_of role ((key, names) ∷ rest) = if key == role then names else names_of role rest

-- `.entry(role_id).or_default().insert(name)`
unfoldable pub insert_name : ℕ → String → List (ℕ × List String) → List (ℕ × List String)
insert_name role name [] = (role, name ∷ []) ∷ []
insert_name role name ((key, names) ∷ rest) =
    let later = insert_name role name rest in
    if key == role then (key, name ∷ names) ∷ rest else (key, names) ∷ later

unfoldable pub collect_permissions :
    List RolePermissionRow → List (ℕ × List String) → List (ℕ × List String)
unfolding insert_name
collect_permissions [] found = found
collect_permissions (row ∷ rows) found =
    collect_permissions rows (insert_name row.role_id row.name found)

abbrev pub is_admin_role : RoleRow → Bool
is_admin_role row = same_type row.scope_type ScopeType.global && str_eq row.name "admin"

-- `PermissionCatalog::load`
unfoldable pub load : Authority → Result PermissionCatalog
unfolding fetch collect_permissions
load auth = elim (fetch is_admin_role auth.roles) [
  | none ↦ err (AppError.internal "RBAC catalog not seeded: global/admin role missing")
  | some row ↦ ok (record {
    admin_role_id = row.id;
    permissions_by_role = collect_permissions auth.role_permissions [];
  })
]

unfoldable pub is_admin : PermissionCatalog → List ℕ → Bool
unfolding exists_row
is_admin catalog role_ids = exists_row (λ (r : ℕ). r == catalog.admin_role_id) role_ids

unfoldable pub permissions_for_roles : PermissionCatalog → List ℕ → List String
unfolding names_of
permissions_for_roles catalog [] = []
permissions_for_roles catalog (r ∷ rs) =
    names_of r catalog.permissions_by_role ++ permissions_for_roles catalog rs
