-- ===== src/Rbac/Decision.antt =====
-- The authorization decision against one query over the tables.
use ymatch.Error.{err, ok, Result}
use ymatch.Common.Exists.{
  exists_row-and_or, exists_row-select, exists_row-map, exists_row-and, exists_row-swap,
  exists_row-cong, exists_row-append,
}
use ymatch.Common.{
  fetch, Option-cases, some, select, if◌then◌else◌, ℕ, String, ◌≡◌, refl, ◌∙◌, inl, inr, Bool, ◌&&◌,
  ◌||◌, List, [], ◌∷◌, arith, ◌==◌, Bool-cases, exists_row,
}
use ymatch.Common.{str_eq}
use ymatch.Rbac.{Authority, UserRoleRow, RolePermissionRow}
use ymatch.Rbac.Permission.{Permission, satisfying_names, Scope}
use ymatch.Rbac.Catalog.{
  is_admin_role, is_admin, load, PermissionCatalog, permissions_for_roles, has_name, names_of,
  insert_name, collect_permissions,
}
use ymatch.Rbac.Service.{
  missing, VerifiedUser, evaluate, catalog, role_ids_for_user, check, in_scope,
}

-- The role is the superuser's, or one of the rows grants it a name that satisfies the permission.
abbrev pub grants : ℕ → List RolePermissionRow → Permission → ℕ → Bool
grants admin_role_id rows permission role =
    (role == admin_role_id)
    || exists_row
        (λ (g : RolePermissionRow).
          (g.role_id == role) && exists_row (λ n. str_eq n g.name) (satisfying_names permission))
        rows

-- Some assignment of the user in the scope, or a global one, grants the permission.
unfoldable pub is_allowed :
    ℕ → List RolePermissionRow → List UserRoleRow → ℕ → Scope → Permission → Bool
unfolding exists_row
is_allowed admin_role_id rows user_roles user_id scope permission =
    exists_row
      (λ (a : UserRoleRow).
        (a.user_id == user_id && in_scope scope a)
        && grants admin_role_id rows permission a.role_id)
      user_roles

insert_name-has :
    (role asked : ℕ) (name n : String) (found : List (ℕ × List String))
    → has_name (names_of asked (insert_name role name found)) n
      ≡ ((role == asked && str_eq n name) || has_name (names_of asked found) n)
unfolding exists_row names_of insert_name
insert_name-has role asked name n [] = elim (Bool-cases (role == asked)) [
  | inl same ↦ rw same refl
  | inr differ ↦ rw differ refl
]
insert_name-has role asked name n ((key, names) ∷ rest) =
    ground (arith, insert_name-has role asked name n rest)

collect_permissions-has :
    (rows : List RolePermissionRow) (found : List (ℕ × List String)) (asked : ℕ) (n : String)
    → has_name (names_of asked (collect_permissions rows found)) n ≡ (
        exists_row (λ (g : RolePermissionRow). g.role_id == asked && str_eq n g.name) rows
        || has_name (names_of asked found) n)
unfolding exists_row collect_permissions
collect_permissions-has [] found asked n = refl
collect_permissions-has (g ∷ gs) found asked n =
    rw
      (
        collect_permissions-has gs (insert_name g.role_id g.name found) asked n,
        insert_name-has g.role_id asked g.name n found,
      )
      (ground arith)

permissions_for_roles-has :
    (c : PermissionCatalog) (ids : List ℕ) (n : String)
    → has_name (permissions_for_roles c ids) n
      ≡ exists_row (λ r. has_name (names_of r c.permissions_by_role) n) ids
unfolding exists_row permissions_for_roles
permissions_for_roles-has c [] n = refl
permissions_for_roles-has c (r ∷ rs) n =
    exists_row-append (str_eq n) (names_of r c.permissions_by_role) (permissions_for_roles c rs)
    ∙ rw (permissions_for_roles-has c rs n) refl

abbrev row_granted : List RolePermissionRow → Permission → ℕ → Bool
row_granted rows permission role =
    exists_row
      (λ (g : RolePermissionRow).
        (g.role_id == role) && exists_row (λ n. str_eq n g.name) (satisfying_names permission))
      rows

-- What one role is granted, read from the catalog and read from the rows.
role-has :
    (rows : List RolePermissionRow) (names : List String) (role : ℕ)
    → exists_row (has_name (names_of role (collect_permissions rows []))) names
      ≡ exists_row
          (λ (g : RolePermissionRow).
            (g.role_id == role) && exists_row (λ n. str_eq n g.name) names)
          rows
unfolding names_of exists_row
role-has rows names role =
    exists_row-cong (has_name (names_of role (collect_permissions rows [])))
      (λ n. exists_row (λ (g : RolePermissionRow). g.role_id == role && str_eq n g.name) rows) names
      (λ n. collect_permissions-has rows [] role n ∙ ground arith)
    ∙ exists_row-swap (λ n (g : RolePermissionRow). g.role_id == role && str_eq n g.name) names rows
    ∙ exists_row-cong
        (λ (g : RolePermissionRow). exists_row (λ n. g.role_id == role && str_eq n g.name) names)
        (λ (g : RolePermissionRow). (g.role_id == role) && exists_row (λ n. str_eq n g.name) names)
        rows (λ g. exists_row-and (g.role_id == role) (λ n. str_eq n g.name) names)

-- A test of the roles that a user holds in a scope is a test of the user's rows.
held_roles :
    (f : ℕ → Bool) (user_id : ℕ) (scope : Scope) (auth : Authority)
    → exists_row f (role_ids_for_user user_id scope auth)
      ≡ exists_row
          (λ (a : UserRoleRow). (a.user_id == user_id && in_scope scope a) && f a.role_id)
          auth.user_roles
unfolding role_ids_for_user
held_roles f user_id scope auth =
    exists_row-map f (λ (a : UserRoleRow). a.role_id)
      (select (λ (a : UserRoleRow). a.user_id == user_id && in_scope scope a) auth.user_roles)
    ∙ exists_row-select (λ (a : UserRoleRow). f a.role_id)
        (λ (a : UserRoleRow). a.user_id == user_id && in_scope scope a) auth.user_roles

names-held :
    (rows : List RolePermissionRow) (c : PermissionCatalog) (names : List String) (ids : List ℕ)
    → c.permissions_by_role ≡ collect_permissions rows []
    → exists_row (has_name (permissions_for_roles c ids)) names
      ≡ exists_row
          (λ role.
            exists_row
              (λ (g : RolePermissionRow).
                (g.role_id == role) && exists_row (λ n. str_eq n g.name) names)
              rows)
          ids
names-held rows c names ids e =
    exists_row-cong (has_name (permissions_for_roles c ids))
      (λ n. exists_row (λ r. has_name (names_of r c.permissions_by_role) n) ids) names
      (permissions_for_roles-has c ids)
    ∙ exists_row-swap (λ n r. has_name (names_of r c.permissions_by_role) n) names ids
    ∙ exists_row-cong (λ r. exists_row (has_name (names_of r c.permissions_by_role)) names)
        (λ role.
          exists_row
            (λ (g : RolePermissionRow).
              (g.role_id == role) && exists_row (λ n. str_eq n g.name) names)
            rows)
        ids (λ r. rw e (role-has rows names r))

load-eq_ok :
    (auth : Authority) (c : PermissionCatalog)
    → load auth ≡ ok c
    → c.permissions_by_role ≡ collect_permissions auth.role_permissions []
unfolding load
load-eq_ok auth c h = elim (Option-cases (fetch is_admin_role auth.roles)) [
  | inl missing_role ↦ absurd (ground (arith, missing_role))
  | inr (row, found) ↦ cc
]

verdict :
    (a b x : Bool) (r : Result (Unit {0}))
    → x ≡ (a || b)
    → (if a then ok tt else if b then ok tt else r) ≡ (if x then ok tt else r)
verdict a b x r h = ground arith

-- With a catalog loaded from the tables, a check passes exactly when some assignment of the user, in
-- the scope or global, has the superuser's role or a role that a row grants a satisfying name; it
-- fails otherwise with the 403 that names the permission. The assignments are the current ones.
pub check_lem :
    (start auth : Authority) (c : PermissionCatalog) (user : VerifiedUser) (scope : Scope)
    (permission : Permission)
    → load start ≡ ok c
    → check (some c) auth user scope permission ≡ (
        if is_allowed c.admin_role_id start.role_permissions auth.user_roles user.id scope
          permission
        then ok tt
        else err (missing permission))
unfolding check catalog evaluate is_allowed is_admin
check_lem start auth c user scope permission h =
    let names = satisfying_names permission in
    let admin = held_roles (λ r. r == c.admin_role_id) user.id scope auth in
    let named =
      names-held start.role_permissions c names (role_ids_for_user user.id scope auth)
        (load-eq_ok start c h)
      ∙ held_roles (row_granted start.role_permissions permission) user.id scope auth in
    let both =
      exists_row-and_or (λ (a : UserRoleRow). a.user_id == user.id && in_scope scope a)
        (λ (a : UserRoleRow). a.role_id == c.admin_role_id)
        (λ (a : UserRoleRow). row_granted start.role_permissions permission a.role_id)
        auth.user_roles in
    verdict _ _ _ _ (both ∙ rw (← admin, ← named) refl)
