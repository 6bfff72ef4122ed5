-- ===== src/Rbac/Service.antt =====
-- backend/src/services/rbac.rs with role_ids_for_user of backend/src/repositories/rbac.rs, and
-- backend/src/services/permissions.rs with get_verified of backend/src/repositories/user.rs.
use ymatch.Error.{◌>>=◌, ◌>>◌}
use ymatch.Error.{ok, err, Result, AppError}
use ymatch.Common.{
  ltb, ℕ, Bool, true, false, ◌&&◌, ◌||◌, Option, none, some, List, [], ◌∷◌, map, ◌==◌,
  if◌then◌else◌, select, fetch, exists_row,
}
use ymatch.Rbac.{UserRoleRow, Authority, same_type, ScopeType}
use ymatch.Rbac.Permission.{Permission, as_str, satisfying_names, Scope}
use ymatch.Rbac.Catalog.{PermissionCatalog, load, is_admin, permissions_for_roles, has_name}
use ymatch.Store.{UserRow}

pub record VerifiedUser : Type 0 where
  pub id : ℕ
  pub is_banned : Bool

-- `Utc::now() < until` for a temporary ban, true for a permanent one.
abbrev pub still_banned : ℕ → Option ℕ → Bool
still_banned now none = true
still_banned now (some until) = ltb now until

abbrev pub verified_of : ℕ → UserRow → VerifiedUser
verified_of now row = record {
  id = row.id;
  is_banned = if row.is_banned then still_banned now row.banned_until else false;
}

-- `UserRepository::get_verified`
unfoldable pub get_verified : ℕ → Authority → Option VerifiedUser
unfolding fetch
get_verified user_id auth = elim (fetch (λ (u : UserRow). u.id == user_id) auth.users) [
  | none ↦ none
  | some row ↦ some (verified_of auth.now row)
]

unfoldable pub verify : ℕ → Authority → Result VerifiedUser
unfolding get_verified
verify user_id auth = elim (get_verified user_id auth) [
  | none ↦ err (AppError.not_found "User not found")
  | some user ↦ ok user
]

unfoldable pub require_not_banned : VerifiedUser → Result (Unit {0})
require_not_banned user =
    if user.is_banned then err (AppError.forbidden "User is banned") else ok tt

unfoldable pub verify_active : ℕ → Authority → Result VerifiedUser
unfolding verify require_not_banned
verify_active user_id auth = do user ← verify user_id auth; require_not_banned user; ok user

-- The WHERE clause of `role_ids_for_user`, by the scope.
abbrev pub is_at : Option ℕ → ℕ → Bool
is_at none n = false
is_at (some m) n = m == n

abbrev pub is_null : Option ℕ → Bool
is_null none = true
is_null (some m) = false

abbrev is_global : UserRoleRow → Bool
is_global row = same_type row.scope_type ScopeType.global && is_null row.scope_id

abbrev pub in_scope : Scope → UserRoleRow → Bool
in_scope Scope.global row = is_global row
in_scope (Scope.event e) row =
    is_global row || (same_type row.scope_type ScopeType.event && is_at row.scope_id e)
in_scope (Scope.group g) row =
    is_global row || (same_type row.scope_type ScopeType.group && is_at row.scope_id g)

abbrev role_of : UserRoleRow → ℕ
role_of row = row.role_id

unfoldable pub role_ids_for_user : ℕ → Scope → Authority → List ℕ
unfolding select
role_ids_for_user user_id scope auth =
    map role_of
      (select (λ (row : UserRoleRow). row.user_id == user_id && in_scope scope row) auth.user_roles)

abbrev pub missing : Permission → AppError
missing permission =
    AppError.forbidden (Prim.Native.String.◌++◌ "Missing permission: " (as_str permission))

-- `RbacService::evaluate`
unfoldable pub evaluate : List ℕ → PermissionCatalog → Permission → Result (Unit {0})
unfolding is_admin permissions_for_roles satisfying_names exists_row
evaluate role_ids catalog permission =
    if is_admin catalog role_ids
    then ok tt
    else if exists_row (has_name (permissions_for_roles catalog role_ids))
        (satisfying_names permission)
    then ok tt
    else err (missing permission)

-- `RbacService::catalog`: the snapshot of the first use, or the tables as they are.
unfoldable pub catalog : Option PermissionCatalog → Authority → Result PermissionCatalog
unfolding load
catalog (some cached) auth = ok cached
catalog none auth = load auth

-- `RbacService::check`
unfoldable pub check :
    Option PermissionCatalog → Authority → VerifiedUser → Scope → Permission → Result (Unit {0})
unfolding role_ids_for_user catalog evaluate
check cell auth user scope permission = do
  found ← catalog cell auth
  evaluate (role_ids_for_user user.id scope auth) found permission

abbrev pub or_next : Result (Unit {0}) → (AppError → Result (Unit {0})) → Result (Unit {0})
or_next (ok _) next = ok tt
or_next (err e) next = next e

-- The loop of `require_owner_or`, with the last error so far.
unfoldable pub first_success :
    Option PermissionCatalog
    → Authority
    → VerifiedUser
    → Permission
    → List Scope
    → AppError
    → Result (Unit {0})
unfolding check
first_success cell auth user permission [] last_err = err last_err
first_success cell auth user permission (scope ∷ scopes) last_err =
    or_next (check cell auth user scope permission)
      (λ e. first_success cell auth user permission scopes e)

unfoldable pub require_owner_or :
    Option PermissionCatalog
    → Authority
    → VerifiedUser
    → Option ℕ
    → Permission
    → List Scope
    → Result (Unit {0})
unfolding first_success
require_owner_or cell auth user owner_id permission scopes =
    if is_at owner_id user.id
    then ok tt
    else first_success cell auth user permission scopes (missing permission)
