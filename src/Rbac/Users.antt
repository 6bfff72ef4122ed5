-- ===== src/Rbac/Users.antt =====
-- backend/src/repositories/user.rs: the lookup, the ban and the global role. The credentials stand in
-- Accounts; the reason of a ban is left out.
use ymatch.Common.{
  str_eq, ℕ, String, Bool, ◌&&◌, Option, none, some, List, [], ◌∷◌, ◌++◌, ◌==◌, if◌then◌else◌,
  fetch, exists_row, update, delete,
}
use ymatch.Error.{Result, ok, err, AppError}
use ymatch.Store.{UserRow}
use ymatch.Rbac.{Authority, ScopeType, RoleRow, UserRoleRow, same_type}
use ymatch.Rbac.Service.{is_null}

abbrev pub has_user_id : ℕ → UserRow → Bool
has_user_id user_id u = u.id == user_id

-- `UserRepository::get_by_id`
unfoldable pub get_by_id : ℕ → Authority → Option UserRow
get_by_id user_id auth = fetch (has_user_id user_id) auth.users

-- `set_ban`, with None for a user that does not exist. An unban clears the end of the ban too.
unfoldable pub set_ban : ℕ → Bool → Option ℕ → Authority → Option (Unit {0}) × Authority
set_ban user_id banned banned_until auth =
    let until : Option ℕ = if banned then banned_until else none in
    if exists_row (has_user_id user_id) auth.users
    then (
      some tt,
      record auth {
        users =
            update (has_user_id user_id)
              (λ u. record u { is_banned = banned; banned_until = until }) auth.users;
      },
    )
    else (none, auth)

abbrev pub is_global_role : ℕ → UserRoleRow → Bool
is_global_role user_id row =
    row.user_id == user_id && (same_type row.scope_type ScopeType.global && is_null row.scope_id)

-- UNIQUE NULLS NOT DISTINCT (user_id, role_id, scope_id), for a scope that is global.
abbrev pub at_global : ℕ → ℕ → UserRoleRow → Bool
at_global user_id role_id row =
    row.user_id == user_id && row.role_id == role_id && is_null row.scope_id

unfoldable pub grant_global : ℕ → ℕ → List UserRoleRow → List UserRoleRow
grant_global user_id role_id rows =
    if exists_row (at_global user_id role_id) rows
    then rows
    else rows
      ++ record {
        user_id = user_id;
        role_id = role_id;
        scope_type = ScopeType.global;
        scope_id = none;
      }
        ∷ []

abbrev pub is_named_global : String → RoleRow → Bool
is_named_global name r = same_type r.scope_type ScopeType.global && str_eq r.name name

abbrev invalid_role : String → AppError
invalid_role role = AppError.bad_request (
    Prim.Native.String.◌++◌ "Invalid role: "
      (Prim.Native.String.◌++◌ role ". Must be one of: user, editor, moderator, admin"))

abbrev pub replace_global :
    ℕ → Option RoleRow → String → Authority → Result (Option (Unit {0}) × Authority)
replace_global user_id none role auth = err (invalid_role role)
replace_global user_id (some r) role auth =
    if exists_row (has_user_id user_id) auth.users
    then ok (
      some tt,
      record auth {
        user_roles = grant_global user_id r.id (delete (is_global_role user_id) auth.user_roles);
      },
    )
    else ok (none, auth)

-- `UserRepository::set_role`
unfoldable pub set_role : ℕ → String → Authority → Result (Option (Unit {0}) × Authority)
unfolding grant_global
set_role user_id role auth =
    replace_global user_id (fetch (is_named_global role) auth.roles) role auth
