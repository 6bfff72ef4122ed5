-- ===== src/Api.antt =====
-- backend/src/handlers/common.rs: the gates of the handlers. `cell` is the catalog of the authorization
-- service, loaded or not yet; a handler reads the tables and returns them changed, or an error.
pub mod Events
pub mod Groups
pub mod Admin
pub mod Messages
pub mod Merch
pub mod Items
pub mod Staff
pub mod Trades
pub mod Gateway
pub mod Owners
pub mod Requests
use ymatch.Common.{
  ℕ, zero, suc, ◌+◌, ◌-◌, ◌≤◌, ◌<◌, String, ◌≡◌, refl, sym, ap, ◌∙◌, ◌≢◌, ◌↔◌, ◌⊎◌, inl, inr, Bool,
  true, false, not, ◌&&◌, ◌||◌, Option, none, some, List, [], ◌∷◌, ◌++◌, map, arith, ◌==◌,
  if◌then◌else◌, Bool-cases, Option-cases, select, fetch, exists_row, update, delete, All,
}
use ymatch.Error.{Result, ok, err, AppError, ◌>>=◌, ◌>>◌}
use ymatch.Store.{UserRow}
use ymatch.Rbac.{Authority, GroupRow}
use ymatch.Rbac.Permission.{Permission, Scope, event_member_manage, group_member_manage}
use ymatch.Rbac.Catalog.{PermissionCatalog}
use ymatch.Rbac.Service.{VerifiedUser, verify_active, check}
use ymatch.Rbac.Transfer.{lock_creator_for_update, or_error, has_group_name}
use ymatch.Rbac.Users.{get_by_id}

-- `EventRepository::get_creator`: the same SELECT as the one under the lock.
abbrev pub get_creator : ℕ → Authority → Option (Option ℕ)
get_creator = lock_creator_for_update

-- `.ok_or_else(|| AppError::not_found(…))?`
abbrev pub found_or {ℓ} : {A : Type ℓ} → Option A → String → Result A
found_or row text = or_error row (AppError.not_found text)

-- `MerchandiseGroupRepository::get`
unfoldable pub get_group : ℕ → String → Authority → Option GroupRow
get_group event_id group_name auth = fetch (has_group_name event_id group_name) auth.groups

unfoldable pub require_active_query_user : Option ℕ → Authority → Result VerifiedUser
require_active_query_user none auth = err (AppError.bad_request "user_id query parameter required")
require_active_query_user (some user_id) auth = verify_active user_id auth

module _ (cell : Option PermissionCatalog) where
  unfoldable pub require_active_permission :
      Option ℕ → Scope → Permission → Authority → Result VerifiedUser
  unfolding require_active_query_user
  require_active_permission query_user_id scope permission auth = do
    user ← require_active_query_user query_user_id auth
    check cell auth user scope permission
    ok user

  unfoldable pub require_global : Option ℕ → Permission → Authority → Result VerifiedUser
  unfolding require_active_permission
  require_global query_user_id permission auth =
      require_active_permission query_user_id Scope.global permission auth

  unfoldable pub require_event_member_manage : Option ℕ → ℕ → Authority → Result VerifiedUser
  unfolding require_active_query_user
  require_event_member_manage caller_user_id event_id auth = do
    user ← require_active_query_user caller_user_id auth
    creator ← found_or (get_creator event_id auth) "Event not found"
    check cell auth user (Scope.event event_id) event_member_manage
    ok user

  unfoldable pub require_group_member_manage : Option ℕ → ℕ → String → Authority → Result GroupRow
  unfolding require_active_query_user get_group
  require_group_member_manage caller_user_id event_id group_name auth = do
    user ← require_active_query_user caller_user_id auth
    group ← found_or (get_group event_id group_name auth) "Group not found"
    check cell auth user (Scope.group group.id) group_member_manage
    ok group

-- The target of a transfer: `target.is_banned.unwrap_or(false)` is the column, whatever its end.
unfoldable pub require_active_target_user : ℕ → Authority → Result (Unit {0})
unfolding get_by_id
require_active_target_user new_creator_id auth = do
  target ← found_or (get_by_id new_creator_id auth) "Target user not found"
  if target.is_banned then err (AppError.bad_request "Target user is banned") else ok tt
