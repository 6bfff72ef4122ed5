-- ===== src/Api/Events.antt =====
-- backend/src/handlers/events.rs: the handlers that need authority. Views, favorites and the list of
-- events stand in Favorites.
use ymatch.Common.{
  str_eq, ℕ, String, Bool, true, false, not, ◌||◌, Option, none, some, List, if◌then◌else◌, update,
}
use ymatch.Error.{Result, ok, err, AppError, ◌>>=◌, ◌>>◌}
use ymatch.Rbac.{Authority, EventRow}
use ymatch.Rbac.Permission.{
  Scope, event_create, event_edit, event_member_manage, merch_create, group_edit,
}
use ymatch.Rbac.Catalog.{PermissionCatalog}
use ymatch.Rbac.Service.{verify_active, check, is_at}
use ymatch.Rbac.Transfer.{TransferCaller, transfer_event_creator, has_event_id}
use ymatch.Rbac.Users.{get_by_id}
use ymatch.Rbac.Members.{
  assign_event_editor, revoke_event_editor, list_event_members, event_role_name, global_role_name,
  Member,
}
use ymatch.Api.{
  get_creator, found_or, require_event_member_manage, require_active_query_user,
  require_active_target_user,
}

-- UPDATE events SET … WHERE id = $1
abbrev pub change_event : ℕ → (EventRow → EventRow) → Authority → Authority
change_event event_id change auth = record auth {
  events = update (has_event_id event_id) change auth.events;
}

abbrev pub is_passed : Result (Unit {0}) → Bool
is_passed (ok _) = true
is_passed (err _) = false

-- `matches!(…, Some(ref g) if g == "admin" || g == "moderator")`
abbrev pub is_override : Option String → Bool
is_override none = false
is_override (some g) = str_eq g "admin" || str_eq g "moderator"

abbrev pub or_none_text : Option String → String
or_none_text none = "none"
or_none_text (some s) = s

-- `MyEventRoleResponse`
pub record MyEventRole : Type 0 where
  pub role : String
  pub global_override : Bool
  pub can_create_merch : Bool
  pub can_edit_group : Bool
  pub can_manage_editors : Bool
  pub can_transfer_creator : Bool

-- `payload.name.ok_or_else(…)`
abbrev pub required_name : Option String → Result String
required_name none = err (AppError.bad_request "name is required")
required_name (some s) = ok s

module _ (cell : Option PermissionCatalog) where
  unfoldable pub create_event :
      String → ℕ → Option String → Authority → Result (EventRow × Authority)
  create_event name creator_id status auth = do
    user ← verify_active creator_id auth
    check cell auth user Scope.global event_create
    ymatch.Rbac.Creation.create_event name creator_id status auth

  -- The gate that `update_event` and `publish_event` share.
  unfoldable pub require_event_edit : ℕ → ℕ → Authority → Result (Unit {0})
  require_event_edit user_id event_id auth = do
    user ← verify_active user_id auth
    creator ← found_or (get_creator event_id auth) "Event not found"
    check cell auth user (Scope.event event_id) event_edit

  unfoldable pub update_event : ℕ → ℕ → Option String → Authority → Result Authority
  unfolding require_event_edit
  update_event event_id user_id name auth = do
    require_event_edit user_id event_id auth
    new_name ← required_name name
    ok (change_event event_id (λ e. record e { name = new_name }) auth)

  unfoldable pub publish_event : ℕ → ℕ → Authority → Result Authority
  unfolding require_event_edit
  publish_event event_id user_id auth = do
    require_event_edit user_id event_id auth
    ok (change_event event_id (λ e. record e { status = "published" }) auth)

  unfoldable pub assign_event_member : ℕ → ℕ → Option ℕ → Authority → Result Authority
  assign_event_member event_id target_id query_user_id auth = do
    user ← require_event_member_manage cell query_user_id event_id auth
    target ← found_or (get_by_id target_id auth) "Target user not found"
    assign_event_editor target_id event_id auth

  unfoldable pub revoke_event_member : ℕ → ℕ → Option ℕ → Authority → Result Authority
  revoke_event_member event_id target_id query_user_id auth = do
    user ← require_event_member_manage cell query_user_id event_id auth
    revoke_event_editor target_id event_id auth

  unfoldable pub list_members :
      (String → String → Bool) → ℕ → Option ℕ → Authority → Result (List Member)
  list_members le_text event_id query_user_id auth = do
    user ← require_event_member_manage cell query_user_id event_id auth
    ok (list_event_members le_text event_id auth)

  unfoldable pub get_my_event_role : ℕ → Option ℕ → Authority → Result MyEventRole
  get_my_event_role event_id query_user_id auth = do
    user ← require_active_query_user query_user_id auth
    previous_creator ← found_or (get_creator event_id auth) "Event not found"
    ok (record {
      role = or_none_text (event_role_name user.id event_id auth);
      global_override = is_override (global_role_name user.id auth);
      can_create_merch = is_passed (check cell auth user (Scope.event event_id) merch_create);
      can_edit_group = is_passed (check cell auth user (Scope.event event_id) group_edit);
      can_manage_editors =
          is_passed (check cell auth user (Scope.event event_id) event_member_manage);
      can_transfer_creator = is_at previous_creator user.id;
    })

-- The checks on the creator that both self-service transfers make before the lock.
abbrev pub may_hand_over : Option ℕ → ℕ → ℕ → String → String → Result (Unit {0})
may_hand_over previous user_id new_creator_id not_owner already =
    if not (is_at previous user_id)
    then err (AppError.forbidden not_owner)
    else if is_at previous new_creator_id
    then err (AppError.bad_request already)
    else ok tt

unfoldable pub self_transfer_event_creator : ℕ → Option ℕ → ℕ → Authority → Result Authority
self_transfer_event_creator event_id query_user_id new_creator_id auth = do
  user ← require_active_query_user query_user_id auth
  previous ← found_or (get_creator event_id auth) "Event not found"
  may_hand_over previous user.id new_creator_id "Only the event creator can transfer ownership"
      "User is already the event creator"
  require_active_target_user new_creator_id auth
  transfer_event_creator event_id new_creator_id (TransferCaller.self_service user.id) auth
