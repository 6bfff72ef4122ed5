-- ===== src/Api/Groups.antt =====
-- backend/src/handlers/groups.rs: the handlers that need authority, but for the update of a group,
-- whose gate alone is here and which stands in Api.Staff.
use ymatch.Common.{
  str_eq, ℕ, String, Bool, ◌||◌, Option, none, some, List, [], ◌∷◌, ◌==◌, if◌then◌else◌,
}
use ymatch.Error.{Result, ok, err, AppError, ◌>>=◌, ◌>>◌}
use ymatch.Rbac.{Authority, GroupRow}
use ymatch.Rbac.Permission.{Scope, merch_create, group_edit, group_member_manage}
use ymatch.Rbac.Catalog.{PermissionCatalog}
use ymatch.Rbac.Service.{verify_active, check, is_at, require_owner_or}
use ymatch.Rbac.Transfer.{TransferCaller, transfer_group_creator}
use ymatch.Rbac.Creation.{create_group, CreateGroupRequest}
use ymatch.Rbac.Users.{get_by_id}
use ymatch.Rbac.Members.{
  assign_group_editor, revoke_group_editor, list_group_members, group_role_name, global_role_name,
  Member,
}
use ymatch.Api.{
  get_creator, get_group, found_or, require_group_member_manage, require_active_query_user,
  require_active_target_user,
}
use ymatch.Api.Events.{is_passed, is_override, or_none_text, may_hand_over}

-- `MyGroupRoleResponse`
pub record MyGroupRole : Type 0 where
  pub role : String
  pub global_override : Bool
  pub can_edit_group : Bool
  pub can_manage_editors : Bool
  pub can_transfer_creator : Bool

module _ (cell : Option PermissionCatalog) where
  unfoldable pub create_event_group :
      (String → String) → ℕ → CreateGroupRequest → Authority → Result (GroupRow × Authority)
  create_event_group trim event_id payload auth = do
    if payload.event_id == event_id
        then ok tt
        else err (AppError.bad_request "event_id in path and body must match")
    user ← verify_active payload.user_id auth
    creator ← found_or (get_creator event_id auth) "Event not found"
    check cell auth user (Scope.event event_id) merch_create
    create_group trim (record payload { user_id = user.id }) auth

  -- The gate of `update_event_group`, which returns the group to update.
  unfoldable pub require_group_edit : ℕ → String → ℕ → String → ℕ → Authority → Result GroupRow
  require_group_edit event_id group_name body_event_id body_group_name user_id auth = do
    if body_event_id == event_id
        then ok tt
        else err (AppError.bad_request "event_id in path and body must match")
    if str_eq body_group_name group_name
        then ok tt
        else err (AppError.bad_request "group_name in path and body must match")
    user ← verify_active user_id auth
    group ←
        found_or (get_group event_id group_name auth)
          "Group not found. Create it first via POST /groups"
    require_owner_or cell auth user group.created_by group_edit
        (Scope.event event_id ∷ Scope.group group.id ∷ [])
    ok group

  unfoldable pub assign_group_member : ℕ → String → ℕ → Option ℕ → Authority → Result Authority
  assign_group_member event_id group_name target_id query_user_id auth = do
    group ← require_group_member_manage cell query_user_id event_id group_name auth
    target ← found_or (get_by_id target_id auth) "Target user not found"
    assign_group_editor target_id group.id auth

  unfoldable pub revoke_group_member : ℕ → String → ℕ → Option ℕ → Authority → Result Authority
  revoke_group_member event_id group_name target_id query_user_id auth = do
    group ← require_group_member_manage cell query_user_id event_id group_name auth
    revoke_group_editor target_id group.id auth

  unfoldable pub list_members :
      (String → String → Bool) → ℕ → String → Option ℕ → Authority → Result (List Member)
  list_members le_text event_id group_name query_user_id auth = do
    group ← require_group_member_manage cell query_user_id event_id group_name auth
    ok (list_group_members le_text group.id auth)

  unfoldable pub get_my_group_role : ℕ → String → Option ℕ → Authority → Result MyGroupRole
  get_my_group_role event_id group_name query_user_id auth = do
    user ← require_active_query_user query_user_id auth
    group ← found_or (get_group event_id group_name auth) "Group not found"
    ok (record {
      role = or_none_text (group_role_name user.id group.id auth);
      global_override = is_override (global_role_name user.id auth);
      can_edit_group =
          is_at group.created_by user.id
          || is_passed (check cell auth user (Scope.event event_id) group_edit)
          || is_passed (check cell auth user (Scope.group group.id) group_edit);
      can_manage_editors =
          is_passed (check cell auth user (Scope.group group.id) group_member_manage);
      can_transfer_creator = is_at group.created_by user.id;
    })

-- `MerchandiseGroupRepository::get_creator`
abbrev pub get_group_creator : ℕ → String → Authority → Option (Option ℕ)
get_group_creator event_id group_name auth = elim (get_group event_id group_name auth) [
  | none ↦ none
  | some g ↦ some g.created_by
]

unfoldable pub self_transfer_group_creator :
    ℕ → String → Option ℕ → ℕ → Authority → Result Authority
self_transfer_group_creator event_id group_name query_user_id new_creator_id auth = do
  user ← require_active_query_user query_user_id auth
  previous ← found_or (get_group_creator event_id group_name auth) "Group not found"
  may_hand_over previous user.id new_creator_id "Only the group creator can transfer ownership"
      "User is already the group creator"
  require_active_target_user new_creator_id auth
  transfer_group_creator event_id group_name new_creator_id (TransferCaller.self_service user.id)
      auth
