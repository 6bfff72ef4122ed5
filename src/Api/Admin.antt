-- ===== src/Api/Admin.antt =====
-- backend/src/handlers/admin.rs: the handlers that change who may do what. The text that parses as the
-- end of a ban is a parameter (chrono's RFC 3339); the other deletions and the lists stand in Api.Staff.
use ymatch.Common.{
  ◌==◌, ◌⊎◌, inl, inr, str_eq, ℕ, String, Bool, true, false, Option, none, some, List, [], ◌∷◌,
  if◌then◌else◌, exists_row, delete,
}
use ymatch.Error.{Result, ok, err, constraint_violation, AppError, ◌>>=◌, ◌>>◌}
use ymatch.Rbac.{Authority, GroupRow}
use ymatch.Rbac.Permission.{
  Scope, user_ban, user_unban, user_role_manage, event_delete, event_creator_transfer,
  group_creator_transfer, event_member_manage_any,
}
use ymatch.Rbac.Catalog.{PermissionCatalog}
use ymatch.Rbac.Service.{verify, require_not_banned, check, is_at}
use ymatch.Rbac.Transfer.{
  TransferCaller, transfer_event_creator, transfer_group_creator, has_event_id,
}
use ymatch.Rbac.Users.{get_by_id, set_ban, set_role}
use ymatch.Rbac.Members.{assign_event_editor, revoke_event_editor, list_event_members, Member}
use ymatch.Api.{get_creator, found_or, require_global, require_active_target_user}
use ymatch.Api.Groups.{get_group_creator}

-- `parse_from_rfc3339` gives a time or the text of its error.
abbrev invalid_until : String ⊎ ℕ → Result (Option ℕ)
invalid_until (inl text) =
    err (AppError.bad_request (Prim.Native.String.◌++◌ "invalid banned_until: " text))
invalid_until (inr until) = ok (some until)

abbrev pub parsed_until : (String → String ⊎ ℕ) → Option String → Result (Option ℕ)
parsed_until parse none = ok none
parsed_until parse (some s) = invalid_until (parse s)

-- `.ok_or_else(|| AppError::not_found("Target user not found"))`
abbrev pub or_no_target : Option (Unit {0}) × Authority → Result Authority
or_no_target (none, auth) = err (AppError.not_found "Target user not found")
or_no_target (some _, auth) = ok auth

abbrev pub valid_role : String → Result (Unit {0})
valid_role role =
    if exists_row (str_eq role) ("user" ∷ "editor" ∷ "moderator" ∷ "admin" ∷ [])
    then ok tt
    else err (AppError.bad_request "Invalid role. Must be one of: user, editor, moderator, admin")

-- A foreign key of the items.
abbrev pub unreferenced : Bool → Result (Unit {0})
unreferenced has_merch = if has_merch then err constraint_violation else ok tt

abbrev pub not_already : Option ℕ → ℕ → String → Result (Unit {0})
not_already previous new_creator_id text =
    if is_at previous new_creator_id then err (AppError.bad_request text) else ok tt

module _ (cell : Option PermissionCatalog) where
  unfoldable pub ban_user :
      (String → String ⊎ ℕ) → ℕ → Option ℕ → Option String → Authority → Result Authority
  ban_user parse target_id query_user_id until_text auth = do
    user ← require_global cell query_user_id user_ban auth
    banned_until ← parsed_until parse until_text
    or_no_target (set_ban target_id true banned_until auth)

  unfoldable pub unban_user : ℕ → Option ℕ → Authority → Result Authority
  unban_user target_id query_user_id auth = do
    user ← require_global cell query_user_id user_unban auth
    or_no_target (set_ban target_id false none auth)

  unfoldable pub update_user_role : ℕ → Option ℕ → String → Authority → Result Authority
  update_user_role target_id query_user_id role auth = do
    user ← require_global cell query_user_id user_role_manage auth
    valid_role role
    changed ← set_role target_id role auth
    or_no_target changed

  -- `has_merch` says whether an item refers to the event, which Postgres refuses (23503); the groups of
  -- the event go with it, the roles in its scope stay.
  unfoldable pub delete_event : Bool → ℕ → Option ℕ → Authority → Result Authority
  delete_event has_merch event_id none auth =
      err (AppError.bad_request "user_id query parameter required")
  delete_event has_merch event_id (some user_id) auth = do
    user ← verify user_id auth
    require_not_banned user
    creator ← found_or (get_creator event_id auth) "Event not found"
    check cell auth user (Scope.event event_id) event_delete
    unreferenced has_merch
    ok (record auth {
      events = delete (has_event_id event_id) auth.events;
      groups = delete (λ (g : GroupRow). g.event_id == event_id) auth.groups;
    })

  unfoldable pub admin_transfer_event_creator : ℕ → Option ℕ → ℕ → Authority → Result Authority
  admin_transfer_event_creator event_id query_user_id new_creator_id auth = do
    user ← require_global cell query_user_id event_creator_transfer auth
    previous ← found_or (get_creator event_id auth) "Event not found"
    not_already previous new_creator_id "User is already the event creator"
    require_active_target_user new_creator_id auth
    transfer_event_creator event_id new_creator_id TransferCaller.admin auth

  unfoldable pub admin_transfer_group_creator :
      ℕ → String → Option ℕ → ℕ → Authority → Result Authority
  admin_transfer_group_creator event_id group_name query_user_id new_creator_id auth = do
    user ← require_global cell query_user_id group_creator_transfer auth
    current ← found_or (get_group_creator event_id group_name auth) "Group not found"
    not_already current new_creator_id "User is already the group creator"
    require_active_target_user new_creator_id auth
    transfer_group_creator event_id group_name new_creator_id TransferCaller.admin auth

  -- The gate of the three member endpoints.
  unfoldable pub require_event_admin : ℕ → Option ℕ → Authority → Result (Unit {0})
  require_event_admin event_id query_user_id auth = do
    user ← require_global cell query_user_id event_member_manage_any auth
    creator ← found_or (get_creator event_id auth) "Event not found"
    ok tt

  unfoldable pub admin_list_event_members :
      (String → String → Bool) → ℕ → Option ℕ → Authority → Result (List Member)
  unfolding require_event_admin
  admin_list_event_members le_text event_id query_user_id auth = do
    require_event_admin event_id query_user_id auth
    ok (list_event_members le_text event_id auth)

  unfoldable pub admin_assign_event_member : ℕ → ℕ → Option ℕ → Authority → Result Authority
  unfolding require_event_admin
  admin_assign_event_member event_id target_id query_user_id auth = do
    require_event_admin event_id query_user_id auth
    target ← found_or (get_by_id target_id auth) "Target user not found"
    assign_event_editor target_id event_id auth

  unfoldable pub admin_revoke_event_member : ℕ → ℕ → Option ℕ → Authority → Result Authority
  unfolding require_event_admin
  admin_revoke_event_member event_id target_id query_user_id auth = do
    require_event_admin event_id query_user_id auth
    revoke_event_editor target_id event_id auth
