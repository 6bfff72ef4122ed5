-- ===== src/Rbac/Permission.antt =====
-- backend/src/services/rbac.rs: the permissions, the names that satisfy each, and the scopes.
use ymatch.Common.{ℕ, String, List, [], ◌∷◌}

pub data Permission : Type 0 where
  user_read user_ban user_unban : Permission
  user_role_manage event_create event_edit_any : Permission
  event_delete_any merch_delete_any merch_create_any : Permission
  merch_edit_any group_edit_any group_delete : Permission
  match_delete event_creator_transfer group_creator_transfer : Permission
  event_member_manage_any system_kill_switch event_edit : Permission
  event_delete event_member_manage merch_delete : Permission
  merch_create merch_edit group_edit : Permission
  group_member_manage : Permission

-- `Permission::as_str`
unfoldable pub as_str : Permission → String
as_str user_read = "user.read"
as_str user_ban = "user.ban"
as_str user_unban = "user.unban"
as_str user_role_manage = "user.role.manage"
as_str event_create = "event.create"
as_str event_edit_any = "event.edit.any"
as_str event_delete_any = "event.delete.any"
as_str merch_delete_any = "merch.delete.any"
as_str merch_create_any = "merch.create.any"
as_str merch_edit_any = "merch.edit.any"
as_str group_edit_any = "group.edit.any"
as_str group_delete = "group.delete"
as_str match_delete = "match.delete"
as_str event_creator_transfer = "event.creator.transfer"
as_str group_creator_transfer = "group.creator.transfer"
as_str event_member_manage_any = "event.member.manage.any"
as_str system_kill_switch = "system.kill_switch"
as_str event_edit = "event.edit"
as_str event_delete = "event.delete"
as_str event_member_manage = "event.member.manage"
as_str merch_delete = "merch.delete"
as_str merch_create = "merch.create"
as_str merch_edit = "merch.edit"
as_str group_edit = "group.edit"
as_str group_member_manage = "group.member.manage"

-- `Permission::satisfying_names`: the permission's own name, then its `.any` override.
unfoldable pub satisfying_names : Permission → List String
satisfying_names event_edit = "event.edit" ∷ "event.edit.any" ∷ []
satisfying_names event_delete = "event.delete" ∷ "event.delete.any" ∷ []
satisfying_names merch_delete = "merch.delete" ∷ "merch.delete.any" ∷ []
satisfying_names merch_create = "merch.create" ∷ "merch.create.any" ∷ []
satisfying_names merch_edit = "merch.edit" ∷ "merch.edit.any" ∷ []
satisfying_names group_edit = "group.edit" ∷ "group.edit.any" ∷ []
satisfying_names user_read = "user.read" ∷ []
satisfying_names user_ban = "user.ban" ∷ []
satisfying_names user_unban = "user.unban" ∷ []
satisfying_names user_role_manage = "user.role.manage" ∷ []
satisfying_names event_create = "event.create" ∷ []
satisfying_names event_edit_any = "event.edit.any" ∷ []
satisfying_names event_delete_any = "event.delete.any" ∷ []
satisfying_names merch_delete_any = "merch.delete.any" ∷ []
satisfying_names merch_create_any = "merch.create.any" ∷ []
satisfying_names merch_edit_any = "merch.edit.any" ∷ []
satisfying_names group_edit_any = "group.edit.any" ∷ []
satisfying_names group_delete = "group.delete" ∷ []
satisfying_names match_delete = "match.delete" ∷ []
satisfying_names event_creator_transfer = "event.creator.transfer" ∷ []
satisfying_names group_creator_transfer = "group.creator.transfer" ∷ []
satisfying_names event_member_manage_any = "event.member.manage.any" ∷ []
satisfying_names system_kill_switch = "system.kill_switch" ∷ []
satisfying_names event_member_manage = "event.member.manage" ∷ []
satisfying_names group_member_manage = "group.member.manage" ∷ []

pub data Scope : Type 0 where
  global : Scope
  event group : ℕ → Scope
