-- ===== src/Api/Staff.antt =====
-- backend/src/handlers/admin.rs: the deletions and lists, and `list_all_matches` of handlers/matches.rs.
use ymatch.Common.{ℕ, String, Bool, Option, List, if◌then◌else◌}
use ymatch.Error.{Result, ok, err, AppError, ◌>>=◌}
use ymatch.Store.{MatchRow}
use ymatch.Rbac.{Authority, GroupRow}
use ymatch.Rbac.Permission.{match_delete, group_delete}
use ymatch.Rbac.Catalog.{PermissionCatalog}
use ymatch.Catalog.{Site}
use ymatch.Groups.{
  World, delete_match, remove_for_admin, list_all_for_admin, AdminGroup, UpdateGroupRequest,
  update_group,
}
use ymatch.Cards.{list_all_matches_of}
use ymatch.Api.{found_or, require_global}
use ymatch.Api.Merch.{on_db, only_site}
use ymatch.Api.Groups.{require_group_edit}

module _ (cell : Option PermissionCatalog) where
  unfoldable pub admin_delete_match : ℕ → Option ℕ → Site → Result Site
  unfolding delete_match
  admin_delete_match id query_user_id site = do
    user ← require_global cell query_user_id match_delete site.auth
    only_site (on_db (delete_match id site.db) site)

  unfoldable pub list_all_matches : Option ℕ → Site → Result (List MatchRow)
  unfolding list_all_matches_of
  list_all_matches query_user_id site = do
    user ← require_global cell query_user_id match_delete site.auth
    ok (list_all_matches_of site.db)

  unfoldable pub list_groups : (String → String → Bool) → Option ℕ → Site → Result (List AdminGroup)
  list_groups le_text query_user_id site = do
    user ← require_global cell query_user_id group_delete site.auth
    ok (list_all_for_admin le_text site)

  unfoldable pub delete_group : ℕ → String → Option ℕ → World → Result World
  delete_group event_id group_name query_user_id world = do
    user ← require_global cell query_user_id group_delete world.site.auth
    if (remove_for_admin event_id group_name world).0
        then ok (remove_for_admin event_id group_name world).1
        else err (AppError.not_found "Group not found")

  -- `update_event_group` of handlers/groups.rs
  unfoldable pub update_event_group :
      (String → String)
      → ℕ
      → String
      → UpdateGroupRequest
      → Authority
      → Result (GroupRow × Authority)
  unfolding require_group_edit update_group
  update_event_group trim event_id group_name payload auth = do
    group ←
        require_group_edit cell event_id group_name payload.event_id payload.group_name
          payload.user_id auth
    updated ← update_group trim payload auth
    edited ← found_or updated.0 "Group disappeared mid-update"
    ok (edited, updated.1)
