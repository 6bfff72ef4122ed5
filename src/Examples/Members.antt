-- ===== src/Examples/Members.antt =====
-- The theorems on editors at a small state.
use ymatch.Common.{
  str_eq, ℕ, ◌≡◌, refl, some, List, [], ◌∷◌, ◌++◌, arith, if◌then◌else◌, select, fetch, exists_row,
}
use ymatch.Error.{ok}
use ymatch.Rbac.{Authority, ScopeType}
use ymatch.Rbac.Transfer.{known_user, assign_role}
use ymatch.Rbac.Holders.{holds}
use ymatch.Rbac.Members.{
  role_id_named, assign_editor, revoke_editor, role_name, role_names, list_members, first_name,
  join_members, sort_members, insert_member,
}
use ymatch.Rbac.Members.Editing.{Edit, assign, revoke, edits, replay, edits-replay}
use ymatch.Rbac.Members.Undo.{revoke_editor-assign_editor}
use ymatch.Rbac.Members.Names.{role_name-rank, has_role, rows_of}
use ymatch.Examples.Roles.{auth}

abbrev with_editors : Authority
with_editors = record auth {
  roles = auth.roles ++ record { id = 5; scope_type = ScopeType.event; name = "editor" } ∷ [];
}

abbrev requests : List Edit
requests = assign 2 5 ∷ assign 9 5 ∷ assign 3 5 ∷ revoke 2 5 ∷ []

edits-replay_example :
    ((scope_id user_id : ℕ)
      → holds ScopeType.event 5 scope_id user_id
          (edits ScopeType.event requests with_editors).user_roles
        ≡ replay
            (λ u. known_user u with_editors)
            requests
            (λ s u. holds ScopeType.event 5 s u with_editors.user_roles)
            scope_id
            user_id)
    × ((scope_id user_id : ℕ)
        → holds ScopeType.event 4 scope_id user_id
            (edits ScopeType.event requests with_editors).user_roles
          ≡ holds ScopeType.event 4 scope_id user_id with_editors.user_roles)
unfolding role_id_named fetch
edits-replay_example =
    edits-replay ScopeType.event 5 4 requests with_editors refl
      (λ e. absurd (omega arith), (λ e. absurd (omega arith), tt)) refl

abbrev one_editor : Authority
one_editor = edits ScopeType.event (assign 3 5 ∷ []) with_editors

revoke_editor-assign_editor_example : revoke_editor ScopeType.event 3 5 one_editor ≡ ok with_editors
unfolding role_id_named fetch assign_editor assign_role exists_row
revoke_editor-assign_editor_example =
    revoke_editor-assign_editor ScopeType.event 3 5 5 with_editors one_editor refl refl refl

role_name-rank_example : role_name ScopeType.event 1 5 with_editors ≡ (
    if exists_row (has_role with_editors ScopeType.event 1 5 "creator") with_editors.user_roles
    then some "creator"
    else if exists_row (has_role with_editors ScopeType.event 1 5 "editor") with_editors.user_roles
    then some "editor"
    else first_name (role_names with_editors (rows_of ScopeType.event 1 5 with_editors)))
role_name-rank_example = role_name-rank ScopeType.event 1 5 with_editors

listed :
    list_members (λ a b. str_eq a "creator") ScopeType.event 5 one_editor
    ≡ record { user_id = 1; role = "creator"; username = "u" }
      ∷ record { user_id = 3; role = "editor"; username = "u" }
      ∷ []
unfolding list_members sort_members insert_member join_members select fetch exists_row assign_editor
    role_id_named assign_role
listed = refl
