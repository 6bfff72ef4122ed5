-- ===== src/Rbac/Members.antt =====
-- backend/src/repositories/rbac.rs: the editors of events and groups. The methods of the two scopes run
-- the same SQL on another `scope_type`, which is an argument here. `le_text` is the order that the
-- database's collation gives to texts.
pub mod Editing
pub mod Undo
pub mod Names
use ymatch.Common.{
  str_eq, leb, ℕ, String, Bool, ◌&&◌, Option, none, some, List, [], ◌∷◌, ◌++◌, ◌==◌, if◌then◌else◌,
  select, fetch, delete,
}
use ymatch.Error.{Result, ok, err, from_sqlx, row_not_found, ◌>>=◌}
use ymatch.Store.{UserRow}
use ymatch.Rbac.{Authority, ScopeType, RoleRow, UserRoleRow, same_type}
use ymatch.Rbac.Service.{is_at, is_null}
use ymatch.Rbac.Transfer.{assign_role, is_assignment}

-- `event_role_id` and `group_role_id`
unfoldable pub role_id_named : ScopeType → String → Authority → Result ℕ
role_id_named kind name auth =
    elim (fetch (λ (r : RoleRow). same_type r.scope_type kind && str_eq r.name name) auth.roles) [
      | none ↦ err (from_sqlx row_not_found)
      | some row ↦ ok row.id
    ]

-- `assign_event_editor` and `assign_group_editor`
unfoldable pub assign_editor : ScopeType → ℕ → ℕ → Authority → Result Authority
unfolding role_id_named
assign_editor kind user_id scope_id auth = do
  role_id ← role_id_named kind "editor" auth
  assign_role kind user_id role_id scope_id auth

-- `revoke_event_editor` and `revoke_group_editor`
unfoldable pub revoke_editor : ScopeType → ℕ → ℕ → Authority → Result Authority
unfolding role_id_named
revoke_editor kind user_id scope_id auth = do
  role_id ← role_id_named kind "editor" auth
  ok (record auth {
    user_roles = delete (is_assignment kind user_id role_id scope_id) auth.user_roles;
  })

-- The proto messages `EventMember` and `GroupMember`.
pub record Member : Type 0 where
  pub user_id : ℕ
  pub role : String
  pub username : String

abbrev pub in_scope_of : ScopeType → ℕ → UserRoleRow → Bool
in_scope_of kind scope_id row = same_type row.scope_type kind && is_at row.scope_id scope_id

abbrev member_of : Option UserRow → Option RoleRow → List Member
member_of (some u) (some r) = record { user_id = u.id; role = r.name; username = u.username } ∷ []
member_of _ _ = []

-- The joins with `users` and `roles`, by their primary keys.
unfoldable pub join_members : Authority → List UserRoleRow → List Member
join_members auth [] = []
join_members auth (row ∷ rows) =
    member_of (fetch (λ (u : UserRow). u.id == row.user_id) auth.users)
      (fetch (λ (r : RoleRow). r.id == row.role_id) auth.roles)
    ++ join_members auth rows

-- ORDER BY r.name, u.id
abbrev member_le : (String → String → Bool) → Member → Member → Bool
member_le le_text a b =
    if str_eq a.role b.role then leb a.user_id b.user_id else le_text a.role b.role

unfoldable pub insert_member : (String → String → Bool) → Member → List Member → List Member
insert_member le_text m [] = m ∷ []
insert_member le_text m (n ∷ ns) =
    if member_le le_text m n then m ∷ n ∷ ns else n ∷ insert_member le_text m ns

unfoldable pub sort_members : (String → String → Bool) → List Member → List Member
unfolding insert_member
sort_members le_text [] = []
sort_members le_text (m ∷ ms) = insert_member le_text m (sort_members le_text ms)

-- `list_event_members` and `list_group_members`
unfoldable pub list_members : (String → String → Bool) → ScopeType → ℕ → Authority → List Member
unfolding sort_members join_members
list_members le_text kind scope_id auth =
    sort_members le_text (join_members auth (select (in_scope_of kind scope_id) auth.user_roles))

abbrev name_then : Option RoleRow → List String → List String
name_then none names = names
name_then (some r) names = r.name ∷ names

-- The names of a user's roles in a scope.
unfoldable pub role_names : Authority → List UserRoleRow → List String
role_names auth [] = []
role_names auth (row ∷ rows) =
    name_then (fetch (λ (r : RoleRow). r.id == row.role_id) auth.roles) (role_names auth rows)

-- CASE r.name WHEN 'creator' THEN 0 WHEN 'editor' THEN 1 ELSE 2 END
abbrev pub rank : String → ℕ
rank name = if str_eq name "creator" then 0 else if str_eq name "editor" then 1 else 2

abbrev pub better : String → Option String → String
better name none = name
better name (some other) = if leb (rank name) (rank other) then name else other

-- ORDER BY the rank LIMIT 1. Of names with one rank the first row's is taken.
unfoldable pub best : List String → Option String
best [] = none
best (name ∷ names) = some (better name (best names))

-- `event_role_name` and `group_role_name`
unfoldable pub role_name : ScopeType → ℕ → ℕ → Authority → Option String
unfolding role_names best
role_name kind user_id scope_id auth = best (
    role_names auth
      (select (λ row. row.user_id == user_id && in_scope_of kind scope_id row) auth.user_roles))

abbrev pub first_name : List String → Option String
first_name [] = none
first_name (name ∷ names) = some name

-- `global_role_name`: LIMIT 1 without an order.
unfoldable pub global_role_name : ℕ → Authority → Option String
unfolding role_names
global_role_name user_id auth = first_name (
    role_names auth (
      select
        (λ row.
          row.user_id == user_id
          && (same_type row.scope_type ScopeType.global && is_null row.scope_id))
        auth.user_roles))

-- The methods by their names, for events and for groups.
abbrev pub assign_event_editor : ℕ → ℕ → Authority → Result Authority
assign_event_editor = assign_editor ScopeType.event

abbrev pub assign_group_editor : ℕ → ℕ → Authority → Result Authority
assign_group_editor = assign_editor ScopeType.group

abbrev pub revoke_event_editor : ℕ → ℕ → Authority → Result Authority
revoke_event_editor = revoke_editor ScopeType.event

abbrev pub revoke_group_editor : ℕ → ℕ → Authority → Result Authority
revoke_group_editor = revoke_editor ScopeType.group

abbrev pub list_event_members : (String → String → Bool) → ℕ → Authority → List Member
list_event_members le_text = list_members le_text ScopeType.event

abbrev pub list_group_members : (String → String → Bool) → ℕ → Authority → List Member
list_group_members le_text = list_members le_text ScopeType.group

abbrev pub event_role_name : ℕ → ℕ → Authority → Option String
event_role_name = role_name ScopeType.event

abbrev pub group_role_name : ℕ → ℕ → Authority → Option String
group_role_name = role_name ScopeType.group
