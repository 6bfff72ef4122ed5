-- ===== src/Rbac/Transfer.antt =====
-- backend/src/services/event.rs and group.rs: creation of the creator's role and its transfer, with the
-- statements of backend/src/repositories/{rbac,event,group}.rs that they run. A transaction takes the
-- tables and returns them; an error rolls back.
use ymatch.Common.{
  ℕ, String, Bool, true, false, not, ◌&&◌, Option, none, some, [], ◌∷◌, ◌++◌, ◌==◌, if◌then◌else◌,
  fetch, exists_row, update, delete,
}
use ymatch.Common.{str_eq}
use ymatch.Store.{UserRow}
use ymatch.Rbac.{UserRoleRow, RoleRow, Authority, same_type, ScopeType, EventRow, GroupRow}
use ymatch.Rbac.Service.{is_at}
use ymatch.Error.{
  row_not_found, constraint_violation, err, ok, AppError, Result, from_sqlx, ◌>>=◌, ◌>>◌,
}

-- `event_creator_role_id` and `group_creator_role_id`: `fetch_one`, so a missing row is RowNotFound.
abbrev pub is_creator_role : ScopeType → RoleRow → Bool
is_creator_role kind row = same_type row.scope_type kind && str_eq row.name "creator"

unfoldable pub creator_role_id : ScopeType → Authority → Result ℕ
unfolding fetch from_sqlx
creator_role_id kind auth = elim (fetch (is_creator_role kind) auth.roles) [
  | none ↦ err (from_sqlx row_not_found)
  | some row ↦ ok row.id
]

-- UNIQUE NULLS NOT DISTINCT (user_id, role_id, scope_id), for a scope that is not global.
abbrev pub at_assignment : ℕ → ℕ → ℕ → UserRoleRow → Bool
at_assignment user_id role_id scope_id row =
    (row.user_id == user_id && row.role_id == role_id) && is_at row.scope_id scope_id

abbrev pub known_user : ℕ → Authority → Bool
known_user user_id auth = exists_row (λ (u : UserRow). u.id == user_id) auth.users

-- INSERT … ON CONFLICT (user_id, role_id, scope_id) DO NOTHING
unfoldable pub assign_role : ScopeType → ℕ → ℕ → ℕ → Authority → Result Authority
unfolding exists_row
assign_role kind user_id role_id scope_id auth =
    if exists_row (at_assignment user_id role_id scope_id) auth.user_roles
    then ok auth
    else if known_user user_id auth
    then ok (record auth {
      user_roles =
          auth.user_roles
          ++ record {
            user_id = user_id;
            role_id = role_id;
            scope_type = kind;
            scope_id = some scope_id;
          }
            ∷ [];
    })
    else err constraint_violation

-- `assign_event_creator` and `assign_group_creator`, which differ in the scope type.
unfoldable pub assign_creator : ScopeType → ℕ → ℕ → Authority → Result Authority
unfolding creator_role_id assign_role
assign_creator kind user_id scope_id auth = do
  role_id ← creator_role_id kind auth
  assign_role kind user_id role_id scope_id auth

abbrev pub is_assignment : ScopeType → ℕ → ℕ → ℕ → UserRoleRow → Bool
is_assignment kind user_id role_id scope_id row =
    at_assignment user_id role_id scope_id row && same_type row.scope_type kind

-- `revoke_event_creator` and `revoke_group_creator`
unfoldable pub revoke_creator : ScopeType → ℕ → ℕ → Authority → Result Authority
unfolding creator_role_id delete
revoke_creator kind user_id scope_id auth = do
  role_id ← creator_role_id kind auth
  ok (record auth {
    user_roles = delete (is_assignment kind user_id role_id scope_id) auth.user_roles;
  })

-- `if let Some(prev) = previous_creator_id && prev != new_creator_id`
abbrev pub revoke_previous : ScopeType → ℕ → Option ℕ → ℕ → Authority → Result Authority
revoke_previous kind scope_id none new_creator_id auth = ok auth
revoke_previous kind scope_id (some prev) new_creator_id auth =
    if prev == new_creator_id then ok auth else revoke_creator kind prev scope_id auth

-- `transfer_event_creator_role` and `transfer_group_creator_role`
unfoldable pub transfer_creator_role : ScopeType → ℕ → Option ℕ → ℕ → Authority → Result Authority
unfolding revoke_creator assign_creator
transfer_creator_role kind scope_id previous_creator_id new_creator_id auth = do
  revoked ← revoke_previous kind scope_id previous_creator_id new_creator_id auth
  assign_creator kind new_creator_id scope_id revoked

pub data TransferCaller : Type 0 where
  self_service : ℕ → TransferCaller
  admin : TransferCaller

-- The two early returns of both `transfer_creator`s, under the lock.
abbrev pub may_transfer : TransferCaller → Option ℕ → ℕ → String → String → Result (Unit {0})
may_transfer admin locked_previous new_creator_id not_owner already =
    if is_at locked_previous new_creator_id then err (AppError.bad_request already) else ok tt
may_transfer (self_service expected) locked_previous new_creator_id not_owner already =
    if not (is_at locked_previous expected)
    then err (AppError.forbidden not_owner)
    else if is_at locked_previous new_creator_id
    then err (AppError.bad_request already)
    else ok tt

abbrev pub has_event_id : ℕ → EventRow → Bool
has_event_id event_id row = row.id == event_id

abbrev pub creator_of : Option EventRow → Option (Option ℕ)
creator_of none = none
creator_of (some row) = some row.creator_id

-- `EventRepository::lock_creator_for_update`
unfoldable pub lock_creator_for_update : ℕ → Authority → Option (Option ℕ)
unfolding fetch
lock_creator_for_update event_id auth = creator_of (fetch (has_event_id event_id) auth.events)

-- `EventRepository::set_creator`: false when no row has the id; creator_id references users.
unfoldable pub set_event_creator : ℕ → ℕ → Authority → Result (Bool × Authority)
unfolding exists_row update
set_event_creator event_id new_creator_id auth =
    if exists_row (has_event_id event_id) auth.events
    then if known_user new_creator_id auth
      then ok (
        true,
        record auth {
          events =
              update (has_event_id event_id)
                (λ row. record row { creator_id = some new_creator_id }) auth.events;
        },
      )
      else err constraint_violation
    else ok (false, auth)

abbrev pub or_error {ℓ} : {A : Type ℓ} → Option A → AppError → Result A
or_error none e = err e
or_error (some a) e = ok a

-- `EventService::transfer_creator`
unfoldable pub transfer_event_creator : ℕ → ℕ → TransferCaller → Authority → Result Authority
unfolding lock_creator_for_update set_event_creator transfer_creator_role
transfer_event_creator event_id new_creator_id caller auth = do
  locked_previous ←
      or_error (lock_creator_for_update event_id auth) (AppError.not_found "Event not found")
  may_transfer caller locked_previous new_creator_id "Only the event creator can transfer ownership"
      "User is already the event creator"
  found ← set_event_creator event_id new_creator_id auth
  if found.0
      then transfer_creator_role ScopeType.event event_id locked_previous new_creator_id found.1
      else err (AppError.not_found "Event not found")

abbrev pub has_group_name : ℕ → String → GroupRow → Bool
has_group_name event_id group_name row =
    row.event_id == event_id && str_eq row.group_name group_name

abbrev lock_of : Option GroupRow → Option (ℕ × Option ℕ)
lock_of none = none
lock_of (some row) = some (row.id, row.created_by)

-- `MerchandiseGroupRepository::lock_for_update`
unfoldable pub lock_group_for_update : ℕ → String → Authority → Option (ℕ × Option ℕ)
unfolding fetch
lock_group_for_update event_id group_name auth =
    lock_of (fetch (has_group_name event_id group_name) auth.groups)

-- `MerchandiseGroupRepository::set_creator`
unfoldable pub set_group_creator : ℕ → String → ℕ → Authority → Result (Bool × Authority)
unfolding exists_row update
set_group_creator event_id group_name new_creator_id auth =
    if exists_row (has_group_name event_id group_name) auth.groups
    then if known_user new_creator_id auth
      then ok (
        true,
        record auth {
          groups =
              update (has_group_name event_id group_name)
                (λ row. record row { created_by = some new_creator_id }) auth.groups;
        },
      )
      else err constraint_violation
    else ok (false, auth)

-- `GroupService::transfer_creator`
unfoldable pub transfer_group_creator :
    ℕ → String → ℕ → TransferCaller → Authority → Result Authority
unfolding lock_group_for_update set_group_creator transfer_creator_role
transfer_group_creator event_id group_name new_creator_id caller auth = do
  locked ←
      or_error (lock_group_for_update event_id group_name auth)
        (AppError.not_found "Group not found")
  may_transfer caller locked.1 new_creator_id "Only the group creator can transfer ownership"
      "User is already the group creator"
  found ← set_group_creator event_id group_name new_creator_id auth
  if found.0
      then transfer_creator_role ScopeType.group locked.0 locked.1 new_creator_id found.1
      else err (AppError.not_found "Group not found")

-- The methods of the role repository by their names, for events and for groups.
abbrev pub assign_event_creator : ℕ → ℕ → Authority → Result Authority
assign_event_creator = assign_creator ScopeType.event

abbrev pub assign_group_creator : ℕ → ℕ → Authority → Result Authority
assign_group_creator = assign_creator ScopeType.group

abbrev pub revoke_group_creator : ℕ → ℕ → Authority → Result Authority
revoke_group_creator = revoke_creator ScopeType.group

abbrev pub transfer_group_creator_role : ℕ → Option ℕ → ℕ → Authority → Result Authority
transfer_group_creator_role = transfer_creator_role ScopeType.group
