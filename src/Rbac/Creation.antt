-- ===== src/Rbac/Creation.antt =====
-- backend/src/services/event.rs and group.rs: creation, with the inserts of repositories/event.rs and
-- group.rs. `trim` is Rust's, a parameter.
use ymatch.Common.{
  str_eq, ℕ, suc, String, Bool, Option, none, some, [], ◌∷◌, ◌++◌, if◌then◌else◌, fetch, exists_row,
  update,
}
use ymatch.Error.{Result, ok, err, AppError, constraint_violation, ◌>>=◌, ◌>>◌}
use ymatch.Rbac.{Authority, ScopeType, EventRow, GroupRow}
use ymatch.Rbac.Transfer.{assign_creator, known_user, has_event_id, has_group_name}

abbrev pub or_published : Option String → String
or_published none = "published"
or_published (some s) = s

-- `EventRepository::create`: the id is the sequence's; creator_id references users.
unfoldable pub insert_event : String → ℕ → Option String → Authority → Result (EventRow × Authority)
insert_event name creator_id status auth =
    let event : EventRow = record {
      id = auth.next_event_id;
      name = name;
      creator_id = some creator_id;
      status = or_published status;
    } in
    if known_user creator_id auth
    then ok (
      event,
      record auth { events = auth.events ++ event ∷ []; next_event_id = suc auth.next_event_id },
    )
    else err constraint_violation

-- `EventService::create`
unfoldable pub create_event : String → ℕ → Option String → Authority → Result (EventRow × Authority)
unfolding insert_event assign_creator
create_event name creator_id status auth = do
  inserted ← insert_event name creator_id status auth
  assigned ← assign_creator ScopeType.event creator_id inserted.0.id inserted.1
  ok (inserted.0, assigned)

abbrev pub has_event : ℕ → Authority → Bool
has_event event_id auth = exists_row (has_event_id event_id) auth.events

-- The proto message `CreateGroupRequest`.
pub record CreateGroupRequest : Type 0 where
  pub event_id : ℕ
  pub user_id : ℕ
  pub group_name : String
  pub description : Option String
  pub photo_url : Option String

-- `unwrap_or_default`
abbrev pub or_empty : Option String → String
or_empty none = ""
or_empty (some s) = s

-- An empty text becomes NULL.
abbrev pub nonempty : String → Option String
nonempty s = if str_eq s "" then none else some s

-- `as_deref().map(str::trim).filter(|s| !s.is_empty())`
abbrev pub trimmed : (String → String) → Option String → Option String
trimmed trim none = none
trimmed trim (some s) = nonempty (trim s)

-- INSERT … ON CONFLICT (event_id, group_name) DO UPDATE: of the row that is there only the description
-- changes.
unfoldable pub upsert_group :
    (String → String) → CreateGroupRequest → String → Authority → Result (GroupRow × Authority)
upsert_group trim req group_name auth =
    let group : GroupRow = record {
      id = auth.next_group_id;
      event_id = req.event_id;
      group_name = group_name;
      created_by = some req.user_id;
      description = or_empty req.description;
      photo_url = trimmed trim req.photo_url;
      display_name = none;
    } in
    elim (fetch (has_group_name req.event_id group_name) auth.groups) [
      | some row ↦ ok (
        record row { description = or_empty req.description },
        record auth {
          groups =
              update (has_group_name req.event_id group_name)
                (λ g. record g { description = or_empty req.description }) auth.groups;
        },
      )
      | none ↦
          if known_user req.user_id auth
          then ok (
            group,
            record auth {
              groups = auth.groups ++ group ∷ [];
              next_group_id = suc auth.next_group_id;
            },
          )
          else err constraint_violation
    ]

-- `MerchandiseGroupRepository::create_in_tx`
unfoldable pub create_group_in_tx :
    (String → String) → CreateGroupRequest → Authority → Result (GroupRow × Authority)
unfolding upsert_group
create_group_in_tx trim req auth = do
  if str_eq (trim req.group_name) ""
      then err (AppError.bad_request "group_name is required")
      else ok tt
  if has_event req.event_id auth then ok tt else err (AppError.not_found "Event not found")
  upsert_group trim req (trim req.group_name) auth

abbrev assign_owner : GroupRow → Option ℕ → Authority → Result (GroupRow × Authority)
assign_owner group none auth = ok (group, auth)
assign_owner group (some creator_id) auth = do
  assigned ← assign_creator ScopeType.group creator_id group.id auth
  ok (group, assigned)

-- `GroupService::create`
unfoldable pub create_group :
    (String → String) → CreateGroupRequest → Authority → Result (GroupRow × Authority)
unfolding create_group_in_tx
create_group trim req auth = do
  created ← create_group_in_tx trim req auth
  assign_owner created.0 created.0.created_by created.1
