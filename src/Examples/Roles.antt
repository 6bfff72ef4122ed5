-- ===== src/Examples/Roles.antt =====
-- The theorems of the role model at a small state.
use ymatch.Examples.{user}
use ymatch.Common.{
  ℕ, ◌≡◌, refl, ◌⊎◌, inl, inr, true, false, ◌&&◌, ◌||◌, none, some, [], ◌∷◌, arith, ◌==◌,
  if◌then◌else◌, Bool-cases, fetch, exists_row, update, delete,
}
use ymatch.Error.{forbidden, not_found, ok, err}
use ymatch.Store.{UserRow}
use ymatch.Rbac.{Authority, ScopeType}
use ymatch.Rbac.Permission.{event_edit, satisfying_names, Scope}
use ymatch.Rbac.Catalog.{insert_name, collect_permissions, PermissionCatalog, load}
use ymatch.Rbac.Service.{
  VerifiedUser, check, missing, is_at, require_owner_or, verify_active, still_banned,
}
use ymatch.Rbac.Decision.{is_allowed, check_lem}
use ymatch.Rbac.Owner.{passes, require_owner_or_lem, verify_active_lem}
use ymatch.Rbac.Transfer.{
  assign_role, assign_creator, revoke_creator, transfer_creator_role, set_event_creator,
  creator_role_id, transfer_event_creator, TransferCaller, lock_creator_for_update,
}
use ymatch.Rbac.Ownership.{OwnersAgree, transfer_event_creator-OwnersAgree}

abbrev banned_until_40 : UserRow
banned_until_40 = record { id = 3; username = "u"; is_banned = true; banned_until = some 40 }

-- User 1 created event 5 and holds its creator's role; user 2 is a moderator.
abbrev pub auth : Authority
auth = record {
  users = user 1 ∷ user 2 ∷ banned_until_40 ∷ [];
  roles =
      record { id = 1; scope_type = ScopeType.global; name = "admin" }
      ∷ record { id = 2; scope_type = ScopeType.global; name = "moderator" }
      ∷ record { id = 4; scope_type = ScopeType.event; name = "creator" }
      ∷ [];
  role_permissions =
      record { role_id = 2; name = "event.edit.any" }
      ∷ record { role_id = 4; name = "event.edit" }
      ∷ [];
  user_roles =
      record { user_id = 2; role_id = 2; scope_type = ScopeType.global; scope_id = none }
      ∷ record { user_id = 1; role_id = 4; scope_type = ScopeType.event; scope_id = some 5 }
      ∷ [];
  events = record { id = 5; name = "e"; creator_id = some 1; status = "published" } ∷ [];
  groups = [];
  now = 100;
  next_event_id = 6;
  next_group_id = 3;
}

abbrev catalog : PermissionCatalog
catalog = record {
  admin_role_id = 1;
  permissions_by_role = (2, "event.edit.any" ∷ []) ∷ (4, "event.edit" ∷ []) ∷ [];
}

abbrev verified : ℕ → VerifiedUser
verified n = record { id = n; is_banned = false }

check_lem_example : check (some catalog) auth (verified 2) (Scope.event 5) event_edit ≡ (
    if is_allowed 1 auth.role_permissions auth.user_roles 2 (Scope.event 5) event_edit
    then ok tt
    else err (missing event_edit))
unfolding load fetch collect_permissions insert_name
check_lem_example = check_lem auth auth catalog (verified 2) (Scope.event 5) event_edit refl

allowed : is_allowed 1 auth.role_permissions auth.user_roles 2 (Scope.event 5) event_edit ≡ true
unfolding is_allowed exists_row satisfying_names
allowed = refl

require_owner_or_lem_example :
    require_owner_or (some catalog) auth (verified 3) (some 1) event_edit (Scope.event 5 ∷ []) ≡ (
      if is_at (some 1) 3
        || exists_row (passes (some catalog) auth (verified 3) event_edit) (Scope.event 5 ∷ [])
      then ok tt
      else err (missing event_edit))
require_owner_or_lem_example =
    require_owner_or_lem catalog auth (verified 3) (some 1) event_edit (Scope.event 5 ∷ [])

verify_active_lem_example :
    ((fetch (λ (u : UserRow). u.id == 3) auth.users ≡ none)
      × (verify_active 3 auth ≡ err (not_found "User not found")))
    ⊎ ((row : UserRow) × (fetch (λ (u : UserRow). u.id == 3) auth.users ≡ some row)
        × (verify_active 3 auth ≡ (
            if row.is_banned && still_banned auth.now row.banned_until
            then err (forbidden "User is banned")
            else ok (record { id = row.id; is_banned = false }))))
verify_active_lem_example = verify_active_lem 3 auth

abbrev moved : Authority
moved = record auth {
  user_roles =
      record { user_id = 2; role_id = 2; scope_type = ScopeType.global; scope_id = none }
      ∷ record { user_id = 2; role_id = 4; scope_type = ScopeType.event; scope_id = some 5 }
      ∷ [];
  events = record { id = 5; name = "e"; creator_id = some 2; status = "published" } ∷ [];
}

transfer_run : transfer_event_creator 5 2 (TransferCaller.self_service 1) auth ≡ ok moved
unfolding transfer_event_creator lock_creator_for_update fetch set_event_creator exists_row update
    transfer_creator_role revoke_creator assign_creator creator_role_id delete assign_role
transfer_run = refl

only_creator :
    (u : ℕ)
    → ((((2 == u && false) && false) && false) || ((((1 == u && true) && true) && true) || false))
      ≡ (1 == u)
only_creator u = ground arith

pub auth-OwnersAgree : OwnersAgree 4 auth
unfolding lock_creator_for_update fetch exists_row
auth-OwnersAgree = (
  (λ e. absurd (omega arith), (λ _. refl, tt)),
  λ e owner found u. elim (Bool-cases (5 == e)) [
    | inl hit ↦
        let to : some (some 1) ≡ some owner = rw hit at found in
        let creator : owner ≡ some 1 = cc in rw creator (rw hit (only_creator u))
    | inr miss ↦ absurd (let gone : none ≡ some owner = rw miss at found in cc)
  ],
)

transfer_event_creator-OwnersAgree_example :
    (lock_creator_for_update 5 moved ≡ some (some 2)) × OwnersAgree 4 moved
unfolding creator_role_id fetch
transfer_event_creator-OwnersAgree_example =
    transfer_event_creator-OwnersAgree 5 2 4 (TransferCaller.self_service 1) auth moved refl
      auth-OwnersAgree transfer_run
