-- ===== src/Api/Owners/Served.antt =====
-- Owners and the creator's role through every request that a client can send.
use ymatch.Api.{
  require_global, require_active_target_user, get_creator, require_active_query_user, found_or,
  require_event_member_manage,
}
use ymatch.Rbac.Service.{require_not_banned, verify, check, verify_active}
use ymatch.Common.{
  ℕ, String, ◌≡◌, refl, ap, ◌⊎◌, inl, inr, Bool, true, false, Option, none, some, List, [], ◌∷◌,
  Bool-cases, exists_row,
}
use ymatch.Error.{ok_inj, Result, ok, err, ◌>>=◌, >>=-eq_ok}
use ymatch.Rbac.{Authority, EventRow}
use ymatch.Rbac.Permission.{
  Scope, event_create, event_delete, user_ban, user_unban, user_role_manage, event_creator_transfer,
}
use ymatch.Api.{require_global}
use ymatch.Rbac.Catalog.{PermissionCatalog}
use ymatch.Rbac.Members.Editing.{committed}
use ymatch.Rbac.Users.{get_by_id, set_ban, has_user_id, set_role}
use ymatch.Api.Requests.{
  Request, creates, renames, publishes, assigns, revokes, hands_over, bans, unbans, sets_role,
  deletes, transfers, admin_assigns, admin_revokes, serve, tables_of,
}
use ymatch.Api.Admin.{
  require_event_admin, not_already, unreferenced, valid_role, parsed_until, or_no_target, ban_user,
  unban_user, update_user_role, delete_event, admin_transfer_event_creator,
  admin_assign_event_member, admin_revoke_event_member,
}
use ymatch.Api.Events.{
  may_hand_over, required_name, require_event_edit, create_event, update_event, publish_event,
  assign_event_member, revoke_event_member, self_transfer_event_creator,
}
use ymatch.Rbac.Members.{assign_event_editor, revoke_event_editor}
use ymatch.Api.Owners.{Governed, Unmoved-Governed, elsewhere-Unmoved}
use ymatch.Api.Owners.Events.{changed-Unmoved, deleted-Unmoved}
use ymatch.Api.Owners.Roles.{assign_editor-Unmoved, revoke_editor-Unmoved, set_role-Unmoved}
use ymatch.Api.Owners.Transfers.{transferred-Governed}
use ymatch.Api.Owners.Created.{created-Governed}

-- What runs behind a gate that was passed.
past_gate {κ μ} :
    {T : Type κ} {U : Type μ} (gate : Result T) (next : T → Result U) {last : U}
    → (gate >>= next) ≡ ok last
    → (value : T) × (next value ≡ ok last)
past_gate gate next h = let (value, _, rest) = >>=-eq_ok gate next h in (value, rest)

landed :
    (role_id : ℕ) {auth auth' : Authority}
    → ok auth ≡ ok auth'
    → Governed role_id auth
    → Governed role_id auth'
landed role_id {auth} {auth'} e g = let same : auth ≡ auth' = ok_inj e in rw (← same) g

tables_of-ok :
    (result : Result (EventRow × Authority)) {auth' : Authority}
    → tables_of result ≡ ok auth'
    → (event : EventRow) × (result ≡ ok (event, auth'))
tables_of-ok (ok (event, auth)) h = (event, ap (λ a. ok (event, a)) (ok_inj h))
tables_of-ok (err e) h = absurd cc

or_no_target-ok :
    (found : Option (Unit {0}) × Authority) {auth' : Authority}
    → or_no_target found ≡ ok auth'
    → found.1 ≡ auth'
or_no_target-ok (some _, auth) h = ok_inj h
or_no_target-ok (none, auth) h = absurd cc

set_ban-Governed :
    (role_id target : ℕ) (banned : Bool) (until : Option ℕ) (auth : Authority) {auth' : Authority}
    → Governed role_id auth
    → or_no_target (set_ban target banned until auth) ≡ ok auth'
    → Governed role_id auth'
unfolding set_ban
set_ban-Governed role_id target banned until auth {auth'} g h =
    let same = or_no_target-ok (set_ban target banned until auth) h in
    rw (← same) (
      Unmoved-Governed role_id auth _ g
        (elim (Bool-cases (exists_row (has_user_id target) auth.users)) [
          | inl there ↦ rw there (elsewhere-Unmoved role_id auth _ g refl refl refl refl)
          | inr gone ↦ rw gone (elsewhere-Unmoved role_id auth auth g refl refl refl refl)
        ]))

set_role-Governed :
    (role_id target : ℕ) (role : String) (auth : Authority) {auth' : Authority}
    → Governed role_id auth
    → (set_role target role auth >>= or_no_target) ≡ ok auth'
    → Governed role_id auth'
set_role-Governed role_id target role auth {auth'} g h =
    let (changed, e, rest) = >>=-eq_ok (set_role target role auth) or_no_target h in
    let same : changed.1 ≡ auth' = or_no_target-ok changed rest in
    rw (← same) (
      Unmoved-Governed role_id auth changed.1 g
        (set_role-Unmoved role_id target role auth changed.1 g e))

module _ (cell : Option PermissionCatalog) (parse : String → String ⊎ ℕ) where
  serve-Governed :
      (role_id caller : ℕ) (request : Request) (auth auth' : Authority)
      → Governed role_id auth
      → serve cell parse caller request auth ≡ ok auth'
      → Governed role_id auth'
  unfolding serve create_event update_event publish_event assign_event_member revoke_event_member
      self_transfer_event_creator ban_user unban_user update_user_role delete_event
      admin_transfer_event_creator admin_assign_event_member admin_revoke_event_member
      assign_event_editor revoke_event_editor
  serve-Governed role_id caller (creates name status) auth auth' g h =
      let (event, h1) = tables_of-ok (create_event cell name caller status auth) h in
      let (user, h2) = past_gate (verify_active caller auth) _ h1 in
      let (_, h3) = past_gate (check cell auth user Scope.global event_create) _ h2 in
      created-Governed name caller role_id status auth g h3
  serve-Governed role_id caller (renames event_id name) auth auth' g h =
      let (_, h1) = past_gate (require_event_edit cell caller event_id auth) _ h in
      let (new_name, h2) = past_gate (required_name name) _ h1 in
      landed role_id h2 (
        Unmoved-Governed role_id auth _ g (
          changed-Unmoved role_id event_id (λ e. record e { name = new_name }) auth g (λ r. refl)
            (λ r. refl)))
  serve-Governed role_id caller (publishes event_id) auth auth' g h =
      let (_, h1) = past_gate (require_event_edit cell caller event_id auth) _ h in
      landed role_id h1 (
        Unmoved-Governed role_id auth _ g (
          changed-Unmoved role_id event_id (λ e. record e { status = "published" }) auth g
            (λ r. refl) (λ r. refl)))
  serve-Governed role_id caller (assigns event_id target) auth auth' g h =
      let (user, h1) =
        past_gate (require_event_member_manage cell (some caller) event_id auth) _ h in
      let (_, h2) = past_gate (found_or (get_by_id target auth) "Target user not found") _ h1 in
      Unmoved-Governed role_id auth auth' g
        (assign_editor-Unmoved role_id target event_id auth auth' g h2)
  serve-Governed role_id caller (revokes event_id target) auth auth' g h =
      let (user, h1) =
        past_gate (require_event_member_manage cell (some caller) event_id auth) _ h in
      Unmoved-Governed role_id auth auth' g
        (revoke_editor-Unmoved role_id target event_id auth auth' g h1)
  serve-Governed role_id caller (hands_over event_id new) auth auth' g h =
      let (user, h1) = past_gate (require_active_query_user (some caller) auth) _ h in
      let (previous, h2) =
        past_gate (found_or (get_creator event_id auth) "Event not found") _ h1 in
      let (_, h3) =
        past_gate
          (may_hand_over previous user.id new "Only the event creator can transfer ownership"
            "User is already the event creator")
          _ h2 in
      let (_, h4) = past_gate (require_active_target_user new auth) _ h3 in
      transferred-Governed event_id new role_id _ auth auth' g h4
  serve-Governed role_id caller (bans target until_text) auth auth' g h =
      let (user, h1) = past_gate (require_global cell (some caller) user_ban auth) _ h in
      let (until, h2) = past_gate (parsed_until parse until_text) _ h1 in
      set_ban-Governed role_id target true until auth g h2
  serve-Governed role_id caller (unbans target) auth auth' g h =
      let (user, h1) = past_gate (require_global cell (some caller) user_unban auth) _ h in
      set_ban-Governed role_id target false none auth g h1
  serve-Governed role_id caller (sets_role target role) auth auth' g h =
      let (user, h1) = past_gate (require_global cell (some caller) user_role_manage auth) _ h in
      let (_, h2) = past_gate (valid_role role) _ h1 in
      set_role-Governed role_id target role auth g h2
  serve-Governed role_id caller (deletes has_merch event_id) auth auth' g h =
      let (user, h1) = past_gate (verify caller auth) _ h in
      let (_, h2) = past_gate (require_not_banned user) _ h1 in
      let (creator, h3) = past_gate (found_or (get_creator event_id auth) "Event not found") _ h2 in
      let (_, h4) = past_gate (check cell auth user (Scope.event event_id) event_delete) _ h3 in
      let (_, h5) = past_gate (unreferenced has_merch) _ h4 in
      landed role_id h5
        (Unmoved-Governed role_id auth _ g (deleted-Unmoved role_id event_id _ auth g))
  serve-Governed role_id caller (transfers event_id new) auth auth' g h =
      let (user, h1) =
        past_gate (require_global cell (some caller) event_creator_transfer auth) _ h in
      let (previous, h2) =
        past_gate (found_or (get_creator event_id auth) "Event not found") _ h1 in
      let (_, h3) = past_gate (not_already previous new "User is already the event creator") _ h2 in
      let (_, h4) = past_gate (require_active_target_user new auth) _ h3 in
      transferred-Governed event_id new role_id _ auth auth' g h4
  serve-Governed role_id caller (admin_assigns event_id target) auth auth' g h =
      let (_, h1) = past_gate (require_event_admin cell event_id (some caller) auth) _ h in
      let (_, h2) = past_gate (found_or (get_by_id target auth) "Target user not found") _ h1 in
      Unmoved-Governed role_id auth auth' g
        (assign_editor-Unmoved role_id target event_id auth auth' g h2)
  serve-Governed role_id caller (admin_revokes event_id target) auth auth' g h =
      let (_, h1) = past_gate (require_event_admin cell event_id (some caller) auth) _ h in
      Unmoved-Governed role_id auth auth' g
        (revoke_editor-Unmoved role_id target event_id auth auth' g h1)

-- A request, with the catalog that the service has loaded by then.
pub record Call : Type 0 where
  pub cell : Option PermissionCatalog
  pub caller : ℕ
  pub request : Request

-- Requests one after the other, of any callers; one that fails leaves the tables as they were.
unfoldable pub serve_all : (String → String ⊎ ℕ) → List Call → Authority → Authority
serve_all parse [] auth = auth
serve_all parse (c ∷ calls) auth =
    serve_all parse calls (committed auth (serve c.cell parse c.caller c.request auth))

committed-Governed :
    (role_id : ℕ) (auth : Authority) (result : Result Authority)
    → Governed role_id auth
    → ((auth' : Authority) → result ≡ ok auth' → Governed role_id auth')
    → Governed role_id (committed auth result)
committed-Governed role_id auth (ok auth') g next = next auth' refl
committed-Governed role_id auth (err e) g next = g

-- When every event's creator is the only holder of that event's creator role, rows of that role have the scope
-- type of events, no other role has its id, and neither an event nor such a role has an id that
-- the sequence has yet to give, then all that is so after any sequence of requests, by any callers,
-- that create, rename, publish, delete and hand over events, assign and revoke editors, ban users and
-- set global roles.
pub serve_all-Governed :
    (parse : String → String ⊎ ℕ) (role_id : ℕ) (calls : List Call) (auth : Authority)
    → Governed role_id auth
    → Governed role_id (serve_all parse calls auth)
unfolding serve_all
serve_all-Governed parse role_id [] auth g = g
serve_all-Governed parse role_id (c ∷ calls) auth g = serve_all-Governed parse role_id calls _ (
    committed-Governed role_id auth (serve c.cell parse c.caller c.request auth) g
      (λ auth' done. serve-Governed c.cell parse role_id c.caller c.request auth auth' g done))
