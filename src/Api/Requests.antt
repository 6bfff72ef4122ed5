-- ===== src/Api/Requests.antt =====
-- The requests that change who may do what on events, as data, and what serves each.
use ymatch.Common.{◌∙◌, none, ℕ, String, ◌≡◌, refl, ◌⊎◌, Bool, Option, some}
use ymatch.Error.{◌>>◌, Result, ok, err, AppError, ◌>>=◌}
use ymatch.Rbac.{Authority, EventRow}
use ymatch.Rbac.Catalog.{PermissionCatalog}
use ymatch.Rbac.Service.{require_not_banned, verify, VerifiedUser, verify_active}
use ymatch.Api.{
  get_creator, require_active_query_user, require_active_permission, require_global,
  require_event_member_manage,
}
use ymatch.Api.Events.{
  create_event, update_event, publish_event, require_event_edit, assign_event_member,
  revoke_event_member, self_transfer_event_creator,
}
use ymatch.Api.Admin.{
  ban_user, unban_user, update_user_role, delete_event, admin_transfer_event_creator,
  admin_assign_event_member, admin_revoke_event_member, require_event_admin,
}

pub data Request : Type 0 where
  creates : String → Option String → Request
  renames : ℕ → Option String → Request
  publishes : ℕ → Request
  assigns revokes : ℕ → ℕ → Request
  hands_over : ℕ → ℕ → Request
  bans : ℕ → Option String → Request
  unbans : ℕ → Request
  sets_role : ℕ → String → Request
  deletes : Bool → ℕ → Request
  transfers : ℕ → ℕ → Request
  admin_assigns admin_revokes : ℕ → ℕ → Request

abbrev pub tables_of : Result (EventRow × Authority) → Result Authority
tables_of (ok (event, auth)) = ok auth
tables_of (err e) = err e

-- The event whose gate a request meets right after the caller's.
unfoldable pub gated_event : Request → Option ℕ
gated_event (renames event_id name) = some event_id
gated_event (publishes event_id) = some event_id
gated_event (assigns event_id target) = some event_id
gated_event (revokes event_id target) = some event_id
gated_event (hands_over event_id new) = some event_id
gated_event (deletes has_merch event_id) = some event_id
gated_event request = none

-- The two checks of `verify_active` in a row, as `delete_event` writes them.
checks_in_turn {ℓ} :
    {A : Type ℓ} (caller : ℕ) (auth : Authority) (next : VerifiedUser → Result A)
    → (verify caller auth >>= λ user. require_not_banned user >> next user)
      ≡ (verify_active caller auth >>= next)
unfolding verify_active
checks_in_turn caller auth next = after (verify caller auth)
  where
    after :
        (found : Result VerifiedUser)
        → (found >>= λ user. require_not_banned user >> next user)
          ≡ ((found >>= λ user. require_not_banned user >> ok user) >>= next)
    after (err fault) = refl
    after (ok user) = gated (require_not_banned user)
      where
        gated : (gate : Result (Unit {0})) → (gate >> next user) ≡ ((gate >> ok user) >>= next)
        gated (err fault) = refl
        gated (ok passed) = refl

at_missing :
    (requested e : ℕ)
    → some requested ≡ some e
    → (auth : Authority) → get_creator e auth ≡ none
    → get_creator requested auth ≡ none
at_missing requested e at auth gone = let same : requested ≡ e = cc in rw same gone

-- By the caller's id, which every one of them sends.
module _ (cell : Option PermissionCatalog) (parse : String → String ⊎ ℕ) where
  unfoldable pub serve : ℕ → Request → Authority → Result Authority
  serve caller (creates name status) auth = tables_of (create_event cell name caller status auth)
  serve caller (renames event_id name) auth = update_event cell event_id caller name auth
  serve caller (publishes event_id) auth = publish_event cell event_id caller auth
  serve caller (assigns event_id target) auth =
      assign_event_member cell event_id target (some caller) auth
  serve caller (revokes event_id target) auth =
      revoke_event_member cell event_id target (some caller) auth
  serve caller (hands_over event_id new) auth =
      self_transfer_event_creator event_id (some caller) new auth
  serve caller (bans target until_text) auth =
      ban_user cell parse target (some caller) until_text auth
  serve caller (unbans target) auth = unban_user cell target (some caller) auth
  serve caller (sets_role target role) auth = update_user_role cell target (some caller) role auth
  serve caller (deletes has_merch event_id) auth =
      delete_event cell has_merch event_id (some caller) auth
  serve caller (transfers event_id new) auth =
      admin_transfer_event_creator cell event_id (some caller) new auth
  serve caller (admin_assigns event_id target) auth =
      admin_assign_event_member cell event_id target (some caller) auth
  serve caller (admin_revokes event_id target) auth =
      admin_revoke_event_member cell event_id target (some caller) auth

  -- A caller who does not exist, or is banned, gets that error from every one of the requests, before
  -- anything else about the request is looked at: 404 for an unknown id, 403 during a ban.
  pub serve-verify_active :
      (caller : ℕ) (request : Request) (auth : Authority) (e : AppError)
      → verify_active caller auth ≡ err e
      → serve caller request auth ≡ err e
  unfolding serve create_event update_event publish_event require_event_edit assign_event_member
      revoke_event_member self_transfer_event_creator ban_user unban_user update_user_role
      admin_transfer_event_creator admin_assign_event_member admin_revoke_event_member
      require_event_admin require_event_member_manage require_global require_active_permission
      require_active_query_user delete_event
  serve-verify_active caller (creates name status) auth e h = rw h refl
  serve-verify_active caller (renames event_id name) auth e h = rw h refl
  serve-verify_active caller (publishes event_id) auth e h = rw h refl
  serve-verify_active caller (assigns event_id target) auth e h = rw h refl
  serve-verify_active caller (revokes event_id target) auth e h = rw h refl
  serve-verify_active caller (hands_over event_id new) auth e h = rw h refl
  serve-verify_active caller (bans target until_text) auth e h = rw h refl
  serve-verify_active caller (unbans target) auth e h = rw h refl
  serve-verify_active caller (sets_role target role) auth e h = rw h refl
  serve-verify_active caller (deletes has_merch event_id) auth e h =
      checks_in_turn caller auth _ ∙ rw h refl
  serve-verify_active caller (transfers event_id new) auth e h = rw h refl
  serve-verify_active caller (admin_assigns event_id target) auth e h = rw h refl
  serve-verify_active caller (admin_revokes event_id target) auth e h = rw h refl

  -- A caller who is active gets 404 for an event that does not exist, from every request whose gate is the
  -- event's own, whatever permissions the caller has.
  pub serve-missing :
      (caller event_id : ℕ) (request : Request) (auth : Authority) (user : VerifiedUser)
      → verify_active caller auth ≡ ok user
      → gated_event request ≡ some event_id
      → get_creator event_id auth ≡ none
      → serve caller request auth ≡ err (AppError.not_found "Event not found")
  unfolding serve update_event publish_event require_event_edit assign_event_member
      revoke_event_member self_transfer_event_creator require_event_member_manage
      require_active_query_user delete_event gated_event
  serve-missing caller e (renames event_id name) auth user h at gone =
      rw (h, at_missing event_id e at auth gone) refl
  serve-missing caller e (publishes event_id) auth user h at gone =
      rw (h, at_missing event_id e at auth gone) refl
  serve-missing caller e (assigns event_id target) auth user h at gone =
      rw (h, at_missing event_id e at auth gone) refl
  serve-missing caller e (revokes event_id target) auth user h at gone =
      rw (h, at_missing event_id e at auth gone) refl
  serve-missing caller e (hands_over event_id new) auth user h at gone =
      rw (h, at_missing event_id e at auth gone) refl
  serve-missing caller e (deletes has_merch event_id) auth user h at gone =
      checks_in_turn caller auth _ ∙ rw (h, at_missing event_id e at auth gone) refl
  serve-missing caller e (creates name status) auth user h at gone = cc
  serve-missing caller e (bans target until_text) auth user h at gone = cc
  serve-missing caller e (unbans target) auth user h at gone = cc
  serve-missing caller e (sets_role target role) auth user h at gone = cc
  serve-missing caller e (transfers event_id new) auth user h at gone = cc
  serve-missing caller e (admin_assigns event_id target) auth user h at gone = cc
  serve-missing caller e (admin_revokes event_id target) auth user h at gone = cc
