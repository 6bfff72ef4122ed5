-- ===== src/Api/Owners/Transfers.antt =====
-- Owners and the creator's role when an event is created and when it is handed over.
use ymatch.Common.{ℕ, ◌≡◌, refl, ◌∙◌, inl, inr}
use ymatch.Error.{ok}
use ymatch.Rbac.{Authority, ScopeType}
use ymatch.Rbac.Transfer.{assign_role, transfer_event_creator, TransferCaller}
use ymatch.Rbac.Holders.{assigned-cases, assigned_frame, left_rows-typed}
use ymatch.Rbac.Ownership.{
  transfer_event_creator-OwnersAgree, transfer-assigned, transferred-holds, revoked_base,
  lock-with_creator, lock-frame, kept_there, with_creator,
}
use ymatch.Api.Owners.{Governed, creator_role_id-frame}

pub assigned-next :
    (role_id scope_id new : ℕ) (auth auth' : Authority)
    → assign_role ScopeType.event new role_id scope_id auth ≡ ok auth'
    → auth'.next_event_id ≡ auth.next_event_id
assigned-next role_id scope_id new auth auth' h =
    elim (assigned-cases ScopeType.event role_id scope_id new auth auth' h) [
      | inl (_, same) ↦ rw (← same) refl
      | inr added ↦ rw (← added) refl
    ]

pub transferred-Governed :
    (event_id new role_id : ℕ) (caller : TransferCaller) (auth auth' : Authority)
    → Governed role_id auth
    → transfer_event_creator event_id new caller auth ≡ ok auth'
    → Governed role_id auth'
transferred-Governed event_id new role_id caller auth auth' g h =
    let (previous, locked, assigned) =
      transfer-assigned event_id new role_id caller auth auth' g.role h in
    let base = revoked_base event_id new role_id previous auth in
    let (events, roles, _) =
      assigned_frame ScopeType.event role_id event_id new base auth'
        (left_rows-typed ScopeType.event role_id event_id previous auth.user_roles g.agree.0)
        assigned in
    record {
      role = creator_role_id-frame auth' auth roles ∙ g.role;
      only = rw roles g.only;
      agree =
          (transfer_event_creator-OwnersAgree event_id new role_id caller auth auth' g.role g.agree
            h).1;
      fresh = λ n above.
          let (gone, unheld) =
            g.fresh n (rw (← assigned-next role_id event_id new base auth' assigned) above) in
          elim (lock-with_creator event_id new n auth locked) [
            | inl (same, _) ↦ absurd (let there = rw (← same) at locked in cc)
            | inr (other, at) ↦ (
              lock-frame n auth' (with_creator event_id new auth) events ∙ at ∙ gone,
              λ u.
                  transferred-holds event_id new role_id n u previous auth auth' g.agree.0 assigned
                  ∙ rw other (kept_there _ _ _)
                  ∙ unheld u,
            )
          ];
    }
