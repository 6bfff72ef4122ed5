-- ===== src/Api/Owners.antt =====
-- Owners of events and the creator's role, through every request.
pub mod Events
pub mod Roles
pub mod Transfers
pub mod Created
pub mod Served
use ymatch.Common.{ℕ, ◌≤◌, ◌≡◌, refl, ◌∙◌, true, false, Option, none, some, All}
use ymatch.Error.{ok}
use ymatch.Rbac.{Authority, ScopeType, RoleRow}
use ymatch.Rbac.Transfer.{creator_role_id, is_creator_role, lock_creator_for_update}
use ymatch.Rbac.Holders.{holds, HasType}
use ymatch.Rbac.Ownership.{OwnersAgree}

-- No role but the event creator's has the id.
abbrev pub OwnRole : ℕ → RoleRow → Type 0
OwnRole role_id r = r.id ≡ role_id → is_creator_role ScopeType.event r ≡ true

-- No event and no creator's role have an id that the sequence has yet to give.
abbrev pub Unused : ℕ → Authority → ℕ → Type 0
Unused role_id auth n =
    (lock_creator_for_update n auth ≡ none)
    × ((u : ℕ) → holds ScopeType.event role_id n u auth.user_roles ≡ false)

pub record Governed (role_id : ℕ) (auth : Authority) : Type 0 where
  pub role : creator_role_id ScopeType.event auth ≡ ok role_id
  pub only : All (OwnRole role_id) auth.roles
  pub agree : OwnersAgree role_id auth
  pub fresh : (n : ℕ) → auth.next_event_id ≤ n → Unused role_id auth n

-- A change that gives no event another creator, though it may remove events, and that leaves who holds the
-- creator's role.
pub record Unmoved (role_id : ℕ) (auth auth' : Authority) : Type 0 where
  pub same_roles : auth'.roles ≡ auth.roles
  pub same_next : auth'.next_event_id ≡ auth.next_event_id
  pub typed : All (HasType ScopeType.event role_id) auth'.user_roles
  pub owners :
      (e : ℕ) (owner : Option ℕ)
      → lock_creator_for_update e auth' ≡ some owner
      → lock_creator_for_update e auth ≡ some owner
  pub holders :
      (e u : ℕ)
      → holds ScopeType.event role_id e u auth'.user_roles
        ≡ holds ScopeType.event role_id e u auth.user_roles

pub creator_role_id-frame :
    (a b : Authority)
    → a.roles ≡ b.roles
    → creator_role_id ScopeType.event a ≡ creator_role_id ScopeType.event b
unfolding creator_role_id
creator_role_id-frame a b e = rw e refl

still_none :
    (before after : Option (Option ℕ))
    → before ≡ none
    → ((owner : Option ℕ) → after ≡ some owner → before ≡ some owner)
    → after ≡ none
still_none before none gone back = refl
still_none before (some owner) gone back = absurd (let there = back owner refl in cc)

pub Unmoved-Governed :
    (role_id : ℕ) (auth auth' : Authority)
    → Governed role_id auth
    → Unmoved role_id auth auth'
    → Governed role_id auth'
Unmoved-Governed role_id auth auth' g m = record {
  role = creator_role_id-frame auth' auth m.same_roles ∙ g.role;
  only = rw m.same_roles g.only;
  agree =
      (m.typed, λ e owner found u. m.holders e u ∙ g.agree.1 e owner (m.owners e owner found) u);
  fresh = λ n above.
      let (gone, unheld) = g.fresh n (rw (← m.same_next) above) in
      (
        still_none (lock_creator_for_update n auth) (lock_creator_for_update n auth') gone
            (m.owners n),
        λ u. m.holders n u ∙ unheld u,
      );
}

-- A change of other tables.
pub elsewhere-Unmoved :
    (role_id : ℕ) (auth auth' : Authority)
    → Governed role_id auth
    → auth'.roles ≡ auth.roles
    → auth'.next_event_id ≡ auth.next_event_id
    → auth'.user_roles ≡ auth.user_roles
    → auth'.events ≡ auth.events
    → Unmoved role_id auth auth'
unfolding lock_creator_for_update
elsewhere-Unmoved role_id auth auth' g roles next rows events = record {
  same_roles = roles;
  same_next = next;
  typed = rw rows g.agree.0;
  owners = λ e owner found. rw (← events) found;
  holders = λ e u. rw rows refl;
}
