-- ===== src/Rbac/Ownership.antt =====
-- Ownership and the creator's role move together.
use ymatch.Common.Rows.{fetch-update_self, fetch-update_other}
use ymatch.Common.{
  ==_self, ==_iff, ℕ, String, ◌≡◌, refl, sym, ap, ◌∙◌, ◌⊎◌, inl, inr, Bool, true, false, not, ◌&&◌,
  ◌||◌, Option, none, some, arith, ◌==◌, if◌then◌else◌, Bool-cases, Option-cases, fetch, exists_row,
  update, All,
}
use ymatch.Rbac.{Authority, ScopeType}
use ymatch.Rbac.Transfer.{
  creator_of, or_error, known_user, transfer_event_creator, transfer_creator_role, creator_role_id,
  has_event_id, TransferCaller, lock_creator_for_update, set_event_creator, may_transfer,
  assign_role,
}
use ymatch.Rbac.Holders.{
  holds, HasType, OnlyOwner, left_rows, transferred-eq, assigned-holds, assigned_frame,
  left_rows-holds, left_rows-typed,
}
use ymatch.Rbac.Service.{is_at}
use ymatch.Error.{err, AppError, ok, Result, >>=-eq_ok}

-- The owner that a lookup of the event finds, and the holders of its creator's role, agree.
abbrev pub OwnersAgree : ℕ → Authority → Type 0
OwnersAgree role_id auth =
    All (HasType ScopeType.event role_id) auth.user_roles
    × ((event_id : ℕ) (owner : Option ℕ)
        → lock_creator_for_update event_id auth ≡ some owner
        → OnlyOwner ScopeType.event role_id event_id owner auth.user_roles)

abbrev pub with_creator : ℕ → ℕ → Authority → Authority
with_creator event_id new auth = record auth {
  events = update (has_event_id event_id) (λ row. record row { creator_id = some new }) auth.events;
}

may_transfer-ok :
    (caller : TransferCaller) (previous : Option ℕ) (new : ℕ) (s t : String)
    → may_transfer caller previous new s t ≡ ok tt
    → is_at previous new ≡ false
may_transfer-ok TransferCaller.admin previous new s t h = ground arith
may_transfer-ok (TransferCaller.self_service e) previous new s t h = ground arith

set_event_creator-ok :
    (event_id new : ℕ) (auth : Authority) {found : Bool × Authority}
    → set_event_creator event_id new auth ≡ ok found
    → (found ≡ (false, auth)) ⊎ (found ≡ (true, with_creator event_id new auth))
unfolding set_event_creator
set_event_creator-ok event_id new auth h =
    elim (Bool-cases (exists_row (has_event_id event_id) auth.events)) [
      | inl there ↦ elim (Bool-cases (known_user new auth)) [
        | inl known ↦ inr (ground (arith, there, known))
        | inr unknown ↦ absurd (ground (arith, there, unknown))
      ]
      | inr missing_row ↦ inl (ground (arith, missing_row))
    ]

or_error-ok : {A : Type 0} (o : Option A) (e : AppError) {a : A} → or_error o e ≡ ok a → o ≡ some a
or_error-ok none e h = cc
or_error-ok (some b) e h = cc

updated-ok :
    (f : Authority → Result Authority) (e : AppError) (found : Bool × Authority) (a b : Authority)
    {auth' : Authority}
    → (found ≡ (false, a)) ⊎ (found ≡ (true, b))
    → (if found.0 then f found.1 else err e) ≡ ok auth'
    → f b ≡ ok auth'
updated-ok f e found a b (inl none_set) h = absurd (let g = rw none_set at h in cc)
updated-ok f e found a b (inr set) h = rw set at h

-- What a transfer that succeeds did: the previous creator was not the new one, and the role moved.
pub transfer-eq_ok :
    (event_id new : ℕ) (caller : TransferCaller) (auth auth' : Authority)
    → transfer_event_creator event_id new caller auth ≡ ok auth'
    → (previous : Option ℕ) × (lock_creator_for_update event_id auth ≡ some previous)
      × (is_at previous new ≡ false)
      × (transfer_creator_role ScopeType.event event_id previous new
            (with_creator event_id new auth)
          ≡ ok auth')
unfolding transfer_event_creator
transfer-eq_ok event_id new caller auth auth' h =
    let not_owner : String = "Only the event creator can transfer ownership" in
    let already : String = "User is already the event creator" in
    let (previous, e1, h1) =
      >>=-eq_ok
        (or_error (lock_creator_for_update event_id auth) (AppError.not_found "Event not found")) _
        h in
    let (u, e2, h2) = >>=-eq_ok (may_transfer caller previous new not_owner already) _ h1 in
    let (found, e3, h3) = >>=-eq_ok (set_event_creator event_id new auth) _ h2 in
    (
      previous,
      or_error-ok _ _ e1,
      may_transfer-ok caller previous new not_owner already e2,
      updated-ok (transfer_creator_role ScopeType.event event_id previous new)
          (AppError.not_found "Event not found") found auth (with_creator event_id new auth)
          (set_event_creator-ok event_id new auth e3) h3,
    )

pub lock-with_creator :
    (event_id new e : ℕ) (auth : Authority) {previous : Option ℕ}
    → lock_creator_for_update event_id auth ≡ some previous
    → ((e ≡ event_id)
        × (lock_creator_for_update e (with_creator event_id new auth) ≡ some (some new)))
      ⊎ (((event_id == e) ≡ false)
          × (lock_creator_for_update e (with_creator event_id new auth)
              ≡ lock_creator_for_update e auth))
unfolding lock_creator_for_update
lock-with_creator event_id new e auth h = elim (Bool-cases (event_id == e)) [
  | inl same ↦
      let at : event_id ≡ e = (==_iff event_id e).0 same in
      inl (
        sym at,
        rw (← at) (elim (Option-cases (fetch (has_event_id event_id) auth.events)) [
          | inl gone ↦ absurd (ground (arith, gone))
          | inr (row, there) ↦
              rw
                (
                  fetch-update_self (has_event_id event_id)
                      (λ r. record r { creator_id = some new }) auth.events (λ _. refl),
                  there,
                )
                refl
        ]),
      )
  | inr other ↦ inr (
    other,
    ap creator_of (
        fetch-update_other (has_event_id event_id) (has_event_id e)
          (λ row. record row { creator_id = some new }) auth.events
          (λ r hit. (ground arith, ground arith))),
  )
]

pub lock-frame :
    (e : ℕ) (auth base : Authority)
    → auth.events ≡ base.events
    → lock_creator_for_update e auth ≡ lock_creator_for_update e base
unfolding lock_creator_for_update
lock-frame e auth base same = rw same refl

moved_here : (a p : Bool) → ((a && true) || (not (p && true) && p)) ≡ a
moved_here a p = ground arith

pub kept_there : (a p h : Bool) → ((a && false) || (not (p && false) && h)) ≡ h
kept_there a p h = ground arith

-- The state between the revocation and the assignment of a transfer.
abbrev pub revoked_base : ℕ → ℕ → ℕ → Option ℕ → Authority → Authority
revoked_base event_id new role_id previous auth = record (with_creator event_id new auth) {
  user_roles = left_rows ScopeType.event role_id event_id previous auth.user_roles;
}

-- A transfer that succeeds assigns the role in that state.
pub transfer-assigned :
    (event_id new role_id : ℕ) (caller : TransferCaller) (auth auth' : Authority)
    → creator_role_id ScopeType.event auth ≡ ok role_id
    → transfer_event_creator event_id new caller auth ≡ ok auth'
    → (previous : Option ℕ) × (lock_creator_for_update event_id auth ≡ some previous)
      × (assign_role ScopeType.event new role_id event_id
            (revoked_base event_id new role_id previous auth)
          ≡ ok auth')
unfolding creator_role_id
transfer-assigned event_id new role_id caller auth auth' role h =
    let (previous, locked, changed, moved) = transfer-eq_ok event_id new caller auth auth' h in
    (
      previous,
      locked,
      sym (
            transferred-eq ScopeType.event role_id event_id previous new
              (with_creator event_id new auth) role changed)
          ∙ moved,
    )

-- Who holds the role after it.
pub transferred-holds :
    (event_id new role_id e u : ℕ) (previous : Option ℕ) (auth auth' : Authority)
    → All (HasType ScopeType.event role_id) auth.user_roles
    → assign_role ScopeType.event new role_id event_id
        (revoked_base event_id new role_id previous auth)
      ≡ ok auth'
    → holds ScopeType.event role_id e u auth'.user_roles ≡ (
        (new == u && event_id == e)
        || (not (is_at previous u && event_id == e)
            && holds ScopeType.event role_id e u auth.user_roles))
transferred-holds event_id new role_id e u previous auth auth' typed assigned =
    assigned-holds ScopeType.event role_id event_id new e u
      (revoked_base event_id new role_id previous auth) auth'
      (left_rows-typed ScopeType.event role_id event_id previous auth.user_roles typed) assigned
    ∙ rw (left_rows-holds ScopeType.event role_id event_id previous e u auth.user_roles) refl

-- When every event's creator is the only holder of that event's creator role, and rows of that role have
-- the scope type of events, a transfer that succeeds makes the new user the event's creator and
-- the only holder of its role, and keeps all that for every event.
pub transfer_event_creator-OwnersAgree :
    (event_id new role_id : ℕ) (caller : TransferCaller) (auth auth' : Authority)
    → creator_role_id ScopeType.event auth ≡ ok role_id
    → OwnersAgree role_id auth
    → transfer_event_creator event_id new caller auth ≡ ok auth'
    → (lock_creator_for_update event_id auth' ≡ some (some new)) × OwnersAgree role_id auth'
transfer_event_creator-OwnersAgree event_id new role_id caller auth auth' role (typed, agree) h =
    let (previous, locked, assigned) =
      transfer-assigned event_id new role_id caller auth auth' role h in
    let base = revoked_base event_id new role_id previous auth in
    let (events, _, typed') =
      assigned_frame ScopeType.event role_id event_id new base auth'
        (left_rows-typed ScopeType.event role_id event_id previous auth.user_roles typed)
        assigned in
    let now_holds =
      λ (e u : ℕ). transferred-holds event_id new role_id e u previous auth auth' typed assigned in
    let now_locked = λ (e : ℕ). lock-frame e auth' (with_creator event_id new auth) events in
    (
      now_locked event_id ∙ elim (lock-with_creator event_id new event_id auth locked) [
        | inl (_, at) ↦ at
        | inr (other, _) ↦ absurd (let no = rw (==_self event_id) at other in cc)
      ],
      (
        typed',
        λ e owner found u. elim (lock-with_creator event_id new e auth locked) [
          | inl (same, at) ↦
              let to : some owner ≡ some (some new) = sym found ∙ now_locked e ∙ at in
              let owner_new : owner ≡ some new = cc in
              rw owner_new (
                now_holds e u
                ∙ rw (same, ==_self event_id, agree event_id previous locked u)
                    (moved_here (new == u) (is_at previous u)))
          | inr (other, at) ↦
              now_holds e u
              ∙ rw other (kept_there _ _ _)
              ∙ agree e owner (sym at ∙ sym (now_locked e) ∙ found) u
        ],
      ),
    )
